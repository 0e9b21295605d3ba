-- ===== src/Gguf/Extends/Header.antt =====
-- internal/gguf/gguf.go: a header that is accepted, is accepted whatever follows, and with any fuel.
use flockd.Base.{
  ℕ, zero, suc, ◌≤◌, ◌==◌, [], ltb, ◌&&◌, ◌||◌, if◌then◌else◌, arith, Bool-cases, inl, inr,
}
use flockd.Gguf.Header.{
  Notes, note_int, note_list, want_list, value, entries, general_architecture, Meta, no_notes,
  meta_of, counted, versioned, body, magic,
}
use flockd.Gguf.{
  Bytes, Parser, pure, fail, ◌>>=◌, uint, str, same, t_string, unsupported_version,
  implausible_count, not_gguf, scalar, skip_array, max_array, t_array,
}
use flockd.Gguf.Extends.{
  Extends, >>=-Extends, Stable, >>=-Stable, pure-Stable, fail-Extends, if-Extends, guard-Extends,
  uint-Stable, str-Stable, scalar-Stable, skip_array-Extends,
}

module _ (f g : ℕ) (h : f ≤ g) where
  value-Extends :
      (key : Bytes) (typ : ℕ) (notes : Notes)
      → Extends (value f key typ notes) (value g key typ notes)
  unfolding value
  value-Extends key typ notes =
      let named : Parser Notes = str >>= λ arch. pure (record notes { arch = arch }) in
      let list : ℕ → Parser Notes =
        λ k. skip_array k (want_list key) >>= λ found. pure (note_list key found notes) in
      let number : Parser Notes = scalar typ >>= λ v. pure (note_int key v notes) in
      if-Extends (same key general_architecture && typ == t_string) named named
        (if typ == t_array then list f else number) (if typ == t_array then list g else number)
        (>>=-Stable str (λ arch. pure (record notes { arch = arch })) str-Stable
          (λ arch. pure-Stable (record notes { arch = arch })))
        (if-Extends (typ == t_array) (list f) (list g) number number
          (>>=-Extends (skip_array f (want_list key)) (skip_array g (want_list key))
            (λ found. pure (note_list key found notes)) (λ found. pure (note_list key found notes))
            (skip_array-Extends f g (want_list key) h)
            (λ found. pure-Stable (note_list key found notes)))
          (>>=-Stable (scalar typ) (λ v. pure (note_int key v notes)) (scalar-Stable typ)
            (λ v. pure-Stable (note_int key v notes))))

  entries-Extends : (n : ℕ) (notes : Notes) → Extends (entries f n notes) (entries g n notes)
  unfolding entries
  entries-Extends zero notes = pure-Stable notes
  entries-Extends (suc n) notes =
      let typed : ℕ → Bytes → Parser Notes =
        λ k key. uint 4 >>= λ typ. value k key typ notes >>= λ after. entries k n after in
      let valued : ℕ → Bytes → ℕ → Parser Notes =
        λ k key typ. value k key typ notes >>= λ after. entries k n after in
      >>=-Extends str str (typed f) (typed g) str-Stable (λ key.
        >>=-Extends (uint 4) (uint 4) (valued f key) (valued g key) (uint-Stable 4) (λ typ.
          >>=-Extends (value f key typ notes) (value g key typ notes) (λ after. entries f n after)
            (λ after. entries g n after) (value-Extends key typ notes) (entries-Extends n)))

  meta_of-Stable : (notes : Notes) → Stable (meta_of notes)
  unfolding meta_of
  meta_of-Stable notes a bs rest more e = elim (Bool-cases (same notes.arch [])) [
    | inl q ↦ ground (arith, rw q at e)
    | inr q ↦ rw q (ground (arith, rw q at e))
  ]

  counted-Extends : (n : ℕ) → Extends (counted f n) (counted g n)
  unfolding counted
  counted-Extends n =
      guard-Extends (ltb max_array n) implausible_count (entries f n no_notes >>= meta_of)
        (entries g n no_notes >>= meta_of)
        (>>=-Extends (entries f n no_notes) (entries g n no_notes) meta_of meta_of
          (entries-Extends n no_notes) meta_of-Stable)

  versioned-Extends : (v : ℕ) → Extends (versioned f v) (versioned g v)
  unfolding versioned
  versioned-Extends v =
      let counts : ℕ → Parser Meta =
        λ k. uint 8 >>= λ tensors. uint 8 >>= λ count. counted k count in
      guard-Extends (ltb v 2 || ltb 3 v) unsupported_version (counts f) (counts g) (
        >>=-Extends (uint 8) (uint 8) (λ t. uint 8 >>= λ count. counted f count)
          (λ t. uint 8 >>= λ count. counted g count) (uint-Stable 8)
          (λ t.
            >>=-Extends (uint 8) (uint 8) (counted f) (counted g) (uint-Stable 8) counted-Extends))

  -- More fuel and more bytes change nothing of a header that is accepted.
  pub body-Extends : (hdr : Bytes) → Extends (body f hdr) (body g hdr)
  unfolding body
  body-Extends hdr =
      if-Extends (same hdr magic) (uint 4 >>= versioned f) (uint 4 >>= versioned g) (fail not_gguf)
        (fail not_gguf)
        (>>=-Extends (uint 4) (uint 4) (versioned f) (versioned g) (uint-Stable 4)
          versioned-Extends)
        (fail-Extends not_gguf (fail not_gguf))
