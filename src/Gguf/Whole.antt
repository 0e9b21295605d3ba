-- ===== src/Gguf/Whole.antt =====
-- internal/gguf/gguf.go: `Read` on a whole header, and on one that is cut.
use flockd.Base.{
  ℕ, suc, ◌≡◌, ◌≢◌, refl, ap, sym, ◌∙◌, true, false, ◌||◌, List, [], ◌∷◌, ◌++◌, none, length,
  length-append, ltb, arith, Bool-cases, inl, inr,
}
use flockd.Gguf.{
  Bytes, Error, Result, ok, failed, spent, Parser, ◌>>=◌, uint, same, read_full, max_array,
}
use flockd.Gguf.Header.{
  Notes, Table, Meta, entries, no_notes, meta_of, counted, versioned, body, read, magic, find,
  int_or_zero, want_int, want_list, block_count, head_count, head_count_kv, embedding_length,
  key_length, value_length, context_length,
}
use flockd.Gguf.Print.{put_uint}
use flockd.Gguf.Values.{>>=-ok, uint-put_uint, read_full-++}
use flockd.Gguf.Described.{
  Entry, put_entries, put_header, HeaderFits, arch_at, int_at, list_at, meta_at, described,
}
use flockd.Gguf.Levels.{all_levels-put_entries}
use flockd.Gguf.Kept.{
  notes_after, arch-notes_after, int-notes_after, list-notes_after, has_suffix-++,
}
use flockd.Gguf.RoundTrip.{entries-put_entries}
use flockd.Gguf.Extends.{>>=-Extends, read_full-Stable}
use flockd.Gguf.Extends.Header.{body-Extends}
use flockd.Gguf.Ends.Header.{read-Ends}

wanted :
    (a : Bytes)
    → (want_int (a ++ block_count) ≡ true)
      × (want_int (a ++ head_count) ≡ true)
      × (want_int (a ++ head_count_kv) ≡ true)
      × (want_int (a ++ embedding_length) ≡ true)
      × (want_int (a ++ key_length) ≡ true)
      × (want_int (a ++ value_length) ≡ true)
      × (want_int (a ++ context_length) ≡ true)
      × (want_list (a ++ head_count_kv) ≡ true)
unfolding want_int want_list
wanted a = (
  ground (arith, has_suffix-++ a block_count),
  ground (arith, has_suffix-++ a head_count),
  ground (arith, has_suffix-++ a head_count_kv),
  ground (arith, has_suffix-++ a embedding_length),
  ground (arith, has_suffix-++ a key_length),
  ground (arith, has_suffix-++ a value_length),
  ground (arith, has_suffix-++ a context_length),
  has_suffix-++ a head_count_kv,
)

-- Notes that answer for the last values give the meta data.
meta_of_lem :
    (a : Bytes) (ints lists : Table) (es : List Entry) (rest : Bytes)
    → a ≡ arch_at es []
    → ((key : Bytes) → want_int key ≡ true → int_or_zero (find key ints) ≡ int_at key es 0)
    → ((key : Bytes) → want_list key ≡ true → find key lists ≡ list_at key es none)
    → meta_of (record { arch = a; ints = ints; lists = lists }) rest ≡ described es rest
unfolding meta_of described meta_at
meta_of_lem a ints lists es rest e i l =
    let named : Bytes = arch_at es [] in
    let w = wanted named in
    rw e (elim (Bool-cases (same named [])) [
      | inl q ↦ rw q refl
      | inr q ↦ rw q (
          rw
            (
              i (named ++ block_count) w.0,
              i (named ++ head_count) w.1,
              i (named ++ head_count_kv) w.2,
              i (named ++ embedding_length) w.3,
              i (named ++ key_length) w.4,
              i (named ++ value_length) w.5,
              i (named ++ context_length) w.6,
              l (named ++ head_count_kv) w.7,
            )
            refl)
    ])

meta_of-notes_after :
    (es : List Entry) (rest : Bytes) → meta_of (notes_after es no_notes) rest ≡ described es rest
unfolding find
meta_of-notes_after es rest =
    let n : Notes = notes_after es no_notes in
    meta_of_lem n.arch n.ints n.lists es rest (arch-notes_after es no_notes)
      (λ key w. int-notes_after key es no_notes w) (λ key w. list-notes_after key es no_notes w)

-- A header that is written in the format is read as what its pairs describe: the architecture is the last
-- string under its key, each number the last integer under its key, and the heads of a list of layers the
-- sum of the last such list that is not empty; what follows the header is left. Without an architecture
-- the header is refused.
pub read-put_header :
    (version tensors : ℕ) (es : List Entry) (rest : Bytes)
    → HeaderFits version tensors es
    → read (put_header version tensors es rest) ≡ described es rest
unfolding read body versioned counted put_header
read-put_header version tensors es rest h =
    let pairs : Bytes = put_entries es rest in
    let counts : Bytes = put_uint 8 (length es) pairs in
    let after : Bytes = put_uint 8 tensors counts in
    let fuel : ℕ = suc (length (magic ++ put_uint 4 version after)) in
    let known : (ltb version 2 || ltb 3 version) ≡ false = ground (arith, h.from_two, h.to_three) in
    let few : ltb max_array (length es) ≡ false = ground (arith, h.few_pairs) in
    let numbered : ℕ → Parser Meta = λ t. uint 8 >>= counted fuel in
    >>=-ok (read_full 4) (body fuel) magic (magic ++ put_uint 4 version after)
      (put_uint 4 version after) (read_full-++ magic (put_uint 4 version after))
      (>>=-ok (uint 4) (versioned fuel) version (put_uint 4 version after) after
        (uint-put_uint 4 version after (omega (arith, h.to_three)))
        (rw known (
          >>=-ok (uint 8) numbered tensors after counts
            (uint-put_uint 8 tensors counts h.few_tensors)
            (>>=-ok (uint 8) (counted fuel) (length es) counts pairs
              (uint-put_uint 8 (length es) pairs (omega (arith, h.few_pairs)))
              (rw few (
                >>=-ok (entries fuel (length es) no_notes) meta_of (notes_after es no_notes) pairs
                  rest
                  (entries-put_entries fuel es no_notes rest h.each
                    (omega (arith, all_levels-put_entries es rest)))
                  (meta_of-notes_after es rest)))))))

read-++ :
    (a : Meta) (bs rest more : Bytes)
    → read bs ≡ ok a rest
    → read (bs ++ more) ≡ ok a (rest ++ more)
unfolding read
read-++ a bs rest more h =
    let f : ℕ = suc (length bs) in
    let g : ℕ = suc (length (bs ++ more)) in
    >>=-Extends (read_full 4) (read_full 4) (body f) (body g) (read_full-Stable 4)
      (body-Extends f g (omega (arith, length-append {0} bs more))) a bs rest more h

refused :
    (r : Result Meta)
    → r ≢ spent
    → ((a : Meta) (rest : Bytes) → r ≢ ok a rest)
    → (e : Error) × (r ≡ failed e)
refused (ok a rest) s o = absurd (o a rest refl)
refused (failed e) s o = (e, refl)
refused spent s o = absurd (s refl)

rest_of : Result Meta → Bytes
rest_of (ok a rest) = rest
rest_of (failed e) = []
rest_of spent = []

append_cons : (r : Bytes) (b : ℕ) (post : Bytes) → (r ++ (b ∷ post)) ≢ []
append_cons [] b post e = cc
append_cons (x ∷ r) b post e = cc

described_rest : (es : List Entry) → rest_of (described es []) ≡ []
unfolding described rest_of
described_rest es = elim (Bool-cases (same (arch_at es []) [])) [
  | inl q ↦ rw q refl
  | inr q ↦ rw q refl
]

-- A header that is cut anywhere before its end is refused with an error.
pub read_cut :
    (version tensors : ℕ) (es : List Entry) (pre : Bytes) (b : ℕ) (post : Bytes)
    → HeaderFits version tensors es
    → pre ++ (b ∷ post) ≡ put_header version tensors es []
    → (e : Error) × (read pre ≡ failed e)
unfolding rest_of
read_cut version tensors es pre b post h cut = refused (read pre) (read-Ends pre) (λ a rest e.
    append_cons rest b post (
      ap rest_of (
        sym (read-++ a pre rest (b ∷ post) e)
        ∙ ap read cut
        ∙ read-put_header version tensors es [] h)
      ∙ described_rest es))
