-- ===== src/Gguf/Ends/Header.antt =====
-- internal/gguf/gguf.go: `Read` ends on every file.
use flockd.Base.{
  ℕ, zero, suc, ◌-◌, ◌<◌, ◌==◌, ◌≢◌, ◌&&◌, ◌||◌, [], ltb, length, if◌then◌else◌, arith, Bool-cases,
  inl, inr,
}
use flockd.Gguf.{
  Bytes, spent, Parser, pure, fail, ◌>>=◌, read_full, uint, str, scalar, skip_array, same,
  max_array, t_string, t_array, unsupported_version, implausible_count, not_gguf,
}
use flockd.Gguf.Header.{
  Notes, note_int, note_list, want_list, value, entries, general_architecture, no_notes, meta_of,
  counted, versioned, body, read, magic,
}
use flockd.Gguf.Ends.{
  Ends, next-Ends, >>=-Ends, Sure, pure-Sure, >>=-Sure, if-Ends, guard-Ends, read_full-Sure,
  uint-Sure, str-Sure, scalar-Sure, skip_array-Ends, Within-spent,
}

value-Ends :
    (fuel most : ℕ) (key : Bytes) (typ : ℕ) (notes : Notes)
    → most < fuel
    → Ends most 0 (value fuel key typ notes)
unfolding value
value-Ends fuel most key typ notes h =
    let named : Parser Notes = str >>= λ arch. pure (record notes { arch = arch }) in
    let list : Parser Notes =
      skip_array fuel (want_list key) >>= λ found. pure (note_list key found notes) in
    let number : Parser Notes = scalar typ >>= λ v. pure (note_int key v notes) in
    if-Ends most 0 (same key general_architecture && typ == t_string) named
      (if typ == t_array then list else number)
      (>>=-Sure str (λ arch. pure (record notes { arch = arch })) str-Sure
        (λ arch. pure-Sure (record notes { arch = arch })) most)
      (if-Ends most 0 (typ == t_array) list number
        (>>=-Ends most 0 (skip_array fuel (want_list key))
          (λ found. pure (note_list key found notes))
          (skip_array-Ends fuel most (want_list key) (omega (arith, h)))
          (λ found le. pure-Sure (note_list key found notes) (most - 0)))
        (>>=-Sure (scalar typ) (λ v. pure (note_int key v notes)) (scalar-Sure typ)
          (λ v. pure-Sure (note_int key v notes)) most))

entries-Ends : (fuel most n : ℕ) (notes : Notes) → most < fuel → Ends most 0 (entries fuel n notes)
unfolding entries
entries-Ends fuel most zero notes h = pure-Sure notes most
entries-Ends fuel most (suc n) notes h =
    >>=-Ends most 0 str
      (λ key. uint 4 >>= λ typ. value fuel key typ notes >>= λ after. entries fuel n after)
      (str-Sure most)
      (λ key le.
        >>=-Ends (most - 0) 0 (uint 4)
          (λ typ. value fuel key typ notes >>= λ after. entries fuel n after)
          (uint-Sure 4 (most - 0))
          (λ typ le'.
            >>=-Ends (most - 0 - 0) 0 (value fuel key typ notes) (λ after. entries fuel n after)
              (value-Ends fuel (most - 0 - 0) key typ notes (omega (arith, h)))
              (λ after le''. entries-Ends fuel (most - 0 - 0 - 0) n after (omega (arith, h)))))

meta_of-Sure : (notes : Notes) → Sure (meta_of notes)
unfolding meta_of
meta_of-Sure notes most bs h = elim (Bool-cases (same notes.arch [])) [
  | inl q ↦ rw q tt
  | inr q ↦ rw q (omega arith)
]

counted-Ends : (fuel most n : ℕ) → most < fuel → Ends most 0 (counted fuel n)
unfolding counted
counted-Ends fuel most n h =
    guard-Ends most (ltb max_array n) implausible_count (entries fuel n no_notes >>= meta_of) (
      >>=-Ends most 0 (entries fuel n no_notes) meta_of (entries-Ends fuel most n no_notes h)
        (λ notes le. meta_of-Sure notes (most - 0)))

versioned-Ends : (fuel most v : ℕ) → most < fuel → Ends most 0 (versioned fuel v)
unfolding versioned
versioned-Ends fuel most v h =
    guard-Ends most (ltb v 2 || ltb 3 v) unsupported_version
      (uint 8 >>= λ tensors. uint 8 >>= λ count. counted fuel count)
      (>>=-Ends most 0 (uint 8) (λ tensors. uint 8 >>= λ count. counted fuel count)
        (uint-Sure 8 most)
        (λ tensors le.
          >>=-Ends (most - 0) 0 (uint 8) (counted fuel) (uint-Sure 8 (most - 0))
            (λ count le'. counted-Ends fuel (most - 0 - 0) count (omega (arith, h)))))

body-Ends : (fuel most : ℕ) (hdr : Bytes) → most < fuel → Ends most 0 (body fuel hdr)
unfolding body
body-Ends fuel most hdr h =
    if-Ends most 0 (same hdr magic) (uint 4 >>= versioned fuel) (fail not_gguf)
      (>>=-Ends most 0 (uint 4) (versioned fuel) (uint-Sure 4 most)
        (λ v le. versioned-Ends fuel (most - 0) v (omega (arith, h))))
      (λ bs le. tt)

-- The fuel of `read` is enough on every file.
pub read-Ends : (bs : Bytes) → read bs ≢ spent
unfolding read
read-Ends bs = Within-spent 0 (length bs) (read bs) (
    next-Ends (length bs) 0 (length bs) (read_full 4 bs) (body (suc (length bs))) (omega arith)
      (read_full-Sure 4 (length bs) bs (omega arith))
      (λ hdr le. body-Ends (suc (length bs)) (length bs - 0) hdr (omega arith)))
