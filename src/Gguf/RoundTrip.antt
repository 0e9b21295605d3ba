-- ===== src/Gguf/RoundTrip.antt =====
-- internal/gguf/gguf.go: `Read` on a header that is written in the format.
use flockd.Base.{
  ℕ, ◌≤◌, ◌<◌, ◌==◌, ◌≡◌, refl, sym, subst, true, false, ◌&&◌, List, [], ◌∷◌, length, All, arith,
  Bool-cases, inl, inr,
}
use flockd.Gguf.{
  Bytes, ok, Parser, pure, ◌>>=◌, kind_of, Kind, text, t_string, str, uint, scalar, skip_array,
  same,
}
use flockd.Gguf.Header.{Notes, note_int, note_list, want_list, value, entries, general_architecture}
use flockd.Gguf.Print.{put_uint, put_str, Item, bits, chars, put_item, Fits, int_of, put_array}
use flockd.Gguf.Values.{>>=-ok, uint-put_uint, str-put_str, scalar-put_item}
use flockd.Gguf.Arrays.{found, skip_array-put_array}
use flockd.Gguf.Described.{
  Value, one, many, Entry, type_of, put_value, put_entries, ValueFits, EntryFits, chars_of,
}
use flockd.Gguf.Levels.{levels, all_levels}
use flockd.Gguf.Kept.{note, notes_after}

kind_of_string : (typ : ℕ) → (typ == t_string) ≡ true → kind_of typ ≡ text
unfolding kind_of
kind_of_string typ h = ground (arith, h)

str-put_text :
    (item : Item) (rest : Bytes)
    → Fits text item
    → str (put_item text item rest) ≡ ok (chars_of item) rest
unfolding put_item
str-put_text (bits n) rest h = absurd h
str-put_text (chars s) rest h = str-put_str s rest h

str-put_item :
    (kind : Kind) (item : Item) (rest : Bytes)
    → kind ≡ text
    → Fits kind item
    → str (put_item kind item rest) ≡ ok (chars_of item) rest
str-put_item kind item rest e =
    subst (λ k. Fits k item → str (put_item k item rest) ≡ ok (chars_of item) rest) (sym e)
      (str-put_text item rest)

value-put_value :
    (fuel : ℕ) (k : Bytes) (v : Value) (notes : Notes) (rest : Bytes)
    → ValueFits v
    → levels v ≤ fuel
    → value fuel k (type_of v) notes (put_value v rest) ≡ ok (note (k, v) notes) rest
unfolding value put_value
value-put_value fuel k (one typ item) notes rest h d =
    elim (Bool-cases (same k general_architecture && typ == t_string)) [
      | inl q ↦ rw q (
          >>=-ok str (λ arch. pure (record notes { arch = arch })) (chars_of item)
            (put_item (kind_of typ) item rest) rest
            (str-put_item (kind_of typ) item rest (kind_of_string typ (ground (arith, q))) h.2)
            refl)
      | inr q ↦ rw q (
          rw h.1 (
            >>=-ok (scalar typ) (λ v. pure (note_int k v notes)) (int_of (kind_of typ) item)
              (put_item (kind_of typ) item rest) rest (scalar-put_item typ item rest h.2) refl))
    ]
value-put_value fuel k (many a) notes rest h d =
    let no_text : (same k general_architecture && false) ≡ false = ground arith in
    rw no_text (
      >>=-ok (skip_array fuel (want_list k)) (λ got. pure (note_list k got notes))
        (found (want_list k) a) (put_array a rest) rest
        (skip_array-put_array fuel (want_list k) a rest h d) refl)

type_fits : (v : Value) → ValueFits v → type_of v < 4_294_967_296
type_fits (one typ item) h = h.0
type_fits (many a) h = omega arith

pub entries-put_entries :
    (fuel : ℕ) (es : List Entry) (notes : Notes) (rest : Bytes)
    → All EntryFits es
    → all_levels es ≤ fuel
    → entries fuel (length es) notes (put_entries es rest) ≡ ok (notes_after es notes) rest
unfolding entries put_entries notes_after
entries-put_entries fuel [] notes rest h d = refl
entries-put_entries fuel ((k, v) ∷ es) notes rest h d =
    let n : ℕ = length es in
    let later : Bytes = put_value v (put_entries es rest) in
    let valued : ℕ → Parser Notes =
      λ typ. value fuel k typ notes >>= λ after. entries fuel n after in
    >>=-ok str (λ key. uint 4 >>= λ typ. value fuel key typ notes >>= λ after. entries fuel n after)
      k (put_str k (put_uint 4 (type_of v) later)) (put_uint 4 (type_of v) later)
      (str-put_str k (put_uint 4 (type_of v) later) h.0.0)
      (>>=-ok (uint 4) valued (type_of v) (put_uint 4 (type_of v) later) later
        (uint-put_uint 4 (type_of v) later (type_fits v h.0.1))
        (>>=-ok (value fuel k (type_of v) notes) (λ after. entries fuel n after) (note (k, v) notes)
          later (put_entries es rest)
          (value-put_value fuel k v notes (put_entries es rest) h.0.1 (omega (arith, d)))
          (entries-put_entries fuel es (note (k, v) notes) rest h.1 (omega (arith, d)))))
