-- ===== src/Gguf/Print.antt =====
-- The GGUF format that internal/gguf/gguf.go reads: how a header is written. A printer takes the bytes
-- that follow.
use flockd.Base.{
  ℕ, zero, suc, ◌*◌, ◌/◌, ◌%◌, ◌≤◌, ◌<◌, ◌==◌, ◌≡◌, false, List, [], ◌∷◌, ◌++◌, Option, none, some,
  length, All, max,
}
use flockd.Gguf.{
  Bytes, Kind, unsigned, signed, skipped, text, unknown, kind_of, extend, max_string, max_array,
  t_array,
}

-- The numbers of so many bytes.
abbrev pub room : ℕ → ℕ
room zero = 1
room (suc width) = 256 * room width

unfoldable pub put_uint : ℕ → ℕ → Bytes → Bytes
put_uint zero n rest = rest
put_uint (suc width) n rest = n % 256 ∷ put_uint width (n / 256) rest

unfoldable pub put_str : Bytes → Bytes → Bytes
unfolding put_uint
put_str s rest = put_uint 8 (length s) (s ++ rest)

-- A number by its bits, or a string.
pub data Item : Type 0 where
  bits : ℕ → Item
  chars : Bytes → Item

unfoldable pub put_item : Kind → Item → Bytes → Bytes
unfolding put_uint put_str
put_item (unsigned width) (bits n) rest = put_uint width n rest
put_item (signed width) (bits n) rest = put_uint width n rest
put_item (skipped width) (bits n) rest = put_uint width n rest
put_item text (bits n) rest = rest
put_item unknown (bits n) rest = rest
put_item kind (chars s) rest = put_str s rest

abbrev pub Fits : Kind → Item → Type 0
Fits (unsigned width) (bits n) = n < room width
Fits (signed width) (bits n) = n < room width
Fits (skipped width) (bits n) = n < room width
Fits text (bits n) = ⊥
Fits unknown (bits n) = ⊥
Fits (unsigned width) (chars s) = ⊥
Fits (signed width) (chars s) = ⊥
Fits (skipped width) (chars s) = ⊥
Fits text (chars s) = length s ≤ max_string
Fits unknown (chars s) = ⊥

-- The integer that an item stands for, as an `int64`.
unfoldable pub int_of : Kind → Item → Option ℕ
unfolding extend
int_of (unsigned width) (bits n) = some n
int_of (signed width) (bits n) = some (extend width n)
int_of (skipped width) (bits n) = none
int_of text (bits n) = none
int_of unknown (bits n) = none
int_of kind (chars s) = none

unfoldable pub put_items : Kind → List Item → Bytes → Bytes
unfolding put_item
put_items kind [] rest = rest
put_items kind (item ∷ items) rest = put_item kind item (put_items kind items rest)

mutual
  pub data Array : Type 0 where
    flat : ℕ → List Item → Array
    nested : Arrays → Array

  pub data Arrays : Type 0 where
    end : Arrays
    more : Array → Arrays → Arrays

abbrev pub count : Arrays → ℕ
count end = 0
count (more a rest) = suc (count rest)

unfoldable mutual
  unfolding put_uint put_items kind_of

  pub put_array : Array → Bytes → Bytes
  put_array (flat typ items) rest =
      put_uint 4 typ (put_uint 8 (length items) (put_items (kind_of typ) items rest))
  put_array (nested inner) rest =
      put_uint 4 t_array (put_uint 8 (count inner) (put_arrays inner rest))

  pub put_arrays : Arrays → Bytes → Bytes
  put_arrays end rest = rest
  put_arrays (more a inner) rest = put_array a (put_arrays inner rest)

-- The levels of an array, and what fits the counts of the format.
unfoldable mutual
  pub depth : Array → ℕ
  depth (flat typ items) = 1
  depth (nested inner) = suc (depths inner)

  pub depths : Arrays → ℕ
  depths end = 0
  depths (more a inner) = max (depth a) (depths inner)

unfoldable mutual
  unfolding kind_of

  pub ArrayFits : Array → Type 0
  ArrayFits (flat typ items) =
      (typ < room 4)
      × (typ == t_array ≡ false)
      × (length items ≤ max_array)
      × All (Fits (kind_of typ)) items
  ArrayFits (nested inner) = (count inner ≤ max_array) × ArraysFit inner

  pub ArraysFit : Arrays → Type 0
  ArraysFit end = Unit {0}
  ArraysFit (more a inner) = ArrayFits a × ArraysFit inner
