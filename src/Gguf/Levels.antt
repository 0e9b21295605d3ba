-- ===== src/Gguf/Levels.antt =====
-- internal/gguf/gguf.go: the arrays of a header are nested less deep than the header is long.
use flockd.Base.{
  ℕ, zero, suc, ◌+◌, ◌≤◌, ◌/◌, ◌≡◌, List, [], ◌∷◌, ◌++◌, length, length-append, max, arith,
}
use flockd.Gguf.{Bytes, Kind, unsigned, signed, skipped, text, unknown, kind_of}
use flockd.Gguf.Print.{
  put_uint, put_str, Item, bits, chars, put_item, put_items, Array, Arrays, flat, nested, end, more,
  put_array, put_arrays, depth, depths, count,
}
use flockd.Gguf.Described.{Value, one, many, Entry, type_of, put_value, put_entries}

-- The levels of the arrays in a value, and in a header.
abbrev pub levels : Value → ℕ
levels (one typ item) = 0
levels (many a) = depth a

abbrev pub all_levels : List Entry → ℕ
all_levels [] = 0
all_levels ((k, v) ∷ es) = max (levels v) (all_levels es)

pub length-put_uint :
    (width n : ℕ) (rest : Bytes) → length (put_uint width n rest) ≡ width + length rest
unfolding put_uint
length-put_uint zero n rest = omega arith
length-put_uint (suc width) n rest = omega (arith, length-put_uint width (n / 256) rest)

le-put_str : (s rest : Bytes) → length rest ≤ length (put_str s rest)
unfolding put_str
le-put_str s rest =
    omega (arith, length-put_uint 8 (length s) (s ++ rest), length-append {0} s rest)

le-put_item :
    (kind : Kind) (item : Item) (rest : Bytes) → length rest ≤ length (put_item kind item rest)
unfolding put_item
le-put_item (unsigned w) (bits n) rest = omega (arith, length-put_uint w n rest)
le-put_item (signed w) (bits n) rest = omega (arith, length-put_uint w n rest)
le-put_item (skipped w) (bits n) rest = omega (arith, length-put_uint w n rest)
le-put_item text (bits n) rest = omega arith
le-put_item unknown (bits n) rest = omega arith
le-put_item (unsigned w) (chars s) rest = le-put_str s rest
le-put_item (signed w) (chars s) rest = le-put_str s rest
le-put_item (skipped w) (chars s) rest = le-put_str s rest
le-put_item text (chars s) rest = le-put_str s rest
le-put_item unknown (chars s) rest = le-put_str s rest

le-put_items :
    (kind : Kind) (items : List Item) (rest : Bytes)
    → length rest ≤ length (put_items kind items rest)
unfolding put_items
le-put_items kind [] rest = omega arith
le-put_items kind (item ∷ items) rest =
    omega (arith, le-put_item kind item (put_items kind items rest), le-put_items kind items rest)

mutual
  unfolding put_array put_arrays depth depths

  depth-put_array : (a : Array) (rest : Bytes) → depth a + length rest ≤ length (put_array a rest)
  depth-put_array (flat typ items) rest = omega (
    arith,
    length-put_uint 4 typ (put_uint 8 (length items) (put_items (kind_of typ) items rest)),
    length-put_uint 8 (length items) (put_items (kind_of typ) items rest),
    le-put_items (kind_of typ) items rest,
  )
  depth-put_array (nested inner) rest = omega (
    arith,
    length-put_uint 4 9 (put_uint 8 (count inner) (put_arrays inner rest)),
    length-put_uint 8 (count inner) (put_arrays inner rest),
    depths-put_arrays inner rest,
  )

  depths-put_arrays :
      (inner : Arrays) (rest : Bytes) → depths inner + length rest ≤ length (put_arrays inner rest)
  depths-put_arrays end rest = omega arith
  depths-put_arrays (more a inner) rest =
      omega (arith, depth-put_array a (put_arrays inner rest), depths-put_arrays inner rest)

levels-put_value : (v : Value) (rest : Bytes) → levels v + length rest ≤ length (put_value v rest)
unfolding put_value
levels-put_value (one typ item) rest = omega (arith, le-put_item (kind_of typ) item rest)
levels-put_value (many a) rest = depth-put_array a rest

pub all_levels-put_entries :
    (es : List Entry) (rest : Bytes) → all_levels es + length rest ≤ length (put_entries es rest)
unfolding put_entries
all_levels-put_entries [] rest = omega arith
all_levels-put_entries ((k, v) ∷ es) rest = omega (
  arith,
  le-put_str k (put_uint 4 (type_of v) (put_value v (put_entries es rest))),
  length-put_uint 4 (type_of v) (put_value v (put_entries es rest)),
  levels-put_value v (put_entries es rest),
  all_levels-put_entries es rest,
)
