-- ===== src/Gguf/Values.antt =====
-- internal/gguf/gguf.go: single values are read back as they are written.
use flockd.Base.{
  ℕ, zero, suc, ◌+◌, ◌/◌, ◌%◌, ◌≤◌, ◌<◌, ◌≡◌, refl, Bool, true, false, List, [], ◌∷◌, ◌++◌, Option,
  none, some, length, All, if◌then◌else◌, ltb, arith, ap, ◌∙◌,
}
use flockd.Gguf.{
  Bytes, Result, ok, Parser, fail, ◌>>=◌, long_string, Kind, unsigned, signed, skipped, text,
  unknown, kind_of, two64, max_string, read_full, little_endian, uint, str, scalar_of, scalar,
  scalars, add_if,
}
use flockd.Gguf.Print.{
  room, put_uint, put_str, Item, bits, chars, put_item, Fits, int_of, put_items,
}

-- A step that succeeds, and what goes on from it.
pub >>=-ok {ℓ κ} :
    {A : Type ℓ} {B : Type κ} (p : Parser A) (f : A → Parser B) (a : A) (bs mid : Bytes)
    {r : Result B}
    → p bs ≡ ok a mid
    → f a mid ≡ r
    → (p >>= f) bs ≡ r
>>=-ok p f a bs mid h e = rw h e

pub read_full-++ : (s rest : Bytes) → read_full (length s) (s ++ rest) ≡ ok s rest
unfolding read_full
read_full-++ [] rest = refl
read_full-++ (b ∷ s) rest = rw (read_full-++ s rest) refl

-- The bytes of a number, low byte first.
abbrev le_bytes : ℕ → ℕ → Bytes
le_bytes zero n = []
le_bytes (suc width) n = n % 256 ∷ le_bytes width (n / 256)

read_full-put_uint :
    (width n : ℕ) (rest : Bytes)
    → read_full width (put_uint width n rest) ≡ ok (le_bytes width n) rest
unfolding read_full put_uint
read_full-put_uint zero n rest = refl
read_full-put_uint (suc width) n rest = rw (read_full-put_uint width (n / 256) rest) refl

little_endian-le_bytes : (width n : ℕ) → n < room width → little_endian (le_bytes width n) ≡ n
unfolding little_endian
little_endian-le_bytes zero n h = omega (arith, h)
little_endian-le_bytes (suc width) n h =
    omega (arith, little_endian-le_bytes width (n / 256) (omega (arith, h)))

pub uint-put_uint :
    (width n : ℕ) (rest : Bytes) → n < room width → uint width (put_uint width n rest) ≡ ok n rest
unfolding uint
uint-put_uint width n rest h =
    rw (read_full-put_uint width n rest) (rw (little_endian-le_bytes width n h) refl)

pub str-put_str : (s rest : Bytes) → length s ≤ max_string → str (put_str s rest) ≡ ok s rest
unfolding str put_str
str-put_str s rest h =
    let small : ltb max_string (length s) ≡ false = ground (arith, h) in
    >>=-ok (uint 8) (λ n. if ltb max_string n then fail long_string else read_full n) (length s)
      (put_str s rest) (s ++ rest) (uint-put_uint 8 (length s) (s ++ rest) (omega (arith, h)))
      (rw small (read_full-++ s rest))

scalar_of-put_item :
    (kind : Kind) (item : Item) (rest : Bytes)
    → Fits kind item
    → scalar_of kind (put_item kind item rest) ≡ ok (int_of kind item) rest
unfolding scalar_of put_item int_of
scalar_of-put_item (unsigned w) (bits n) rest h = rw (uint-put_uint w n rest h) refl
scalar_of-put_item (signed w) (bits n) rest h = rw (uint-put_uint w n rest h) refl
scalar_of-put_item (skipped w) (bits n) rest h = rw (read_full-put_uint w n rest) refl
scalar_of-put_item text (bits n) rest h = absurd h
scalar_of-put_item unknown (bits n) rest h = absurd h
scalar_of-put_item (unsigned w) (chars s) rest h = absurd h
scalar_of-put_item (signed w) (chars s) rest h = absurd h
scalar_of-put_item (skipped w) (chars s) rest h = absurd h
scalar_of-put_item text (chars s) rest h = rw (str-put_str s rest h) refl
scalar_of-put_item unknown (chars s) rest h = absurd h

pub scalar-put_item :
    (typ : ℕ) (item : Item) (rest : Bytes)
    → Fits (kind_of typ) item
    → scalar typ (put_item (kind_of typ) item rest) ≡ ok (int_of (kind_of typ) item) rest
unfolding scalar
scalar-put_item typ = scalar_of-put_item (kind_of typ)

abbrev pub int_or_none : Option ℕ → ℕ
int_or_none none = 0
int_or_none (some v) = v

-- The sum of the integers among the items.
unfoldable pub sum_ints : Kind → List Item → ℕ
unfolding int_of
sum_ints kind [] = 0
sum_ints kind (item ∷ items) = int_or_none (int_of kind item) + sum_ints kind items

abbrev pub sum_if : Bool → Kind → List Item → ℕ
sum_if sum kind items = if sum then sum_ints kind items % two64 else 0

add_if_sum :
    (sum : Bool) (o : Option ℕ) (total more : ℕ)
    → (if sum then (add_if sum o total + more) % two64 else add_if sum o total)
      ≡ (if sum then (total + (int_or_none o + more)) % two64 else total)
add_if_sum true none total more = omega arith
add_if_sum true (some v) total more = omega arith
add_if_sum false none total more = refl
add_if_sum false (some v) total more = refl

scalars-put_items_from :
    (sum : Bool) (typ total : ℕ) (items : List Item) (rest : Bytes)
    → All (Fits (kind_of typ)) items
    → total < two64
    → scalars sum typ total (length items) (put_items (kind_of typ) items rest)
      ≡ ok (if sum then (total + sum_ints (kind_of typ) items) % two64 else total) rest
unfolding scalars put_items sum_ints
scalars-put_items_from true typ total [] rest h t = rw (total_lem total t) refl
  where
    total_lem : (n : ℕ) → n < two64 → (n + 0) % two64 ≡ n
    total_lem n p = omega (arith, p)
scalars-put_items_from false typ total [] rest h t = refl
scalars-put_items_from sum typ total (item ∷ items) rest h t =
    let kind : Kind = kind_of typ in
    let now : ℕ = add_if sum (int_of kind item) total in
    rw (scalar-put_item typ item (put_items kind items rest) h.0) (
      rw (scalars-put_items_from sum typ now items rest h.1 (ground (arith, t)))
        (rw (add_if_sum sum (int_of kind item) total (sum_ints kind items)) refl))

zero-add : (n : ℕ) → 0 + n ≡ n
zero-add n = omega arith

pub scalars-put_items :
    (sum : Bool) (typ : ℕ) (items : List Item) (rest : Bytes)
    → All (Fits (kind_of typ)) items
    → scalars sum typ 0 (length items) (put_items (kind_of typ) items rest)
      ≡ ok (sum_if sum (kind_of typ) items) rest
scalars-put_items sum typ items rest h =
    scalars-put_items_from sum typ 0 items rest h (omega arith)
    ∙ ap (λ (n : ℕ). ok (if sum then n % two64 else 0) rest)
        (zero-add (sum_ints (kind_of typ) items))
