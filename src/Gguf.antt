-- ===== src/Gguf.antt =====
-- internal/gguf/gguf.go: the parser of single values. A file is the list of its bytes; an `int64`
-- is its bit pattern, a number below 2 ^ 64. Go's strings are lists of bytes.
pub mod Header
pub mod Extends
pub mod Ends
pub mod Print
pub mod Values
pub mod Arrays
pub mod Described
pub mod Kept
pub mod Levels
pub mod RoundTrip
pub mod Whole
pub mod Size
use flockd.Base.{
  ℕ, zero, suc, ◌+◌, ◌-◌, ◌*◌, ◌/◌, ◌%◌, ◌^◌, ◌==◌, Bool, true, false, ◌&&◌, ◌||◌, not, List, [],
  ◌∷◌, ◌++◌, Option, none, some, String, ltb, length, if◌then◌else◌,
}
use Prim.Native.Char.{code}
use Prim.Native.String

abbrev pub Bytes : Type 0
Bytes = List ℕ

-- The code points of a text in ASCII.
abbrev pub codes : String → Bytes
codes String.[] = []
codes (String.◌∷◌ c s) = code c ∷ codes s

abbrev pub same : Bytes → Bytes → Bool
same [] [] = true
same [] (b ∷ bs) = false
same (a ∷ xs) [] = false
same (a ∷ xs) (b ∷ bs) = a == b && same xs bs

pub data Error : Type 0 where
  cut_short not_gguf unsupported_version implausible_count long_string long_array unknown_type
        no_architecture :
      Error

-- A value and the bytes after it, or an error. `spent` is no value of the code: the fuel ran out.
pub data Result {ℓ} (A : Type ℓ) : Type ℓ where
  ok : A → Bytes → Result A
  failed : Error → Result A
  spent : Result A

abbrev pub Parser {ℓ} : Type ℓ → Type ℓ
Parser A = Bytes → Result A

abbrev pub pure {ℓ} : {A : Type ℓ} → A → Parser A
pure a bs = ok a bs

abbrev pub fail {ℓ} : {A : Type ℓ} → Error → Parser A
fail e bs = failed e

abbrev pub next {ℓ κ} : {A : Type ℓ} {B : Type κ} → Result A → (A → Parser B) → Result B
next (ok a rest) f = f a rest
next (failed e) f = failed e
next spent f = spent

infixl 5 ◌>>=◌
abbrev pub ◌>>=◌ {ℓ κ} : {A : Type ℓ} {B : Type κ} → Parser A → (A → Parser B) → Parser B
(m >>= f) bs = next (m bs) f

-- `io.ReadFull`
unfoldable pub read_full : ℕ → Parser Bytes
read_full zero bs = ok [] bs
read_full (suc n) [] = failed cut_short
read_full (suc n) (b ∷ bs) = next (read_full n bs) (λ taken. pure (b ∷ taken))

unfoldable pub little_endian : Bytes → ℕ
little_endian [] = 0
little_endian (b ∷ bs) = b + 256 * little_endian bs

-- `binary.Read` of an unsigned number of so many bytes.
unfoldable pub uint : ℕ → Parser ℕ
unfolding read_full little_endian
uint width = read_full width >>= λ bs. pure (little_endian bs)

abbrev pub max_string : ℕ
max_string = 16_777_216

abbrev pub max_array : ℕ
max_array = 16_777_216

unfoldable pub str : Parser Bytes
unfolding uint read_full
str = uint 8 >>= λ n. if ltb max_string n then fail long_string else read_full n

-- How `scalar` reads a type: the bytes of a number, or of what it skips.
pub data Kind : Type 0 where
  unsigned signed skipped : ℕ → Kind
  text unknown : Kind

abbrev pub t_string : ℕ
t_string = 8

abbrev pub t_array : ℕ
t_array = 9

unfoldable pub kind_of : ℕ → Kind
kind_of typ =
    if typ == 0
    then unsigned 1
    else if typ == 1
    then signed 1
    else if typ == 2
    then unsigned 2
    else if typ == 3
    then signed 2
    else if typ == 4
    then unsigned 4
    else if typ == 5
    then signed 4
    else if typ == 10
    then unsigned 8
    else if typ == 11
    then signed 8
    else if typ == 6
    then skipped 4
    else if typ == 7
    then skipped 1
    else if typ == 12
    then skipped 8
    else if typ == t_string
    then text
    else unknown

abbrev pub two64 : ℕ
two64 = 18_446_744_073_709_551_616

-- `int64(x)` of a signed number of so many bytes.
unfoldable pub extend : ℕ → ℕ → ℕ
extend width x = if ltb (2 * x) (256 ^ width) then x else x + (two64 - 256 ^ width)

-- `scalar`, with `none` where it says that the value is no integer.
unfoldable pub scalar_of : Kind → Parser (Option ℕ)
unfolding uint extend read_full str
scalar_of (unsigned width) = uint width >>= λ x. pure (some x)
scalar_of (signed width) = uint width >>= λ x. pure (some (extend width x))
scalar_of (skipped width) = read_full width >>= λ bs. pure none
scalar_of text = str >>= λ s. pure none
scalar_of unknown = fail unknown_type

unfoldable pub scalar : ℕ → Parser (Option ℕ)
unfolding kind_of scalar_of
scalar typ = scalar_of (kind_of typ)

abbrev pub add_if : Bool → Option ℕ → ℕ → ℕ
add_if sum none total = total
add_if sum (some v) total = if sum then (total + v) % two64 else total

-- The loop over the elements of an array that is not nested.
unfoldable pub scalars : Bool → ℕ → ℕ → ℕ → Parser ℕ
unfolding scalar
scalars sum elem total zero = pure total
scalars sum elem total (suc n) = scalar elem >>= λ v. scalars sum elem (add_if sum v total) n

-- The loop over the elements of a nested array.
unfoldable pub arrays : Parser (ℕ × ℕ) → ℕ → Parser (Unit {0})
arrays one zero = pure tt
arrays one (suc n) = one >>= λ _. arrays one n

-- `skip_array` after the counts, with the parser of a nested element.
unfoldable pub elements : Parser (ℕ × ℕ) → Bool → ℕ → ℕ → Parser (ℕ × ℕ)
unfolding scalars arrays
elements one sum elem n =
    if ltb max_array n
    then fail long_array
    else if elem == t_array
    then (arrays one n >>= λ _. pure (0, n))
    else (scalars sum elem 0 n >>= λ total. pure (total, n))

unfoldable pub skip_array : ℕ → Bool → Parser (ℕ × ℕ)
unfolding uint elements
skip_array zero sum = λ bs. spent
skip_array (suc fuel) sum =
    uint 4 >>= λ elem. uint 8 >>= λ n. elements (skip_array fuel false) sum elem n
