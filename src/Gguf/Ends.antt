-- ===== src/Gguf/Ends.antt =====
-- internal/gguf/gguf.go: the reader ends on every file.
pub mod Header
pub mod Depth
use flockd.Base.{
  ℕ, zero, suc, ◌+◌, ◌-◌, ◌*◌, ◌≤◌, ◌<◌, ◌==◌, ◌≢◌, Bool, ◌&&◌, ◌||◌, [], ◌∷◌, Option, some, none,
  ltb, length, if◌then◌else◌, arith, true, false, Bool-cases, inl, inr,
}
use flockd.Gguf.{
  Bytes, Error, Result, ok, failed, spent, Parser, pure, fail, next, ◌>>=◌, read_full, uint, str,
  Kind, unsigned, signed, skipped, text, unknown, kind_of, scalar_of, scalar, add_if, scalars,
  arrays, elements, skip_array, extend, little_endian, same, max_string, max_array, t_string,
  t_array, long_string, long_array, unsupported_version, implausible_count, not_gguf,
}
use flockd.Gguf.Header.{
  Notes, note_int, note_list, want_list, value, entries, general_architecture, no_notes, meta_of,
  counted, versioned, body, read, magic,
}

-- The fuel is enough, and a value leaves at least `drop` bytes less than `n`.
abbrev pub Within {ℓ} : {A : Type ℓ} → ℕ → ℕ → Result A → Type 0
Within drop n (ok a rest) = length rest + drop ≤ n
Within drop n (failed e) = Unit {0}
Within drop n spent = ⊥

-- A parser ends on inputs of at most `most` bytes.
abbrev pub Ends {ℓ} : {A : Type ℓ} → ℕ → ℕ → Parser A → Type 0
Ends most drop p = (bs : Bytes) → length bs ≤ most → Within drop (length bs) (p bs)

Within-le {ℓ} : {A : Type ℓ} (drop m n : ℕ) (r : Result A) → m ≤ n → Within drop m r → Within 0 n r
Within-le drop m n (ok a rest) h w = omega (arith, h, w)
Within-le drop m n (failed e) h w = tt
Within-le drop m n spent h w = w

module _ {ℓ κ} {A : Type ℓ} {B : Type κ} where
  next-Ends :
      (most drop n : ℕ) (r : Result A) (f : A → Parser B)
      → n ≤ most
      → Within drop n r
      → ((a : A) → drop ≤ most → Ends (most - drop) 0 (f a))
      → Within 0 n (next r f)
  next-Ends most drop n (ok a rest) f h w e =
      Within-le 0 (length rest) n (f a rest) (omega (arith, w))
        (e a (omega (arith, w, h)) rest (omega (arith, w, h)))
  next-Ends most drop n (failed x) f h w e = tt
  next-Ends most drop n spent f h w e = w

  >>=-Ends :
      (most drop : ℕ) (p : Parser A) (f : A → Parser B)
      → Ends most drop p
      → ((a : A) → drop ≤ most → Ends (most - drop) 0 (f a))
      → Ends most 0 (p >>= f)
  >>=-Ends most drop p f hp hf bs h = next-Ends most drop (length bs) (p bs) f h (hp bs h) hf

-- A parser that ends on every input.
abbrev pub Sure {ℓ} : {A : Type ℓ} → Parser A → Type 0
Sure p = (most : ℕ) → Ends most 0 p

pure-Sure {ℓ} : {A : Type ℓ} (a : A) → Sure (pure a)
pure-Sure a most bs h = omega arith

>>=-Sure {ℓ κ} :
    {A : Type ℓ} {B : Type κ} (p : Parser A) (f : A → Parser B)
    → Sure p
    → ((a : A) → Sure (f a))
    → Sure (p >>= f)
>>=-Sure p f hp hf most = >>=-Ends most 0 p f (hp most) (λ a le. hf a (most - 0))

if-Ends {ℓ} :
    {A : Type ℓ} (most drop : ℕ) (c : Bool) (p q : Parser A)
    → Ends most drop p
    → Ends most drop q
    → Ends most drop (if c then p else q)
if-Ends most drop true p q hp hq = hp
if-Ends most drop false p q hp hq = hq

Within-spent {ℓ} : {A : Type ℓ} (drop n : ℕ) (r : Result A) → Within drop n r → r ≢ spent
Within-spent drop n (ok a rest) w = λ e. cc
Within-spent drop n (failed e) w = λ q. cc
Within-spent drop n spent w = absurd w

-- A test that refuses, before a parser.
guard-Ends {ℓ} :
    {A : Type ℓ} (most : ℕ) (c : Bool) (e : Error) (p : Parser A)
    → Ends most 0 p
    → Ends most 0 (if c then fail e else p)
guard-Ends most c e p = if-Ends most 0 c (fail e) p (λ bs h. tt)

Within-pure {ℓ κ} :
    {A : Type ℓ} {B : Type κ} (drop drop' m n : ℕ) (r : Result A) (f : A → B)
    → drop' + m ≤ drop + n
    → Within drop m r
    → Within drop' n (next r (λ a. pure (f a)))
Within-pure drop drop' m n (ok a rest) f h w = omega (arith, h, w)
Within-pure drop drop' m n (failed e) f h w = tt
Within-pure drop drop' m n spent f h w = w

read_full-Within : (n : ℕ) (bs : Bytes) → Within n (length bs) (read_full n bs)
unfolding read_full
read_full-Within zero bs = omega arith
read_full-Within (suc n) [] = tt
read_full-Within (suc n) (b ∷ bs) =
    Within-pure n (suc n) (length bs) (suc (length bs)) (read_full n bs) (λ taken. b ∷ taken)
      (omega arith) (read_full-Within n bs)

uint-Within : (width : ℕ) (bs : Bytes) → Within width (length bs) (uint width bs)
unfolding uint
uint-Within width bs =
    Within-pure width width (length bs) (length bs) (read_full width bs) little_endian (omega arith)
      (read_full-Within width bs)

read_full-Sure : (n : ℕ) → Sure (read_full n)
read_full-Sure n most bs h =
    Within-le n (length bs) (length bs) (read_full n bs) (omega arith) (read_full-Within n bs)

uint-Sure : (n : ℕ) → Sure (uint n)
uint-Sure n most bs h =
    Within-le n (length bs) (length bs) (uint n bs) (omega arith) (uint-Within n bs)

str-Sure : Sure str
unfolding str
str-Sure =
    >>=-Sure (uint 8) (λ n. if ltb max_string n then fail long_string else read_full n)
      (uint-Sure 8)
      (λ n most.
        guard-Ends most (ltb max_string n) long_string (read_full n) (read_full-Sure n most))

scalar_of-Sure : (kind : Kind) → Sure (scalar_of kind)
unfolding scalar_of
scalar_of-Sure (unsigned w) =
    >>=-Sure (uint w) (λ x. pure (some x)) (uint-Sure w) (λ x. pure-Sure (some x))
scalar_of-Sure (signed w) =
    >>=-Sure (uint w) (λ x. pure (some (extend w x))) (uint-Sure w)
      (λ x. pure-Sure (some (extend w x)))
scalar_of-Sure (skipped w) =
    >>=-Sure (read_full w) (λ x. pure {A = Option ℕ} none) (read_full-Sure w)
      (λ x. pure-Sure {A = Option ℕ} none)
scalar_of-Sure text =
    >>=-Sure str (λ x. pure {A = Option ℕ} none) str-Sure (λ x. pure-Sure {A = Option ℕ} none)
scalar_of-Sure unknown = λ most bs h. tt

scalar-Sure : (typ : ℕ) → Sure (scalar typ)
unfolding scalar
scalar-Sure typ = scalar_of-Sure (kind_of typ)

scalars-Sure : (sum : Bool) (elem total n : ℕ) → Sure (scalars sum elem total n)
unfolding scalars
scalars-Sure sum elem total zero = pure-Sure total
scalars-Sure sum elem total (suc n) =
    >>=-Sure (scalar elem) (λ v. scalars sum elem (add_if sum v total) n) (scalar-Sure elem)
      (λ v. scalars-Sure sum elem (add_if sum v total) n)

arrays-Ends : (most : ℕ) (p : Parser (ℕ × ℕ)) (n : ℕ) → Ends most 0 p → Ends most 0 (arrays p n)
unfolding arrays
arrays-Ends most p zero h = pure-Sure {A = Unit {0}} tt most
arrays-Ends most p (suc n) h =
    >>=-Ends most 0 p (λ x. arrays p n) h
      (λ x le. arrays-Ends (most - 0) p n (λ bs short. h bs (omega (arith, short))))

elements-Ends :
    (most : ℕ) (p : Parser (ℕ × ℕ)) (sum : Bool) (elem n : ℕ)
    → Ends most 0 p
    → Ends most 0 (elements p sum elem n)
unfolding elements
elements-Ends most p sum elem n h =
    let flat : Parser (ℕ × ℕ) = scalars sum elem 0 n >>= λ total. pure (total, n) in
    let nested : Parser (ℕ × ℕ) = arrays p n >>= λ x. pure (0, n) in
    guard-Ends most (ltb max_array n) long_array (if elem == t_array then nested else flat) (
      if-Ends most 0 (elem == t_array) nested flat
        (>>=-Ends most 0 (arrays p n) (λ x. pure (0, n)) (arrays-Ends most p n h)
          (λ x le. pure-Sure {A = ℕ × ℕ} (0, n) (most - 0)))
        (>>=-Sure (scalars sum elem 0 n) (λ total. pure (total, n)) (scalars-Sure sum elem 0 n)
          (λ total. pure-Sure {A = ℕ × ℕ} (total, n)) most))

-- The element type and the count take twelve bytes before the next level.
skip_array-Ends :
    (fuel most : ℕ) (sum : Bool) → most < 12 * fuel → Ends most 0 (skip_array fuel sum)
unfolding skip_array
skip_array-Ends zero most sum h = absurd (omega (arith, h))
skip_array-Ends (suc fuel) most sum h =
    let inner : ℕ → ℕ → Parser (ℕ × ℕ) = λ elem n. elements (skip_array fuel false) sum elem n in
    >>=-Ends most 4 (uint 4) (λ elem. uint 8 >>= inner elem) (λ bs short. uint-Within 4 bs)
      (λ elem four.
        >>=-Ends (most - 4) 8 (uint 8) (inner elem) (λ bs short. uint-Within 8 bs)
          (λ n eight.
            elements-Ends (most - 4 - 8) (skip_array fuel false) sum elem n
              (skip_array-Ends fuel (most - 4 - 8) false (omega (arith, h, four, eight)))))
