-- ===== src/Gguf/Extends.antt =====
-- internal/gguf/gguf.go: what a parser accepts, it accepts whatever follows, and with any fuel.
pub mod Header
use flockd.Base.{
  ℕ, zero, suc, ◌≤◌, ◌==◌, ◌≡◌, refl, Bool, true, false, [], ◌∷◌, ◌++◌, none, some, ltb, ◌&&◌, ◌||◌,
  if◌then◌else◌, arith, Bool-cases, inl, inr,
}
use flockd.Gguf.Header.{
  Notes, note_int, note_list, want_list, value, entries, general_architecture, Meta, no_notes,
  meta_of, counted, versioned, body, magic,
}
use flockd.Gguf.{
  Bytes, Error, Result, ok, failed, spent, Parser, pure, fail, next, ◌>>=◌, read_full, uint, str,
  Kind, unsigned, signed, skipped, text, unknown, same, t_string, unsupported_version,
  implausible_count, not_gguf, kind_of, scalar_of, scalar, add_if, scalars, arrays, skip_array,
  long_string, unknown_type, long_array, elements, max_string, max_array, t_array, extend,
  little_endian,
}

-- `q` accepts all that `p` accepts, with the same value, and leaves what follows.
abbrev pub Extends {ℓ} : {A : Type ℓ} → Parser A → Parser A → Type ℓ
Extends {A} p q =
    (a : A) (bs rest more : Bytes) → p bs ≡ ok a rest → q (bs ++ more) ≡ ok a (rest ++ more)

next-eq-ok {ℓ κ} :
    {A : Type ℓ} {B : Type κ} (r : Result A) (f : A → Parser B) (b : B) (rest : Bytes)
    → next r f ≡ ok b rest
    → (a : A) × (mid : Bytes) × (r ≡ ok a mid) × (f a mid ≡ ok b rest)
next-eq-ok (ok a mid) f b rest h = (a, mid, refl, h)
next-eq-ok (failed e) f b rest h = cc
next-eq-ok spent f b rest h = cc

module _ {ℓ κ} {A : Type ℓ} {B : Type κ} where
  pub >>=-Extends :
      (p q : Parser A) (f g : A → Parser B)
      → Extends p q
      → ((a : A) → Extends (f a) (g a))
      → Extends (p >>= f) (q >>= g)
  >>=-Extends p q f g hp hf b bs rest more h =
      let (a, mid, first, second) = next-eq-ok (p bs) f b rest h in
      rw (hp a bs mid more first) (hf a b mid rest more second)

abbrev pub Stable {ℓ} : {A : Type ℓ} → Parser A → Type ℓ
Stable p = Extends p p

>>=-Stable {ℓ κ} :
    {A : Type ℓ} {B : Type κ} (p : Parser A) (f : A → Parser B)
    → Stable p
    → ((a : A) → Stable (f a))
    → Stable (p >>= f)
>>=-Stable p f = >>=-Extends p p f f

pure-Stable {ℓ} : {A : Type ℓ} (a : A) → Stable (pure a)
pure-Stable a b bs rest more h = cc

fail-Extends {ℓ} : {A : Type ℓ} (e : Error) (q : Parser A) → Extends (fail e) q
fail-Extends e q b bs rest more h = cc

if-Extends {ℓ} :
    {A : Type ℓ} (c : Bool) (p p' q q' : Parser A)
    → Extends p p'
    → Extends q q'
    → Extends (if c then p else q) (if c then p' else q')
if-Extends true p p' q q' hp hq = hp
if-Extends false p p' q q' hp hq = hq

-- A test that refuses, before a parser.
guard-Extends {ℓ} :
    {A : Type ℓ} (c : Bool) (e : Error) (p q : Parser A)
    → Extends p q
    → Extends (if c then fail e else p) (if c then fail e else q)
guard-Extends c e p q = if-Extends c (fail e) (fail e) p q (fail-Extends e (fail e))

pub read_full-Stable : (n : ℕ) → Stable (read_full n)
unfolding read_full
read_full-Stable zero a bs rest more h = cc
read_full-Stable (suc n) a [] rest more h = cc
read_full-Stable (suc n) a (b ∷ bs) rest more h =
    >>=-Stable (read_full n) (λ taken. pure (b ∷ taken)) (read_full-Stable n)
      (λ taken. pure-Stable (b ∷ taken)) a bs rest more h

uint-Stable : (width : ℕ) → Stable (uint width)
unfolding uint
uint-Stable width =
    >>=-Stable (read_full width) (λ bs. pure (little_endian bs)) (read_full-Stable width)
      (λ bs. pure-Stable (little_endian bs))

str-Stable : Stable str
unfolding str
str-Stable =
    >>=-Stable (uint 8) (λ n. if ltb max_string n then fail long_string else read_full n)
      (uint-Stable 8)
      (λ n.
        guard-Extends (ltb max_string n) long_string (read_full n) (read_full n)
          (read_full-Stable n))

scalar_of-Stable : (kind : Kind) → Stable (scalar_of kind)
unfolding scalar_of
scalar_of-Stable (unsigned w) =
    >>=-Stable (uint w) (λ x. pure (some x)) (uint-Stable w) (λ x. pure-Stable (some x))
scalar_of-Stable (signed w) =
    >>=-Stable (uint w) (λ x. pure (some (extend w x))) (uint-Stable w)
      (λ x. pure-Stable (some (extend w x)))
scalar_of-Stable (skipped w) =
    >>=-Stable (read_full w) (λ x. pure none) (read_full-Stable w) (λ x. pure-Stable none)
scalar_of-Stable text = >>=-Stable str (λ x. pure none) str-Stable (λ x. pure-Stable none)
scalar_of-Stable unknown = fail-Extends unknown_type (fail unknown_type)

scalar-Stable : (typ : ℕ) → Stable (scalar typ)
unfolding scalar
scalar-Stable typ = scalar_of-Stable (kind_of typ)

scalars-Stable : (sum : Bool) (elem total n : ℕ) → Stable (scalars sum elem total n)
unfolding scalars
scalars-Stable sum elem total zero = pure-Stable total
scalars-Stable sum elem total (suc n) =
    >>=-Stable (scalar elem) (λ v. scalars sum elem (add_if sum v total) n) (scalar-Stable elem)
      (λ v. scalars-Stable sum elem (add_if sum v total) n)

arrays-Extends : (p q : Parser (ℕ × ℕ)) (n : ℕ) → Extends p q → Extends (arrays p n) (arrays q n)
unfolding arrays
arrays-Extends p q zero h = pure-Stable tt
arrays-Extends p q (suc n) h =
    >>=-Extends p q (λ x. arrays p n) (λ x. arrays q n) h (λ x. arrays-Extends p q n h)

elements-Extends :
    (p q : Parser (ℕ × ℕ)) (sum : Bool) (elem n : ℕ)
    → Extends p q
    → Extends (elements p sum elem n) (elements q sum elem n)
unfolding elements
elements-Extends p q sum elem n h =
    let flat : Parser (ℕ × ℕ) = scalars sum elem 0 n >>= λ total. pure (total, n) in
    let nested : Parser (ℕ × ℕ) → Parser (ℕ × ℕ) = λ r. arrays r n >>= λ x. pure (0, n) in
    guard-Extends (ltb max_array n) long_array (if elem == t_array then nested p else flat)
      (if elem == t_array then nested q else flat)
      (if-Extends (elem == t_array) (nested p) (nested q) flat flat
        (>>=-Extends (arrays p n) (arrays q n) (λ x. pure (0, n)) (λ x. pure (0, n))
          (arrays-Extends p q n h) (λ x. pure-Stable (0, n)))
        (>>=-Stable (scalars sum elem 0 n) (λ total. pure (total, n)) (scalars-Stable sum elem 0 n)
          (λ total. pure-Stable (total, n))))

-- More fuel changes nothing of an array that is accepted.
pub skip_array-Extends :
    (f g : ℕ) (sum : Bool) → f ≤ g → Extends (skip_array f sum) (skip_array g sum)
unfolding skip_array
skip_array-Extends zero g sum h = λ a bs rest more e. cc
skip_array-Extends (suc f) zero sum h = absurd (omega (arith, h))
skip_array-Extends (suc f) (suc g) sum h =
    let inner = λ (k elem n : ℕ). elements (skip_array k false) sum elem n in
    let outer = λ (k elem : ℕ). (uint 8 >>= λ n. inner k elem n) in
    >>=-Extends (uint 4) (uint 4) (outer f) (outer g) (uint-Stable 4) (λ elem.
      >>=-Extends (uint 8) (uint 8) (inner f elem) (inner g elem) (uint-Stable 8) (λ n.
        elements-Extends (skip_array f false) (skip_array g false) sum elem n
          (skip_array-Extends f g false (omega (arith, h)))))
