-- ===== src/Gguf/Arrays.antt =====
-- internal/gguf/gguf.go: arrays, nested ones included, are skipped as they are written.
use flockd.Base.{ℕ, zero, suc, ◌≤◌, ◌<◌, ◌==◌, ◌≡◌, refl, Bool, false, length, ltb, arith}
use flockd.Gguf.{
  Bytes, Result, ok, Parser, pure, ◌>>=◌, kind_of, max_array, t_array, uint, scalars, arrays,
  elements, skip_array,
}
use flockd.Gguf.Print.{
  put_uint, put_items, Array, Arrays, flat, nested, end, more, count, put_array, put_arrays, depth,
  depths, ArrayFits, ArraysFit,
}
use flockd.Gguf.Values.{>>=-ok, uint-put_uint, scalars-put_items, sum_if}

-- What `skip_array` says of an array: the sum of its integers where it is asked for, and its length.
abbrev pub found : Bool → Array → ℕ × ℕ
found sum (flat typ items) = (sum_if sum (kind_of typ) items, length items)
found sum (nested inner) = (0, count inner)

skip_array-head :
    (fuel : ℕ) (sum : Bool) (elem n : ℕ) (mid : Bytes) {r : Result (ℕ × ℕ)}
    → elem < 4_294_967_296
    → n ≤ max_array
    → elements (skip_array fuel false) sum elem n mid ≡ r
    → skip_array (suc fuel) sum (put_uint 4 elem (put_uint 8 n mid)) ≡ r
unfolding skip_array
skip_array-head fuel sum elem n mid he hn e =
    let inner : ℕ → ℕ → Parser (ℕ × ℕ) = λ el k. elements (skip_array fuel false) sum el k in
    >>=-ok (uint 4) (λ el. uint 8 >>= inner el) elem (put_uint 4 elem (put_uint 8 n mid))
      (put_uint 8 n mid) (uint-put_uint 4 elem (put_uint 8 n mid) he)
      (>>=-ok (uint 8) (inner elem) n (put_uint 8 n mid) mid
        (uint-put_uint 8 n mid (omega (arith, hn))) e)

elements_flat :
    (one : Parser (ℕ × ℕ)) (sum : Bool) (typ total n : ℕ) (bs rest : Bytes)
    → typ == t_array ≡ false
    → n ≤ max_array
    → scalars sum typ 0 n bs ≡ ok total rest
    → elements one sum typ n bs ≡ ok (total, n) rest
unfolding elements
elements_flat one sum typ total n bs rest other h e =
    let small : ltb max_array n ≡ false = ground (arith, h) in
    rw small
      (rw other (>>=-ok (scalars sum typ 0 n) (λ t. pure {A = ℕ × ℕ} (t, n)) total bs rest e refl))

elements_nested :
    (one : Parser (ℕ × ℕ)) (sum : Bool) (n : ℕ) (bs rest : Bytes)
    → n ≤ max_array
    → arrays one n bs ≡ ok tt rest
    → elements one sum t_array n bs ≡ ok (0, n) rest
unfolding elements
elements_nested one sum n bs rest h e =
    let small : ltb max_array n ≡ false = ground (arith, h) in
    rw small (>>=-ok (arrays one n) (λ t. pure {A = ℕ × ℕ} (0, n)) tt bs rest e refl)

arrays_none : (one : Parser (ℕ × ℕ)) (rest : Bytes) → arrays one 0 rest ≡ ok tt rest
unfolding arrays
arrays_none one rest = refl

arrays_more :
    (one : Parser (ℕ × ℕ)) (n : ℕ) (a : ℕ × ℕ) (bs mid rest : Bytes)
    → one bs ≡ ok a mid
    → arrays one n mid ≡ ok tt rest
    → arrays one (suc n) bs ≡ ok tt rest
unfolding arrays
arrays_more one n a bs mid rest h e = >>=-ok one (λ t. arrays one n) a bs mid h e

mutual
  unfolding put_array put_arrays depth depths ArrayFits ArraysFit

  pub skip_array-put_array :
      (fuel : ℕ) (sum : Bool) (a : Array) (rest : Bytes)
      → ArrayFits a
      → depth a ≤ fuel
      → skip_array fuel sum (put_array a rest) ≡ ok (found sum a) rest
  skip_array-put_array zero sum (flat typ items) rest h d = absurd (omega (arith, d))
  skip_array-put_array zero sum (nested inner) rest h d = absurd (omega (arith, d))
  skip_array-put_array (suc fuel) sum (flat typ items) rest h d =
      skip_array-head fuel sum typ (length items) (put_items (kind_of typ) items rest) h.0 h.2 (
        elements_flat (skip_array fuel false) sum typ (sum_if sum (kind_of typ) items)
          (length items) (put_items (kind_of typ) items rest) rest h.1 h.2
          (scalars-put_items sum typ items rest h.3))
  skip_array-put_array (suc fuel) sum (nested inner) rest h d =
      skip_array-head fuel sum t_array (count inner) (put_arrays inner rest) (omega arith) h.0 (
        elements_nested (skip_array fuel false) sum (count inner) (put_arrays inner rest) rest h.0
          (arrays-put_arrays fuel inner rest h.1 (omega (arith, d))))

  arrays-put_arrays :
      (fuel : ℕ) (inner : Arrays) (rest : Bytes)
      → ArraysFit inner
      → depths inner ≤ fuel
      → arrays (skip_array fuel false) (count inner) (put_arrays inner rest) ≡ ok tt rest
  arrays-put_arrays fuel end rest h d = arrays_none (skip_array fuel false) rest
  arrays-put_arrays fuel (more a inner) rest h d =
      arrays_more (skip_array fuel false) (count inner) (found false a)
        (put_array a (put_arrays inner rest)) (put_arrays inner rest) rest
        (skip_array-put_array fuel false a (put_arrays inner rest) h.0 (omega (arith, d)))
        (arrays-put_arrays fuel inner rest h.1 (omega (arith, d)))
