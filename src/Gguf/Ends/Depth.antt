-- ===== src/Gguf/Ends/Depth.antt =====
-- internal/gguf/gguf.go: how deep `skipArray` calls itself.
use flockd.Base.{ℕ, zero, suc, ◌*◌, ◌<◌, ◌≡◌, ◌≢◌, refl, Bool, false, [], length, arith}
use flockd.Gguf.{Bytes, ok, spent, Parser, ◌>>=◌, pure, uint, t_array, elements, arrays, skip_array}
use flockd.Gguf.Print.{put_uint}
use flockd.Gguf.Values.{uint-put_uint}
use flockd.Gguf.Levels.{length-put_uint}
use flockd.Gguf.Ends.{Within-spent, skip_array-Ends}

-- So many nested arrays of one element, and no more bytes.
unfoldable pub tower : ℕ → Bytes
unfolding put_uint
tower zero = []
tower (suc k) = put_uint 4 t_array (put_uint 8 1 (tower k))

length-tower : (k : ℕ) → length (tower k) ≡ 12 * k
unfolding tower
length-tower zero = refl
length-tower (suc k) = omega (
  arith,
  length-put_uint 4 t_array (put_uint 8 1 (tower k)),
  length-put_uint 8 1 (tower k),
  length-tower k,
)

next_step :
    {A B : Type 0} (p : Parser A) (f : A → Parser B) (a : A) (bs mid : Bytes)
    → p bs ≡ ok a mid
    → f a mid ≡ spent
    → (p >>= f) bs ≡ spent
next_step p f a bs mid h e = rw h e

next_spent :
    {A B : Type 0} (p : Parser A) (f : A → Parser B) (bs : Bytes)
    → p bs ≡ spent
    → (p >>= f) bs ≡ spent
next_spent p f bs h = rw h refl

elements_spent :
    (one : Parser (ℕ × ℕ)) (sum : Bool) (bs : Bytes)
    → one bs ≡ spent
    → elements one sum t_array 1 bs ≡ spent
unfolding elements arrays
elements_spent one sum bs h =
    next_spent (arrays one 1) (λ x. pure {A = ℕ × ℕ} (0, 1)) bs
      (next_spent one (λ x. arrays one 0) bs h)

-- Each level of a tower takes a call.
tower_spent : (k : ℕ) (sum : Bool) → skip_array k sum (tower k) ≡ spent
unfolding skip_array tower
tower_spent zero sum = refl
tower_spent (suc k) sum =
    let inner : ℕ → ℕ → Parser (ℕ × ℕ) = λ elem n. elements (skip_array k false) sum elem n in
    next_step (uint 4) (λ elem. uint 8 >>= inner elem) t_array
      (put_uint 4 t_array (put_uint 8 1 (tower k))) (put_uint 8 1 (tower k))
      (uint-put_uint 4 t_array (put_uint 8 1 (tower k)) (omega arith))
      (next_step (uint 8) (inner t_array) 1 (put_uint 8 1 (tower k)) (tower k)
        (uint-put_uint 8 1 (tower k) (omega arith))
        (elements_spent (skip_array k false) sum (tower k) (tower_spent k false)))

-- `skipArray` ends: with at most so many calls of itself inside each other, the first included, it comes
-- to a value or an error on every input of less than twelve times as many bytes. Nothing less is enough:
-- some input of just twelve times as many bytes wants more. So the depth of its calls grows with the
-- file, and no limit of the reader bounds it.
pub skip_array_depth :
    (depth : ℕ) (sum : Bool) (bs : Bytes)
    → length bs < 12 * depth
    → (skip_array depth sum bs ≢ spent)
      × (deep : Bytes) × (length deep ≡ 12 * depth)
      × (skip_array depth sum deep ≡ spent)
skip_array_depth depth sum bs h = (
  Within-spent 0 (length bs) (skip_array depth sum bs)
      (skip_array-Ends depth (length bs) sum h bs (omega arith)),
  tower depth,
  length-tower depth,
  tower_spent depth sum,
)
