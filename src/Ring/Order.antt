-- ===== src/Ring/Order.antt =====
-- internal/activity/activity.go (`List`) and internal/live/live.go (`Recent`): a ring against its history.
use flockd.Base.{
  ℕ, zero, suc, ◌+◌, ◌-◌, ◌%◌, ◌≤◌, ◌<◌, ◌≡◌, ◌≢◌, refl, sym, ap, ◌∙◌, min, true, false, ◌&&◌, List,
  [], ◌∷◌, arith, ltb, leb, le→leb, ◌==◌, if◌then◌else◌, length, get_elem?, take, length-set,
  length-replicate, get_elem?-set_self, get_elem?-set_ne,
}
use native.Mathlib.Decide.{dec_le, dec_lt}
use native.Mathlib.Numerals.{add-one}
use native.Mathlib.Nat.{mod-eq_of_lt, mod-eq-sub-mod, mod_self}
use flockd.Ring.{Ring, new, push, recent, walk, kept, capacity_of, cons_some}

module _ {ℓ} {A : Type ℓ} (zero_value : A) (n : ℕ) where
  -- The ring after its history, newest entry first.
  unfoldable pub after : List A → Ring A
  after [] = new zero_value n
  after (e ∷ h) = push (after h) e

-- The position that `i` pushes ago wrote.
abbrev back : ℕ → ℕ → ℕ → ℕ
back n next i = (next + n - i) % n

back_cases :
    (n next i : ℕ)
    → next < n
    → 0 < i
    → i ≤ n
    → back n next i ≡ (if leb i next then next - i else next + n - i)
back_cases n next i l p q = elim (dec_le i next) [
  | yes h ↦
      let e : next + n - i ≡ next - i + n = omega arith in
      let f : leb i next ≡ true = le→leb i next h in
      rw (e, f)
        (mod-eq-sub-mod {n = next - i + n} {m = n} (omega arith)
          ∙ ap (λ (k : ℕ). k % n) (omega arith)
          ∙ mod-eq_of_lt (omega arith))
  | no h ↦ let f : leb i next ≡ false = ground arith in rw f (mod-eq_of_lt (omega arith))
]

-- The position after one more push.
succ_cases : (n next : ℕ) → next < n → (next + 1) % n ≡ (if next + 1 == n then 0 else next + 1)
succ_cases n next l = elim (dec_lt (next + 1) n) [
  | yes h ↦ let f : (next + 1 == n) ≡ false = ground arith in rw f (mod-eq_of_lt h)
  | no h ↦
      let e : next + 1 ≡ n = omega arith in
      let f : (next + 1 == n) ≡ true = ground arith in rw f (rw e (mod_self n))
]

record Shows {ℓ} {A : Type ℓ} (n : ℕ) (r : Ring A) (h : List A) : Type ℓ where
  size : length r.buf ≡ n
  in_range : r.next < n
  entries : (i : ℕ) → i < length h → i < n → get_elem? r.buf (back n r.next (suc i)) ≡ get_elem? h i
  filled : r.full ≡ leb n (length h)
  partial : length h < n → r.next ≡ length h

module _ (n next i : ℕ) (l : next < n) where
  back_self : back n ((next + 1) % n) 1 ≡ next
  back_self = ground (arith, succ_cases n next l, back_cases n ((next + 1) % n) 1)

  back-suc : 0 < i → suc i ≤ n → back n ((next + 1) % n) (suc i) ≡ back n next i
  back-suc p q =
      ground
        (arith, succ_cases n next l, back_cases n ((next + 1) % n) (suc i), back_cases n next i)

  back-ne : 0 < i → i < n → back n next i ≢ next
  back-ne p q e = ground (arith, back_cases n next i)

module _ {ℓ} {A : Type ℓ} (n : ℕ) (r : Ring A) (h : List A) (e : A) (s : Shows n r h) where
  push-entries :
      (i : ℕ)
      → i < length (e ∷ h)
      → i < n
      → get_elem? (push r e).buf (back n (push r e).next (suc i)) ≡ get_elem? (e ∷ h) i
  unfolding push
  push-entries zero l m =
      rw (s.size, back_self n r.next 0 s.in_range) (get_elem?-set_self r.buf r.next e (omega arith))
  push-entries (suc i) l m =
      let bound : suc (suc i) ≤ n = omega arith in
      rw (s.size, back-suc n r.next (suc i) s.in_range (omega arith) bound)
        (get_elem?-set_ne r.buf e
            (λ q. back-ne n r.next (suc i) s.in_range (omega arith) (omega arith) (sym q))
          ∙ s.entries i (omega arith) (omega arith))

  push-Shows : Shows n (push r e) (e ∷ h)
  unfolding push
  push-Shows = record {
    size = length-set r.buf r.next e ∙ s.size;
    in_range = rw s.size (ground (arith, succ_cases n r.next s.in_range, s.in_range));
    entries = push-entries;
    filled = rw s.size (ground (arith, succ_cases n r.next s.in_range, s.filled, s.partial));
    partial = λ l. rw s.size (ground (arith, succ_cases n r.next s.in_range, s.partial));
  }

-- The entries of a list from position `i` on.
module _ {ℓ} {A : Type ℓ} where
  slice : List A → ℕ → ℕ → List A
  slice h i zero = []
  slice h i (suc count) = cons_some (get_elem? h i) (slice h (suc i) count)

  slice-cons : (e : A) (h : List A) (i count : ℕ) → slice (e ∷ h) (suc i) count ≡ slice h i count
  unfolding slice
  slice-cons e h i zero = refl
  slice-cons e h i (suc count) = ap (cons_some (get_elem? h i)) (slice-cons e h (suc i) count)

  slice-nil : (i count : ℕ) → slice [] i count ≡ []
  unfolding slice
  slice-nil i zero = refl
  slice-nil i (suc count) = slice-nil (suc i) count

  slice-take : (h : List A) (count : ℕ) → slice h 0 count ≡ take count h
  unfolding slice
  slice-take h zero = refl
  slice-take [] (suc count) = slice-nil 1 count
  slice-take (e ∷ h) (suc count) = ap (◌∷◌ e) (slice-cons e h 0 count ∙ slice-take h count)

  walk-slice :
      (n : ℕ) (r : Ring A) (h : List A)
      → Shows n r h
      → (count i : ℕ) → i + count ≤ length h
      → i + count ≤ n
      → walk r (suc i) count ≡ slice h i count
  unfolding walk slice
  walk-slice n r h s zero i p q = refl
  walk-slice n r h s (suc count) i p q =
      rw (s.size, add-one, s.entries i (omega arith) (omega arith))
        (ap (cons_some (get_elem? h i))
          (walk-slice n r h s count (suc i) (omega arith) (omega arith)))

new-Shows {ℓ} : {A : Type ℓ} (zero_value : A) (n : ℕ) → Shows (capacity_of n) (new zero_value n) []
unfolding new
new-Shows zero_value n = record {
  size = length-replicate (capacity_of n) zero_value;
  in_range = ground arith;
  entries = λ i p q. absurd (omega arith);
  filled = ground arith;
  partial = λ l. refl;
}

module _ {ℓ} {A : Type ℓ} (zero_value : A) (n : ℕ) where
  after-Shows : (h : List A) → Shows (capacity_of n) (after zero_value n h) h
  unfolding after
  after-Shows [] = new-Shows zero_value n
  after-Shows (e ∷ h) = push-Shows (capacity_of n) (after zero_value n h) h e (after-Shows h)

  -- How many entries a read with this limit gives: no more than were ever pushed, than the ring holds,
  -- and, where the limit is not 0, than the limit.
  abbrev pub shown : List A → ℕ → ℕ
  shown h limit =
      let held = min (length h) (capacity_of n) in if limit == 0 then held else min limit held

  kept-after : (h : List A) → kept (after zero_value n h) ≡ min (length h) (capacity_of n)
  kept-after h = let s = after-Shows h in ground (arith, s.filled, s.partial, s.size)

  shown_lem :
      (h : List A) (limit k : ℕ)
      → k ≡ min (length h) (capacity_of n)
      → (if ltb 0 limit && ltb limit k then limit else k) ≡ shown h limit
  shown_lem h limit k e = ground arith

  shown-le : (h : List A) (limit : ℕ) → (shown h limit ≤ length h) × (shown h limit ≤ capacity_of n)
  shown-le h limit = ground arith

  -- Whatever was pushed into a ring, a read shows the newest of it, newest first, up to the ring's
  -- capacity and the limit of the read.
  pub recent-after :
      (h : List A) (limit : ℕ) → recent (after zero_value n h) limit ≡ take (shown h limit) h
  unfolding recent
  recent-after h limit = rw (shown_lem h limit (kept (after zero_value n h)) (kept-after h)) (
      walk-slice (capacity_of n) (after zero_value n h) h (after-Shows h) (shown h limit) 0
        (ground (arith, shown-le h limit)) (ground (arith, shown-le h limit))
      ∙ slice-take h (shown h limit))
