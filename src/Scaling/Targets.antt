-- ===== src/Scaling/Targets.antt =====
-- internal/modelops/scale.go: the slot counts that a resize aims at.
use flockd.Base.{
  ℕ, zero, suc, ◌-◌, ◌*◌, ◌/◌, ◌≤◌, ◌<◌, ◌==◌, ◌≡◌, ap, ◌⊎◌, refl, sym, if◌then◌else◌, inl, inr,
  max, arith, Bool-cases, ltb, leb,
}
use flockd.Scaling.{pow2, bit_len, pow2ceil, grow_target, shrink_target}

pow2_pos : (k : ℕ) → 0 < pow2 k
pow2_pos zero = omega arith
pow2_pos (suc k) = omega (arith, pow2_pos k)

pow2_mono : (j k : ℕ) → j ≤ k → pow2 j ≤ pow2 k
pow2_mono zero k h = omega (arith, pow2_pos k)
pow2_mono (suc j) zero h = absurd (omega arith)
pow2_mono (suc j) (suc k) h = omega (arith, pow2_mono j k (omega arith))

-- A power of two above another has the larger exponent.
pow2_reflects : (j k : ℕ) → pow2 j < pow2 k → j < k
pow2_reflects j k h = elim (Bool-cases (ltb j k)) [
  | inl e ↦ ground arith
  | inr e ↦ absurd (omega (arith, pow2_mono k j (ground arith)))
]

bit_len-lt : (fuel n : ℕ) → n ≤ fuel → n < pow2 (bit_len fuel n)
unfolding bit_len
bit_len-lt zero n h = omega arith
bit_len-lt (suc fuel) n h = ground (arith, bit_len-lt fuel (n / 2))

bit_len_zero : (fuel : ℕ) → bit_len fuel 0 ≡ 0
unfolding bit_len
bit_len_zero zero = refl
bit_len_zero (suc fuel) = refl

-- A half that is 0 leaves one digit.
bit_len_half : (fuel n : ℕ) → n / 2 ≡ 0 → bit_len fuel (n / 2) ≡ 0
bit_len_half fuel n e = rw e (bit_len_zero fuel)

bit_len-le : (fuel n : ℕ) → n ≤ fuel → 0 < n → pow2 (bit_len fuel n) ≤ 2 * n
unfolding bit_len
bit_len-le zero n h p = absurd (omega arith)
bit_len-le (suc fuel) n h p = ground (arith, bit_len_half fuel n, bit_len-le fuel (n / 2))

-- The exponent of `pow2ceil`.
exponent : ℕ → ℕ
exponent n = if leb n 1 then 0 else bit_len (n - 1) (n - 1)

pow2-exponent : (n : ℕ) → pow2 (exponent n) ≡ pow2ceil n
unfolding exponent pow2ceil
pow2-exponent n = ground arith

pow2ceil_small : (n : ℕ) → n ≤ 1 → pow2ceil n ≡ 1
unfolding pow2ceil
pow2ceil_small n h = ground arith

le-pow2ceil : (n : ℕ) → n ≤ pow2ceil n
unfolding pow2ceil
le-pow2ceil n = ground (arith, bit_len-lt (n - 1) (n - 1))

-- Half of it is below the number.
pow2ceil_half : (n : ℕ) → 1 < n → pow2ceil n < 2 * n
unfolding pow2ceil
pow2ceil_half n h = ground (arith, bit_len-le (n - 1) (n - 1))

pow2ceil-le : (n k : ℕ) → n ≤ pow2 k → pow2ceil n ≤ pow2 k
pow2ceil-le n k h = elim (Bool-cases (leb n 1)) [
  | inl small ↦ rw (pow2ceil_small n (ground arith)) (omega (arith, pow2_pos k))
  | inr large ↦ rw (← pow2-exponent n) (
      pow2_mono (exponent n) k (
        omega (
          arith,
          pow2_reflects (exponent n) (suc k)
              (omega (arith, pow2-exponent n, pow2ceil_half n (ground arith))),
        )))
]

-- `pow2ceil` gives the smallest power of two that is at least the number.
pub pow2ceil_least :
    (n : ℕ)
    → ((k : ℕ) × (pow2ceil n ≡ pow2 k))
      × (n ≤ pow2ceil n)
      × ((k : ℕ) → n ≤ pow2 k → pow2ceil n ≤ pow2 k)
pow2ceil_least n = ((exponent n, sym (pow2-exponent n)), le-pow2ceil n, pow2ceil-le n)

-- A model grows within its ceiling: to the ceiling, or to at least twice its slots and no fewer than the
-- peak. It keeps its slots only where it has as many as the ceiling allows.
pub grow_target_bounds :
    (cur peak ceiling : ℕ)
    → 1 ≤ cur
    → cur ≤ ceiling
    → (cur ≤ grow_target cur peak ceiling)
      × (grow_target cur peak ceiling ≤ ceiling)
      × ((grow_target cur peak ceiling ≡ ceiling)
          ⊎ ((cur * 2 ≤ grow_target cur peak ceiling) × (peak ≤ grow_target cur peak ceiling)))
      × (grow_target cur peak ceiling ≡ cur → cur ≡ ceiling)
unfolding grow_target
grow_target_bounds cur peak ceiling p q = ground (arith, le-pow2ceil peak)

-- A model that shrinks goes to at most half of its slots, to no fewer than the floor and the peak; one
-- whose peak or floor is above half of its slots keeps them.
pub shrink_target_bounds :
    (cur peak floor : ℕ)
    → (shrink_target cur peak floor ≤ cur)
      × (shrink_target cur peak floor < cur
          → (shrink_target cur peak floor * 2 ≤ cur)
            × (floor ≤ shrink_target cur peak floor)
            × (peak ≤ shrink_target cur peak floor))
      × (cur < peak * 2 → shrink_target cur peak floor ≡ cur)
      × (cur < floor * 2 → shrink_target cur peak floor ≡ cur)
unfolding shrink_target
shrink_target_bounds cur peak floor = ground (arith, le-pow2ceil (max peak 1))

pow2ceil-pow2 : (k : ℕ) → pow2ceil (pow2 k) ≡ pow2 k
pow2ceil-pow2 k = omega (arith, pow2ceil-le (pow2 k) k (omega arith), le-pow2ceil (pow2 k))

-- A steady demand of a power of two, at least the floor, in a model with twice as many slots: it shrinks
-- to exactly the demand, where the demand has reached the slot count, and that grows it back.
pub steady_demand_flaps :
    (k floor ceiling : ℕ)
    → floor ≤ pow2 k
    → 2 * pow2 k ≤ ceiling
    → (shrink_target (2 * pow2 k) (pow2 k) floor ≡ pow2 k)
      × (grow_target (pow2 k) (pow2 k) ceiling ≡ 2 * pow2 k)
unfolding shrink_target grow_target
steady_demand_flaps k floor ceiling p q =
    let e : max (pow2 k) 1 ≡ pow2 k = omega (arith, pow2_pos k) in
    rw e (rw (pow2ceil-pow2 k) (ground arith, ground (arith, pow2_pos k)))

-- `bits.Len` ends: any fuel from its number on gives the same count, as each round halves the number.
pub bit_len_fuel : (fuel more n : ℕ) → n ≤ fuel → n ≤ more → bit_len fuel n ≡ bit_len more n
unfolding bit_len
bit_len_fuel zero zero n h k = refl
bit_len_fuel zero (suc more) n h k = ground (arith, h)
bit_len_fuel (suc fuel) zero n h k = ground (arith, k)
bit_len_fuel (suc fuel) (suc more) n h k = elim (Bool-cases (n == 0)) [
  | inl e ↦ rw e refl
  | inr e ↦
      rw e (ap suc (bit_len_fuel fuel more (n / 2) (ground (arith, e, h)) (ground (arith, e, k))))
]
