-- ===== src/Memory/Plan/Encoder.antt =====
-- internal/memory/plan.go: the plan of a whole-prompt-batch encoder.
use flockd.Base.{
  ℕ, zero, suc, ◌-◌, ◌%◌, ◌≤◌, ◌<◌, ◌≡◌, ◌⊎◌, inl, inr, refl, max, Bool, true, false, ◌&&◌, ◌||◌,
  some, arith, Bool-cases, ltb, lt→ltb, if◌then◌else◌,
}
use native.Mathlib.Decide.{dec_lt}
use flockd.Memory.Float.{Float64}
use flockd.Memory.Plan.{
  PlanInput, caps, shrink_to_fit, is_over_spare, plan_context, ctx_granularity,
}
use flockd.Memory.Plan.Caps.{caps_ordered}

-- What the loop should give from `ctx`: the largest context on the grid that is not too large, or the
-- floor.
pub record IsLargest (too_large : ℕ → Bool) (floor ctx r : ℕ) : Type 0 where
  pub above_floor : floor ≤ r
  pub below_start : r ≤ ctx
  pub on_grid : r % ctx_granularity ≡ 0
  pub fits : (r ≡ floor) ⊎ (too_large r ≡ false)
  pub largest : (m : ℕ) → m % ctx_granularity ≡ 0 → r < m → m ≤ ctx → too_large m ≡ true

module _ (too_large : ℕ → Bool) (floor : ℕ) (floor_grid : floor % ctx_granularity ≡ 0) where
  squeezed_from : (fuel ctx : ℕ) → (shrink_to_fit too_large floor fuel ctx true).1 ≡ true
  unfolding shrink_to_fit
  squeezed_from zero ctx = refl
  squeezed_from (suc fuel) ctx = ground (arith, squeezed_from fuel (ctx - ctx_granularity))

  ctx-shrink_to_fit :
      (fuel ctx : ℕ) (a b : Bool)
      → (shrink_to_fit too_large floor fuel ctx a).0 ≡ (shrink_to_fit too_large floor fuel ctx b).0
  unfolding shrink_to_fit
  ctx-shrink_to_fit zero ctx a b = refl
  ctx-shrink_to_fit (suc fuel) ctx a b = ground arith

  -- One more round of the loop.
  grown :
      (ctx : ℕ) {r : ℕ}
      → ctx % ctx_granularity ≡ 0
      → (ltb floor ctx && too_large ctx) ≡ true
      → IsLargest too_large floor (ctx - ctx_granularity) r
      → IsLargest too_large floor ctx r × (true ≡ ltb r ctx)
  grown ctx {r} g more ih = (
    record {
      above_floor = ih.above_floor;
      below_start = omega (arith, ih.below_start);
      on_grid = ih.on_grid;
      fits = ih.fits;
      largest = λ m a b c. elim (dec_lt m ctx) [
        | yes l ↦ ih.largest m a b (omega arith)
        | no l ↦ let e : m ≡ ctx = omega arith in rw e (ground arith)
      ];
    },
    ground (arith, ih.below_start),
  )

  shrink_to_fit-IsLargest :
      (fuel ctx : ℕ)
      → ctx ≤ fuel
      → floor ≤ ctx
      → ctx % ctx_granularity ≡ 0
      → IsLargest too_large floor ctx (shrink_to_fit too_large floor fuel ctx false).0
        × ((shrink_to_fit too_large floor fuel ctx false).1
            ≡ ltb (shrink_to_fit too_large floor fuel ctx false).0 ctx)
  unfolding shrink_to_fit
  shrink_to_fit-IsLargest zero ctx h f g = (
    record {
      above_floor = omega arith;
      below_start = omega arith;
      on_grid = g;
      fits = inl (omega arith);
      largest = λ m a b c. absurd (omega arith);
    },
    ground arith,
  )
  shrink_to_fit-IsLargest (suc fuel) ctx h f g =
      elim (Bool-cases (ltb floor ctx && too_large ctx)) [
        | inl more ↦
            rw
              (
                more,
                ctx-shrink_to_fit fuel (ctx - ctx_granularity) true false,
                squeezed_from fuel _,
              )
              (grown ctx g more
                (shrink_to_fit-IsLargest fuel (ctx - ctx_granularity) (omega arith) (ground arith)
                  (ground arith)).0)
        | inr done ↦ rw done (
          record {
            above_floor = f;
            below_start = omega arith;
            on_grid = g;
            fits = ground arith;
            largest = λ m a b c. absurd (omega arith);
          },
          ground arith,
        )
      ]

if_or : (b : Bool) {c d : Bool} → c ≡ d → (if b then true else c) ≡ (b || d)
if_or true e = refl
if_or false e = e

module _ (fl : Float64) (p : PlanInput (fl.Number)) (per_token : fl.Number) where
  -- With a known budget an encoder gets its ceiling of slots and the largest context on the grid, from
  -- the cap down to the floor, whose estimate fits beside what is used (or the floor); it is squeezed
  -- exactly when that is below the cap or does not fit.
  pub plan_encoder-IsLargest :
      p.encoder_mb_per_token ≡ some per_token
      → 0 < p.budget_mb
      → ((plan_context fl p).slots ≡ max p.slots 1)
        × IsLargest
            (is_over_spare fl p per_token)
            (caps p).1
            (caps p).0
            (plan_context fl p).ctx_per_slot
        × ((plan_context fl p).squeezed ≡ (
            is_over_spare fl p per_token (plan_context fl p).ctx_per_slot
            || ltb (plan_context fl p).ctx_per_slot (caps p).0))
  unfolding plan_context
  plan_encoder-IsLargest enc known =
      let (ordered, cap_grain, floor_grain) = caps_ordered p in
      let (largest, shrank) =
        shrink_to_fit-IsLargest (is_over_spare fl p per_token) (caps p).1 floor_grain.1 (caps p).0
          (caps p).0 (omega arith) ordered cap_grain.1 in
      rw (enc, lt→ltb 0 p.budget_mb known, plan_context)
        (refl, largest, if_or (is_over_spare fl p per_token _) shrank)
