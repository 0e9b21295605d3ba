-- ===== src/Memory/Plan/Bounds.antt =====
-- internal/memory/plan.go: the bounds of a plan.
use flockd.Base.{
  ℕ, ◌*◌, ◌/◌, ◌%◌, ◌≤◌, ◌<◌, ◌≡◌, ◌⊎◌, inl, inr, refl, min, max, Bool, true, false, none, some,
  arith, Option-cases,
}
use native.Mathlib.Decide.{dec_lt}
use flockd.Memory.Float.{Float64}
use flockd.Memory.Plan.{PlanInput, Plan, caps, spare_tokens, plan_context, ctx_granularity}
use flockd.Memory.Plan.Caps.{caps_ordered, round_ctx-le, round_ctx-mod}
use flockd.Memory.Plan.Fit.{IsBest, plan_context-IsBest, plan_context_unlimited}
use flockd.Memory.Plan.Encoder.{plan_encoder-IsLargest}

pub record InBounds {ℓ} {Number : Type ℓ} (p : PlanInput Number) (q : Plan) : Type 0 where
  pub some_slot : 0 < q.slots
  pub slots-le : q.slots ≤ max p.slots 1
  pub above_floor : (caps p).1 ≤ q.ctx_per_slot
  pub below_cap : q.ctx_per_slot ≤ (caps p).0
  pub on_grid : q.ctx_per_slot % ctx_granularity ≡ 0

module _ (cap_ctx floor ceiling tokens slots ctx : ℕ) (squeezed : Bool) where
  IsBest-bounds :
      0 < ceiling
      → floor ≤ cap_ctx
      → floor % ctx_granularity ≡ 0
      → IsBest cap_ctx floor ceiling tokens slots ctx squeezed
      → (0 < slots)
        × (slots ≤ ceiling)
        × (floor ≤ ctx)
        × (ctx ≤ cap_ctx)
        × (ctx % ctx_granularity ≡ 0)
  IsBest-bounds c f g (inl ((pos, le, roomy, e, above), sq)) = omega (
    arith,
    roomy,
    round_ctx-le (min cap_ctx (tokens / slots)),
    round_ctx-mod (min cap_ctx (tokens / slots)),
  )
  IsBest-bounds c f g (inr (none_fits, one, e, sq)) = omega arith

  -- The total stays within the tokens, unless one slot at the floor is more than they are.
  IsBest-total :
      IsBest cap_ctx floor ceiling tokens slots ctx squeezed
      → (slots * ctx ≤ tokens) ⊎ ((slots ≡ 1) × (ctx ≡ floor) × (squeezed ≡ true))
  IsBest-total (inl ((pos, le, roomy, e, above), sq)) =
      let share : ctx ≤ tokens / slots =
        omega (arith, round_ctx-le (min cap_ctx (tokens / slots))) in
      inl (grind arith)
  IsBest-total (inr (none_fits, one, e, sq)) = inr (one, e, sq)

module _ (fl : Float64) (p : PlanInput (fl.Number)) where
  -- The plan at the ceiling and the cap.
  at_cap :
      (q : Plan)
      → (q.slots ≡ max p.slots 1) × (q.ctx_per_slot ≡ (caps p).0) × (q.squeezed ≡ false)
      → InBounds p q
  at_cap q (e, f, g) =
      let (ordered, cap_grain, floor_grain) = caps_ordered p in
      record {
        some_slot = rw e (omega arith);
        slots-le = rw e (omega arith);
        above_floor = rw f ordered;
        below_cap = rw f (omega arith);
        on_grid = rw f cap_grain.1;
      }

  encoder_unlimited :
      (per_token : fl.Number)
      → p.encoder_mb_per_token ≡ some per_token
      → p.budget_mb ≡ 0
      → ((plan_context fl p).slots ≡ max p.slots 1)
        × ((plan_context fl p).ctx_per_slot ≡ (caps p).0)
        × ((plan_context fl p).squeezed ≡ false)
  unfolding plan_context
  encoder_unlimited per_token enc zero_budget =
      rw (enc, zero_budget, plan_context) (refl, refl, refl)

  encoder-InBounds :
      (per_token : fl.Number)
      → p.encoder_mb_per_token ≡ some per_token
      → InBounds p (plan_context fl p)
  encoder-InBounds per_token enc = elim (dec_lt 0 p.budget_mb) [
    | yes known ↦
        let (slots, largest, sq) = plan_encoder-IsLargest fl p per_token enc known in
        record {
          some_slot = rw slots (omega arith);
          slots-le = rw slots (omega arith);
          above_floor = largest.above_floor;
          below_cap = largest.below_start;
          on_grid = largest.on_grid;
        }
    | no unknown ↦ at_cap (plan_context fl p) (encoder_unlimited per_token enc (omega arith))
  ]

  chat-InBounds : p.encoder_mb_per_token ≡ none → InBounds p (plan_context fl p)
  chat-InBounds chat = elim (Option-cases (spare_tokens fl p)) [
    | inl unknown ↦ at_cap (plan_context fl p) (plan_context_unlimited fl p chat unknown)
    | inr (tokens, known) ↦
        let (ordered, cap_grain, floor_grain) = caps_ordered p in
        let b =
          IsBest-bounds (caps p).0 (caps p).1 (max p.slots 1) tokens _ _ _ (omega arith) ordered
            floor_grain.1 (plan_context-IsBest fl p tokens chat known) in
        record {
          some_slot = b.0;
          slots-le = b.1;
          above_floor = b.2;
          below_cap = b.3;
          on_grid = b.4;
        }
  ]

  -- Every plan, of a chat model or an encoder, with a budget or without: from one slot to the ceiling,
  -- each with a context between the floor and the cap that is a multiple of the granularity.
  pub plan_context-InBounds : InBounds p (plan_context fl p)
  plan_context-InBounds = elim (Option-cases p.encoder_mb_per_token) [
    | inl chat ↦ chat-InBounds chat
    | inr (per_token, enc) ↦ encoder-InBounds per_token enc
  ]

  total-plan_context :
      (plan_context fl p).total_ctx ≡ (plan_context fl p).slots * (plan_context fl p).ctx_per_slot
  unfolding plan_context
  total-plan_context = elim (Option-cases p.encoder_mb_per_token) [
    | inl chat ↦ rw (chat, plan_context)
    | inr (per_token, enc) ↦ rw (enc, plan_context)
  ]

  -- With a known budget, a chat model's plan asks for no more context in all than the spare memory
  -- holds, unless it is one slot at the floor, and then it says that it is squeezed.
  pub total-le-spare :
      (tokens : ℕ)
      → p.encoder_mb_per_token ≡ none
      → spare_tokens fl p ≡ some tokens
      → ((plan_context fl p).total_ctx ≤ tokens)
        ⊎ (((plan_context fl p).slots ≡ 1)
            × ((plan_context fl p).ctx_per_slot ≡ (caps p).1)
            × ((plan_context fl p).squeezed ≡ true))
  total-le-spare tokens chat known = rw total-plan_context (
      IsBest-total (caps p).0 (caps p).1 (max p.slots 1) tokens _ _ _
        (plan_context-IsBest fl p tokens chat known))
