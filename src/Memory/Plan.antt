-- ===== src/Memory/Plan.antt =====
-- internal/memory/plan.go: slots and context of one load. Every setting is a number that is not
-- negative: the source tests a setting only by `<= 0`, `> 0` or `max(n, 1)`, which treat a negative one
-- as they treat 0.
pub mod Caps
pub mod Fit
pub mod Encoder
pub mod Bounds
use flockd.Base.{
  ℕ, zero, suc, ◌+◌, ◌-◌, ◌*◌, ◌/◌, ◌%◌, min, max, Bool, true, false, ◌&&◌, ◌||◌, Option, none,
  some, String, ltb, leb, str_eq, if◌then◌else◌,
}
use flockd.Memory.Float.{Float64}
use flockd.Memory.Estimate.{
  Hardware, unified, discrete, mib, runtime_overhead_mb, default_context, weights_factor,
  kv_per_token, estimate_mb,
}

pub record Plan : Type 0 where
  pub slots : ℕ
  pub ctx_per_slot : ℕ
  pub total_ctx : ℕ
  pub estimate_mb : ℕ
  pub squeezed : Bool

abbrev pub default_min_context : ℕ
default_min_context = 8192

abbrev pub default_gpu_slots : ℕ
default_gpu_slots = 16

abbrev pub default_cpu_slots : ℕ
default_cpu_slots = 2

abbrev pub ctx_granularity : ℕ
ctx_granularity = 256

abbrev pub decision_encoder_slots : ℕ
decision_encoder_slots = 4

abbrev pub decision_encoder_context : ℕ
decision_encoder_context = 2048

abbrev pub decision_causal_slots : ℕ
decision_causal_slots = 2

abbrev pub decision_causal_context : ℕ
decision_causal_context = 8192

abbrev pub decision_min_context : ℕ
decision_min_context = 1024

unfoldable pub default_slots : Hardware → ℕ
unfolding unified discrete
default_slots hw = if unified hw || discrete hw then default_gpu_slots else default_cpu_slots

unfoldable pub round_ctx : ℕ → ℕ
round_ctx n = n - n % ctx_granularity

-- `EncoderMBPerToken` is `none` where the source has 0.
pub record PlanInput {ℓ} (Number : Type ℓ) : Type ℓ where
  pub budget_mb : ℕ
  pub used_mb : ℕ
  pub file_bytes : ℕ
  pub min_ram_mb : ℕ
  pub kv_bytes_per_token : ℕ
  pub window : ℕ
  pub slots : ℕ
  pub min_ctx : ℕ
  pub max_ctx : ℕ
  pub ctx_pin : ℕ
  pub encoder_mb_per_token : Option Number

module _ {ℓ} {Number : Type ℓ} where
  -- The model's training context.
  abbrev pub window_of : PlanInput Number → ℕ
  window_of p = if leb p.window 0 then default_context else p.window

  -- The cap and the floor, before they are rounded.
  abbrev pub raw_caps : PlanInput Number → ℕ × ℕ
  raw_caps p =
      let window = window_of p in
      if ltb 0 p.ctx_pin then (min p.ctx_pin window, min p.ctx_pin window) else (
        if ltb 0 p.max_ctx && ltb p.max_ctx window then p.max_ctx else window,
        if leb p.min_ctx 0 then default_min_context else p.min_ctx,
      )

  unfoldable pub caps : PlanInput Number → ℕ × ℕ
  unfolding round_ctx
  caps p =
      let (raw_cap, raw_floor) = raw_caps p in
      let cap_ctx = max (round_ctx raw_cap) ctx_granularity in
      (cap_ctx, max (round_ctx (min raw_floor cap_ctx)) ctx_granularity)

  unfoldable pub floor_context : PlanInput Number → ℕ
  unfolding caps
  floor_context p = (caps p).1

-- The loop over slot counts: from `s` down to 1, the first that leaves each slot the floor.
unfoldable pub find_slots : ℕ → ℕ → ℕ → ℕ → Option (ℕ × ℕ)
unfolding round_ctx
find_slots cap_ctx floor tokens zero = none
find_slots cap_ctx floor tokens (suc s) =
    let ctx = round_ctx (min cap_ctx (tokens / suc s)) in
    let rest = find_slots cap_ctx floor tokens s in
    if leb floor ctx then some (suc s, ctx) else rest

pub record Layout : Type 0 where
  pub slots : ℕ
  pub ctx : ℕ
  pub squeezed : Bool

-- The layout for a number of tokens that memory holds; `none` is unlimited.
unfoldable pub layout : ℕ → ℕ → ℕ → Option ℕ → Layout
unfolding find_slots
layout cap_ctx floor slots none = record { slots = slots; ctx = cap_ctx; squeezed = false }
layout cap_ctx floor slots (some tokens) = elim (find_slots cap_ctx floor tokens slots) [
  | none ↦ record { slots = 1; ctx = floor; squeezed = true }
  | some (s, ctx) ↦ record { slots = s; ctx = ctx; squeezed = ltb s slots || ltb ctx cap_ctx }
]

-- The encoder's loop over its context and `Squeezed`: while the context is above the floor and its
-- estimate exceeds the spare memory, it shrinks. `fuel` bounds the rounds.
unfoldable pub shrink_to_fit : (ℕ → Bool) → ℕ → ℕ → ℕ → Bool → ℕ × Bool
shrink_to_fit too_large floor zero ctx squeezed = (ctx, squeezed)
shrink_to_fit too_large floor (suc fuel) ctx squeezed =
    let rest = shrink_to_fit too_large floor fuel (ctx - ctx_granularity) true in
    if ltb floor ctx && too_large ctx then rest else (ctx, squeezed)

module _ (fl : Float64) where
  open fl use {Number, of_nat, decimal, add, sub, mul, div, is_positive, trunc}

  unfoldable pub encoder_mb_per_token : String → Number
  encoder_mb_per_token family =
      if str_eq family "julia"
      then decimal 11 1
      else if str_eq family "laya"
      then decimal 3 1
      else decimal 11 1

  unfoldable pub decision_plan_input : PlanInput Number → Bool → String → PlanInput Number
  unfolding encoder_mb_per_token
  decision_plan_input p encoder family =
      let slots = if encoder then decision_encoder_slots else decision_causal_slots in
      let ctx = if encoder then decision_encoder_context else decision_causal_context in
      record p {
        encoder_mb_per_token =
            if encoder then some (encoder_mb_per_token family) else p.encoder_mb_per_token;
        slots = min (max p.slots 1) slots;
        max_ctx = if leb p.max_ctx 0 || ltb ctx p.max_ctx then ctx else p.max_ctx;
        min_ctx = decision_min_context;
      }

  unfoldable pub encoder_estimate : PlanInput Number → Number → ℕ → ℕ
  encoder_estimate p per_token ctx_per_slot =
      let weights = div (mul (of_nat p.file_bytes) (weights_factor fl)) (of_nat mib) in
      let est = trunc (add weights (mul per_token (of_nat ctx_per_slot))) + runtime_overhead_mb in
      max est p.min_ram_mb

  unfoldable pub estimate_at : PlanInput Number → ℕ → ℕ
  unfolding encoder_estimate estimate_mb
  estimate_at p ctx = elim p.encoder_mb_per_token [
    | none ↦ estimate_mb fl p.file_bytes p.min_ram_mb ctx p.kv_bytes_per_token
    | some per_token ↦ encoder_estimate p per_token ctx
  ]

  -- The spare memory in MB. A budget below what is used leaves nothing either way: the source's
  -- negative difference, and the 0 here, are both not positive once the weights are taken off.
  unfoldable pub spare_mb : PlanInput Number → Number
  spare_mb p =
      sub
        (sub (of_nat (p.budget_mb - p.used_mb))
          (div (mul (of_nat p.file_bytes) (weights_factor fl)) (of_nat mib)))
        (of_nat runtime_overhead_mb)

  -- The context tokens that the spare memory holds, `none` where nothing limits them.
  unfoldable pub spare_tokens : PlanInput Number → Option ℕ
  unfolding kv_per_token spare_mb
  spare_tokens p =
      if ltb 0 p.budget_mb && ltb 0 p.file_bytes
      then some (
          if is_positive (spare_mb p)
          then trunc (
              div (mul (spare_mb p) (of_nat mib))
                (kv_per_token fl p.file_bytes p.kv_bytes_per_token))
          else 0)
      else none

  -- `in.encoderEstimate(ctx) > spare`, where `spare` is the budget less what is used and may be negative
  unfoldable pub is_over_spare : PlanInput Number → Number → ℕ → Bool
  unfolding encoder_estimate
  is_over_spare p per_token ctx = ltb p.budget_mb (encoder_estimate p per_token ctx + p.used_mb)

  -- The context and `Squeezed` of an encoder's plan.
  unfoldable pub encoder_ctx : PlanInput Number → Number → ℕ × Bool
  unfolding shrink_to_fit is_over_spare caps
  encoder_ctx p per_token =
      let (cap_ctx, floor) = caps p in
      let (ctx, shrunk) = shrink_to_fit (is_over_spare p per_token) floor cap_ctx cap_ctx false in
      if ltb 0 p.budget_mb
      then (ctx, if is_over_spare p per_token ctx then true else shrunk)
      else (cap_ctx, false)

  unfoldable pub plan_encoder : PlanInput Number → Number → Plan
  unfolding encoder_ctx
  plan_encoder p per_token =
      let slots = max p.slots 1 in
      let (ctx, squeezed) = encoder_ctx p per_token in
      record {
        slots = slots;
        ctx_per_slot = ctx;
        total_ctx = slots * ctx;
        estimate_mb = encoder_estimate p per_token ctx;
        squeezed = squeezed;
      }

  abbrev plan_of : PlanInput Number → Layout → Plan
  unfolding estimate_at
  plan_of p l = record {
    slots = l.slots;
    ctx_per_slot = l.ctx;
    total_ctx = l.slots * l.ctx;
    estimate_mb = estimate_at p (l.slots * l.ctx);
    squeezed = l.squeezed;
  }

  unfoldable pub plan_context : PlanInput Number → Plan
  unfolding plan_encoder layout spare_tokens estimate_at caps
  plan_context p = elim p.encoder_mb_per_token [
    | some per_token ↦ plan_encoder p per_token
    | none ↦ plan_of p (layout (caps p).0 (caps p).1 (max p.slots 1) (spare_tokens p))
  ]
