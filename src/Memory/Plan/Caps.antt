-- ===== src/Memory/Plan/Caps.antt =====
-- internal/memory/plan.go: the cap and the floor of a request's context.
use flockd.Base.{ℕ, ◌%◌, ◌≤◌, ◌<◌, ◌≡◌, min, max, arith}
use flockd.Memory.Plan.{PlanInput, caps, round_ctx, ctx_granularity, window_of}

pub round_ctx-le : (n : ℕ) → round_ctx n ≤ n
unfolding round_ctx
round_ctx-le n = omega arith

pub round_ctx-mod : (n : ℕ) → round_ctx n % ctx_granularity ≡ 0
unfolding round_ctx
round_ctx-mod n = omega arith

pub round_ctx_mono : (m n : ℕ) → m ≤ n → round_ctx m ≤ round_ctx n
unfolding round_ctx
round_ctx_mono m n h = omega arith

-- A rounded context that is at least the granularity, and no more than the multiple it is capped by.
abbrev pub IsGrain : ℕ → Type 0
IsGrain n = (ctx_granularity ≤ n) × (n % ctx_granularity ≡ 0)

module _ {ℓ} {Number : Type ℓ} (p : PlanInput Number) where
  -- Whatever the settings: the floor is at most the cap, and both are positive multiples of the
  -- granularity.
  pub caps_ordered : ((caps p).1 ≤ (caps p).0) × IsGrain (caps p).0 × IsGrain (caps p).1
  unfolding caps
  caps_ordered = ground arith

  -- The cap exceeds neither the model's window nor the operator's own cap, but where those are below
  -- the granularity.
  pub caps-le-window : (caps p).0 ≤ max (window_of p) ctx_granularity
  unfolding caps
  caps-le-window = ground arith

  -- A pin makes cap and floor one number: the pin, within the window, rounded down to the granularity
  -- and at least that.
  pub caps_pinned :
      0 < p.ctx_pin
      → ((caps p).0 ≡ max (round_ctx (min p.ctx_pin (window_of p))) ctx_granularity)
        × ((caps p).1 ≡ (caps p).0)
  unfolding caps
  caps_pinned h = ground arith
