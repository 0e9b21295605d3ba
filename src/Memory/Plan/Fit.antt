-- ===== src/Memory/Plan/Fit.antt =====
-- internal/memory/plan.go: the plan of a chat model against the memory that is spare.
use flockd.Base.{
  ℕ, zero, suc, ◌/◌, ◌≤◌, ◌<◌, ◌≡◌, ◌⊎◌, inl, inr, refl, min, max, Bool, true, false, Option, none,
  some, arith, Bool-cases, ltb, leb, ◌||◌,
}
use native.Mathlib.Decide.{dec_le}
use flockd.Memory.Float.{Float64}
use flockd.Memory.Plan.{PlanInput, caps, spare_tokens, plan_context, find_slots, layout, round_ctx}

-- `s` slots leave each request the floor.
abbrev pub IsRoomy : ℕ → ℕ → ℕ → ℕ → Type 0
IsRoomy cap_ctx floor tokens s = floor ≤ round_ctx (min cap_ctx (tokens / s))

-- What the loop finds among the counts from 1 to `n`.
abbrev pub Finds : ℕ → ℕ → ℕ → ℕ → Option (ℕ × ℕ) → Type 0
Finds cap_ctx floor tokens n none = (s : ℕ) → 0 < s → s ≤ n → ¬ IsRoomy cap_ctx floor tokens s
Finds cap_ctx floor tokens n (some (s, ctx)) =
    (0 < s)
    × (s ≤ n)
    × IsRoomy cap_ctx floor tokens s
    × (ctx ≡ round_ctx (min cap_ctx (tokens / s)))
    × ((t : ℕ) → s < t → t ≤ n → ¬ IsRoomy cap_ctx floor tokens t)

module _ (cap_ctx floor tokens : ℕ) where
  not-IsRoomy-suc :
      (n : ℕ)
      → leb floor (round_ctx (min cap_ctx (tokens / suc n))) ≡ false
      → (t : ℕ) → suc n ≤ t
      → t ≤ suc n
      → ¬ IsRoomy cap_ctx floor tokens t
  not-IsRoomy-suc n h t a b r =
      let e : t ≡ suc n = omega arith in
      let r' : IsRoomy cap_ctx floor tokens (suc n) = rw e at r in ground arith

  Finds-suc :
      (n : ℕ) (o : Option (ℕ × ℕ))
      → leb floor (round_ctx (min cap_ctx (tokens / suc n))) ≡ false
      → Finds cap_ctx floor tokens n o
      → Finds cap_ctx floor tokens (suc n) o
  Finds-suc n none h f = λ s pos le r. elim (dec_le s n) [
    | yes q ↦ f s pos q r
    | no q ↦ not-IsRoomy-suc n h s (omega arith) le r
  ]
  Finds-suc n (some (s, ctx)) h (pos, le, roomy, e, above) = (
    pos,
    omega arith,
    roomy,
    e,
    λ t a b. elim (dec_le t n) [
      | yes q ↦ above t a q
      | no q ↦ not-IsRoomy-suc n h t (omega arith) b
    ],
  )

  find_slots-Finds : (n : ℕ) → Finds cap_ctx floor tokens n (find_slots cap_ctx floor tokens n)
  unfolding find_slots
  find_slots-Finds zero = λ s pos le r. omega arith
  find_slots-Finds (suc n) =
      elim (Bool-cases (leb floor (round_ctx (min cap_ctx (tokens / suc n))))) [
        | inl fits ↦ rw fits (omega arith, omega arith, ground arith, refl, λ t a b r. omega arith)
        | inr tight ↦ rw tight (Finds-suc n _ tight (find_slots-Finds n))
      ]

-- A layout for `tokens` context tokens: either the most slots that leave each request the floor, each
-- with an equal share up to the cap; or, if no slot count does, one slot at the floor, squeezed.
abbrev pub IsBest : ℕ → ℕ → ℕ → ℕ → ℕ → ℕ → Bool → Type 0
IsBest cap_ctx floor ceiling tokens slots ctx squeezed =
    (Finds cap_ctx floor tokens ceiling (some (slots, ctx))
      × (squeezed ≡ (ltb slots ceiling || ltb ctx cap_ctx)))
    ⊎ (Finds cap_ctx floor tokens ceiling none × (slots ≡ 1) × (ctx ≡ floor) × (squeezed ≡ true))

pub layout-IsBest :
    (cap_ctx floor ceiling tokens : ℕ)
    → IsBest cap_ctx floor ceiling tokens
        (layout cap_ctx floor ceiling (some tokens)).slots
        (layout cap_ctx floor ceiling (some tokens)).ctx
        (layout cap_ctx floor ceiling (some tokens)).squeezed
layout-IsBest cap_ctx floor ceiling tokens =
    go (find_slots cap_ctx floor tokens ceiling) refl
      (find_slots-Finds cap_ctx floor tokens ceiling)
  where
    go :
        (o : Option (ℕ × ℕ))
        → find_slots cap_ctx floor tokens ceiling ≡ o
        → Finds cap_ctx floor tokens ceiling o
        → IsBest cap_ctx floor ceiling tokens
            (layout cap_ctx floor ceiling (some tokens)).slots
            (layout cap_ctx floor ceiling (some tokens)).ctx
            (layout cap_ctx floor ceiling (some tokens)).squeezed
    go none e f = unfold layout in rw (e, layout) (inr (f, refl, refl, refl))
    go (some (s, ctx)) e f = unfold layout in rw (e, layout) (inl (f, refl))

module _ (fl : Float64) (p : PlanInput (fl.Number)) where
  -- With a known budget, a chat model's plan is the best layout for the tokens that the spare memory
  -- holds: the most slots, up to the ceiling, that leave each request the floor, each with an equal
  -- share up to the cap; or one slot at the floor where no slot count does. It is squeezed exactly when
  -- it gives less than ceiling and cap, or not even one slot reaches the floor.
  pub plan_context-IsBest :
      (tokens : ℕ)
      → p.encoder_mb_per_token ≡ none
      → spare_tokens fl p ≡ some tokens
      → IsBest
          (caps p).0
          (caps p).1
          (max p.slots 1)
          tokens
          (plan_context fl p).slots
          (plan_context fl p).ctx_per_slot
          (plan_context fl p).squeezed
  unfolding plan_context
  plan_context-IsBest tokens chat known =
      rw (chat, known, plan_context) (layout-IsBest (caps p).0 (caps p).1 (max p.slots 1) tokens)

  -- Without a budget the ceiling and the cap decide.
  pub plan_context_unlimited :
      p.encoder_mb_per_token ≡ none
      → spare_tokens fl p ≡ none
      → ((plan_context fl p).slots ≡ max p.slots 1)
        × ((plan_context fl p).ctx_per_slot ≡ (caps p).0)
        × ((plan_context fl p).squeezed ≡ false)
  unfolding plan_context
  plan_context_unlimited chat unknown = rw (chat, unknown, plan_context) (refl, refl, refl)
