-- ===== src/Admission/Charges.antt =====
-- internal/modelops/scale.go: what a resize is charged while both instances run, and after.
use flockd.Base.{
  ℕ, ◌+◌, ◌==◌, ◌≤◌, ◌<◌, ◌≡◌, refl, ap, subst, false, ◌&&◌, none, some, String, [], ◌∷◌, ltb, leb,
  str_eq, eq_iff, max, if◌then◌else◌, arith, Bool-cases, Option-cases, inl, inr,
}
use flockd.Base.Dict.{Dict, lookup, lookup-insert, Distinct}
use flockd.Memory.Float.{Float64}
use flockd.Memory.Plan.{Plan}
use flockd.Memory.Plan.Bounds.{plan_context-InBounds}
use flockd.Admission.{Usage, LoadInfo, Service, footprint, footprint_sum, used}
use flockd.Admission.Resize.{
  Layout, start, asked, planned, decide_plan, decide, with_plan, put_plan, swap, drained,
}

module _ (s : Service) (id : String) (plan : Plan) (old : ℕ) (li : LoadInfo)
    (unsampled : (s.discrete && s.vram_sampled) ≡ false)
    (loaded : lookup id s.loads ≡ some li) where
  swapped_load :
      (j : String)
      → lookup j (put_plan s.vram_sample_seq id plan s.loads)
        ≡ (if str_eq id j then some (with_plan s.vram_sample_seq plan li) else lookup j s.loads)
  unfolding put_plan
  swapped_load j =
      rw (loaded, put_plan) (lookup-insert id j (with_plan s.vram_sample_seq plan li) s.loads)

  footprint-swap :
      (j : String)
      → footprint (swap s id plan old) j ≡ (if str_eq id j then plan.estimate_mb else footprint s j)
  unfolding footprint swap
  footprint-swap j =
      rw (swapped_load j)
        (elim (Bool-cases (str_eq id j)) [ inl e ↦ rw e (ground arith) | inr e ↦ rw e refl ])

  sum_elsewhere :
      (ms : Dict Usage)
      → lookup id ms ≡ none
      → footprint_sum (swap s id plan old) ms ≡ footprint_sum s ms
  unfolding footprint_sum lookup
  sum_elsewhere [] n = refl
  sum_elsewhere ((k, u) ∷ ms) n =
      ground (arith, n, footprint-swap k, sum_elsewhere ms, eq_iff id k, eq_iff k id)

  -- The new charge takes the place of the old one in the sum.
  footprint_sum-swap :
      (ms : Dict Usage) (u : Usage)
      → Distinct ms
      → lookup id ms ≡ some u
      → footprint_sum (swap s id plan old) ms + footprint s id
        ≡ footprint_sum s ms + plan.estimate_mb
  unfolding footprint_sum lookup
  footprint_sum-swap [] u d m = cc
  footprint_sum-swap ((k, v) ∷ ms) u d m = elim (Bool-cases (str_eq k id)) [
    | inl e ↦
        let gone : lookup id ms ≡ none =
          subst (λ (t : String). lookup t ms ≡ none) ((eq_iff k id).0 e) d.0 in
        ground (
          arith,
          e,
          eq_iff k id,
          eq_iff id k,
          footprint-swap k,
          sum_elsewhere ms gone,
          (eq_iff k id).0 e,
        )
    | inr e ↦
        ground
          (arith, e, m, eq_iff k id, eq_iff id k, footprint-swap k, footprint_sum-swap ms u d.1)
  ]

  -- Both instances are charged while the old one drains.
  used-swap :
      (u : Usage)
      → Distinct s.models
      → lookup id s.models ≡ some u
      → old ≡ footprint s id
      → used (swap s id plan old) ≡ used s + plan.estimate_mb
  unfolding used swap
  used-swap u d m o = ground (arith, unsampled, o, footprint_sum-swap s.models u d m)

sum-drained :
    (s : Service) (old : ℕ) (ms : Dict Usage)
    → footprint_sum (drained s old) ms ≡ footprint_sum s ms
unfolding footprint_sum drained footprint
sum-drained s old [] = refl
sum-drained s old ((k, u) ∷ ms) = ground (arith, sum-drained s old ms)

used-drained :
    (s : Service) (old : ℕ)
    → (s.discrete && s.vram_sampled) ≡ false
    → old ≤ s.draining_mb
    → used (drained s old) + old ≡ used s
unfolding used drained
used-drained s old e h = ground (arith, e, h, sum-drained s old s.models)

decide_plan-start :
    (s : Service) (from old target : ℕ) (p : Plan) {from' old' : ℕ} {plan : Plan}
    → decide_plan s from old target p ≡ start from' plan old'
    → (from' ≡ from)
      × (plan ≡ p)
      × (old' ≡ old)
      × (0 < s.budget_mb → used s + p.estimate_mb ≤ s.budget_mb)
      × (from < target → from < p.slots)
decide_plan-start s from old target p h = elim (Bool-cases (target == from)) [
  | inl a ↦ cc (rw a at h)
  | inr a ↦ elim (Bool-cases (ltb 0 s.budget_mb && ltb s.budget_mb (used s + p.estimate_mb))) [
    | inl b ↦ cc (rw (a, b) at h)
    | inr b ↦ elim (Bool-cases (ltb from target && leb p.slots from)) [
      | inl c ↦ cc (rw (a, b, c) at h)
      | inr c ↦
          let e = rw (a, b, c) at h in
          (cc, cc, cc, λ q. ground (arith, b, q), λ q. ground (arith, c, q))
    ]
  ]
]

-- On a machine without a card of its own, or whose card was not sampled yet, for a resize of a loaded
-- model that `Resize` decides to start (with a sample the old instance counts both in the sample and
-- as draining, and this does not hold): with a budget, what is used stays within it while both instances run; once the old instance is gone,
-- what is used is the old use with the new charge in place of the old. The new instance has at most the
-- slots that were asked for (and one where none was), and a growing model gets more than it had.
pub resize_charges :
    (fl : Float64) (s : Service) (layouts : Dict (Layout fl.Number)) (id : String)
    (target from old : ℕ) (plan : Plan) (u : Usage) (li : LoadInfo)
    → decide fl s layouts id target ≡ start from plan old
    → (s.discrete && s.vram_sampled) ≡ false
    → Distinct s.models
    → lookup id s.models ≡ some u
    → lookup id s.loads ≡ some li
    → (0 < s.budget_mb → used (swap s id plan old) ≤ s.budget_mb)
      × (used (drained (swap s id plan old) old) + footprint s id ≡ used s + plan.estimate_mb)
      × (plan.slots ≤ max target 1)
      × (from < target → from < plan.slots)
unfolding decide swap
resize_charges fl s layouts id target from old plan u li h unsampled d m l =
    elim (Option-cases (lookup id layouts)) [
      | inl n ↦ cc (rw (n, decide) at h)
      | inr (lay, n) ↦
          let chosen : decide_plan s lay.slots (footprint s id) target
                (planned fl s lay.plan target)
              ≡ start from plan old =
            rw (n, decide) at h in
          let (e, same, o, fits, grows) =
            decide_plan-start s lay.slots (footprint s id) target (planned fl s lay.plan target)
              chosen in
          let p : Plan = planned fl s lay.plan target in
          let size : plan.estimate_mb ≡ p.estimate_mb = ap (λ (q : Plan). q.estimate_mb) same in
          let count : plan.slots ≡ p.slots = ap (λ (q : Plan). q.slots) same in
          let most : p.slots ≤ max target 1 =
            (plan_context-InBounds fl (asked fl s lay.plan target)).slots-le in
          let both : used (swap s id plan old) ≡ used s + plan.estimate_mb =
            used-swap s id plan old li unsampled l u d m o in
          let after : used (drained (swap s id plan old) old) + old ≡ used (swap s id plan old) =
            used-drained (swap s id plan old) old unsampled (omega arith) in
          (
            λ q. omega (arith, both, size, fits q),
            omega (arith, both, after, o),
            omega (arith, most, count),
            λ q. omega (arith, count, e, grows (omega (arith, q, e))),
          )
    ]
