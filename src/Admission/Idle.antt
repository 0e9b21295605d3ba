-- ===== src/Admission/Idle.antt =====
-- internal/modelops/memory.go: what the idle sweep unloads.
use flockd.Base.{
  ℕ, ◌==◌, ◌<◌, ◌≡◌, refl, inl, inr, ◌⊎◌, Bool, true, false, ◌&&◌, ◌||◌, not, [], ◌∷◌, Option, none,
  some, String, ltb, leb, ◌+◌, str_eq, eq_iff, arith, if◌then◌else◌, Bool-cases,
}
use flockd.Base.Dict.{Dict, lookup, lookup-delete, Distinct, has_id}
use flockd.Admission.{Usage, Service, unload_idle_model, idle_past, idle_loop, unload_idle}

-- Whether the sweep lets a model go.
abbrev pub past : Service → ℕ → ℕ → String → Option Usage → Bool
past s threshold now j none = false
past s threshold now j (some u) =
    leb (u.last_used + threshold) now && not (ltb 0 u.inflight || str_eq j s.default_model)

module _ (busy : String → Bool) (threshold now : ℕ) where
  idle_loop-cases :
      (s : Service) (id : String) (u : Usage) (ms : Dict Usage)
      → (((idle_past s threshold now (id, u) && not (busy id)) ≡ true)
          × (idle_loop busy s threshold now ((id, u) ∷ ms) ≡ (
            (idle_loop busy (unload_idle_model s id) threshold now ms).0,
            id ∷ (idle_loop busy (unload_idle_model s id) threshold now ms).1,
          )))
        ⊎ (((idle_past s threshold now (id, u) && not (busy id)) ≡ false)
            × (idle_loop busy s threshold now ((id, u) ∷ ms) ≡ idle_loop busy s threshold now ms))
  unfolding idle_loop
  idle_loop-cases s id u ms =
      elim (Bool-cases (idle_past s threshold now (id, u) && not (busy id))) [
        | inl e ↦ inl (e, rw e refl)
        | inr e ↦ inr (e, rw e refl)
      ]

  lookup-idle_loop :
      (s : Service) (ms : Dict Usage) (j : String)
      → Distinct ms
      → (lookup j (idle_loop busy s threshold now ms).0.models ≡ (
          if past s threshold now j (lookup j ms) && not (busy j) then none else lookup j s.models))
        × (has_id j (idle_loop busy s threshold now ms).1
            ≡ past s threshold now j (lookup j ms) && not (busy j))
  unfolding idle_loop has_id lookup unload_idle_model
  lookup-idle_loop s [] j d = (refl, refl)
  lookup-idle_loop s ((k, u) ∷ ms) j d = elim (idle_loop-cases s k u ms) [
    | inl (e, same) ↦ rw same (
        ground (
          arith,
          e,
          lookup-idle_loop (unload_idle_model s k) ms j d.1,
          lookup-delete k j s.models,
          d.0,
          eq_iff k j,
        ))
    | inr (e, same) ↦ rw same (ground (arith, e, lookup-idle_loop s ms j d.1, d.0, eq_iff k j))
  ]

  -- The idle sweep unloads exactly the models that are not the default, have no request in flight and
  -- served none for the threshold, but for those at which a request arrives meanwhile; it reports just
  -- these, and leaves every other model as it was.
  pub lookup-unload_idle :
      (s : Service) (j : String)
      → Distinct s.models
      → 0 < threshold
      → (lookup j (unload_idle busy s threshold now).0.models ≡ (
          if past s threshold now j (lookup j s.models) && not (busy j)
          then none
          else lookup j s.models))
        × (has_id j (unload_idle busy s threshold now).1
            ≡ past s threshold now j (lookup j s.models) && not (busy j))
  unfolding unload_idle
  lookup-unload_idle s j d pos =
      let on : threshold == 0 ≡ false = ground (arith, pos) in
      rw on (lookup-idle_loop s s.models j d)
