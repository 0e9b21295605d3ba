-- ===== src/Admission/Room.antt =====
-- internal/modelops/memory.go: what admission unloads, and when it refuses.
use flockd.Base.{
  ℕ, ◌+◌, ◌<◌, ◌≡◌, ◌≢◌, refl, ◌∙◌, sym, inl, inr, ◌⊎◌, Bool, true, false, ◌&&◌, ◌||◌, not, ltb,
  List, [], ◌∷◌, Option, none, some, String, str_eq, eq_iff, arith, if◌then◌else◌, Bool-cases,
}
use flockd.Base.Dict.{Dict, lookup, lookup-delete, Distinct}
use flockd.Admission.{
  Usage, Service, used, fits, Candidate, candidates, insert_candidate, sort_candidates,
  unload_idle_model, room_loop, make_room,
}

not_both : true ≢ false
not_both e = cc

fits_false :
    (s : Service) (estimate : ℕ) → fits s estimate ≡ false → s.budget_mb < used s + estimate
unfolding fits
fits_false s estimate e = ground (arith, e)

abbrev pub listed : List Candidate → String → Bool
listed [] j = false
listed (c ∷ cs) j = str_eq c.id j || listed cs j

listed-insert_candidate :
    (a : Candidate) (bs : List Candidate) (j : String)
    → listed (insert_candidate a bs) j ≡ str_eq a.id j || listed bs j
unfolding insert_candidate
listed-insert_candidate a [] j = refl
listed-insert_candidate a (b ∷ bs) j = ground (arith, listed-insert_candidate a bs j)

listed-sort_candidates :
    (bs : List Candidate) (j : String) → listed (sort_candidates bs) j ≡ listed bs j
unfolding sort_candidates
listed-sort_candidates [] j = refl
listed-sort_candidates (a ∷ bs) j =
    ground (arith, listed-insert_candidate a (sort_candidates bs) j, listed-sort_candidates bs j)

-- A model that admission may unload for `for_id`.
abbrev pub goes_at : Service → String → String → Option Usage → Bool
goes_at s for_id j none = false
goes_at s for_id j (some u) =
    not (str_eq j s.default_model || str_eq j for_id) && not (ltb 0 u.inflight)

listed-candidates :
    (s : Service) (for_id : String) (ms : Dict Usage) (j : String)
    → Distinct ms
    → listed (candidates s for_id ms) j ≡ goes_at s for_id j (lookup j ms)
unfolding candidates lookup
listed-candidates s for_id [] j d = refl
listed-candidates s for_id ((k, u) ∷ ms) j d =
    ground (arith, listed-candidates s for_id ms j d.1, d.0, eq_iff k j)

module _ (busy : String → Bool) (estimate : ℕ) where
  lookup-unload_idle_model :
      (s : Service) (id j : String)
      → lookup j (unload_idle_model s id).models ≡ (if str_eq id j then none else lookup j s.models)
  unfolding unload_idle_model
  lookup-unload_idle_model s id j = lookup-delete id j s.models

  room_loop-cases :
      (s : Service) (c : Candidate) (cs : List Candidate)
      → ((fits s estimate ≡ true) × (room_loop busy s estimate (c ∷ cs) ≡ s))
        ⊎ ((busy c.id ≡ true) × (room_loop busy s estimate (c ∷ cs) ≡ room_loop busy s estimate cs))
        ⊎ ((busy c.id ≡ false)
            × (room_loop busy s estimate (c ∷ cs)
                ≡ room_loop busy (unload_idle_model s c.id) estimate cs))
  unfolding room_loop
  room_loop-cases s c cs = elim (Bool-cases (fits s estimate)) [
    | inl e ↦ inl (e, rw e refl)
    | inr e ↦ elim (Bool-cases (busy c.id)) [
      | inl b ↦ inr (inl (b, rw (e, b) refl))
      | inr b ↦ inr (inr (b, rw (e, b) refl))
    ]
  ]

  lookup-room_loop :
      (s : Service) (cs : List Candidate) (j : String)
      → (lookup j (room_loop busy s estimate cs).models ≡ lookup j s.models)
        ⊎ ((lookup j (room_loop busy s estimate cs).models ≡ none)
            × (listed cs j ≡ true)
            × (busy j ≡ false))
  unfolding room_loop
  lookup-room_loop s [] j = inl refl
  lookup-room_loop s (c ∷ cs) j = elim (room_loop-cases s c cs) [
    | inl (e, same) ↦ inl (rw same refl)
    | inr (inl (b, same)) ↦ rw same (ground (arith, lookup-room_loop s cs j))
    | inr (inr (b, same)) ↦ rw same (
        ground (
          arith,
          lookup-room_loop (unload_idle_model s c.id) cs j,
          lookup-unload_idle_model s c.id j,
          eq_iff c.id j,
          b,
        ))
  ]

  room_loop-clears :
      (s : Service) (cs : List Candidate) (j : String)
      → fits (room_loop busy s estimate cs) estimate ≡ false
      → listed cs j ≡ true
      → busy j ≡ false
      → lookup j (room_loop busy s estimate cs).models ≡ none
  unfolding room_loop
  room_loop-clears s [] j f l b = cc
  room_loop-clears s (c ∷ cs) j f l b = elim (room_loop-cases s c cs) [
    | inl (e, same) ↦ absurd (not_both (sym e ∙ rw same at f))
    | inr (inl (bc, same)) ↦
        rw same (room_loop-clears s cs j (rw⁻¹ same f) (ground (arith, l, b, bc, eq_iff c.id j)) b)
    | inr (inr (bc, same)) ↦ rw same (elim (Bool-cases (listed cs j)) [
      | inl later ↦ room_loop-clears (unload_idle_model s c.id) cs j (rw⁻¹ same f) later b
      | inr now ↦ ground (
        arith,
        now,
        l,
        lookup-room_loop (unload_idle_model s c.id) cs j,
        lookup-unload_idle_model s c.id j,
      )
    ])
  ]

  room_loop-budget :
      (s : Service) (cs : List Candidate) → (room_loop busy s estimate cs).budget_mb ≡ s.budget_mb
  unfolding room_loop unload_idle_model
  room_loop-budget s [] = refl
  room_loop-budget s (c ∷ cs) = elim (room_loop-cases s c cs) [
    | inl (e, same) ↦ rw same refl
    | inr (inl (b, same)) ↦ rw same (room_loop-budget s cs)
    | inr (inr (b, same)) ↦ rw same (room_loop-budget (unload_idle_model s c.id) cs)
  ]

  module _ (s : Service) (for_id : String) where
    abbrev order : List Candidate
    order = sort_candidates (candidates s for_id s.models)

    make_room_service : (make_room busy s for_id estimate).0 ≡ room_loop busy s estimate order
    unfolding make_room
    make_room_service = elim (Bool-cases (fits (room_loop busy s estimate order) estimate)) [
      | inl e ↦ rw e refl
      | inr e ↦ rw e refl
    ]

    in_order :
        (j : String) → Distinct s.models → listed order j ≡ goes_at s for_id j (lookup j s.models)
    in_order j d =
        listed-sort_candidates (candidates s for_id s.models) j
        ∙ listed-candidates s for_id s.models j d

    -- Admission unloads only models that have no request in flight, neither when it looks nor when it
    -- unloads, and neither the model that it makes room for nor the default.
    pub lookup-make_room :
        (j : String)
        → Distinct s.models
        → (lookup j (make_room busy s for_id estimate).0.models ≡ lookup j s.models)
          ⊎ ((lookup j (make_room busy s for_id estimate).0.models ≡ none)
              × (busy j ≡ false)
              × (goes_at s for_id j (lookup j s.models) ≡ true))
    lookup-make_room j d = rw make_room_service (elim (lookup-room_loop s order j) [
      | inl same ↦ inl same
      | inr (gone, l, b) ↦ inr (gone, b, sym (in_order j d) ∙ l)
    ])

    refused_lem :
        (make_room busy s for_id estimate).1 ≡ false
        → (fits (room_loop busy s estimate order) estimate ≡ false)
          × (str_eq for_id s.default_model ≡ false)
          × (str_eq s.default_model "" ≡ false)
    unfolding make_room
    refused_lem e = elim (Bool-cases (fits (room_loop busy s estimate order) estimate)) [
      | inl f ↦ ground (arith, f, e)
      | inr f ↦ (f, ground (arith, f, e), ground (arith, f, e))
    ]

    -- A load that is refused does not fit, there is a default, and it is another model; the models that
    -- admission may unload are all gone, but for those at which a request arrived, and every other model
    -- is as it was. So nothing is refused that fits, or that is the default.
    pub make_room_refused :
        (j : String)
        → Distinct s.models
        → (make_room busy s for_id estimate).1 ≡ false
        → (s.budget_mb < used (make_room busy s for_id estimate).0 + estimate)
          × (for_id ≢ s.default_model)
          × (s.default_model ≢ "")
          × (lookup j (make_room busy s for_id estimate).0.models ≡ (
              if goes_at s for_id j (lookup j s.models) && not (busy j)
              then none
              else lookup j s.models))
    make_room_refused j d e =
        let (over, other, some_default) = refused_lem e in
        (
          rw make_room_service (
              ground (
                arith,
                fits_false (room_loop busy s estimate order) estimate over,
                room_loop-budget s order,
              )),
          (λ q. ground (arith, q, other, eq_iff for_id s.default_model)),
          (λ q. ground (arith, q, some_default, eq_iff s.default_model "")),
          rw make_room_service
              (elim (Bool-cases (goes_at s for_id j (lookup j s.models) && not (busy j))) [
                | inl g ↦ rw g (
                    room_loop-clears s order j over (in_order j d ∙ ground (arith, g))
                      (ground (arith, g)))
                | inr g ↦ rw g (elim (lookup-room_loop s order j) [
                  | inl same ↦ same
                  | inr (gone, l, b) ↦ ground (arith, g, b, sym (in_order j d) ∙ l)
                ])
              ]),
        )
