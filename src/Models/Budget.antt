-- ===== src/Models/Budget.antt =====
-- internal/models/manager.go: what `evictForLocked` does to the store.
use flockd.Base.{
  ℕ, ◌+◌, ◌≤◌, ◌<◌, ◌≡◌, refl, ap, ◌∙◌, sym, inl, inr, ◌⊎◌, Bool, true, false, ◌||◌, ◌&&◌,
  if◌then◌else◌, Option, not, none, some, String, leb, arith, Bool-cases, Option-cases, All,
  All-map,
}
use flockd.Base.Dict.{Dict, lookup, Distinct}
use flockd.Models.{
  Manager, Entry, used, is_candidate, candidates, sort_by_use, evict_loop, Evicting, evict_for,
  Evicted, fits, over_budget, budget_of, concluded, is_ready, is_mesh,
}
-- A predicate at every pair, along the selection and the sort.
use flockd.Models.Candidates.{
  All-sort_by_use, candidates-Distinct, candidates-Chosen, sort_by_use-Distinct, Chosen,
  sort_by_use-Sorted, lookup-candidates, lookup-sort_by_use,
}
use flockd.Models.Loop.{
  Held, All-lookup, loop_exact, loop_spares, loop_clears, loop_order, loop_needed, none≢some,
}

-- A model that eviction may take: complete, with its files on the disk, not pinned and, where only the
-- mesh's may go, the mesh's own.
abbrev pub evictable : Bool → (String → Bool) → String → Option Entry → Bool
evictable mesh_only disk j none = false
evictable mesh_only disk j (some e) =
    is_ready e && disk j && not (e.pinned || (mesh_only && not (is_mesh e.origin)))

module _ (deletable : String → Bool) (m : Manager) (need : ℕ) (mesh_only : Bool) where
  abbrev order : Dict Entry
  order = sort_by_use (candidates mesh_only m.disk m.entries)

  abbrev run : Evicting
  run = evict_loop deletable mesh_only (budget_of m) m (need + used m.disk m.entries) order

  abbrev result : Manager × Evicted
  result = evict_for deletable m need mesh_only

  -- Nothing is done without a budget, or when it fits.
  abbrev Easy : Type 0
  Easy = (m.max_disk_mb ≡ 0) ⊎ (need + used m.disk m.entries ≤ budget_of m)

  evict_for-cases :
      ((result ≡ (m, fits)) × Easy) ⊎ ((0 < m.max_disk_mb) × (result ≡ concluded (budget_of m) run))
  unfolding evict_for
  evict_for-cases = elim (Bool-cases (leb m.max_disk_mb 0)) [
    | inl e ↦ inl (rw e refl, ground (arith, e))
    | inr e ↦ elim (Bool-cases (leb (need + used m.disk m.entries) (budget_of m))) [
      | inl f ↦ inl (rw (e, f) refl, ground (arith, f))
      | inr f ↦ inr (ground (arith, e), rw (e, f) refl)
    ]
  ]

  -- The index and the disk are those that the loop leaves.
  concluded_lem :
      (budget : ℕ) (v : Evicting)
      → ((concluded budget v).0.entries ≡ v.manager.entries)
        × ((concluded budget v).0.disk ≡ v.manager.disk)
  concluded_lem budget v = elim (Option-cases v.failed) [
    | inl e ↦ rw e (refl, refl)
    | inr (id, e) ↦ rw e (refl, refl)
  ]

  concluded_fits : (budget : ℕ) (v : Evicting) → (concluded budget v).1 ≡ fits → v.total ≤ budget
  concluded_fits budget v e = ground arith

  concluded_over :
      (budget : ℕ) (v : Evicting)
      → (concluded budget v).1 ≡ over_budget
      → (v.failed ≡ none) × (budget < v.total)
  concluded_over budget v e = ground arith

  module _ (d : Distinct m.entries) where
    order-Held : All (Held m) order
    order-Held = All-sort_by_use (Held m) (candidates mesh_only m.disk m.entries) (
        All-map (Chosen mesh_only m.disk m.entries) (Held m) (candidates mesh_only m.disk m.entries)
          (λ p c. (c.0, ground (arith, c.1))) (candidates-Chosen mesh_only m.disk m.entries d))

    order-Distinct : Distinct order
    order-Distinct =
        sort_by_use-Distinct (candidates mesh_only m.disk m.entries)
          (candidates-Distinct mesh_only m.disk m.entries d)

    order-Chosen : All (Chosen mesh_only m.disk m.entries) order
    order-Chosen =
        All-sort_by_use (Chosen mesh_only m.disk m.entries) (candidates mesh_only m.disk m.entries)
          (candidates-Chosen mesh_only m.disk m.entries d)

    run_total : run.total ≡ need + used run.manager.disk run.manager.entries
    run_total =
        loop_exact deletable mesh_only (budget_of m) need m (need + used m.disk m.entries) order d
          order-Distinct order-Held refl

    -- What goes was chosen.
    evict_for-takes :
        (j : String)
        → (lookup j result.0.entries ≡ lookup j m.entries)
          ⊎ ((lookup j result.0.entries ≡ none)
              × (e : Entry) × (lookup j m.entries ≡ some e)
              × (is_candidate mesh_only m.disk (j, e) ≡ true))
    evict_for-takes j = elim evict_for-cases [
      | inl (e, easy) ↦ inl (rw e refl)
      | inr (pos, e) ↦
          rw (e, (concluded_lem (budget_of m) run).0)
            (elim (loop_spares deletable mesh_only (budget_of m) m (need + used m.disk m.entries)
              order j) [
                | inl same ↦ inl same
                | inr (gone, chosen) ↦ elim (Option-cases (lookup j order)) [
                  | inl n ↦ absurd (chosen n)
                  | inr (x, l) ↦
                      let c =
                        All-lookup (Chosen mesh_only m.disk m.entries) order j x order-Chosen l in
                      inr (gone, x, c.0, c.1)
                ]
              ])
    ]

    -- Room is made by deleting whole models that are complete, not pinned and, for the mesh, the
    -- mesh's own; every other entry stays as it was.
    pub evict_for-spares :
        (j : String)
        → (lookup j result.0.entries ≡ lookup j m.entries)
          ⊎ ((lookup j result.0.entries ≡ none)
              × (e : Entry) × (lookup j m.entries ≡ some e)
              × (is_ready e ≡ true)
              × (e.pinned ≡ false)
              × (not mesh_only || is_mesh e.origin ≡ true))
    evict_for-spares j = elim (evict_for-takes j) [
      | inl same ↦ inl same
      | inr (gone, e, l, c) ↦
          inr (gone, e, l, ground (arith, c), ground (arith, c), ground (arith, c))
    ]

    -- The outcome: the download fits, with what is left; or a file could not be removed; or the need
    -- is over the budget, with every model gone that might go.
    pub evict_for-fits :
        0 < m.max_disk_mb
        → result.1 ≡ fits
        → need + used result.0.disk result.0.entries ≤ budget_of m
    evict_for-fits pos e = elim evict_for-cases [
      | inl (same, easy) ↦ rw same (ground (arith, easy, pos))
      | inr (p, same) ↦
          let (entries, disk) = concluded_lem (budget_of m) run in
          rw (same, entries, disk)
            (ground
              (arith, concluded_fits (budget_of m) run (sym (ap (λ q. q.1) same) ∙ e), run_total))
    ]

    over_lem :
        result.1 ≡ over_budget
        → (result ≡ concluded (budget_of m) run) × (run.failed ≡ none) × (budget_of m < run.total)
    over_lem e = elim evict_for-cases [
      | inl (same, easy) ↦ cc
      | inr (p, same) ↦
          let (whole, over) = concluded_over (budget_of m) run (sym (ap (λ q. q.1) same) ∙ e) in
          (same, whole, over)
    ]

    evict_for-over :
        result.1 ≡ over_budget → budget_of m < need + used result.0.disk result.0.entries
    evict_for-over e =
        let (same, none_failed, over) = over_lem e in
        let (entries, disk) = concluded_lem (budget_of m) run in
        rw (same, entries, disk) (ground (arith, over, run_total))

    evict_for-clears :
        (j : String) (e : Entry)
        → result.1 ≡ over_budget
        → lookup j order ≡ some e
        → lookup j result.0.entries ≡ none
    evict_for-clears j e q l =
        let (same, none_failed, over) = over_lem q in
        rw (same, (concluded_lem (budget_of m) run).0)
          (loop_clears deletable mesh_only (budget_of m) m (need + used m.disk m.entries) order j e
            none_failed over l)

    in_order :
        (j : String) (e : Entry)
        → lookup j m.entries ≡ some e
        → is_candidate mesh_only m.disk (j, e) ≡ true
        → lookup j order ≡ some e
    in_order j e l c =
        lookup-sort_by_use j (candidates mesh_only m.disk m.entries)
          (candidates-Distinct mesh_only m.disk m.entries d)
        ∙ lookup-candidates mesh_only m.disk j e m.entries l c

    -- A download that is refused for its size is over the budget with what is left; of the store, the
    -- models that may go are gone, and every other is as it was. So nothing is refused for its size that
    -- would fit with them gone.
    pub evict_for-over_budget :
        (j : String)
        → result.1 ≡ over_budget
        → (budget_of m < need + used result.0.disk result.0.entries)
          × (lookup j result.0.entries ≡ (
              if evictable mesh_only m.disk j (lookup j m.entries)
              then none
              else lookup j m.entries))
    evict_for-over_budget j q = (
      evict_for-over q,
      elim (Option-cases (lookup j m.entries)) [
        | inl n ↦
            rw n (elim (evict_for-takes j) [ inl same ↦ same ∙ n | inr (gone, e, l, c) ↦ gone ])
        | inr (e, l) ↦ rw l (elim (Bool-cases (evictable mesh_only m.disk j (some e))) [
          | inl c ↦ rw c (evict_for-clears j e q (in_order j e l (ground (arith, c))))
          | inr c ↦ rw c (elim (evict_for-takes j) [
            | inl same ↦ same ∙ l
            | inr (gone, x, lx, cx) ↦
                let same : x ≡ e = cc (l, lx) in
                let chosen : is_candidate mesh_only m.disk (j, e) ≡ true = cc (cx, same) in
                ground (arith, c, chosen)
          ])
        ])
      ],
    )

    gone_lem :
        (i : String) (e : Entry)
        → lookup i m.entries ≡ some e
        → lookup i result.0.entries ≡ none
        → (result ≡ concluded (budget_of m) run) × (lookup i run.manager.entries ≡ none)
    gone_lem i e l gone = elim evict_for-cases [
      | inl (same, easy) ↦ absurd (none≢some {e = e} (sym gone ∙ rw same l))
      | inr (p, same) ↦ (same, rw⁻¹ ((concluded_lem (budget_of m) run).0) (rw⁻¹ same gone))
    ]

    -- Of two models that may go, the one that was used later does not go while the other stays.
    pub evict_for-order :
        (i j : String) (e f : Entry)
        → lookup i m.entries ≡ some e
        → is_candidate mesh_only m.disk (i, e) ≡ true
        → lookup j m.entries ≡ some f
        → is_candidate mesh_only m.disk (j, f) ≡ true
        → lookup i result.0.entries ≡ none
        → lookup j result.0.entries ≡ some f
        → e.last_used ≤ f.last_used
    evict_for-order i j e f li ci lj cj gone kept =
        let (same, gone') = gone_lem i e li gone in
        loop_order deletable mesh_only (budget_of m) m (need + used m.disk m.entries) order i j e f
          order-Distinct (sort_by_use-Sorted (candidates mesh_only m.disk m.entries)) order-Held
          (in_order i e li ci) (in_order j f lj cj) gone'
          (rw⁻¹ ((concluded_lem (budget_of m) run).0) (rw⁻¹ same kept))

    -- No more goes than must: when anything goes, some model that went would not fit back.
    pub evict_for-needed :
        (i : String) (e : Entry)
        → lookup i m.entries ≡ some e
        → lookup i result.0.entries ≡ none
        → (k : String) × (x : Entry) × (lookup k m.entries ≡ some x)
          × (lookup k result.0.entries ≡ none)
          × (budget_of m < need + used result.0.disk result.0.entries + x.size)
    evict_for-needed i e l gone =
        let (same, gone') = gone_lem i e l gone in
        let (entries, disk) = concluded_lem (budget_of m) run in
        rw (same, entries, disk)
          (elim (loop_needed deletable mesh_only (budget_of m) m (need + used m.disk m.entries)
            order order-Distinct) [
              | inl (unmoved, t) ↦ absurd (none≢some {e = e} (sym gone' ∙ rw unmoved l))
              | inr (k, x, lk, out, over) ↦ (
                k,
                x,
                (All-lookup (Chosen mesh_only m.disk m.entries) order k x order-Chosen lk).0,
                out,
                ground (arith, over, run_total),
              )
            ])
