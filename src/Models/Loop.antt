-- ===== src/Models/Loop.antt =====
-- internal/models/manager.go: the loop of `evictForLocked`.
use flockd.Base.{
  ℕ, ◌+◌, ◌-◌, ◌≤◌, ◌<◌, ◌≡◌, ◌≢◌, refl, ap, ◌∙◌, sym, inl, inr, ◌⊎◌, Bool, true, false, [], ◌∷◌,
  none, some, String, str_eq, eq_iff, arith, if◌then◌else◌, Bool-cases, All, subst,
}
use flockd.Base.Dict.{Dict, lookup, lookup-delete, Distinct, delete-Distinct}
use flockd.Models.{
  Manager, Entry, operator, mesh, occupies, used, evict_loop, remove_files, evicted, drop_entry,
  tell,
}
-- A predicate at every pair, along the selection and the sort.
use flockd.Models.Candidates.{without_files, used-delete, Sorted, UsedBefore}

-- The next entry is evicted.
abbrev pub evict_one : Bool → Manager → String → Manager
evict_one mesh_only m id =
    tell (drop_entry (record m { disk = without_files m.disk id }) id)
      (evicted (if mesh_only then mesh else operator) id)

-- The entries to come are the index's, and count.
abbrev pub Held : Manager → String × Entry → Type 0
Held m p = (lookup p.0 m.entries ≡ some p.1) × (occupies m.disk p ≡ true)

-- A predicate of every pair, at a key.
pub none≢some : {e : Entry} → none ≢ some e
none≢some q = cc

module _ {ℓ} (P : String × Entry → Type ℓ) where
  pub All-lookup :
      (ps : Dict Entry) (j : String) (e : Entry) → All P ps → lookup j ps ≡ some e → P (j, e)
  unfolding lookup
  All-lookup [] j e h l = cc
  All-lookup ((k, f) ∷ ps) j e h l = elim (Bool-cases (str_eq k j)) [
    | inl same ↦
        let key : k ≡ j = ground (arith, same, eq_iff k j) in
        let value : f ≡ e = ground (arith, same, l) in
        subst P (ap (λ x. (x, f)) key ∙ ap (λ x. (j, x)) value) h.0
    | inr other ↦ All-lookup ps j e h.1 (ground arith)
  ]

module _ (deletable : String → Bool) (mesh_only : Bool) (budget : ℕ) where
  evict_loop_nil :
      (m : Manager) (total : ℕ)
      → evict_loop deletable mesh_only budget m total []
        ≡ record { manager = m; total = total; failed = none }
  unfolding evict_loop
  evict_loop_nil m total = refl

  -- The loop goes on past its first entry.
  evict_loop_next :
      (m : Manager) (total : ℕ) (p : String × Entry) (cs : Dict Entry)
      → budget < total
      → deletable p.0 ≡ true
      → evict_loop deletable mesh_only budget m total (p ∷ cs)
        ≡ evict_loop deletable mesh_only budget (evict_one mesh_only m p.0) (total - p.1.size) cs
  unfolding evict_loop remove_files
  evict_loop_next m total p cs o d = ground arith

  -- or ends there
  evict_loop_end :
      (m : Manager) (total : ℕ) (p : String × Entry) (cs : Dict Entry)
      → (total ≤ budget) ⊎ (deletable p.0 ≡ false)
      → ((evict_loop deletable mesh_only budget m total (p ∷ cs)).manager ≡ m)
        × ((evict_loop deletable mesh_only budget m total (p ∷ cs)).total ≡ total)
  unfolding evict_loop remove_files
  evict_loop_end m total p cs o = ground arith

  evict_loop_end_fits :
      (m : Manager) (total : ℕ) (p : String × Entry) (cs : Dict Entry)
      → (total ≤ budget) ⊎ (deletable p.0 ≡ false)
      → (evict_loop deletable mesh_only budget m total (p ∷ cs)).failed ≡ none
      → ¬ (budget < (evict_loop deletable mesh_only budget m total (p ∷ cs)).total)
  unfolding evict_loop remove_files
  evict_loop_end_fits m total p cs o f b = ground arith

  loop-cases :
      (total : ℕ) (id : String)
      → ((budget < total) × (deletable id ≡ true)) ⊎ ((total ≤ budget) ⊎ (deletable id ≡ false))
  loop-cases total id = ground arith

  Held-later :
      (m : Manager) (p : String × Entry) (cs : Dict Entry)
      → lookup p.0 cs ≡ none
      → All (Held m) cs
      → All (Held (evict_one mesh_only m p.0)) cs
  unfolding lookup
  Held-later m p [] n h = tt
  Held-later m p (q ∷ cs) n h = (
    (
      ground (arith, lookup-delete p.0 q.0 m.entries, eq_iff p.0 q.0, eq_iff q.0 p.0, h.0.0),
      ground (arith, eq_iff p.0 q.0, eq_iff q.0 p.0, h.0.1),
    ),
    Held-later m p cs (ground arith) h.1,
  )

  -- The total is what the entries left count for, and the bytes needed.
  pub loop_exact :
      (need : ℕ) (m : Manager) (total : ℕ) (cs : Dict Entry)
      → Distinct m.entries
      → Distinct cs
      → All (Held m) cs
      → total ≡ need + used m.disk m.entries
      → (evict_loop deletable mesh_only budget m total cs).total
        ≡ need
          + used
              (evict_loop deletable mesh_only budget m total cs).manager.disk
              (evict_loop deletable mesh_only budget m total cs).manager.entries
  loop_exact need m total [] d dc h e = rw (evict_loop_nil m total) e
  loop_exact need m total (p ∷ cs) d dc h e = elim (loop-cases total p.0) [
    | inl (o, f) ↦ rw (evict_loop_next m total p cs o f) (
        loop_exact need (evict_one mesh_only m p.0) (total - p.1.size) cs
          (delete-Distinct p.0 m.entries d) dc.1 (Held-later m p cs dc.0 h.1)
          (ground (arith, used-delete m.disk p.0 p.1 m.entries d h.0.0 h.0.1, e)))
    | inr o ↦ let (same, t) = evict_loop_end m total p cs o in rw (same, t) e
  ]

  -- An entry stays as it was, or was one of those to evict.
  pub loop_spares :
      (m : Manager) (total : ℕ) (cs : Dict Entry) (j : String)
      → (lookup j (evict_loop deletable mesh_only budget m total cs).manager.entries
          ≡ lookup j m.entries)
        ⊎ ((lookup j (evict_loop deletable mesh_only budget m total cs).manager.entries ≡ none)
            × (lookup j cs ≢ none))
  unfolding lookup
  loop_spares m total [] j = inl (rw (evict_loop_nil m total) refl)
  loop_spares m total (p ∷ cs) j = elim (loop-cases total p.0) [
    | inl (o, f) ↦ rw (evict_loop_next m total p cs o f) (
        ground (
          arith,
          loop_spares (evict_one mesh_only m p.0) (total - p.1.size) cs j,
          lookup-delete p.0 j m.entries,
        ))
    | inr o ↦ inl (rw ((evict_loop_end m total p cs o).0) refl)
  ]

  evicted_gone :
      (m : Manager) (total : ℕ) (p : String × Entry) (cs : Dict Entry) (j : String)
      → str_eq p.0 j ≡ true
      → lookup j
          (evict_loop deletable mesh_only budget
            (evict_one mesh_only m p.0)
            total
            cs).manager.entries
        ≡ none
  evicted_gone m total p cs j same = elim (loop_spares (evict_one mesh_only m p.0) total cs j) [
    | inl e ↦ e ∙ ground (arith, lookup-delete p.0 j m.entries)
    | inr gone ↦ gone.0
  ]

  -- When even the last eviction leaves too much, all of them are gone.
  pub loop_clears :
      (m : Manager) (total : ℕ) (cs : Dict Entry) (j : String) (e : Entry)
      → (evict_loop deletable mesh_only budget m total cs).failed ≡ none
      → budget < (evict_loop deletable mesh_only budget m total cs).total
      → lookup j cs ≡ some e
      → lookup j (evict_loop deletable mesh_only budget m total cs).manager.entries ≡ none
  unfolding lookup
  loop_clears m total [] j e f b l = cc
  loop_clears m total (p ∷ cs) j e f b l = elim (loop-cases total p.0) [
    | inl (o, d) ↦ rw (evict_loop_next m total p cs o d) (elim (Bool-cases (str_eq p.0 j)) [
      | inl same ↦ evicted_gone m (total - p.1.size) p cs j same
      | inr other ↦
          loop_clears (evict_one mesh_only m p.0) (total - p.1.size) cs j e
            (rw⁻¹ (evict_loop_next m total p cs o d) f) (rw⁻¹ (evict_loop_next m total p cs o d) b)
            (ground arith)
    ])
    | inr o ↦ absurd (evict_loop_end_fits m total p cs o f b)
  ]

  -- What is evicted was used no later than what is spared.
  pub loop_order :
      (m : Manager) (total : ℕ) (cs : Dict Entry) (i j : String) (e f : Entry)
      → Distinct cs
      → Sorted cs
      → All (Held m) cs
      → lookup i cs ≡ some e
      → lookup j cs ≡ some f
      → lookup i (evict_loop deletable mesh_only budget m total cs).manager.entries ≡ none
      → lookup j (evict_loop deletable mesh_only budget m total cs).manager.entries ≡ some f
      → e.last_used ≤ f.last_used
  unfolding lookup
  loop_order m total [] i j e f dc so h li lj gone kept = cc
  loop_order m total (p ∷ cs) i j e f dc so h li lj gone kept = elim (loop-cases total p.0) [
    | inl (o, d) ↦ elim (Bool-cases (str_eq p.0 j)) [
      | inl same ↦ absurd (
          none≢some {e = f} (
            sym (evicted_gone m (total - p.1.size) p cs j same)
            ∙ rw⁻¹ (evict_loop_next m total p cs o d) kept))
      | inr later ↦ elim (Bool-cases (str_eq p.0 i)) [
        | inl first ↦ ground (arith, All-lookup (UsedBefore p) cs j f so.0, li, lj)
        | inr both ↦
            loop_order (evict_one mesh_only m p.0) (total - p.1.size) cs i j e f dc.1 so.1
              (Held-later m p cs dc.0 h.1) (ground arith) (ground arith)
              (rw⁻¹ (evict_loop_next m total p cs o d) gone)
              (rw⁻¹ (evict_loop_next m total p cs o d) kept)
      ]
    ]
    | inr o ↦
        let (same, t) = evict_loop_end m total p cs o in
        absurd
          (none≢some {e = e} (sym (rw⁻¹ same gone) ∙ (All-lookup (Held m) (p ∷ cs) i e h li).0))
  ]

  -- Some entry that was evicted would no longer fit, if any was.
  pub loop_needed :
      (m : Manager) (total : ℕ) (cs : Dict Entry)
      → Distinct cs
      → (((evict_loop deletable mesh_only budget m total cs).manager ≡ m)
          × ((evict_loop deletable mesh_only budget m total cs).total ≡ total))
        ⊎ ((k : String) × (e : Entry) × (lookup k cs ≡ some e)
            × (lookup k (evict_loop deletable mesh_only budget m total cs).manager.entries ≡ none)
            × (budget < (evict_loop deletable mesh_only budget m total cs).total + e.size))
  unfolding lookup
  loop_needed m total [] dc = inl (rw (evict_loop_nil m total) (refl, refl))
  loop_needed m total (p ∷ cs) dc = elim (loop-cases total p.0) [
    | inl (o, d) ↦
        rw (evict_loop_next m total p cs o d)
          (elim (loop_needed (evict_one mesh_only m p.0) (total - p.1.size) cs dc.1) [
            | inl (same, t) ↦ inr (
              p.0,
              p.1,
              ground (arith, eq_iff p.0 p.0),
              evicted_gone m (total - p.1.size) p cs p.0 (ground (arith, eq_iff p.0 p.0)),
              ground (arith, o, t),
            )
            | inr (k, e, l, gone, over) ↦ inr (k, e, ground (arith, eq_iff p.0 k, dc.0), gone, over)
          ])
    | inr o ↦ inl (evict_loop_end m total p cs o)
  ]
