-- ===== src/Assign/World/Pushes.antt =====
-- internal/assign/assign.go: the pushes against the placements in flight.
use flockd.Base.{
  ℕ, ◌≡◌, refl, inl, inr, ◌⊎◌, Bool, false, ◌||◌, ◌&&◌, not, [], ◌∷◌, Option, none, some, String,
  arith, eq_iff, Bool-cases, Option-cases,
}
use flockd.Base.Dict.{Dict, lookup, Distinct, insert-Distinct}
use flockd.Assign.{
  PlacementState, assigned, declined, evicted, Node, Pending, Service, Request, in_flight, active,
  conclude, admit_start, refusal, Refusal, accept, enqueue, admit_finish, evict, evict_stored,
  expire, unloaded, cacheable, on_disk, pinned, upgrade, withdraw, operator, mesh, Origin,
  forgettable, RuntimeAnswer, serves, too_old, not_there, CatalogAnswer, unavailable, absent, found,
  runtime_refusal, catalog_refusal,
}
use flockd.Assign.Worker.{Phase}
use flockd.Assign.World.Served.{
  Served, conclude-Served, enqueue-Served, upgrade-Served, withdraw-Served,
}

runtime_refusal_state :
    (a : RuntimeAnswer) (f : Refusal) → runtime_refusal a ≡ some f → in_flight f.state ≡ false
runtime_refusal_state serves f e = cc
runtime_refusal_state (too_old reason) f e = ground arith
runtime_refusal_state (not_there reason) f e = ground arith

catalog_refusal_state :
    (n : Node) (r : Request) (a : CatalogAnswer) (f : Refusal)
    → catalog_refusal n r a ≡ some f
    → in_flight f.state ≡ false
catalog_refusal_state n r (unavailable reason) f e = ground arith
catalog_refusal_state n r absent f e = ground arith
catalog_refusal_state n r (found m) f e =
    ground (arith, runtime_refusal_state (n.check_runtime r.id (m.decision || r.decision)) f)

refusal_state :
    (n : Node) (r : Request) (f : Refusal) → refusal n r ≡ some f → in_flight f.state ≡ false
unfolding refusal
refusal_state n r f e = ground (arith, catalog_refusal_state n r (n.catalog r.id) f)

pub record Inv (s : Service) (worker : Phase) : Type 0 where
  pub served : Served s worker
  pub distinct : Distinct s.pending

module _ (s : Service) (worker : Phase) (i : Inv s worker) where
  pub conclude-Inv :
      (id : String) (st : PlacementState) (reason : String) (now : ℕ)
      → in_flight st ≡ false
      → Inv (conclude s id st reason now) worker
  unfolding conclude
  conclude-Inv id st reason now f = record {
    served = conclude-Served s worker i.served id st reason now f;
    distinct =
        insert-Distinct id (record { state = st; since = now; error = reason; stage = false })
          s.pending i.distinct;
  }

  upgrade-Inv : (id : String) (stage : Bool) → Inv (upgrade s id stage (lookup id s.pending)) worker
  upgrade-Inv id stage = record {
    served = upgrade-Served s worker i.served id stage;
    distinct = elim (Option-cases (lookup id s.pending)) [
      | inl e ↦ rw e i.distinct
      | inr (p, e) ↦ rw e (elim (Bool-cases (p.stage && not stage)) [
        | inl up ↦ rw up (insert-Distinct id (record p { stage = false }) s.pending i.distinct)
        | inr same ↦ rw same i.distinct
      ])
    ];
  }

  pub admit_start-Inv : (n : Node) (r : Request) → Inv (admit_start n s r).0 worker
  unfolding admit_start
  admit_start-Inv n r = elim (Bool-cases (n.valid_id r.id)) [
    | inr bad ↦ rw bad (conclude-Inv r.id declined "invalid model id" n.now refl)
    | inl good ↦ elim (Bool-cases (n.loaded r.id)) [
      | inl there ↦ rw (good, there) (record { served = i.served; distinct = i.distinct })
      | inr absent_yet ↦ elim (Bool-cases (active (lookup r.id s.pending))) [
        | inl on_it ↦ rw (good, absent_yet, on_it) (upgrade-Inv r.id r.stage)
        | inr new ↦ rw (good, absent_yet, new) i
      ]
    ]
  ]

  enqueue-Inv : (r : Request) (now : ℕ) → Inv (enqueue s r now) worker
  unfolding enqueue
  enqueue-Inv r now = record {
    served = enqueue-Served s worker i.served r now;
    distinct =
        insert-Distinct r.id (record { state = assigned; since = now; error = ""; stage = r.stage })
          s.pending i.distinct;
  }

  accepted-Inv : (n : Node) (r : Request) → Inv (accept n s r none) worker
  accepted-Inv n r = elim (Bool-cases (r.stage && on_disk n r.id)) [
    | inl there ↦ rw there (record { served = i.served; distinct = i.distinct })
    | inr to_do ↦ rw to_do (enqueue-Inv r n.now)
  ]

  pub admit_finish-Inv : (n : Node) (r : Request) → Inv (admit_finish n s r) worker
  unfolding admit_finish
  admit_finish-Inv n r = elim (Option-cases (refusal n r)) [
    | inl e ↦ rw e (accepted-Inv n r)
    | inr (f, e) ↦ rw e (conclude-Inv r.id f.state f.reason n.now (refusal_state n r f e))
  ]

  withdraw-Inv : (n : Node) (id : String) → Inv (withdraw n s id (lookup id s.pending)) worker
  withdraw-Inv n id = record {
    served = withdraw-Served s worker i.served n id;
    distinct = elim (Option-cases (lookup id s.pending)) [
      | inl e ↦ rw e i.distinct
      | inr (p, e) ↦
          rw e
            (insert-Distinct id (record p { state = evicted; since = n.now }) s.pending i.distinct)
    ];
  }

  evict_stored-Inv :
      (n : Node) (id : String) (o : Option Origin) → Inv (evict_stored n s id o) worker
  evict_stored-Inv n id none = i
  evict_stored-Inv n id (some operator) = i
  evict_stored-Inv n id (some mesh) = elim (Bool-cases (pinned n id)) [
    | inl p ↦ rw p i
    | inr p ↦ elim (Bool-cases (n.removable id)) [
      | inl ok ↦ rw (p, ok) (record { served = i.served; distinct = i.distinct })
      | inr bad ↦ rw (p, bad) (record { served = i.served; distinct = i.distinct })
    ]
  ]

  pub evict-Inv : (n : Node) (id : String) → Inv (evict n s id) worker
  unfolding evict
  evict-Inv n id = elim (Bool-cases (not n.has_mgr || not n.has_ops)) [
    | inl nothing ↦ rw nothing i
    | inr both ↦ elim (Bool-cases (active (lookup id s.pending))) [
      | inl on_it ↦ rw (both, on_it) (withdraw-Inv n id)
      | inr stored ↦ rw (both, stored) (evict_stored-Inv n id (n.origin id))
    ]
  ]

  pub unloaded-Inv : (n : Node) (id : String) → Inv (unloaded n s id) worker
  unfolding unloaded
  unloaded-Inv n id = elim (Bool-cases (cacheable n id)) [
    | inl yes_cached ↦ rw yes_cached (record { served = i.served; distinct = i.distinct })
    | inr e ↦ rw e i
  ]

lookup-expire-none :
    (id : String) (m : Dict Pending) (now : ℕ)
    → lookup id m ≡ none
    → lookup id (expire m now) ≡ none
unfolding lookup expire
lookup-expire-none id [] now e = refl
lookup-expire-none id ((j, p) ∷ m) now e = ground (arith, lookup-expire-none id m now)

pub expire-Distinct : (m : Dict Pending) (now : ℕ) → Distinct m → Distinct (expire m now)
unfolding expire
expire-Distinct [] now h = h
expire-Distinct ((j, p) ∷ m) now h = elim (Bool-cases (forgettable p now)) [
  | inl e ↦ rw e (expire-Distinct m now h.1)
  | inr e ↦ rw e (lookup-expire-none j m now h.0, expire-Distinct m now h.1)
]

pub lookup-expire :
    (id : String) (m : Dict Pending) (now : ℕ)
    → Distinct m
    → (lookup id (expire m now) ≡ none) ⊎ (lookup id (expire m now) ≡ lookup id m)
unfolding lookup expire
lookup-expire id [] now h = inr refl
lookup-expire id ((j, p) ∷ m) now h = elim (lookup-expire id m now h.1) [
  | inl e ↦ ground (arith, eq_iff j id, lookup-expire-none j m now h.0)
  | inr e ↦ ground (arith, eq_iff j id, lookup-expire-none j m now h.0)
]
