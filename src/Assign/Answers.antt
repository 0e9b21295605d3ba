-- ===== src/Assign/Answers.antt =====
-- internal/assign/assign.go: what `admit` and `evict` answer.
use flockd.Base.{
  ℕ, ◌≡◌, refl, inl, inr, Bool, true, false, ◌||◌, ◌&&◌, ◌∷◌, Option, none, some, String, arith,
  str_eq, eq_iff, if◌then◌else◌, Bool-cases,
}
use flockd.Base.Dict.{lookup, lookup-insert}
use flockd.Assign.{
  publishes, reports, failure_row, PlacementState, declined, Node, Pending, Service, Request,
  active, contains, conclude, on_disk, admit, admit_start, admit_finish, refusal, Refusal, accept,
  CatalogModel, CatalogAnswer, unavailable, absent, found, RuntimeAnswer, serves, too_old,
  not_there, upgrade, runtime_refusal, catalog_refusal,
}
use flockd.Assign.World.Served.{contains-without}

-- What an operator agrees to.
pub record Allowed (n : Node) (r : Request) : Type 0 where
  pub named : n.valid_id r.id ≡ true
  pub not_loaded : n.loaded r.id ≡ false
  pub has_store : n.has_ops ≡ true
  pub managed : n.policy.mesh_managed ≡ true
  pub not_excluded : contains n.policy.exclude r.id ≡ false
  pub model : CatalogModel
  pub in_catalog : n.catalog r.id ≡ found model
  pub same_artifact : str_eq r.sha256 "" || str_eq model.sha256 r.sha256 ≡ true
  pub servable : n.check_runtime r.id (model.decision || r.decision) ≡ serves
  pub to_do : r.stage && on_disk n r.id ≡ false

module _ (n : Node) (r : Request) where
  runtime_refusal-none : (a : RuntimeAnswer) → runtime_refusal a ≡ none → a ≡ serves
  runtime_refusal-none serves e = refl
  runtime_refusal-none (too_old reason) e = cc
  runtime_refusal-none (not_there reason) e = cc

  catalog_refusal-none :
      (a : CatalogAnswer)
      → catalog_refusal n r a ≡ none
      → (m : CatalogModel) × (a ≡ found m)
        × (str_eq r.sha256 "" || str_eq m.sha256 r.sha256 ≡ true)
        × (n.check_runtime r.id (m.decision || r.decision) ≡ serves)
  catalog_refusal-none (unavailable reason) e = cc
  catalog_refusal-none absent e = cc
  catalog_refusal-none (found m) e = (
    m,
    refl,
    ground arith,
    runtime_refusal-none (n.check_runtime r.id (m.decision || r.decision)) (ground arith),
  )

  conclude_out :
      (s : Service) (st : PlacementState) (reason : String) (now : ℕ)
      → contains (conclude s r.id st reason now).queue r.id ≡ false
  unfolding conclude
  conclude_out s st reason now =
      ground (arith, contains-without r.id r.id s.queue, eq_iff r.id r.id)

  upgrade_queue :
      (s : Service) (stage : Bool) (p : Option Pending) → (upgrade s r.id stage p).queue ≡ s.queue
  upgrade_queue s stage none = refl
  upgrade_queue s stage (some p) = ground arith

  -- What the first critical section lets through, it leaves as it was.
  pub start_passes :
      (s : Service)
      → (admit_start n s r).1 ≡ true
      → ((admit_start n s r).0 ≡ s)
        × (n.valid_id r.id ≡ true)
        × (n.loaded r.id ≡ false)
        × (active (lookup r.id s.pending) ≡ false)
  unfolding admit_start
  start_passes s e = elim (Bool-cases (n.valid_id r.id)) [
    | inr bad ↦ ground arith
    | inl good ↦ elim (Bool-cases (n.loaded r.id)) [
      | inl there ↦ ground arith
      | inr absent_yet ↦ elim (Bool-cases (active (lookup r.id s.pending))) [
        | inl on_it ↦ ground arith
        | inr new ↦ (rw (good, absent_yet, new) refl, good, absent_yet, new)
      ]
    ]
  ]

  start_stops :
      (s : Service)
      → (admit_start n s r).1 ≡ false
      → contains s.queue r.id ≡ false
      → contains ((admit_start n s r).0).queue r.id ≡ false
  unfolding admit_start
  start_stops s e out = elim (Bool-cases (n.valid_id r.id)) [
    | inr bad ↦ rw bad (conclude_out s declined "invalid model id" n.now)
    | inl good ↦ elim (Bool-cases (n.loaded r.id)) [
      | inl there ↦ rw (good, there) out
      | inr absent_yet ↦ elim (Bool-cases (active (lookup r.id s.pending))) [
        | inl on_it ↦
            rw (good, absent_yet, on_it, upgrade_queue s r.stage (lookup r.id s.pending)) out
        | inr new ↦ rw (good, absent_yet, new) out
      ]
    ]
  ]

  finish_queues :
      (s : Service) (o : Option Refusal)
      → contains s.queue r.id ≡ false
      → contains (accept n s r o).queue r.id ≡ true
      → (o ≡ none) × (r.stage && on_disk n r.id ≡ false)
  finish_queues s (some f) out q = ground (arith, conclude_out s f.state f.reason n.now)
  finish_queues s none out q = ground arith

  pub admit_passes :
      (s : Service) → (admit_start n s r).1 ≡ true → admit n s r ≡ accept n s r (refusal n r)
  unfolding admit admit_finish
  admit_passes s on = ground (arith, start_passes s on)

  enqueued_lem :
      (s : Service)
      → contains s.queue r.id ≡ false
      → contains (admit n s r).queue r.id ≡ true
      → (n.valid_id r.id ≡ true)
        × (n.loaded r.id ≡ false)
        × (refusal n r ≡ none)
        × (r.stage && on_disk n r.id ≡ false)
  unfolding admit
  enqueued_lem s out q = elim (Bool-cases ((admit_start n s r).1)) [
    | inl on ↦
        let (same, v, l, new) = start_passes s on in
        let (e, d) = finish_queues s (refusal n r) out (rw⁻¹ (admit_passes s on) q) in (v, l, e, d)
    | inr off ↦ ground (arith, start_stops s off out)
  ]

  allowed_lem :
      n.valid_id r.id ≡ true
      → n.loaded r.id ≡ false
      → r.stage && on_disk n r.id ≡ false
      → refusal n r ≡ none
      → Allowed n r
  unfolding refusal
  allowed_lem v l d e =
      let (m, found_it, same, serves_it) = catalog_refusal-none (n.catalog r.id) (ground arith) in
      record {
        named = v;
        not_loaded = l;
        has_store = ground arith;
        managed = ground arith;
        not_excluded = ground arith;
        model = m;
        in_catalog = found_it;
        same_artifact = same;
        servable = serves_it;
        to_do = d;
      }

  -- A push puts a model on the queue only when the operator's policy lets the mesh manage models and
  -- does not exclude this one, the node's catalog names it with the artifact asked for, the installed
  -- runtime serves it, and there is something to do: it is not loaded, nor staged and already on disk.
  pub admit-Allowed :
      (s : Service)
      → contains s.queue r.id ≡ false
      → contains (admit n s r).queue r.id ≡ true
      → Allowed n r
  admit-Allowed s out q = let (v, l, e, d) = enqueued_lem s out q in allowed_lem v l d e

  pub passes_lem :
      (s : Service)
      → n.valid_id r.id ≡ true
      → n.loaded r.id ≡ false
      → active (lookup r.id s.pending) ≡ false
      → (admit_start n s r).1 ≡ true
  unfolding admit_start
  passes_lem s v l new = ground arith

  concluded_lem :
      (s : Service) (st : PlacementState) (reason : String) (now : ℕ) (j : String)
      → (lookup j (conclude s r.id st reason now).pending ≡ (
          if str_eq r.id j
          then some (record { state = st; since = now; error = reason; stage = false })
          else lookup j s.pending))
        × (contains (conclude s r.id st reason now).queue j
            ≡ (if str_eq r.id j then false else contains s.queue j))
  unfolding conclude
  concluded_lem s st reason now j = (
    lookup-insert r.id j (record { state = st; since = now; error = reason; stage = false })
        s.pending,
    contains-without r.id j s.queue,
  )

  -- A push of a model that is neither loaded nor in flight, and that the policy, the catalog or the
  -- runtime refuses, is kept where the operator sees it, with its reason, and off the queue; it is told
  -- once to the activity log, the local API and the coordinator, and no other placement changes.
  pub refused_lem :
      (s : Service) (f : Refusal) (j : String)
      → n.valid_id r.id ≡ true
      → n.loaded r.id ≡ false
      → active (lookup r.id s.pending) ≡ false
      → refusal n r ≡ some f
      → (lookup j (admit n s r).pending ≡ (
          if str_eq r.id j
          then some (record { state = f.state; since = n.now; error = f.reason; stage = false })
          else lookup j s.pending))
        × (contains (admit n s r).queue j ≡ (if str_eq r.id j then false else contains s.queue j))
        × ((admit n s r).acts
            ≡ failure_row f.state r.id f.reason
              ∷ publishes r.id f.state f.reason
              ∷ reports r.id f.state
              ∷ s.acts)
  unfolding conclude
  refused_lem s f j v l new e =
      rw (admit_passes s (passes_lem s v l new), e)
        (
          (concluded_lem s f.state f.reason n.now j).0,
          (concluded_lem s f.state f.reason n.now j).1,
          refl,
        )
