-- ===== src/Assign/World/Progress.antt =====
-- internal/assign/assign.go: the worker's critical sections against the placements in flight.
use flockd.Base.{
  ℕ, ◌≡◌, refl, inl, inr, ◌⊎◌, Bool, true, false, List, [], ◌∷◌, some, String, arith, str_eq,
  eq_iff, if◌then◌else◌, Bool-cases, Option-cases,
}
use flockd.Base.Dict.{
  lookup, delete, lookup-insert, lookup-delete, insert-Distinct, delete-Distinct,
}
use flockd.Assign.{
  Act, tell, removes, records_assignment, publishes, reports, PlacementState, downloading, ready,
  cached, declined, failed, Node, Service, in_flight, active, contains, conclude,
}
use flockd.Assign.Worker.{
  Failure, over_budget, no_artifact, over_memory, other, Phase, idle, waiting, started, fetching,
  kept, caching, loading, readying, failing, next, still_queued, still_active, begin, choose,
  fetched, settle_stage, finish_stage, loaded, finish_ready, check_failure, fail,
  evicted_then_remove, staged, is_evicted,
}
use flockd.Assign.World.{
  WorkerStep, pops, stops, begins, chooses, fetches, fetch_fails, settles, stages, loads,
  load_fails, readies, fails,
}
use flockd.Assign.World.Served.{waits_for, works_on, contains-without}
use flockd.Assign.World.Pushes.{Inv, conclude-Inv}

abbrev queue-cases :
    (q : List String) → (q ≡ []) ⊎ ((id : String) × (rest : List String) × (q ≡ id ∷ rest))
queue-cases [] = inl refl
queue-cases (id ∷ rest) = inr (id, rest, refl)

eq_refl : (id : String) → str_eq id id ≡ true
eq_refl id = ground (arith, eq_iff id id)

-- Work is on one placement, and nothing waits then.
busy_lem :
    (w : Phase) (id j : String)
    → works_on w id ≡ true
    → (works_on w j ≡ str_eq id j) × (waits_for w j ≡ false)
busy_lem idle id j e = cc
busy_lem (waiting k) id j e = cc
busy_lem (started k) id j e = ground (arith, eq_iff k id)
busy_lem (fetching k) id j e = ground (arith, eq_iff k id)
busy_lem (kept k) id j e = ground (arith, eq_iff k id)
busy_lem (caching k) id j e = ground (arith, eq_iff k id)
busy_lem (loading k) id j e = ground (arith, eq_iff k id)
busy_lem (readying k) id j e = ground (arith, eq_iff k id)
busy_lem (failing b k f) id j e = ground (arith, eq_iff k id)

next-Inv : (s : Service) → Inv s idle → Inv (next s).0 (next s).1
unfolding next contains
next-Inv s i = elim (queue-cases s.queue) [
  | inl e ↦ rw e (record { served = λ j. ground (arith, i.served j, e); distinct = i.distinct })
  | inr (id, rest, e) ↦
      rw e (record { served = λ j. ground (arith, i.served j, e); distinct = i.distinct })
]

module _ (s : Service) where
  stop-Inv : (id : String) → Inv s (waiting id) → still_queued s id ≡ false → Inv s idle
  unfolding still_queued
  stop-Inv id i e = record {
    served = λ j. ground (arith, i.served j, eq_iff id j);
    distinct = i.distinct;
  }

  begin-Inv : (n : Node) (id : String) → Inv s (waiting id) → Inv (begin n s id).0 (begin n s id).1
  unfolding begin
  begin-Inv n id i = elim (Option-cases (lookup id s.pending)) [
    | inl e ↦
        rw e (record {
          served = λ j. ground (arith, i.served j, eq_iff id j, e);
          distinct = i.distinct;
        })
    | inr (p, e) ↦ elim (Bool-cases (is_evicted (some p))) [
      | inl gone ↦
          rw (e, gone)
            (record {
              served = λ j. ground (arith, i.served j, eq_iff id j, e);
              distinct = i.distinct;
            })
      | inr there ↦
          rw (e, there)
            (record {
              served = λ j. ground (
                arith,
                i.served j,
                eq_iff id j,
                lookup-insert id j (record p { state = downloading; since = n.now }) s.pending,
              );
              distinct =
                  insert-Distinct id (record p { state = downloading; since = n.now }) s.pending
                    i.distinct;
            })
    ]
  ]

  -- From one stage of the work on a placement to the next.
  move-Inv :
      (id : String) (w w' : Phase)
      → works_on w id ≡ true
      → works_on w' id ≡ true
      → Inv s w
      → Inv s w'
  move-Inv id w w' e e' i = record {
    served = λ j. ground (arith, i.served j, busy_lem w id j e, busy_lem w' id j e');
    distinct = i.distinct;
  }

  choose-Inv : (id : String) → Inv s (started id) → Inv s (choose s id)
  unfolding choose
  choose-Inv id i = elim (Bool-cases (staged s id)) [
    | inl e ↦ rw e (move-Inv id (started id) (fetching id) (eq_refl id) (eq_refl id) i)
    | inr e ↦ rw e (move-Inv id (started id) (loading id) (eq_refl id) (eq_refl id) i)
  ]

  settle_stage-Inv : (id : String) → Inv s (kept id) → Inv s (settle_stage s id)
  unfolding settle_stage
  settle_stage-Inv id i = elim (Bool-cases (staged s id)) [
    | inl e ↦ rw e (move-Inv id (kept id) (caching id) (eq_refl id) (eq_refl id) i)
    | inr e ↦ rw e (move-Inv id (kept id) (loading id) (eq_refl id) (eq_refl id) i)
  ]

  module _ (id : String) (w : Phase) (busy : works_on w id ≡ true) (i : Inv s w) where
    check_failure-Inv : (b : Bool) (f : Failure) → Inv s (check_failure s b id f)
    unfolding check_failure still_active
    check_failure-Inv b f = elim (Bool-cases (active (lookup id s.pending))) [
      | inl e ↦ rw e (move-Inv id w (failing b id f) busy (eq_refl id) i)
      | inr e ↦ rw e (record {
        served = λ j. ground (arith, i.served j, busy_lem w id j busy, eq_iff id j);
        distinct = i.distinct;
      })
    ]

    drop-Inv : (acts : List Act) → Inv (tell (record s { pending = delete id s.pending }) acts) idle
    drop-Inv acts = record {
      served = λ j.
          ground
            (arith, i.served j, busy_lem w id j busy, eq_iff id j, lookup-delete id j s.pending);
      distinct = delete-Distinct id s.pending i.distinct;
    }

    conclude_idle-Inv :
        (st : PlacementState) (reason : String) (now : ℕ)
        → in_flight st ≡ false
        → Inv (conclude s id st reason now) idle
    unfolding conclude
    conclude_idle-Inv st reason now e = record {
      served = λ j. ground (
        arith,
        i.served j,
        busy_lem w id j busy,
        eq_iff id j,
        contains-without id j s.queue,
        lookup-insert id j (record { state = st; since = now; error = reason; stage = false })
            s.pending,
      );
      distinct = (conclude-Inv s w i id st reason now e).distinct;
    }

    evicted_then_remove-Inv :
        (w' : Phase)
        → works_on w' id ≡ true
        → Inv (evicted_then_remove s id).0 (if (evicted_then_remove s id).1 then idle else w')
    unfolding evicted_then_remove
    evicted_then_remove-Inv w' e' = elim (Bool-cases (is_evicted (lookup id s.pending))) [
      | inl gone ↦ rw gone (drop-Inv (removes id ∷ []))
      | inr there ↦ rw there (move-Inv id w w' busy e' i)
    ]

  fail-Inv :
      (b : Bool) (id : String) (f : Failure) (now : ℕ)
      → Inv s (failing b id f)
      → Inv (fail s b id f now) idle
  unfolding fail
  fail-Inv b id over_budget now i =
      conclude_idle-Inv id (failing b id over_budget) (eq_refl id) i declined
        "does not fit in max_disk_mb" now refl
  fail-Inv b id no_artifact now i =
      conclude_idle-Inv id (failing b id no_artifact) (eq_refl id) i failed "no artifact in spec"
        now refl
  fail-Inv b id (other reason) now i =
      conclude_idle-Inv id (failing b id (other reason)) (eq_refl id) i failed reason now refl
  fail-Inv true id over_memory now i =
      conclude_idle-Inv id (failing true id over_memory) (eq_refl id) i failed
        "modelops: over memory budget" now refl
  fail-Inv false id over_memory now i = drop-Inv id (failing false id over_memory) (eq_refl id) i (
      records_assignment id "over_memory"
      ∷ publishes id cached "over_memory"
      ∷ reports id cached
      ∷ [])

pub WorkerStep-Inv :
    (s : Service) (w : Phase) (q : Service × Phase) → WorkerStep s w q → Inv s w → Inv q.0 q.1
unfolding fetched loaded finish_stage finish_ready
WorkerStep-Inv s _ _ pops i = next-Inv s i
WorkerStep-Inv s _ _ (stops id e) i = stop-Inv s id i e
WorkerStep-Inv s _ _ (begins n id) i = begin-Inv s n id i
WorkerStep-Inv s _ _ (chooses id) i = choose-Inv s id i
WorkerStep-Inv s _ _ (fetches id) i =
    evicted_then_remove-Inv s id (fetching id) (eq_refl id) i (kept id) (eq_refl id)
WorkerStep-Inv s _ _ (fetch_fails id f) i =
    check_failure-Inv s id (fetching id) (eq_refl id) i true f
WorkerStep-Inv s _ _ (settles id) i = settle_stage-Inv s id i
WorkerStep-Inv s _ _ (stages id) i =
    drop-Inv s id (caching id) (eq_refl id) i
      (records_assignment id "staged" ∷ publishes id cached "staged" ∷ reports id cached ∷ [])
WorkerStep-Inv s _ _ (loads id) i =
    evicted_then_remove-Inv s id (loading id) (eq_refl id) i (readying id) (eq_refl id)
WorkerStep-Inv s _ _ (load_fails id f) i =
    check_failure-Inv s id (loading id) (eq_refl id) i false f
WorkerStep-Inv s _ _ (readies id) i =
    drop-Inv s id (readying id) (eq_refl id) i (publishes id ready "" ∷ reports id ready ∷ [])
WorkerStep-Inv s _ _ (fails b id f now) i = fail-Inv s b id f now i
