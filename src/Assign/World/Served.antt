-- ===== src/Assign/World/Served.antt =====
-- internal/assign/assign.go: the placements in flight against the queue and the worker.
use flockd.Base.{
  ℕ, ◌≡◌, inl, inr, Bool, true, false, ◌||◌, List, [], ◌∷◌, ◌++◌, Option, none, some, String, arith,
  str_eq, eq_iff, if◌then◌else◌, Option-cases,
}
use flockd.Base.Dict.{lookup, lookup-insert}
use flockd.Assign.{
  PlacementState, assigned, downloading, ready, cached, declined, failed, evicted, Node, Pending,
  Service, Request, in_flight, contains, without, conclude, enqueue, upgrade, withdraw,
}
use flockd.Assign.Worker.{
  Phase, idle, waiting, started, fetching, kept, caching, loading, readying, failing,
}

abbrev pub waits_for : Phase → String → Bool
waits_for (waiting j) id = str_eq j id
waits_for _ id = false

abbrev pub works_on : Phase → String → Bool
works_on idle id = false
works_on (waiting j) id = false
works_on (started j) id = str_eq j id
works_on (fetching j) id = str_eq j id
works_on (kept j) id = str_eq j id
works_on (caching j) id = str_eq j id
works_on (loading j) id = str_eq j id
works_on (readying j) id = str_eq j id
works_on (failing b j f) id = str_eq j id

-- What an assigned placement and one that downloads need; any other needs nothing.
abbrev pub served_as : List String → Phase → String → PlacementState → Bool
served_as queue worker id assigned = contains queue id || waits_for worker id
served_as queue worker id downloading = works_on worker id
served_as queue worker id ready = true
served_as queue worker id cached = true
served_as queue worker id declined = true
served_as queue worker id failed = true
served_as queue worker id evicted = true

abbrev pub is_served : List String → Phase → String → Option Pending → Bool
is_served queue worker id none = true
is_served queue worker id (some p) = served_as queue worker id p.state

abbrev pub Served : Service → Phase → Type 0
Served s worker = (id : String) → is_served s.queue worker id (lookup id s.pending) ≡ true

pub contains-without :
    (i j : String) (q : List String)
    → contains (without i q) j ≡ (if str_eq i j then false else contains q j)
unfolding contains without
contains-without i j [] = ground arith
contains-without i j (x ∷ q) =
    ground (arith, contains-without i j q, eq_iff x i, eq_iff x j, eq_iff i j)

pub contains-append :
    (i j : String) (q : List String) → contains (q ++ i ∷ []) j ≡ contains q j || str_eq i j
unfolding contains
contains-append i j [] = ground arith
contains-append i j (x ∷ q) = ground (arith, contains-append i j q)

module _ (s : Service) (worker : Phase) (h : Served s worker) where
  pub conclude-Served :
      (id : String) (st : PlacementState) (reason : String) (now : ℕ)
      → in_flight st ≡ false
      → Served (conclude s id st reason now) worker
  unfolding conclude
  conclude-Served id st reason now f j = ground (
    arith,
    h j,
    lookup-insert id j (record { state = st; since = now; error = reason; stage = false })
        s.pending,
    contains-without id j s.queue,
    eq_iff id j,
  )

  pub enqueue-Served : (r : Request) (now : ℕ) → Served (enqueue s r now) worker
  unfolding enqueue
  enqueue-Served r now j = ground (
    arith,
    h j,
    lookup-insert r.id j (record { state = assigned; since = now; error = ""; stage = r.stage })
        s.pending,
    contains-append r.id j s.queue,
    eq_iff r.id j,
  )

  pub upgrade-Served :
      (id : String) (stage : Bool) → Served (upgrade s id stage (lookup id s.pending)) worker
  upgrade-Served id stage j = elim (Option-cases (lookup id s.pending)) [
    | inl e ↦ rw e (h j)
    | inr (p, e) ↦ rw e (
        ground
          (arith, h j, lookup-insert id j (record p { stage = false }) s.pending, eq_iff id j, e))
  ]

  pub withdraw-Served :
      (n : Node) (id : String) → Served (withdraw n s id (lookup id s.pending)) worker
  withdraw-Served n id j = elim (Option-cases (lookup id s.pending)) [
    | inl e ↦ rw e (h j)
    | inr (p, e) ↦ rw e (
        ground (
          arith,
          h j,
          lookup-insert id j (record p { state = evicted; since = n.now }) s.pending,
          contains-without id j s.queue,
          eq_iff id j,
        ))
  ]
