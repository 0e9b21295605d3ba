-- ===== src/Assign.antt =====
-- internal/assign/assign.go: the placements that the coordinator asks for. What the service asks of the
-- rest of the node is a `Node`, read anew by each call; what it tells others is a list of acts.
pub mod Worker
pub mod World
pub mod Answers
pub mod Removals
use flockd.Base.{
  ℕ, ◌+◌, Bool, true, false, ◌&&◌, ◌||◌, not, List, [], ◌∷◌, ◌++◌, Option, none, some, String, ltb,
  str_eq, if◌then◌else◌,
}
use flockd.Base.Dict.{Dict, lookup, insert, delete}
pub use flockd.Models.{Origin, operator, mesh}

pub data PlacementState : Type 0 where
  assigned downloading ready cached declined failed evicted : PlacementState

pub record Policy : Type 0 where
  pub mesh_managed : Bool
  pub exclude : List String
  pub pinned : List String

pub record CatalogModel : Type 0 where
  pub sha256 : String
  pub decision : Bool

-- The answers of `Ops.Lookup` and `Ops.CheckRuntime`; an error comes as the reason that is reported.
pub data CatalogAnswer : Type 0 where
  unavailable : String → CatalogAnswer
  absent : CatalogAnswer
  found : CatalogModel → CatalogAnswer

pub data RuntimeAnswer : Type 0 where
  serves : RuntimeAnswer
  too_old : String → RuntimeAnswer
  not_there : String → RuntimeAnswer

-- The model store and operations (`Mgr`, `Ops`), the engine and the operator's policy.
pub record Node : Type 0 where
  pub has_ops : Bool
  pub has_mgr : Bool
  pub policy : Policy
  pub valid_id : String → Bool
  pub loaded : String → Bool
  pub complete : String → Bool
  pub origin : String → Option Origin
  pub cache_pinned : String → Bool
  pub fetching : String → Bool
  pub removable : String → Bool
  pub catalog : String → CatalogAnswer
  pub check_runtime : String → Bool → RuntimeAnswer
  pub now : ℕ

pub record Pending : Type 0 where
  pub state : PlacementState
  pub since : ℕ
  pub error : String
  pub stage : Bool

pub data Act : Type 0 where
  reports : String → PlacementState → Act
  publishes : String → PlacementState → String → Act
  -- rows of the activity log
  records_assignment records_evicted records_declined records_failed : String → String → Act
  -- calls of `Ops`
  removes : String → Act
  cancels_download : String → Act

pub record Service : Type 0 where
  pub pending : Dict Pending
  pub queue : List String
  -- newest first
  pub acts : List Act

abbrev pub empty : Service
empty = record { pending = []; queue = []; acts = [] }

abbrev pub tell : Service → List Act → Service
tell s acts = record s { acts = acts ++ s.acts }

abbrev pub in_flight : PlacementState → Bool
in_flight assigned = true
in_flight downloading = true
in_flight ready = false
in_flight cached = false
in_flight declined = false
in_flight failed = false
in_flight evicted = false

-- slices.Contains
unfoldable pub contains : List String → String → Bool
contains [] id = false
contains (x ∷ xs) id = let rest = contains xs id in if str_eq x id then true else rest

-- slices.DeleteFunc of the queue
unfoldable pub without : String → List String → List String
without id [] = []
without id (q ∷ qs) = let rest = without id qs in if str_eq q id then rest else q ∷ rest

abbrev pub failure_row : PlacementState → String → String → Act
failure_row failed = records_failed
failure_row _ = records_declined

unfoldable pub conclude : Service → String → PlacementState → String → ℕ → Service
unfolding insert without
conclude s id st reason now =
    tell
      (record s {
        pending =
            insert id (record { state = st; since = now; error = reason; stage = false }) s.pending;
        queue = without id s.queue;
      })
      (failure_row st id reason ∷ publishes id st reason ∷ reports id st ∷ [])

-- One model of an assignment: `admit`'s spec and whether it is only staged.
pub record Request : Type 0 where
  pub id : String
  pub sha256 : String
  pub decision : Bool
  pub stage : Bool

abbrev pub active : Option Pending → Bool
active none = false
active (some p) = in_flight p.state

-- A placement in flight: an assign supersedes a stage.
abbrev pub upgrade : Service → String → Bool → Option Pending → Service
upgrade s id stage none = s
upgrade s id stage (some p) =
    if p.stage && not stage
    then record s { pending = insert id (record p { stage = false }) s.pending }
    else s

-- `admit` up to its first unlock; with whether it goes on.
unfoldable pub admit_start : Node → Service → Request → Service × Bool
unfolding lookup insert conclude
admit_start n s r =
    if not (n.valid_id r.id)
    then (conclude s r.id declined "invalid model id" n.now, false)
    else if n.loaded r.id
    then (tell s (reports r.id ready ∷ []), false)
    else if active (lookup r.id s.pending)
    then (upgrade s r.id r.stage (lookup r.id s.pending), false)
    else (s, true)

pub record Refusal : Type 0 where
  pub state : PlacementState
  pub reason : String

abbrev pub refuse : PlacementState → String → Option Refusal
refuse st reason = some (record { state = st; reason = reason })

abbrev pub runtime_refusal : RuntimeAnswer → Option Refusal
runtime_refusal serves = none
runtime_refusal (too_old reason) = refuse declined reason
runtime_refusal (not_there reason) = refuse failed reason

abbrev pub catalog_refusal : Node → Request → CatalogAnswer → Option Refusal
catalog_refusal n r (unavailable reason) = refuse failed reason
catalog_refusal n r absent = refuse declined "model not in this node's catalog"
catalog_refusal n r (found m) =
    if not (str_eq r.sha256 "") && not (str_eq m.sha256 r.sha256)
    then refuse failed "catalog sha256 differs from the coordinator's"
    else runtime_refusal (n.check_runtime r.id (m.decision || r.decision))

-- The policy, the catalog and the runtime, in the order in which `admit` asks them.
unfoldable pub refusal : Node → Request → Option Refusal
unfolding contains
refusal n r =
    if not n.has_ops
    then refuse declined "runtime has no model store (mock runtime)"
    else if not n.policy.mesh_managed
    then refuse declined "mesh-managed models are off on this node"
    else if contains n.policy.exclude r.id
    then refuse declined "model is in models.exclude"
    else catalog_refusal n r (n.catalog r.id)

abbrev pub on_disk : Node → String → Bool
on_disk n id = n.has_mgr && n.complete id

unfoldable pub enqueue : Service → Request → ℕ → Service
unfolding insert
enqueue s r now =
    tell
      (record s {
        pending =
            insert r.id (record { state = assigned; since = now; error = ""; stage = r.stage })
              s.pending;
        queue = s.queue ++ r.id ∷ [];
      })
      (records_assignment r.id "" ∷ publishes r.id assigned "" ∷ reports r.id assigned ∷ [])

abbrev pub accept : Node → Service → Request → Option Refusal → Service
accept n s r (some f) = conclude s r.id f.state f.reason n.now
accept n s r none =
    if r.stage && on_disk n r.id
    then tell s (records_assignment r.id "" ∷ reports r.id cached ∷ [])
    else enqueue s r n.now

-- The rest of `admit`.
unfoldable pub admit_finish : Node → Service → Request → Service
unfolding refusal conclude enqueue
admit_finish n s r = accept n s r (refusal n r)

unfoldable pub admit : Node → Service → Request → Service
unfolding admit_start admit_finish
admit n s r = let (s', goes_on) = admit_start n s r in if goes_on then admit_finish n s' r else s'

abbrev pub pinned : Node → String → Bool
pinned n id = contains n.policy.pinned id || n.cache_pinned id

abbrev pub withdraw : Node → Service → String → Option Pending → Service
withdraw n s id none = s
withdraw n s id (some p) =
    tell
      (record s {
        pending = insert id (record p { state = evicted; since = n.now }) s.pending;
        queue = without id s.queue;
      })
      (reports id evicted ∷ (if n.fetching id then cancels_download id ∷ [] else []))

abbrev pub evict_stored : Node → Service → String → Option Origin → Service
evict_stored n s id none = s
evict_stored n s id (some operator) = s
evict_stored n s id (some mesh) =
    if pinned n id
    then s
    else if n.removable id
    then tell s
        (records_evicted id "" ∷ reports id evicted ∷ publishes id evicted "" ∷ removes id ∷ [])
    else tell s (removes id ∷ [])

unfoldable pub evict : Node → Service → String → Service
unfolding lookup insert without contains
evict n s id =
    if not n.has_mgr || not n.has_ops
    then s
    else if active (lookup id s.pending)
    then withdraw n s id (lookup id s.pending)
    else evict_stored n s id (n.origin id)

pub record ModelAssignment : Type 0 where
  pub evict_ids : List String
  pub assign : List Request

unfoldable pub evict_all : Node → Service → List String → Service
unfolding evict
evict_all n s [] = s
evict_all n s (id ∷ ids) = evict_all n (evict n s id) ids

unfoldable pub admit_all : Node → Service → List Request → Service
unfolding admit
admit_all n s [] = s
admit_all n s (r ∷ rs) = admit_all n (admit n s r) rs

-- Without interruption: the evictions, then what is assigned and staged, in that order.
unfoldable pub apply : Node → Service → ModelAssignment → Service
unfolding evict_all admit_all
apply n s ma = admit_all n (evict_all n s ma.evict_ids) ma.assign

abbrev pub failed_retention : ℕ
failed_retention = 600_000_000_000

abbrev pub concluded : PlacementState → Bool
concluded assigned = false
concluded downloading = false
concluded ready = false
concluded cached = false
concluded declined = true
concluded failed = true
concluded evicted = true

abbrev pub forgettable : Pending → ℕ → Bool
forgettable p now = concluded p.state && ltb (p.since + failed_retention) now

unfoldable pub expire : Dict Pending → ℕ → Dict Pending
expire [] now = []
expire ((id, p) ∷ ps) now =
    let rest = expire ps now in if forgettable p now then rest else (id, p) ∷ rest

-- `Cacheable` and the unload hook.
unfoldable pub cacheable : Node → String → Bool
unfolding contains
cacheable n id =
    n.has_ops && on_disk n id && n.policy.mesh_managed && not (contains n.policy.exclude id)

unfoldable pub unloaded : Node → Service → String → Service
unfolding cacheable
unloaded n s id =
    if cacheable n id then tell s (publishes id cached "" ∷ reports id cached ∷ []) else s
