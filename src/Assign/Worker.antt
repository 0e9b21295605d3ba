-- ===== src/Assign/Worker.antt =====
-- internal/assign/assign.go: the worker's way through `process`, in its critical sections.
use flockd.Base.{ℕ, Bool, true, false, ◌&&◌, [], ◌∷◌, Option, none, some, String, if◌then◌else◌}
use flockd.Base.Dict.{lookup, insert, delete}
use flockd.Assign.{
  assigned, downloading, ready, cached, declined, failed, evicted, Node, Pending, reports,
  publishes, records_assignment, removes, Service, tell, in_flight, active, on_disk, conclude,
}

-- Why a fetch or a load did not succeed.
pub data Failure : Type 0 where
  over_budget no_artifact over_memory : Failure
  other : String → Failure

pub data Phase : Type 0 where
  idle : Phase
  -- off the queue, and on battery
  waiting : String → Phase
  started : String → Phase
  fetching : String → Phase
  -- on disk, and not withdrawn
  kept : String → Phase
  caching : String → Phase
  loading : String → Phase
  readying : String → Phase
  -- a staged fetch or a load failed while the placement was in flight
  failing : Bool → String → Failure → Phase

unfoldable pub next : Service → Service × Phase
next s = elim s.queue [ [] ↦ (s, idle) | id ∷ rest ↦ (record s { queue = rest }, waiting id) ]

abbrev pub is_assigned : Option Pending → Bool
is_assigned none = false
is_assigned (some p) = elim p.state [ assigned ↦ true | _ ↦ false ]

unfoldable pub still_queued : Service → String → Bool
unfolding lookup
still_queued s id = is_assigned (lookup id s.pending)

unfoldable pub still_active : Service → String → Bool
unfolding lookup
still_active s id = active (lookup id s.pending)

abbrev pub is_staged : Option Pending → Bool
is_staged none = false
is_staged (some p) = p.stage && in_flight p.state

unfoldable pub staged : Service → String → Bool
unfolding lookup
staged s id = is_staged (lookup id s.pending)

abbrev pub is_evicted : Option Pending → Bool
is_evicted none = false
is_evicted (some p) = elim p.state [ evicted ↦ true | _ ↦ false ]

-- `setState(id, StateDownloading)`, and the report where there is something to download.
abbrev pub begin_pending : Node → Service → String → Option Pending → Service × Phase
begin_pending n s id none = (s, idle)
begin_pending n s id (some p) = if is_evicted (some p) then (s, idle) else (
  tell
      (record s { pending = insert id (record p { state = downloading; since = n.now }) s.pending })
      (if on_disk n id then [] else publishes id downloading "" ∷ reports id downloading ∷ []),
  started id,
)

unfoldable pub begin : Node → Service → String → Service × Phase
unfolding lookup insert
begin n s id = begin_pending n s id (lookup id s.pending)

unfoldable pub choose : Service → String → Phase
unfolding staged
choose s id = if staged s id then fetching id else loading id

-- `evictedThenRemove`
unfoldable pub evicted_then_remove : Service → String → Service × Bool
unfolding lookup delete
evicted_then_remove s id =
    if is_evicted (lookup id s.pending)
    then (tell (record s { pending = delete id s.pending }) (removes id ∷ []), true)
    else (s, false)

unfoldable pub fetched : Service → String → Service × Phase
unfolding evicted_then_remove
fetched s id = let (s', gone) = evicted_then_remove s id in (s', if gone then idle else kept id)

-- Upgraded to an assignment while the download ran, or still only staged.
unfoldable pub settle_stage : Service → String → Phase
unfolding staged
settle_stage s id = if staged s id then caching id else loading id

unfoldable pub finish_stage : Service → String → Service
unfolding delete
finish_stage s id =
    tell (record s { pending = delete id s.pending })
      (records_assignment id "staged" ∷ publishes id cached "staged" ∷ reports id cached ∷ [])

unfoldable pub loaded : Service → String → Service × Phase
unfolding evicted_then_remove
loaded s id = let (s', gone) = evicted_then_remove s id in (s', if gone then idle else readying id)

unfoldable pub finish_ready : Service → String → Service
unfolding delete
finish_ready s id =
    tell (record s { pending = delete id s.pending })
      (publishes id ready "" ∷ reports id ready ∷ [])

-- A failure of a placement that was withdrawn has been reported.
unfoldable pub check_failure : Service → Bool → String → Failure → Phase
unfolding still_active
check_failure s only_staged id f = if still_active s id then failing only_staged id f else idle

-- `ErrOverMemory` cannot come from a fetch.
unfoldable pub fail : Service → Bool → String → Failure → ℕ → Service
unfolding conclude delete
fail s only_staged id over_budget now = conclude s id declined "does not fit in max_disk_mb" now
fail s only_staged id no_artifact now = conclude s id failed "no artifact in spec" now
fail s only_staged id (other reason) now = conclude s id failed reason now
fail s only_staged id over_memory now =
    if only_staged
    then conclude s id failed "modelops: over memory budget" now
    else tell (record s { pending = delete id s.pending })
        (records_assignment id "over_memory"
          ∷ publishes id cached "over_memory"
          ∷ reports id cached
          ∷ [])
