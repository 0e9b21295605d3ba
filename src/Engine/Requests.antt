-- ===== src/Engine/Requests.antt =====
-- internal/engine/engine.go: the life of one request in `Complete`, in its critical sections.
use flockd.Base.{
  ℕ, suc, ◌+◌, ◌-◌, Bool, true, false, ◌&&◌, Option, none, some, String, ltb, ◌==◌, str_eq,
  if◌then◌else◌, update,
}
use flockd.Base.Dict.{lookup}
use flockd.Base.Int.{pos, negsuc}
use flockd.Engine.{Engine, ModelEntry, LoadCounter, add_load}

-- Where a request is: it holds an entry; it is demand on the model, too, and waits for a slot; it
-- has a token of the gate that it has not confirmed; it runs; its entry is gone and it looks for the
-- model's next one; it has ended.
pub data Phase : Type 0 where
  acquired waiting holding running moving ended : Phase

pub record Request : Type 0 where
  pub phase : Phase
  pub entry : ℕ
  -- `load := entry.load`, read once in `Complete`
  pub load : ℕ
  pub is_decision : Bool

abbrev pub set_phase : Request → Phase → Request
set_phase r p = record r { phase = p }

abbrev pub add_inflight : ModelEntry → ModelEntry
add_inflight m = record m { inflight = m.inflight + 1 }

abbrev pub sub_inflight : ModelEntry → ModelEntry
sub_inflight m = record m { inflight = m.inflight - 1 }

abbrev pub at_entry : Engine → ℕ → (ModelEntry → ModelEntry) → Engine
at_entry e i f = record e { entries = update e.entries i (f (e.entries i)) }

abbrev pub at_load : Engine → ℕ → (LoadCounter → LoadCounter) → Engine
at_load e l f = record e { loads = update e.loads l (f (e.loads l)) }

abbrev pub sub_load : LoadCounter → LoadCounter
sub_load l = add_load l (negsuc 0)

abbrev pub wanted : Engine → String → String
wanted e model = if str_eq model "" then e.default_id else model

-- An empty model name asks for the default.
unfoldable pub acquire : Engine → String → Bool → Option (Engine × Request)
unfolding lookup
acquire e model is_decision = elim (lookup (wanted e model) e.models) [
  | none ↦ none
  | some m ↦ some (
    at_entry e m add_inflight,
    record { phase = acquired; entry = m; load = (e.entries m).load; is_decision = is_decision },
  )
]

-- The refusal of a request that is no decision on a decision model; any other becomes demand.
unfoldable pub check_kind : Engine → Request → Engine × Request
check_kind e r =
    if (e.entries r.entry).spec.decision && (if r.is_decision then false else true)
    then (at_entry e r.entry sub_inflight, set_phase r ended)
    else (at_load e r.load (λ l. add_load l (pos 1)), set_phase r waiting)

-- A request that leaves before it has a slot: refused by the admitter, or its context ended.
unfoldable pub give_up : Engine → Request → Engine × Request
give_up e r = (at_load (at_entry e r.entry sub_inflight) r.load sub_load, set_phase r ended)

-- What `Complete` does once `enter` has let the request through.
abbrev pub begin : Engine → Request → ℕ → Engine × Request
begin e r now = (
  record (at_entry e r.entry (λ m. record m { last_used = now; served = true })) {
    started = suc e.started;
  },
  set_phase r running,
)

-- `enter` without a gate
unfoldable pub pass_ungated : Engine → Request → ℕ → Option (Engine × Request)
pass_ungated e r now = if (e.entries r.entry).slots == 0 then some (begin e r now) else none

-- `case entry.gate <- struct{}{}`
unfoldable pub take_slot : Engine → Request → Option (Engine × Request)
take_slot e r =
    if ltb (e.entries r.entry).gate (e.entries r.entry).slots
    then some (at_entry e r.entry (λ m. record m { gate = m.gate + 1 }), set_phase r holding)
    else none

-- The check after the slot was taken: it is given back if the entry was replaced meanwhile.
unfoldable pub confirm_slot : Engine → Request → ℕ → Engine × Request
confirm_slot e r now =
    if (e.entries r.entry).gone
    then (at_entry e r.entry (λ m. record m { gate = m.gate - 1 }), set_phase r waiting)
    else begin e r now

-- `case <-entry.gone`, where the request waits at a gate
unfoldable pub leave_gone : Engine → Request → Option (Engine × Request)
leave_gone e r =
    if ltb 0 (e.entries r.entry).slots && (e.entries r.entry).gone
    then some (at_entry e r.entry sub_inflight, set_phase r moving)
    else none

-- On to the model's next entry, or the end if it is not loaded.
unfoldable pub follow : Engine → Request → Engine × Request
unfolding lookup
follow e r = elim (lookup (wanted e (e.entries r.entry).spec.id) e.models) [
  | none ↦ (at_load e r.load sub_load, set_phase r ended)
  | some m ↦ (at_entry e m add_inflight, record r { phase = waiting; entry = m })
]

abbrev pub leave : ModelEntry → ModelEntry
leave m = if m.slots == 0 then m else record m { gate = m.gate - 1 }

abbrev pub end_running : Engine → Request → ℕ → Engine × Request
end_running e r load = (
  record (at_load (at_entry e r.entry (λ m. sub_inflight (leave m))) load sub_load) {
    started = if ltb 0 e.started then e.started - 1 else e.started;
  },
  set_phase r ended,
)

-- The runtime refused the request: the demand is given back where it was taken.
unfoldable pub fail_start : Engine → Request → Engine × Request
fail_start e r = end_running e r r.load

-- The end of the stream: the demand is given back on the entry's counter.
unfoldable pub finish : Engine → Request → Engine × Request
finish e r = end_running e r (e.entries r.entry).load
