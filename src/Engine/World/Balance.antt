-- ===== src/Engine/World/Balance.antt =====
-- internal/engine/engine.go: what one step of a request in `Complete` does to the counts of entries.
use flockd.Base.{
  ℕ, ◌+◌, ◌≤◌, ◌<◌, ◌≡◌, Bool, true, false, ◌&&◌, some, ◌==◌, if◌then◌else◌, arith, inl, inr,
  Option-cases,
}
use flockd.Base.Dict.{lookup}
use flockd.Engine.{Engine}
use flockd.Engine.Requests.{
  Phase, acquired, waiting, holding, running, moving, ended, Request, check_kind, give_up,
  pass_ungated, take_slot, confirm_slot, leave_gone, follow, fail_start, finish, wanted,
}
use flockd.Engine.World.{
  RequestStep, checks, gives_up, passes, takes, confirms, leaves_gone, follows, fails, finishes,
}

abbrev pub holds_entry : Phase → Bool
holds_entry acquired = true
holds_entry waiting = true
holds_entry holding = true
holds_entry running = true
holds_entry moving = false
holds_entry ended = false

abbrev pub holds_slot : Phase → Bool
holds_slot acquired = false
holds_slot waiting = false
holds_slot holding = true
holds_slot running = true
holds_slot moving = false
holds_slot ended = false

abbrev pub is_demand : Phase → Bool
is_demand acquired = false
is_demand waiting = true
is_demand holding = true
is_demand running = true
is_demand moving = true
is_demand ended = false

abbrev pub is_running : Phase → Bool
is_running acquired = false
is_running waiting = false
is_running holding = false
is_running running = true
is_running moving = false
is_running ended = false

-- A request's share in each counter.
abbrev pub entry_share : ℕ → Request → ℕ
entry_share i r = if holds_entry r.phase && r.entry == i then 1 else 0

abbrev pub slot_share : ℕ → Request → ℕ
slot_share i r = if holds_slot r.phase && r.entry == i then 1 else 0

abbrev pub load_share : ℕ → Request → ℕ
load_share l r = if is_demand r.phase && r.load == l then 1 else 0

abbrev pub run_share : Request → ℕ
run_share r = if is_running r.phase then 1 else 0

-- What a step of a request needs of the books at one entry.
pub record Covers (e : Engine) (r : Request) (i : ℕ) : Type 0 where
  pub inflight : entry_share i r ≤ (e.entries i).inflight
  pub gate : 0 < (e.entries i).slots → slot_share i r ≤ (e.entries i).gate
  pub bound : (e.entries i).gate ≤ (e.entries i).slots
  pub started : run_share r ≤ e.started

pub record Balanced (e : Engine) (r : Request) (q : Engine × Request) (i : ℕ) : Type 0 where
  pub inflight :
      (q.0.entries i).inflight + entry_share i r ≡ (e.entries i).inflight + entry_share i q.1
  pub gate :
      0 < (e.entries i).slots
      → (q.0.entries i).gate + slot_share i r ≡ (e.entries i).gate + slot_share i q.1
  pub bound : (q.0.entries i).gate ≤ (e.entries i).slots
  pub started : q.0.started + run_share r ≡ e.started + run_share q.1
  pub slots : (q.0.entries i).slots ≡ (e.entries i).slots
  pub loads : (q.0.entries i).load ≡ (e.entries i).load
  pub specs : (q.0.entries i).spec ≡ (e.entries i).spec
  pub next_entry : q.0.next_entry ≡ e.next_entry
  pub next_load : q.0.next_load ≡ e.next_load
  pub models : q.0.models ≡ e.models
  pub load : q.1.load ≡ r.load

module _ {e : Engine} {r : Request} (i : ℕ) (c : Covers e r i) where
  check_kind-Balanced : r.phase ≡ acquired → Balanced e r (check_kind e r) i
  unfolding check_kind
  check_kind-Balanced p = ground (arith, c.inflight, c.gate, c.bound, c.started)

  give_up-Balanced : r.phase ≡ waiting → Balanced e r (give_up e r) i
  unfolding give_up
  give_up-Balanced p = ground (arith, c.inflight, c.gate, c.bound, c.started)

  pass_ungated-Balanced :
      (now : ℕ) (q : Engine × Request)
      → r.phase ≡ waiting
      → pass_ungated e r now ≡ some q
      → Balanced e r q i
  unfolding pass_ungated
  pass_ungated-Balanced now q p h = ground (arith, c.inflight, c.gate, c.bound, c.started)

  take_slot-Balanced :
      (q : Engine × Request) → r.phase ≡ waiting → take_slot e r ≡ some q → Balanced e r q i
  unfolding take_slot
  take_slot-Balanced q p h = ground (arith, c.inflight, c.gate, c.bound, c.started)

  confirm_slot-Balanced : (now : ℕ) → r.phase ≡ holding → Balanced e r (confirm_slot e r now) i
  unfolding confirm_slot
  confirm_slot-Balanced now p = ground (arith, c.inflight, c.gate, c.bound, c.started)

  leave_gone-Balanced :
      (q : Engine × Request) → r.phase ≡ waiting → leave_gone e r ≡ some q → Balanced e r q i
  unfolding leave_gone
  leave_gone-Balanced q p h = ground (arith, c.inflight, c.gate, c.bound, c.started)

  fail_start-Balanced : r.phase ≡ running → Balanced e r (fail_start e r) i
  unfolding fail_start
  fail_start-Balanced p = ground (arith, c.inflight, c.gate, c.bound, c.started)

  finish-Balanced : r.phase ≡ running → Balanced e r (finish e r) i
  unfolding finish
  finish-Balanced p = ground (arith, c.inflight, c.gate, c.bound, c.started)

  follow-Balanced : r.phase ≡ moving → Balanced e r (follow e r) i
  unfolding follow
  follow-Balanced p = elim (Option-cases (lookup (wanted e (e.entries r.entry).spec.id) e.models)) [
    | inl h ↦ rw (h, follow) (ground (arith, c.inflight, c.gate, c.bound, c.started))
    | inr (m, h) ↦ rw (h, follow) (ground (arith, c.inflight, c.gate, c.bound, c.started))
  ]

  pub Step-Balanced : (q : Engine × Request) → RequestStep e r q → Balanced e r q i
  Step-Balanced _ (checks p) = check_kind-Balanced p
  Step-Balanced _ (gives_up p) = give_up-Balanced p
  Step-Balanced q (passes now _ p h) = pass_ungated-Balanced now q p h
  Step-Balanced q (takes _ p h) = take_slot-Balanced q p h
  Step-Balanced _ (confirms now p) = confirm_slot-Balanced now p
  Step-Balanced q (leaves_gone _ p h) = leave_gone-Balanced q p h
  Step-Balanced _ (follows p) = follow-Balanced p
  Step-Balanced _ (fails p) = fail_start-Balanced p
  Step-Balanced _ (finishes p) = finish-Balanced p
