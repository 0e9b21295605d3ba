-- ===== src/Governor/Core.antt =====
-- internal/governor/governor.go: the Governor's state and its methods. A request's context is known
-- by a handle (`CancelFunc`), a drain waiter by the number of its channel.
use flockd.Base.{
  ℕ, suc, ◌+◌, ◌-◌, Bool, true, false, ◌&&◌, ◌||◌, not, List, [], ◌∷◌, ◌++◌, map, none, some,
  String, ltb, length, ◌==◌, str_eq, if◌then◌else◌,
}
use flockd.Base.Dict.{Dict, delete, insert}
use flockd.Governor.Policy.{
  State, serving, yielded, paused_battery, paused_thermal, outside_schedule, Policy, PowerStatus,
  PowerReading, no_source, failed, sampled, Signals, fill_defaults, guard_decision, desired_state,
}

pub record Governor : Type 0 where
  pub policy : Policy
  pub state : State
  -- request id to the handle that cancels its context
  pub inflight : Dict ℕ
  pub drain_waiters : List ℕ
  -- channels that were closed
  pub closed : List ℕ
  -- the buffers of the subscribers' channels, oldest entry first
  pub subs : List (List State)
  pub last_power : PowerStatus
  pub warned_idle : Bool
  -- handles whose context is cancelled
  pub cancelled : List ℕ
  -- handles whose `release` has run (`sync.Once`)
  pub released : List ℕ
  pub next_handle : ℕ
  pub next_chan : ℕ
  -- `drainOrCancel` goroutines started and not yet in their select
  pub spawned : ℕ

abbrev pub no_power : PowerStatus
no_power = record { on_battery = false; temp = 0 }

unfoldable pub new : Policy → Governor
unfolding fill_defaults
new p = record {
  policy = fill_defaults p;
  state = if str_eq p.serve "idle-only" then yielded else State.serving;
  inflight = [];
  drain_waiters = [];
  closed = [];
  subs = [];
  last_power = no_power;
  warned_idle = false;
  cancelled = [];
  released = [];
  next_handle = 0;
  next_chan = 0;
  spawned = 0;
}

unfoldable pub set_policy : Governor → Policy → Governor
unfolding fill_defaults
set_policy g p = record g { policy = fill_defaults p }

unfoldable pub subscribe : Governor → Governor
subscribe g = record g { subs = g.subs ++ [] ∷ [] }

-- What `Admit` hands out: the request's context and the closure that releases it.
pub record Lease : Type 0 where
  pub id : String
  pub handle : ℕ

-- `ErrNotServing` carries the state.
pub data Admission : Type 0 where
  admitted : Lease → Admission
  not_serving : State → Admission

unfoldable pub is_serving : State → Bool
is_serving serving = true
is_serving _ = false

unfoldable pub admit : Governor → String → Governor × Admission
unfolding insert is_serving
admit g id =
    if is_serving g.state
    then (
      record g { inflight = insert id g.next_handle g.inflight; next_handle = suc g.next_handle },
      admitted (record { id = id; handle = g.next_handle }),
    )
    else (g, not_serving g.state)

abbrev pub elem : ℕ → List ℕ → Bool
elem n [] = false
elem n (x ∷ xs) = if x == n then true else elem n xs

-- The last request to leave closes every drain waiter.
unfoldable pub wake_drains : Governor → Governor
wake_drains g = elim g.inflight [
  | [] ↦ record g { closed = g.drain_waiters ++ g.closed; drain_waiters = [] }
  | _ ∷ _ ↦ g
]

-- The `release` closure of a lease; only its first call counts.
unfoldable pub release : Governor → Lease → Governor
unfolding wake_drains delete
release g l =
    if elem l.handle g.released
    then g
    else let g' = wake_drains (record g { inflight = delete l.id g.inflight }) in
      record g' { released = l.handle ∷ g'.released; cancelled = l.handle ∷ g'.cancelled }

abbrev pub sub_capacity : ℕ
sub_capacity = 16

-- `select { case ch <- st: default: }`
unfoldable pub offer : State → List State → List State
offer st buffer = if ltb (length buffer) sub_capacity then buffer ++ st ∷ [] else buffer

abbrev observed : PowerStatus → PowerReading → PowerStatus
observed last no_source = last
observed last failed = last
observed last (sampled ps) = ps

abbrev guard_passes : Policy → PowerReading → Bool
unfolding guard_decision
guard_passes pol no_source = true
guard_passes pol failed = true
guard_passes pol (sampled ps) = elim (guard_decision pol ps) [ none ↦ true | some _ ↦ false ]

-- The idle source is asked under the idle-only policy alone, when no guard has answered before it.
abbrev idle_fails : Policy → Signals → Bool
idle_fails pol s =
    guard_passes pol s.power
    && not (str_eq pol.serve "always")
    && not (str_eq pol.serve "scheduled")
    && elim s.idle [ none ↦ true | some _ ↦ false ]

-- `desiredState` with its notes: the power sample, and that a failed idle probe was warned of.
unfoldable pub sample : Governor → Policy → Signals → Governor × State
unfolding desired_state guard_decision
sample g pol s = (
  record g {
    last_power = observed g.last_power s.power;
    warned_idle = g.warned_idle || idle_fails pol s;
  },
  desired_state pol s,
)

unfoldable pub same_state : State → State → Bool
same_state serving serving = true
same_state yielded yielded = true
same_state paused_battery paused_battery = true
same_state paused_thermal paused_thermal = true
same_state outside_schedule outside_schedule = true
same_state _ _ = false

-- The second half of `evaluate`: the transition, its broadcast, and the drain of a node that stops.
unfoldable pub transition : Governor → State → Governor
unfolding offer is_serving same_state
transition g desired =
    if same_state desired g.state then record g { state = desired } else record g {
      state = desired;
      subs = map (offer desired) g.subs;
      spawned = if is_serving g.state then suc g.spawned else g.spawned;
    }

unfoldable pub evaluate : Governor → Signals → Governor
unfolding sample transition
evaluate g s = let (g', desired) = sample g g.policy s in transition g' desired

-- A `drainOrCancel` goroutine in its select: the channel it waits on, and when the grace is over.
pub record Drain : Type 0 where
  pub chan : ℕ
  pub deadline : ℕ

-- The goroutine reads the grace and makes its channel, closed at once if nothing is in flight.
unfoldable pub start_drain : Governor → ℕ → Governor × Drain
start_drain g now = (
  elim g.inflight [
    | [] ↦ record g {
      closed = g.next_chan ∷ g.closed;
      next_chan = suc g.next_chan;
      spawned = g.spawned - 1;
    }
    | _ ∷ _ ↦ record g {
      drain_waiters = g.drain_waiters ++ g.next_chan ∷ [];
      next_chan = suc g.next_chan;
      spawned = g.spawned - 1;
    }
  ],
  record { chan = g.next_chan; deadline = now + g.policy.yield_grace },
)

abbrev pub handles : Dict ℕ → List ℕ
handles [] = []
handles ((id, h) ∷ m) = h ∷ handles m

-- The grace ran out: whatever is still in flight is cancelled.
unfoldable pub cancel_inflight : Governor → Governor
cancel_inflight g = record g { cancelled = handles g.inflight ++ g.cancelled }
