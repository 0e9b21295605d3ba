-- ===== src/Governor/Policy.antt =====
-- internal/governor/governor.go: the states, the policy, and the decision that the signals call for.
use flockd.Base.{
  ℕ, Bool, ◌&&◌, not, List, Option, none, some, String, ltb, leb, str_eq, if◌then◌else◌,
}
use flockd.Governor.Window.{Window, TimeOfDay, in_any_window}

pub data State : Type 0 where
  serving yielded paused_battery paused_thermal outside_schedule : State

pub data NodeState : Type 0 where
  ready node_yielded : NodeState

unfoldable pub node_state : State → NodeState
node_state serving = ready
node_state yielded = node_yielded
node_state paused_battery = node_yielded
node_state paused_thermal = node_yielded
node_state outside_schedule = node_yielded

-- A temperature at or below zero passes every test that zero passes, and is modelled by it.
pub record PowerStatus : Type 0 where
  pub on_battery : Bool
  pub temp : ℕ

-- What `g.power` gives: there may be no source, and a probe may fail.
pub data PowerReading : Type 0 where
  no_source failed : PowerReading
  sampled : PowerStatus → PowerReading

-- Durations are nanoseconds; a duration or a ceiling that is not positive is 0.
pub record Policy : Type 0 where
  pub serve : String
  pub idle_after : ℕ
  pub yield_grace : ℕ
  pub poll_interval : ℕ
  pub serve_on_battery : Bool
  pub max_temp : ℕ
  pub schedule : List Window

-- One sample of the signals; an idle time of `none` is a probe that failed.
pub record Signals : Type 0 where
  pub power : PowerReading
  pub idle : Option ℕ
  pub now : TimeOfDay

abbrev pub default_duration : ℕ
default_duration = 2_000_000_000

-- The defaults that `New` and `SetPolicy` both fill in.
unfoldable pub fill_defaults : Policy → Policy
fill_defaults p = record p {
  yield_grace = if leb p.yield_grace 0 then default_duration else p.yield_grace;
  poll_interval = if leb p.poll_interval 0 then default_duration else p.poll_interval;
}

-- The branch of `desiredState` on `pol.Serve`, with whether it warns of a missing idle source.
unfoldable pub serve_decision : Policy → Signals → State
serve_decision pol s =
    if str_eq pol.serve "always"
    then serving
    else if str_eq pol.serve "scheduled"
    then (if not (in_any_window pol.schedule s.now) then outside_schedule else serving)
    else elim s.idle [
      | none ↦ serving
      | some idle_for ↦ if ltb idle_for pol.idle_after then yielded else serving
    ]

unfoldable pub guard_decision : Policy → PowerStatus → Option State
guard_decision pol ps =
    if ps.on_battery && not pol.serve_on_battery
    then some paused_battery
    else if ltb 0 pol.max_temp && ltb pol.max_temp ps.temp
    then some paused_thermal
    else none

-- `desiredState`, without its notes in `lastPower` and `warnedIdle`.
unfoldable pub desired_state : Policy → Signals → State
unfolding serve_decision guard_decision
desired_state pol s = elim s.power [
  | no_source ↦ serve_decision pol s
  | failed ↦ serve_decision pol s
  | sampled ps ↦ elim (guard_decision pol ps) [ some st ↦ st | none ↦ serve_decision pol s ]
]
