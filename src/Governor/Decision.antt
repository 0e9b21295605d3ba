-- ===== src/Governor/Decision.antt =====
-- internal/governor/governor.go: which state the signals call for (`desiredState`).
use flockd.Base.{◌≡◌, ◌↔◌, Bool, true, false, ◌&&◌, ◌||◌, not, none, some, arith, ltb, str_eq}
use flockd.Governor.Window.{in_any_window}
use flockd.Governor.Policy.{
  serving, yielded, paused_battery, paused_thermal, outside_schedule, PowerReading, sampled, Policy,
  Signals, desired_state,
}

abbrev pub battery_blocks : Policy → PowerReading → Bool
battery_blocks pol (sampled ps) = ps.on_battery && not pol.serve_on_battery
battery_blocks pol _ = false

abbrev pub too_hot : Policy → PowerReading → Bool
too_hot pol (sampled ps) = ltb 0 pol.max_temp && ltb pol.max_temp ps.temp
too_hot pol _ = false

abbrev pub is_always : Policy → Bool
is_always pol = str_eq pol.serve "always"

abbrev pub is_scheduled : Policy → Bool
is_scheduled pol = not (is_always pol) && str_eq pol.serve "scheduled"

abbrev pub is_idle_only : Policy → Bool
is_idle_only pol = not (is_always pol) && not (str_eq pol.serve "scheduled")

-- The operator was active within the idle time; a probe that fails does not say so.
abbrev pub in_use : Policy → Signals → Bool
in_use pol s = elim s.idle [ none ↦ false | some t ↦ ltb t pol.idle_after ]

-- When each state is the answer.
abbrev pub DecisionCases : Policy → Signals → Type 0
DecisionCases pol s =
    ((desired_state pol s ≡ paused_battery) ↔ (battery_blocks pol s.power ≡ true))
    × ((desired_state pol s ≡ paused_thermal)
        ↔ (not (battery_blocks pol s.power) && too_hot pol s.power ≡ true))
    × ((desired_state pol s ≡ outside_schedule) ↔ (
        not (battery_blocks pol s.power)
          && not (too_hot pol s.power)
          && is_scheduled pol
          && not (in_any_window pol.schedule s.now)
        ≡ true))
    × ((desired_state pol s ≡ yielded) ↔ (
        not (battery_blocks pol s.power)
          && not (too_hot pol s.power)
          && is_idle_only pol
          && in_use pol s
        ≡ true))
    × ((desired_state pol s ≡ serving) ↔ (
        not (battery_blocks pol s.power)
          && not (too_hot pol s.power)
          && (is_always pol
              || is_scheduled pol && in_any_window pol.schedule s.now
              || is_idle_only pol && not (in_use pol s))
        ≡ true))

-- The decision, state by state: the battery guard comes before the thermal one and both before the
-- serve policy, under every policy; and the node serves exactly when no guard speaks and the policy is
-- always, or scheduled and in a window, or any other and the operator is not known to be active.
pub desired_state_cases : (pol : Policy) (s : Signals) → DecisionCases pol s
unfolding desired_state
desired_state_cases pol s = (
  (ground arith, ground arith),
  (ground arith, ground arith),
  (ground arith, ground arith),
  (ground arith, ground arith),
  (ground arith, ground arith),
)
