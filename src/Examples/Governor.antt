-- ===== src/Examples/Governor.antt =====
-- internal/governor at concrete inputs: an overnight window, and a node that yields with a request in
-- flight.
use flockd.Base.{◌<◌, ◌≡◌, ◌≢◌, ◌↔◌, refl, true, false, [], ◌∷◌, none, some, arith}
use flockd.Base.Dict.{lookup}
use flockd.Governor.Window.{Window, TimeOfDay, contains}
use flockd.Governor.Policy.{paused_battery, sampled, Policy, Signals}
use flockd.Governor.Core.{
  Lease, elem, new, subscribe, admit, release, transition, start_drain, cancel_inflight, is_serving,
}
use flockd.Governor.Decision.{DecisionCases, desired_state_cases}
use flockd.Governor.Parse.{parse_window}
use flockd.Governor.World.{
  World, admits, transitions, starts, releases, head, IsNested, Reach, here, next, latest,
}
use flockd.Governor.World.Inv.{out}
use flockd.Governor.World.Reachable.{start, reachable_books}
use flockd.Governor.World.Yield.{AllCancelled, rests, yield_cancels}
use flockd.Governor.World.Drained.{release_wakes, admit_twice, admitted_twice_not_cancelled}

abbrev overnight : Window
overnight = record { start_min = 1320; end_min = 480 }

abbrev late : TimeOfDay
late = record { hour = 23; minute = 30 }

contains-late : contains overnight late ≡ true
unfolding contains
contains-late = refl

parses_overnight :
    parse_window (b'2' ∷ b'2' ∷ b':' ∷ b'0' ∷ b'0' ∷ b'-' ∷ b' ' ∷ b'8' ∷ b':' ∷ b'0' ∷ b'0' ∷ [])
    ≡ some overnight
unfolding parse_window
parses_overnight = refl

abbrev always : Policy
always = record {
  serve = "always";
  idle_after = 0;
  yield_grace = 0;
  poll_interval = 0;
  serve_on_battery = false;
  max_temp = 90;
  schedule = [];
}

abbrev w0 : World
w0 = start always 5

abbrev w1 : World
w1 = record w0 { gov = (admit w0.gov "a").0; leases = record { id = "a"; handle = 0 } ∷ [] }

abbrev w2 : World
w2 = record w1 { gov = transition w1.gov paused_battery }

abbrev w3 : World
w3 = record w2 { gov = (start_drain w2.gov 5).0; drains = (start_drain w2.gov 5).1 ∷ [] }

spawned_once : 0 < w2.gov.spawned
unfolding transition admit new start_drain
spawned_once = omega arith

trace : Reach w0 w3
unfolding admit new
trace =
    next
      (next (next here (admits w0 "a" (record { id = "a"; handle = 0 }) refl))
        (transitions w1 paused_battery))
      (starts w2 spawned_once)

abbrev lease : Lease
lease = record { id = "a"; handle = 0 }

abbrev w4 : World
w4 = record w3 { gov = release w3.gov lease }

newest : IsNested w3 lease
unfolding start_drain transition admit new latest
newest h e o = ground (arith, e)

ended : Reach w0 w4
ended = next trace (releases w3 lease head)

reachable_books_example :
    ((id : _) → lookup id w4.gov.inflight ≡ out w4.gov.released (latest id w4.leases))
    × (w4.gov.inflight ≡ [] → w4.gov.drain_waiters ≡ [])
unfolding ended trace
reachable_books_example = reachable_books always 5 ended ((((tt, tt), tt), tt), newest)

paused : is_serving (cancel_inflight w3.gov).state ≡ false
unfolding cancel_inflight start_drain transition admit new
paused = refl

yield_cancels_example : AllCancelled (record w3 { gov = cancel_inflight w3.gov; drains = [] })
unfolding trace
yield_cancels_example = yield_cancels always 5 [] trace (((tt, tt), tt), tt) (rests paused)

waits : elem 0 w3.gov.drain_waiters ≡ true
unfolding start_drain transition admit new
waits = refl

not_closed : elem 0 w3.gov.closed ≡ false
unfolding start_drain transition admit new
not_closed = refl

release_wakes_example :
    (elem 0 (release w3.gov (record { id = "a"; handle = 0 })).closed ≡ true)
    ↔ ((release w3.gov (record { id = "a"; handle = 0 })).inflight ≡ [])
release_wakes_example =
    release_wakes always 5 (record { id = "a"; handle = 0 }) 0 trace waits not_closed

serves_at_start : is_serving (new always).state ≡ true
unfolding new is_serving
serves_at_start = refl

none_released : elem 0 (new always).released ≡ false
unfolding new
none_released = refl

none_cancelled : elem 0 (new always).cancelled ≡ false
unfolding new
none_cancelled = refl

none_released_next : elem 1 (new always).released ≡ false
unfolding new
none_released_next = refl

admitted_twice_not_cancelled_example :
    (lookup "a" (admit_twice (new always) "a").inflight ≡ none)
    × (elem 0 (cancel_inflight (admit_twice (new always) "a")).released ≡ false)
    × (elem 0 (cancel_inflight (admit_twice (new always) "a")).cancelled ≡ false)
unfolding new
admitted_twice_not_cancelled_example =
    admitted_twice_not_cancelled (new always) "a" serves_at_start none_released none_released_next
      refl none_cancelled

yielded-ne : paused_battery ≢ (subscribe (new always)).state
unfolding subscribe new
yielded-ne e = cc e

abbrev on_battery : Signals
on_battery = record {
  power = sampled (record { on_battery = true; temp = 95 });
  idle = none;
  now = late;
}

desired_state_cases_example : DecisionCases always on_battery
desired_state_cases_example = desired_state_cases always on_battery
