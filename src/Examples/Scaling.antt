-- ===== src/Examples/Scaling.antt =====
-- internal/modelops/scale.go at concrete inputs.
use flockd.Base.{ℕ, ◌*◌, ◌≡◌, ◌⊎◌, refl, true, List, [], ◌∷◌, some}
use flockd.Scaling.{
  Load, Job, pow2ceil, grow_target, shrink_target, default_timings, watch, cooled, scale_one,
}
use flockd.Scaling.Windows.{
  Sample, Op, samples, after, recorded, saturated, slack, oldest, highest, windows_lem,
}
use flockd.Scaling.Jobs.{Grows, Shrinks, scale_one_justified, run}

pow2ceil_values : (pow2ceil 0 ≡ 1) × (pow2ceil 5 ≡ 8) × (pow2ceil 8 ≡ 8) × (pow2ceil 9 ≡ 16)
unfolding pow2ceil
pow2ceil_values = (refl, refl, refl, refl)

-- Five of eight slots stay eight.
shrink_values : (shrink_target 8 5 2 ≡ 8) × (shrink_target 16 3 2 ≡ 4) × (grow_target 2 3 16 ≡ 4)
unfolding shrink_target grow_target
shrink_values = (refl, refl, refl)

abbrev at_second : ℕ → ℕ → Sample
at_second peak s = record { peak = peak; now = s * 1_000_000_000 }

-- Two slots, and demand for two and three requests.
abbrev ticks : List Op
ticks =
    samples 2 16 (at_second 3 3) ∷ samples 2 16 (at_second 2 1) ∷ samples 2 16 (at_second 1 0) ∷ []

windows_lem_example :
    let li = after default_timings 2 ticks in
    let sat = saturated li.slots (recorded ticks) in
    let low = slack li.slots (recorded ticks) in
    (li.sat_since ≡ oldest sat)
    × ((s : ℕ) → li.sat_since ≡ some s → li.sat_peak ≡ highest sat)
    × (li.low_since ≡ oldest low)
    × ((s : ℕ) → li.low_since ≡ some s → li.low_peak ≡ highest low)
windows_lem_example = windows_lem default_timings 2 ticks

abbrev four : Job
four = record { target = 4; demand = 3 }

abbrev before : Load
before = after default_timings 2 ticks

grows : (scale_one default_timings before 2 16 3 4_000_000_000).1 ≡ some four
unfolding after scale_one
grows = refl

scale_one_justified_example :
    let li = watch before 3 4_000_000_000 in
    (cooled default_timings li 4_000_000_000 ≡ true)
    × (Grows default_timings li.slots 16 4_000_000_000 (at_second 3 4 ∷ recorded ticks) four
        ⊎ Shrinks default_timings li.slots 2 4_000_000_000 (at_second 3 4 ∷ recorded ticks) four)
scale_one_justified_example =
    scale_one_justified default_timings 2 ticks 2 16 (at_second 3 4) four grows

grows_again :
    (scale_one default_timings
      (run default_timings (scale_one default_timings before 2 16 3 4_000_000_000).0 [])
      2
      16
      3
      64_000_000_000).1
    ≡ some four
unfolding after scale_one run
grows_again = refl
