-- ===== src/Scaling.antt =====
-- internal/modelops/scale.go: the slot counts that a model's demand asks for, and the windows over which
-- the demand is watched. Times are nanoseconds; `none` is Go's zero time. A peak below 0 is as 0 here.
pub mod Targets
pub mod Windows
pub mod Jobs
use flockd.Base.{
  ℕ, zero, suc, ◌+◌, ◌-◌, ◌*◌, ◌/◌, min, max, Bool, true, false, ◌&&◌, not, Option, none, some, ltb,
  leb, ◌==◌, if◌then◌else◌,
}

-- 1 << k
abbrev pub pow2 : ℕ → ℕ
pow2 zero = 1
pow2 (suc k) = 2 * pow2 k

-- `bits.Len`: the number is halved until it is 0. Fuel equal to the number is enough.
unfoldable pub bit_len : ℕ → ℕ → ℕ
bit_len zero n = 0
bit_len (suc fuel) n = let rest = suc (bit_len fuel (n / 2)) in if n == 0 then 0 else rest

unfoldable pub pow2ceil : ℕ → ℕ
unfolding bit_len
pow2ceil n = if leb n 1 then 1 else pow2 (bit_len (n - 1) (n - 1))

unfoldable pub grow_target : ℕ → ℕ → ℕ → ℕ
unfolding pow2ceil
grow_target cur peak ceiling = min (max (pow2ceil peak) (cur * 2)) ceiling

unfoldable pub shrink_target : ℕ → ℕ → ℕ → ℕ
unfolding pow2ceil
shrink_target cur peak floor =
    let t = max (pow2ceil (max peak 1)) floor in if ltb cur (t * 2) then cur else t

pub record Timings : Type 0 where
  pub grow_after : ℕ
  pub shrink_after : ℕ
  pub resize_cooldown : ℕ

abbrev pub default_timings : Timings
default_timings = record {
  grow_after = 3_000_000_000;
  shrink_after = 300_000_000_000;
  resize_cooldown = 60_000_000_000;
}

-- The scaling state of a `loadInfo`.
pub record Load : Type 0 where
  pub slots : ℕ
  pub sat_since : Option ℕ
  pub sat_peak : ℕ
  pub low_since : Option ℕ
  pub low_peak : ℕ
  pub resized : Option ℕ
  pub attempted : Option ℕ

unfoldable pub new_load : ℕ → Load
new_load slots = record {
  slots = slots;
  sat_since = none;
  sat_peak = 0;
  low_since = none;
  low_peak = 0;
  resized = none;
  attempted = none;
}

abbrev pub begun : Option ℕ → ℕ → Option ℕ
begun none now = some now
begun (some since) now = some since

-- The peak of a window goes on, or starts anew with it.
abbrev pub peak_with : Option ℕ → ℕ → ℕ → ℕ
peak_with none old peak = max 0 peak
peak_with (some since) old peak = max old peak

abbrev pub watch_sat : Load → ℕ → ℕ → Load
watch_sat li peak now =
    if leb li.slots peak
    then record li {
      sat_since = begun li.sat_since now;
      sat_peak = peak_with li.sat_since li.sat_peak peak;
    }
    else record li { sat_since = none; sat_peak = 0 }

abbrev pub watch_low : Load → ℕ → ℕ → Load
watch_low li peak now =
    if leb (peak * 2) li.slots
    then record li {
      low_since = begun li.low_since now;
      low_peak = peak_with li.low_since li.low_peak peak;
    }
    else record li { low_since = none; low_peak = 0 }

-- `now.Sub(since) >= d`
abbrev pub lasted : Option ℕ → ℕ → ℕ → Bool
lasted none now d = false
lasted (some since) now d = leb (since + d) now

abbrev pub cooled_since : Option ℕ → ℕ → ℕ → Bool
cooled_since none now d = true
cooled_since (some t) now d = leb (t + d) now

abbrev pub cooled : Timings → Load → ℕ → Bool
cooled tm li now =
    cooled_since li.resized now tm.resize_cooldown
    && cooled_since li.attempted now tm.resize_cooldown

pub record Job : Type 0 where
  pub target : ℕ
  pub demand : ℕ

abbrev pub grow_job : Load → ℕ → Option Job
grow_job li ceiling =
    let t = grow_target li.slots li.sat_peak ceiling in
    if ltb li.slots t then some (record { target = t; demand = li.sat_peak }) else none

abbrev pub shrink_job : Load → ℕ → Option Job
shrink_job li floor =
    let t = shrink_target li.slots li.low_peak floor in
    if ltb t li.slots then some (record { target = t; demand = li.low_peak }) else none

-- The switch over the windows after a sample.
unfoldable pub job_of : Timings → Load → ℕ → ℕ → ℕ → Option Job
unfolding grow_target shrink_target
job_of tm li floor ceiling now =
    if not (cooled tm li now)
    then none
    else if lasted li.sat_since now tm.grow_after
    then grow_job li ceiling
    else if lasted li.low_since now tm.shrink_after
    then shrink_job li floor
    else none

unfoldable pub watch : Load → ℕ → ℕ → Load
watch li peak now = watch_low (watch_sat li peak now) peak now

abbrev pub mark_attempt : Load → ℕ → Option Job → Load
mark_attempt li now none = li
mark_attempt li now (some j) = record li { attempted = some now }

-- One model's turn in `ScaleTick`.
unfoldable pub scale_one : Timings → Load → ℕ → ℕ → ℕ → ℕ → Load × Option Job
unfolding watch job_of
scale_one tm li floor ceiling peak now =
    let li' = watch li peak now in
    let j = job_of tm li' floor ceiling now in (mark_attempt li' now j, j)

-- What `Resize` leaves in the load once the new instance is swapped in.
unfoldable pub resize_load : Load → ℕ → ℕ → Load
resize_load li slots now = record li {
  slots = slots;
  resized = some now;
  sat_since = none;
  low_since = none;
}

-- The tick's own clock, which the cooldown is measured on, is put in once `Resize` has returned.
unfoldable pub stamp_resized : Load → ℕ → Load
stamp_resized li now = record li { resized = some now }
