-- ===== src/Scaling/Windows.antt =====
-- internal/modelops/scale.go: the windows of the demand against the samples since the last resize.
use flockd.Base.{
  ℕ, ◌*◌, ◌≡◌, refl, inl, inr, max, Bool, List, [], ◌∷◌, Option, none, some, arith, Option-cases,
  leb, if◌then◌else◌,
}
use flockd.Scaling.{
  Timings, Load, Job, new_load, begun, watch, job_of, scale_one, resize_load, stamp_resized,
  mark_attempt,
}

pub record Sample : Type 0 where
  pub peak : ℕ
  pub now : ℕ

pub data Op : Type 0 where
  -- with the floor and the ceiling of the tick
  samples : ℕ → ℕ → Sample → Op
  resizes : ℕ → ℕ → Op
  stamps : ℕ → Op

unfoldable pub apply : Timings → Load → Op → Load
unfolding scale_one resize_load stamp_resized
apply tm li (samples floor ceiling x) = (scale_one tm li floor ceiling x.peak x.now).0
apply tm li (resizes slots now) = resize_load li slots now
apply tm li (stamps now) = stamp_resized li now

-- A model that was loaded with some slots, after its ticks and resizes, the newest first.
unfoldable pub after : Timings → ℕ → List Op → Load
unfolding apply new_load
after tm slots [] = new_load slots
after tm slots (op ∷ ops) = apply tm (after tm slots ops) op

-- The samples since the last resize, the newest first.
abbrev pub recorded : List Op → List Sample
recorded [] = []
recorded (samples floor ceiling x ∷ ops) = x ∷ recorded ops
recorded (resizes slots now ∷ ops) = []
recorded (stamps now ∷ ops) = recorded ops

-- The newest samples, as long as they pass the test.
abbrev pub stretch : (ℕ → Bool) → List Sample → List Sample
stretch f [] = []
stretch f (x ∷ xs) = let rest = stretch f xs in if f x.peak then x ∷ rest else []

abbrev pub oldest : List Sample → Option ℕ
oldest [] = none
oldest (x ∷ xs) = begun (oldest xs) x.now

abbrev pub highest : List Sample → ℕ
highest [] = 0
highest (x ∷ xs) = max (highest xs) x.peak

abbrev pub saturated : ℕ → List Sample → List Sample
saturated slots xs = stretch (λ p. leb slots p) xs

abbrev pub slack : ℕ → List Sample → List Sample
slack slots xs = stretch (λ p. leb (p * 2) slots) xs

pub record Windows (li : Load) (xs : List Sample) : Type 0 where
  pub sat_since : li.sat_since ≡ oldest (saturated li.slots xs)
  pub sat_peak : (s : ℕ) → li.sat_since ≡ some s → li.sat_peak ≡ highest (saturated li.slots xs)
  pub low_since : li.low_since ≡ oldest (slack li.slots xs)
  pub low_peak : (s : ℕ) → li.low_since ≡ some s → li.low_peak ≡ highest (slack li.slots xs)

highest_empty : (xs : List Sample) → oldest xs ≡ none → highest xs ≡ 0
highest_empty [] e = refl
highest_empty (x ∷ xs) e = elim (Option-cases (oldest xs)) [
  | inl q ↦ cc (rw q at e)
  | inr (s, q) ↦ cc (rw q at e)
]

pub watch-Windows :
    (li : Load) (xs : List Sample) (x : Sample)
    → Windows li xs
    → Windows (watch li x.peak x.now) (x ∷ xs)
unfolding watch
watch-Windows li xs x w = record {
  sat_since = ground (arith, w.sat_since);
  sat_peak = λ s e. elim (Option-cases li.sat_since) [
    | inl q ↦ ground (arith, w.sat_since, highest_empty (saturated li.slots xs))
    | inr (t, q) ↦ ground (arith, w.sat_peak t q)
  ];
  low_since = ground (arith, w.low_since);
  low_peak = λ s e. elim (Option-cases li.low_since) [
    | inl q ↦ ground (arith, w.low_since, highest_empty (slack li.slots xs))
    | inr (t, q) ↦ ground (arith, w.low_peak t q)
  ];
}

marked-Windows :
    (li : Load) (xs : List Sample) (now : ℕ) (j : Option Job)
    → Windows li xs
    → Windows (mark_attempt li now j) xs
marked-Windows li xs now none w = w
marked-Windows li xs now (some j) w = record {
  sat_since = w.sat_since;
  sat_peak = w.sat_peak;
  low_since = w.low_since;
  low_peak = w.low_peak;
}

pub after-Windows :
    (tm : Timings) (slots : ℕ) (ops : List Op) → Windows (after tm slots ops) (recorded ops)
unfolding after
after-Windows tm slots [] = record {
  sat_since = refl;
  sat_peak = λ s e. refl;
  low_since = refl;
  low_peak = λ s e. refl;
}
after-Windows tm slots (samples floor ceiling x ∷ ops) =
    let li = watch (after tm slots ops) x.peak x.now in
    marked-Windows li (x ∷ recorded ops) x.now (job_of tm li floor ceiling x.now)
      (watch-Windows (after tm slots ops) (recorded ops) x (after-Windows tm slots ops))
after-Windows tm slots (stamps now ∷ ops) =
    let w = after-Windows tm slots ops in
    record {
      sat_since = w.sat_since;
      sat_peak = w.sat_peak;
      low_since = w.low_since;
      low_peak = w.low_peak;
    }
after-Windows tm slots (resizes n now ∷ ops) = record {
  sat_since = refl;
  sat_peak = λ s e. cc;
  low_since = refl;
  low_peak = λ s e. cc;
}

-- After any ticks and resizes: since when a model counts as saturated, and at what peak, is what a look
-- back over the samples since its last resize finds, in the unbroken run of newest samples that reached
-- the slot count; and likewise for the run of those that fit in half the slots.
pub windows_lem :
    (tm : Timings) (slots : ℕ) (ops : List Op)
    → let li = after tm slots ops in
      let sat = saturated li.slots (recorded ops) in
      let low = slack li.slots (recorded ops) in
      (li.sat_since ≡ oldest sat)
      × ((s : ℕ) → li.sat_since ≡ some s → li.sat_peak ≡ highest sat)
      × (li.low_since ≡ oldest low)
      × ((s : ℕ) → li.low_since ≡ some s → li.low_peak ≡ highest low)
windows_lem tm slots ops =
    let w = after-Windows tm slots ops in (w.sat_since, w.sat_peak, w.low_since, w.low_peak)
