-- ===== src/Scaling/Jobs.antt =====
-- internal/modelops/scale.go: the resizes that ticks ask for.
use flockd.Base.{
  ℕ, ◌+◌, ◌*◌, ◌≤◌, ◌<◌, ◌≡◌, ◌⊎◌, refl, sym, subst, ◌∙◌, inl, inr, true, false, List, [], ◌∷◌,
  Option, none, some, arith, Bool-cases, Option-cases,
}
use flockd.Scaling.{
  Timings, Load, Job, watch, job_of, scale_one, cooled, cooled_since, mark_attempt, grow_target,
  grow_job, shrink_job, lasted,
}
use flockd.Scaling.Targets.{shrink_target_bounds}
use flockd.Scaling.Windows.{
  Sample, Op, apply, samples, resizes, stamps, after, recorded, saturated, slack, oldest, highest,
  Windows, watch-Windows, after-Windows,
}

-- Demand has reached the slot count for long enough; the model grows, within the ceiling.
pub record Grows (tm : Timings) (slots ceiling now : ℕ) (xs : List Sample) (j : Job) : Type 0 where
  pub since : (s : ℕ) × (oldest (saturated slots xs) ≡ some s) × (s + tm.grow_after ≤ now)
  pub demand : j.demand ≡ highest (saturated slots xs)
  pub more : slots < j.target
  pub within : j.target ≤ ceiling

-- Demand has fit in half the slots for long enough; the model shrinks, to no less than that demand.
pub record Shrinks (tm : Timings) (slots floor now : ℕ) (xs : List Sample) (j : Job) : Type 0 where
  pub since : (s : ℕ) × (oldest (slack slots xs) ≡ some s) × (s + tm.shrink_after ≤ now)
  pub demand : j.demand ≡ highest (slack slots xs)
  pub half : j.target * 2 ≤ slots
  pub fits : j.demand ≤ j.target
  pub within : floor ≤ j.target

module _ {tm : Timings} {li : Load} {xs : List Sample} (floor ceiling now : ℕ) (j : Job)
    (w : Windows li xs) where
  grow_job-Grows :
      lasted li.sat_since now tm.grow_after ≡ true
      → grow_job li ceiling ≡ some j
      → Grows tm li.slots ceiling now xs j
  unfolding grow_target
  grow_job-Grows h e = elim (Option-cases li.sat_since) [
    | inl q ↦ cc (rw q at h)
    | inr (s, q) ↦
        let h' = rw q at h in
        record {
          since = (s, sym w.sat_since ∙ q, ground arith);
          demand = ground (arith, w.sat_peak s q);
          more = ground arith;
          within = ground arith;
        }
  ]

  shrink_job-Shrinks :
      lasted li.low_since now tm.shrink_after ≡ true
      → shrink_job li floor ≡ some j
      → Shrinks tm li.slots floor now xs j
  shrink_job-Shrinks h e = elim (Option-cases li.low_since) [
    | inl q ↦ cc (rw q at h)
    | inr (s, q) ↦
        let h' = rw q at h in
        let b = shrink_target_bounds li.slots li.low_peak floor in
        record {
          since = (s, sym w.low_since ∙ q, ground arith);
          demand = ground (arith, w.low_peak s q);
          half = ground (arith, b);
          fits = ground (arith, b);
          within = ground (arith, b);
        }
  ]

  job_of-cases :
      job_of tm li floor ceiling now ≡ some j
      → (cooled tm li now ≡ true)
        × (Grows tm li.slots ceiling now xs j ⊎ Shrinks tm li.slots floor now xs j)
  unfolding job_of
  job_of-cases e = elim (Bool-cases (cooled tm li now)) [
    | inr hot ↦ cc (rw hot at e)
    | inl cool ↦
        let e' = rw cool at e in
        elim (Bool-cases (lasted li.sat_since now tm.grow_after)) [
          | inl sat ↦ (cool, inl (grow_job-Grows sat (rw sat at e')))
          | inr calm ↦
              let e'' = rw calm at e' in
              elim (Bool-cases (lasted li.low_since now tm.shrink_after)) [
                | inl low ↦ (cool, inr (shrink_job-Shrinks low (rw low at e'')))
                | inr busy ↦ cc (rw busy at e'')
              ]
        ]
  ]

-- After any ticks and resizes, a tick that asks for a resize does so after the cooldown. Either every
-- sample since some time, at least the growth delay ago, has reached the slot count, and the target lies
-- above the slot count and within the ceiling; or every sample since some time, at least the shrink
-- delay ago, has fit in half the slots, and the target is at most half the slots and at least the
-- floor and those samples' peak. The job carries the peak of those samples.
pub scale_one_justified :
    (tm : Timings) (slots : ℕ) (ops : List Op) (floor ceiling : ℕ) (x : Sample) (j : Job)
    → (scale_one tm (after tm slots ops) floor ceiling x.peak x.now).1 ≡ some j
    → let li = watch (after tm slots ops) x.peak x.now in
      (cooled tm li x.now ≡ true)
      × (Grows tm li.slots ceiling x.now (x ∷ recorded ops) j
          ⊎ Shrinks tm li.slots floor x.now (x ∷ recorded ops) j)
unfolding scale_one
scale_one_justified tm slots ops floor ceiling x j e =
    job_of-cases floor ceiling x.now j
      (watch-Windows (after tm slots ops) (recorded ops) x (after-Windows tm slots ops)) e

-- A load after more ticks and resizes.
unfoldable pub run : Timings → Load → List Op → Load
unfolding apply
run tm li [] = li
run tm li (op ∷ ops) = apply tm (run tm li ops) op

-- A resize was attempted at a time or later.
abbrev Attempted : ℕ → Load → Type 0
Attempted t li = (s : ℕ) × (li.attempted ≡ some s) × (t ≤ s)

attempted-watch : (li : Load) (peak now : ℕ) → (watch li peak now).attempted ≡ li.attempted
unfolding watch
attempted-watch li peak now = ground arith

cooled-false :
    (tm : Timings) (li : Load) (now : ℕ)
    → cooled_since li.attempted now tm.resize_cooldown ≡ false
    → cooled tm li now ≡ false
cooled-false tm li now h = ground arith

job_of-apart :
    (tm : Timings) (t : ℕ) (li : Load) (floor ceiling now : ℕ) (j : Job)
    → Attempted t li
    → job_of tm li floor ceiling now ≡ some j
    → t + tm.resize_cooldown ≤ now
unfolding job_of
job_of-apart tm t li floor ceiling now j (s, a, h) e =
    elim (Bool-cases (cooled_since li.attempted now tm.resize_cooldown)) [
      | inl c ↦ ground arith
      | inr c ↦ cc (rw (cooled-false tm li now c) at e)
    ]

marked-Attempted :
    (t : ℕ) (li : Load) (now : ℕ) (j : Option Job)
    → Attempted t li
    → ((k : Job) → j ≡ some k → t ≤ now)
    → Attempted t (mark_attempt li now j)
marked-Attempted t li now none a h = a
marked-Attempted t li now (some k) a h = (now, refl, h k refl)

watch-Attempted :
    (t : ℕ) (li : Load) (peak now : ℕ) → Attempted t li → Attempted t (watch li peak now)
watch-Attempted t li peak now (s, a, h) = (s, attempted-watch li peak now ∙ a, h)

run-Attempted :
    (tm : Timings) (t : ℕ) (li : Load) (ops : List Op)
    → Attempted t li
    → Attempted t (run tm li ops)
unfolding run scale_one
run-Attempted tm t li [] a = a
run-Attempted tm t li (samples floor ceiling x ∷ ops) a =
    let a' = watch-Attempted t (run tm li ops) x.peak x.now (run-Attempted tm t li ops a) in
    marked-Attempted t (watch (run tm li ops) x.peak x.now) x.now
      (job_of tm (watch (run tm li ops) x.peak x.now) floor ceiling x.now) a'
      (λ k e.
        omega (
          arith,
          job_of-apart tm t (watch (run tm li ops) x.peak x.now) floor ceiling x.now k a' e,
        ))
run-Attempted tm t li (stamps now ∷ ops) a = run-Attempted tm t li ops a
run-Attempted tm t li (resizes n now ∷ ops) a = run-Attempted tm t li ops a

-- Once a tick has asked for a resize of a loaded model, no later tick asks for one before the cooldown
-- is over, whatever ticks and resizes of the model come between.
pub jobs_apart :
    (tm : Timings) (li : Load) (floor ceiling : ℕ) (x : Sample) (j : Job) (ops : List Op)
    (floor' ceiling' : ℕ) (y : Sample) (j' : Job)
    → (scale_one tm li floor ceiling x.peak x.now).1 ≡ some j
    → (scale_one tm
        (run tm (scale_one tm li floor ceiling x.peak x.now).0 ops)
        floor'
        ceiling'
        y.peak
        y.now).1
      ≡ some j'
    → x.now + tm.resize_cooldown ≤ y.now
unfolding scale_one
jobs_apart tm li floor ceiling x j ops floor' ceiling' y j' e e' =
    let li' = (scale_one tm li floor ceiling x.peak x.now).0 in
    let first : Attempted x.now li' =
      subst (λ o. Attempted x.now (mark_attempt (watch li x.peak x.now) x.now o)) (sym e)
        (x.now, refl, omega arith) in
    job_of-apart tm x.now (watch (run tm li' ops) y.peak y.now) floor' ceiling' y.now j'
      (watch-Attempted x.now (run tm li' ops) y.peak y.now (run-Attempted tm x.now li' ops first))
      e'
