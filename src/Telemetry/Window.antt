-- ===== src/Telemetry/Window.antt =====
-- internal/telemetry/telemetry.go: a ring of timestamps, and its compaction.
use flockd.Base.{
  ℕ, zero, suc, ◌+◌, ◌≤◌, ◌≡◌, refl, inl, inr, false, List, [], ◌∷◌, arith, Bool-cases, ltb,
  if◌then◌else◌, length, All,
}
use flockd.Telemetry.{within, compact, add, add_times, count_since, five_minutes, max_timestamps}

-- Newest first.
abbrev pub Sorted : List ℕ → Type 0
Sorted [] = Unit
Sorted (t ∷ ts) = All (λ s. s ≤ t) ts × Sorted ts

abbrev pub number_within : ℕ → ℕ → List ℕ → ℕ
number_within now w [] = 0
number_within now w (t ∷ ts) = (if within now w t then 1 else 0) + number_within now w ts

-- Nothing older is in the window of a time that is not in it.
number_within-old :
    (now w t : ℕ) (ts : List ℕ)
    → All (λ s. s ≤ t) ts
    → within now w t ≡ false
    → number_within now w ts ≡ 0
number_within-old now w t [] a e = refl
number_within-old now w t (s ∷ ts) a e = ground (arith, number_within-old now w t ts a.1 e)

pub count_since-number_within :
    (now w : ℕ) (ts : List ℕ) → Sorted ts → count_since now w ts ≡ number_within now w ts
unfolding count_since
count_since-number_within now w [] s = refl
count_since-number_within now w (t ∷ ts) s =
    ground (arith, count_since-number_within now w ts s.1, number_within-old now w t ts s.0)

-- Compaction at one time takes nothing out of a window that ends then or later.
number_within-compact :
    (at now w : ℕ) (ts : List ℕ)
    → at ≤ now
    → w ≤ five_minutes
    → number_within now w (compact at ts) ≡ number_within now w ts
unfolding compact
number_within-compact at now w [] p q = refl
number_within-compact at now w (t ∷ ts) p q = ground (arith, number_within-compact at now w ts p q)

All-compact : (at b : ℕ) (ts : List ℕ) → All (λ s. s ≤ b) ts → All (λ s. s ≤ b) (compact at ts)
unfolding compact
All-compact at b [] a = tt
All-compact at b (t ∷ ts) a = elim (Bool-cases (within at five_minutes t)) [
  | inl e ↦ rw e (a.0, All-compact at b ts a.1)
  | inr e ↦ rw e (All-compact at b ts a.1)
]

compact-Sorted : (at : ℕ) (ts : List ℕ) → Sorted ts → Sorted (compact at ts)
unfolding compact
compact-Sorted at [] s = tt
compact-Sorted at (t ∷ ts) s = elim (Bool-cases (within at five_minutes t)) [
  | inl e ↦ rw e (All-compact at t ts s.0, compact-Sorted at ts s.1)
  | inr e ↦ rw e (compact-Sorted at ts s.1)
]

-- A ring that shows, in any window of five minutes or less, what a number of records of up to some time.
pub record Tracks (last : ℕ) (ts : List ℕ) (number : ℕ → ℕ → ℕ) : Type 0 where
  pub sorted : Sorted ts
  pub latest : All (λ s. s ≤ last) ts
  pub counts : (now w : ℕ) → last ≤ now → w ≤ five_minutes → number_within now w ts ≡ number now w

All-le : (a b : ℕ) (ts : List ℕ) → a ≤ b → All (λ s. s ≤ a) ts → All (λ s. s ≤ b) ts
All-le a b [] h p = tt
All-le a b (t ∷ ts) h p = (omega (arith, p.0), All-le a b ts h p.1)

pub add-Tracks :
    (last : ℕ) (ts : List ℕ) (number : ℕ → ℕ → ℕ) (t : ℕ)
    → last ≤ t
    → Tracks last ts number
    → Tracks t (add ts t) (λ now w. (if within now w t then 1 else 0) + number now w)
unfolding add
add-Tracks last ts number t h k =
    let a : All (λ s. s ≤ t) (t ∷ ts) = (omega arith, All-le last t ts h k.latest) in
    let s : Sorted (t ∷ ts) = (All-le last t ts h k.latest, k.sorted) in
    elim (Bool-cases (ltb max_timestamps (length (t ∷ ts)))) [
      | inl e ↦ rw e (record {
        sorted = compact-Sorted t (t ∷ ts) s;
        latest = All-compact t t (t ∷ ts) a;
        counts = λ now w p q.
            omega
              (arith, number_within-compact t now w (t ∷ ts) p q, k.counts now w (omega arith) q);
      })
      | inr e ↦ rw e (record {
        sorted = s;
        latest = a;
        counts = λ now w p q. omega (arith, k.counts now w (omega arith) q);
      })
    ]

pub add_times-Tracks :
    (n last : ℕ) (ts : List ℕ) (number : ℕ → ℕ → ℕ) (t : ℕ)
    → last ≤ t
    → Tracks last ts number
    → Tracks t (add_times n ts t) (λ now w. (if within now w t then n else 0) + number now w)
unfolding add_times
add_times-Tracks zero last ts number t h k = record {
  sorted = k.sorted;
  latest = All-le last t ts h k.latest;
  counts = λ now w p q. ground (arith, k.counts now w);
}
add_times-Tracks (suc n) last ts number t h k =
    let r =
      add-Tracks t (add_times n ts t) (λ now w. (if within now w t then n else 0) + number now w) t
        (omega arith) (add_times-Tracks n last ts number t h k) in
    record {
      sorted = r.sorted;
      latest = r.latest;
      counts = λ now w p q. ground (arith, r.counts now w p q);
    }

pub later-Tracks :
    (last t : ℕ) (ts : List ℕ) (number : ℕ → ℕ → ℕ)
    → last ≤ t
    → Tracks last ts number
    → Tracks t ts number
later-Tracks last t ts number h k = record {
  sorted = k.sorted;
  latest = All-le last t ts h k.latest;
  counts = λ now w p q. k.counts now w (omega arith) q;
}
