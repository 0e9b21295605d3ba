-- ===== src/Admission/Measure.antt =====
-- internal/modelops/memory.go: `Measure` and the snapshot of `Memory`. What a runtime answers to a health
-- check, and what the cards answer to a sample, are arguments; no answer is an error.
use flockd.Base.{
  ℕ, suc, ◌+◌, ◌%◌, ◌==◌, ◌<◌, ◌≡◌, refl, Bool, true, false, [], ◌∷◌, Option, none, some, String,
  leb, eq_iff, ◌∙◌, if◌then◌else◌, arith, Bool-cases, Option-cases, inl, inr,
}
use flockd.Base.Dict.{Dict, lookup, insert, lookup-insert}
use flockd.Admission.{
  Usage, LoadInfo, Service, footprint, host_footprint, newer, newer_sum, footprint_sum, used,
}

abbrev pub with_measure : ℕ → LoadInfo → LoadInfo
with_measure mb li = record li { measured_mb = mb }

unfoldable pub note_health : Option ℕ → String → Dict LoadInfo → Dict LoadInfo
unfolding lookup insert
note_health none id loads = loads
note_health (some mb) id loads =
    if mb == 0
    then loads
    else elim (lookup id loads) [ none ↦ loads | some li ↦ insert id (with_measure mb li) loads ]

unfoldable pub measure_loads : (String → Option ℕ) → Dict Usage → Dict LoadInfo → Dict LoadInfo
unfolding note_health
measure_loads health [] loads = loads
measure_loads health ((id, u) ∷ ms) loads =
    measure_loads health ms (note_health (health id) id loads)

-- The sequence number is a `uint64`.
abbrev pub take_sample : Option ℕ → Service → Service
take_sample none s = s
take_sample (some mb) s = record s {
  vram_used_mb = mb;
  vram_sampled = true;
  vram_sample_seq = suc s.vram_sample_seq % 18_446_744_073_709_551_616;
}

unfoldable pub measure : (String → Option ℕ) → Option ℕ → Service → Service
unfolding measure_loads
measure health sample s =
    let measured = record s { loads = measure_loads health s.models s.loads } in
    if s.discrete then take_sample sample measured else measured

pub record MemorySnapshot : Type 0 where
  pub used_mb : ℕ
  pub budget_mb : ℕ
  pub total_mb : ℕ
  pub host_mb : ℕ
  pub vram_mb : ℕ
  pub vram_measured : Bool
  pub models : Dict ℕ

unfoldable pub footprints : Service → Dict Usage → Dict ℕ
unfolding footprint
footprints s [] = []
footprints s ((id, u) ∷ ms) = (id, footprint s id) ∷ footprints s ms

unfoldable pub host_sum : Service → Dict Usage → ℕ
unfolding host_footprint
host_sum s [] = 0
host_sum s ((id, u) ∷ ms) = host_footprint s id + host_sum s ms

-- `Memory`, on a machine with so much memory.
unfoldable pub memory : ℕ → Service → MemorySnapshot
unfolding used footprints host_sum
memory total s = record {
  used_mb = used s;
  budget_mb = s.budget_mb;
  total_mb = total;
  host_mb = host_sum s s.models;
  vram_mb = if s.vram_sampled then s.vram_used_mb else 0;
  vram_measured = s.vram_sampled;
  models = footprints s s.models;
}

unfoldable total_of : Dict ℕ → ℕ
total_of [] = 0
total_of ((id, mb) ∷ ms) = mb + total_of ms

total-footprints : (s : Service) (ms : Dict Usage) → total_of (footprints s ms) ≡ footprint_sum s ms
unfolding total_of footprints footprint_sum
total-footprints s [] = refl
total-footprints s ((id, u) ∷ ms) = ground (arith, total-footprints s ms)

-- Without a card of its own, a machine reports as used what it reports of its models and what drains.
memory_used :
    (total : ℕ) (s : Service)
    → s.discrete ≡ false
    → (memory total s).used_mb ≡ total_of (memory total s).models + s.draining_mb
unfolding memory used
memory_used total s e = ground (arith, e, total-footprints s s.models)

-- A load that began no later than a sample.
abbrev pub older : ℕ → Option LoadInfo → Bool
older seq none = true
older seq (some li) = leb li.vram_seq seq

older-note_health :
    (seq : ℕ) (answer : Option ℕ) (id j : String) (loads : Dict LoadInfo)
    → older seq (lookup j (note_health answer id loads)) ≡ older seq (lookup j loads)
unfolding note_health
older-note_health seq none id j loads = refl
older-note_health seq (some mb) id j loads = elim (Bool-cases (mb == 0)) [
  | inl e ↦ rw e refl
  | inr e ↦ rw e (elim (Option-cases (lookup id loads)) [
    | inl n ↦ rw n refl
    | inr (li, q) ↦
        rw q (ground (arith, q, lookup-insert id j (with_measure mb li) loads, eq_iff id j))
  ])
]

older-measure_loads :
    (seq : ℕ) (health : String → Option ℕ) (ms : Dict Usage) (loads : Dict LoadInfo) (j : String)
    → older seq (lookup j (measure_loads health ms loads)) ≡ older seq (lookup j loads)
unfolding measure_loads
older-measure_loads seq health [] loads j = refl
older-measure_loads seq health ((id, u) ∷ ms) loads j =
    older-measure_loads seq health ms (note_health (health id) id loads) j
    ∙ older-note_health seq (health id) id j loads

newer-older : (seq : ℕ) (o : Option LoadInfo) → older seq o ≡ true → newer (suc seq) o ≡ 0
newer-older seq none h = refl
newer-older seq (some li) h = ground (arith, h)

newer_none :
    (s : Service) (ms : Dict Usage)
    → ((id : String) → newer s.vram_sample_seq (lookup id s.loads) ≡ 0)
    → newer_sum s ms ≡ 0
unfolding newer_sum
newer_none s [] h = refl
newer_none s ((id, u) ∷ ms) h = ground (arith, h id, newer_none s ms h)

-- What the cards said, with the loads as the runtimes measured them.
abbrev sampled : (String → Option ℕ) → ℕ → Service → Service
sampled health mb s =
    take_sample (some mb) (record s { loads = measure_loads health s.models s.loads })

measure_discrete :
    (health : String → Option ℕ) (mb : ℕ) (s : Service)
    → s.discrete ≡ true
    → measure health (some mb) s ≡ sampled health mb s
unfolding measure
measure_discrete health mb s d = rw d refl

sampled_seq :
    (health : String → Option ℕ) (mb : ℕ) (s : Service)
    → suc s.vram_sample_seq < 18_446_744_073_709_551_616
    → (sampled health mb s).vram_sample_seq ≡ suc s.vram_sample_seq
sampled_seq health mb s w = omega (arith, w)

-- A sample of the cards replaces all estimates: what is used is then just what the sample says and what
-- drains, if every load began no later than the last sample and the sequence number does not wrap.
used-measure :
    (health : String → Option ℕ) (mb : ℕ) (s : Service)
    → s.discrete ≡ true
    → suc s.vram_sample_seq < 18_446_744_073_709_551_616
    → ((id : String) → older s.vram_sample_seq (lookup id s.loads) ≡ true)
    → used (measure health (some mb) s) ≡ mb + s.draining_mb
unfolding used
used-measure health mb s d w h =
    let none_newer : newer_sum (sampled health mb s) s.models ≡ 0 =
      newer_none (sampled health mb s) s.models (λ id. rw (sampled_seq health mb s w) (
        newer-older s.vram_sample_seq (lookup id (measure_loads health s.models s.loads))
          (older-measure_loads s.vram_sample_seq health s.models s.loads id ∙ h id))) in
    rw (measure_discrete health mb s d) (rw d (rw none_newer (omega arith)))
