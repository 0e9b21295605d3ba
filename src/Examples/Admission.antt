-- ===== src/Examples/Admission.antt =====
-- internal/modelops at concrete inputs: a default, an idle model and one that serves.
use flockd.Base.{
  max, ◌≤◌, ℕ, Option, none, some, str_eq, if◌then◌else◌, String, ◌+◌, ◌<◌, ◌≡◌, ◌≢◌, ◌⊎◌, refl,
  true, false, Bool, [], ◌∷◌, arith,
}
use flockd.Base.Dict.{Dict, has_id, insert, lookup, delete}
use flockd.Models.{mesh}
use flockd.Admission.{
  LoadInfo, Service, used, fits, make_room, unload_idle, candidates, sort_candidates,
  insert_candidate, room_loop, unload_idle_model, footprint, footprint_sum, newer_sum,
}
use flockd.Admission.Room.{goes_at, lookup-make_room, make_room_refused}
use flockd.Admission.Measure.{note_health, measure_loads, measure, memory, footprints, host_sum}
use flockd.Memory.Float.{Fraction, fractions}
use flockd.Memory.Plan.{Plan, PlanInput, plan_context}
use flockd.Admission.Resize.{Layout, start, decide, swap, drained}
use flockd.Admission.Charges.{resize_charges}
use flockd.Admission.Idle.{lookup-unload_idle}

abbrev info : LoadInfo
info = record { origin = some mesh; estimate_mb = 4000; measured_mb = 0; vram_seq = 0 }

abbrev node : Service
node = record {
  discrete = false;
  budget_mb = 14_000;
  models =
      ("gemma", record { inflight = 0; last_used = 5 })
      ∷ ("bge", record { inflight = 0; last_used = 6 })
      ∷ ("qwen", record { inflight = 1; last_used = 7 })
      ∷ [];
  loads = ("gemma", info) ∷ ("bge", info) ∷ ("qwen", info) ∷ [];
  default_model = "gemma";
  vram_used_mb = 0;
  vram_sampled = false;
  vram_sample_seq = 0;
  draining_mb = 0;
  unloaded = [];
}

abbrev phi : String
phi = "phi"

abbrev gemma : String
gemma = "gemma"

abbrev quiet : String → Bool
quiet id = false

lookup-make_room_example :
    (lookup "bge" (make_room quiet node "phi" 5000).0.models ≡ lookup "bge" node.models)
    ⊎ ((lookup "bge" (make_room quiet node "phi" 5000).0.models ≡ none)
        × (quiet "bge" ≡ false)
        × (goes_at node "phi" "bge" (lookup "bge" node.models) ≡ true))
unfolding lookup
lookup-make_room_example = lookup-make_room quiet 5000 node "phi" "bge" (refl, (refl, (refl, tt)))

make_room_refused_example :
    (14_000 < used (make_room quiet node "phi" 9000).0 + 9000)
    × (phi ≢ gemma)
    × (gemma ≢ "")
    × (lookup "bge" (make_room quiet node "phi" 9000).0.models ≡ none)
unfolding make_room fits room_loop unload_idle_model used footprint_sum footprint candidates
    sort_candidates insert_candidate lookup delete
make_room_refused_example =
    make_room_refused quiet 9000 node "phi" "bge" (refl, (refl, (refl, tt))) refl

lookup-unload_idle_example :
    (lookup "bge" (unload_idle quiet node 10 20).0.models ≡ none)
    × (has_id "bge" (unload_idle quiet node 10 20).1 ≡ true)
unfolding lookup
lookup-unload_idle_example =
    lookup-unload_idle quiet 10 20 node "bge" (refl, (refl, (refl, tt))) (ground arith)

-- One runtime answers; the other two keep their estimates. A sample of a card counts alone.
abbrev answer : String → Option ℕ
answer id = if str_eq id "bge" then some 1500 else none

measured_values :
    ((memory 16_000 (measure answer none node)).used_mb ≡ 9500)
    × ((memory 16_000 (measure answer (some 900) (record node { discrete = true }))).used_mb ≡ 900)
unfolding memory measure measure_loads note_health used footprint_sum footprint newer_sum host_sum
    footprints lookup insert delete
measured_values = (refl, refl)

abbrev chat : PlanInput Fraction
chat = record {
  budget_mb = 0;
  used_mb = 0;
  file_bytes = 2_000_000_000;
  min_ram_mb = 0;
  kv_bytes_per_token = 8192;
  window = 131_072;
  slots = 1;
  min_ctx = 0;
  max_ctx = 8192;
  ctx_pin = 0;
  encoder_mb_per_token = none;
}

abbrev layouts : Dict (Layout Fraction)
layouts = ("qwen", record { slots = 2; ctx_per_slot = 8192; plan = chat }) ∷ []

abbrev roomy : Service
roomy = record node { budget_mb = 20_000 }

abbrev four_slots : Plan
four_slots = record {
  slots = 4;
  ctx_per_slot = 8192;
  total_ctx = 32768;
  estimate_mb = 2705;
  squeezed = false;
}

grows_to_four : decide fractions roomy layouts "qwen" 4 ≡ start 2 four_slots 4000
unfolding decide footprint lookup used footprint_sum plan_context
grows_to_four = refl

resize_charges_example :
    (0 < 20_000 → used (swap roomy "qwen" four_slots 4000) ≤ 20_000)
    × (used (drained (swap roomy "qwen" four_slots 4000) 4000) + footprint roomy "qwen"
        ≡ used roomy + 2705)
    × (4 ≤ max 4 1)
    × (2 < 4 → 2 < 4)
unfolding lookup
resize_charges_example =
    resize_charges fractions roomy layouts "qwen" 4 2 4000 four_slots
      (record { inflight = 1; last_used = 7 }) info grows_to_four refl (refl, (refl, (refl, tt)))
      refl refl
