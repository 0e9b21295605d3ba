-- ===== src/Examples/Memory.antt =====
-- internal/memory at concrete inputs, with exact fractions for the floats.
use flockd.Base.{◌≡◌, refl, ◌||◌, none, some, arith, ltb}
use flockd.Memory.Float.{Fraction, fractions}
use flockd.Memory.Plan.{PlanInput, caps, spare_tokens, plan_context, is_over_spare}
use flockd.Memory.Plan.Fit.{IsBest, plan_context-IsBest}
use flockd.Memory.Plan.Encoder.{IsLargest, plan_encoder-IsLargest}
use flockd.Memory.Plan.Bounds.{InBounds, plan_context-InBounds}

-- A 2 GB model with 112 KB of cache per token, in a budget of 16 GB of which 4 are used.
abbrev small_chat : PlanInput Fraction
small_chat = record {
  budget_mb = 16384;
  used_mb = 4096;
  file_bytes = 2_000_000_000;
  min_ram_mb = 0;
  kv_bytes_per_token = 114688;
  window = 131072;
  slots = 16;
  min_ctx = 0;
  max_ctx = 0;
  ctx_pin = 0;
  encoder_mb_per_token = none;
}

abbrev encoder : PlanInput Fraction
encoder = record small_chat {
  file_bytes = 168_000_000;
  max_ctx = 2048;
  min_ctx = 1024;
  slots = 4;
  budget_mb = 6000;
  encoder_mb_per_token = some (record { num = 11; den = 10 });
}

small_chat_tokens : spare_tokens fractions small_chat ≡ some 89952
unfolding spare_tokens
small_chat_tokens = refl

small_chat_plan : (plan_context fractions small_chat).slots ≡ 10
unfolding plan_context
small_chat_plan = refl

abbrev pinned : PlanInput Fraction
pinned = record small_chat { ctx_pin = 1000 }

plan_context-IsBest_example :
    IsBest
      (caps small_chat).0
      (caps small_chat).1
      16
      89952
      (plan_context fractions small_chat).slots
      (plan_context fractions small_chat).ctx_per_slot
      (plan_context fractions small_chat).squeezed
plan_context-IsBest_example = plan_context-IsBest fractions small_chat 89952 refl small_chat_tokens

plan_encoder-IsLargest_example :
    ((plan_context fractions encoder).slots ≡ 4)
    × IsLargest
        (is_over_spare fractions encoder (record { num = 11; den = 10 }))
        (caps encoder).1
        (caps encoder).0
        (plan_context fractions encoder).ctx_per_slot
    × ((plan_context fractions encoder).squeezed ≡ (
        is_over_spare fractions encoder
          (record { num = 11; den = 10 })
          (plan_context fractions encoder).ctx_per_slot
        || ltb (plan_context fractions encoder).ctx_per_slot (caps encoder).0))
plan_encoder-IsLargest_example =
    plan_encoder-IsLargest fractions encoder (record { num = 11; den = 10 }) refl (omega arith)

plan_context-InBounds_example : InBounds encoder (plan_context fractions encoder)
plan_context-InBounds_example = plan_context-InBounds fractions encoder
