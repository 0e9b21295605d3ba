-- ===== src/Memory/Estimate.antt =====
-- internal/memory/memory.go: the hardware's kind, the automatic budget and the footprint estimate.
-- Sizes are numbers that are not negative; int64 overflow (sizes of 2^63 bytes) is out of scope.
use flockd.Base.{
  ℕ, ◌+◌, ◌*◌, ◌/◌, Bool, true, false, ◌&&◌, ◌||◌, not, List, [], ◌∷◌, String, ltb, leb, str_eq,
  if◌then◌else◌,
}
use flockd.Memory.Float.{Float64}

abbrev pub mib : ℕ
mib = 1024 * 1024

abbrev pub kv_bytes_per_token_divisor : ℕ
kv_bytes_per_token_divisor = 65536

abbrev pub runtime_overhead_mb : ℕ
runtime_overhead_mb = 256

abbrev pub default_context : ℕ
default_context = 8192

pub record Gpu : Type 0 where
  pub vendor : String
  pub vram_mb : ℕ
  pub unified_memory : Bool

-- A nil profile reads as one with no GPU and no memory.
pub record Hardware : Type 0 where
  pub gpus : List Gpu
  pub ram_total_mb : ℕ

abbrev any_unified : List Gpu → Bool
any_unified [] = false
any_unified (g ∷ gs) = if g.unified_memory then true else any_unified gs

unfoldable pub unified : Hardware → Bool
unified hw = any_unified hw.gpus

abbrev any_vram : List Gpu → Bool
any_vram [] = false
any_vram (g ∷ gs) = if not (str_eq g.vendor "none") && ltb 0 g.vram_mb then true else any_vram gs

unfoldable pub discrete : Hardware → Bool
unfolding unified
discrete hw = if unified hw then false else any_vram hw.gpus

abbrev pub largest_vram : ℕ → List Gpu → ℕ
largest_vram vram [] = vram
largest_vram vram (g ∷ gs) =
    largest_vram (if not (str_eq g.vendor "none") && ltb vram g.vram_mb then g.vram_mb else vram) gs

-- A percentage of 0 stands for any that is not positive.
abbrev pub vram_percent : ℕ → ℕ
vram_percent p = if leb p 0 || ltb 100 p then 80 else p

-- `int64(float64(ram) * 0.5)`: the halving is exact, and the conversion cuts the half off.
unfoldable pub auto_budget_mb : Hardware → ℕ → ℕ
unfolding unified
auto_budget_mb hw max_vram_percent =
    let vram = largest_vram 0 hw.gpus in
    if not (unified hw) && ltb 0 vram
    then vram * vram_percent max_vram_percent / 100
    else hw.ram_total_mb / 2

unfoldable pub budget_mb : ℕ → Hardware → ℕ → ℕ
unfolding auto_budget_mb
budget_mb configured hw max_vram_percent =
    if ltb 0 configured then configured else auto_budget_mb hw max_vram_percent

-- The context a runtime is launched with; 0 is no override, no known window, no cap.
unfoldable pub resolve_context : ℕ → ℕ → ℕ → ℕ
resolve_context override model max_ctx =
    let ctx = if leb override 0 then model else override in
    if ltb 0 max_ctx && (leb ctx 0 || ltb max_ctx ctx) then max_ctx else ctx

module _ (fl : Float64) where
  open fl use {Number, of_nat, decimal, add, mul, div, trunc}

  abbrev pub weights_factor : Number
  weights_factor = decimal 115 2

  unfoldable pub kv_per_token : ℕ → ℕ → Number
  kv_per_token file_bytes known =
      if ltb 0 known
      then of_nat known
      else div (of_nat file_bytes) (of_nat kv_bytes_per_token_divisor)

  -- `estimateMB`; `EstimateMB` is the call with `kv_bytes` 0.
  unfoldable pub estimate_mb : ℕ → ℕ → ℕ → ℕ → ℕ
  unfolding kv_per_token
  estimate_mb file_bytes min_ram_mb ctx kv_bytes =
      let ctx' = if leb ctx 0 then default_context else ctx in
      let weights = mul (of_nat file_bytes) weights_factor in
      let kv = mul (of_nat ctx') (kv_per_token file_bytes kv_bytes) in
      let est = trunc (div (add weights kv) (of_nat mib)) + runtime_overhead_mb in
      if ltb est min_ram_mb then min_ram_mb else est
