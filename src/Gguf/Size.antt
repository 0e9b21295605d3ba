-- ===== src/Gguf/Size.antt =====
-- internal/gguf/gguf.go: `KVBytesPerToken` against the cost that its comment gives.
use flockd.Base.{ℕ, ◌+◌, ◌*◌, if◌then◌else◌}
use flockd.Gguf.Header.{Meta, key_size, value_size, kv_heads}

-- The layers that the heads are counted for: a list of layers has them all in its sum.
abbrev pub layers : Meta → ℕ
layers m = if m.head_count_kv_list then 1 else m.block_count

-- Keys and values of two bytes for each head of each layer.
abbrev pub cost : Meta → ℕ
cost m = layers m * kv_heads m * (key_size m + value_size m) * 2
