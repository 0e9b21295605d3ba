-- ===== src/Gguf/Header.antt =====
-- internal/gguf/gguf.go: `Read`, with what it keeps of the header, and `KVBytesPerToken`.
use flockd.Base.{
  ℕ, zero, suc, ◌+◌, ◌*◌, ◌/◌, ◌%◌, ◌==◌, Bool, true, false, ◌&&◌, ◌||◌, not, List, [], ◌∷◌, ◌++◌,
  Option, none, some, ltb, length, if◌then◌else◌,
}
use flockd.Gguf.{
  Bytes, codes, same, not_gguf, unsupported_version, implausible_count, no_architecture, Parser,
  pure, fail, next, ◌>>=◌, read_full, uint, str, t_string, t_array, max_array, two64, scalar,
  skip_array,
}

-- A Go map with byte strings as keys, newest first.
abbrev pub Table : Type 0
Table = List (Bytes × ℕ)

unfoldable pub find : Bytes → Table → Option ℕ
find k [] = none
find k ((j, v) ∷ m) = let rest = find k m in if same j k then some v else rest

abbrev pub int_or_zero : Option ℕ → ℕ
int_or_zero none = 0
int_or_zero (some v) = v

unfoldable pub has_suffix : Bytes → Bytes → Bool
has_suffix [] s = same [] s
has_suffix (b ∷ bs) s = same (b ∷ bs) s || has_suffix bs s

abbrev pub general_architecture : Bytes
general_architecture = codes "general.architecture"

abbrev pub block_count : Bytes
block_count = codes ".block_count"

abbrev pub head_count : Bytes
head_count = codes ".attention.head_count"

abbrev pub head_count_kv : Bytes
head_count_kv = codes ".attention.head_count_kv"

abbrev pub embedding_length : Bytes
embedding_length = codes ".embedding_length"

abbrev pub key_length : Bytes
key_length = codes ".attention.key_length"

abbrev pub value_length : Bytes
value_length = codes ".attention.value_length"

abbrev pub context_length : Bytes
context_length = codes ".context_length"

unfoldable pub want_int : Bytes → Bool
unfolding has_suffix
want_int key =
    has_suffix key block_count
    || has_suffix key head_count
    || has_suffix key head_count_kv
    || has_suffix key embedding_length
    || has_suffix key key_length
    || has_suffix key value_length
    || has_suffix key context_length

unfoldable pub want_list : Bytes → Bool
unfolding has_suffix
want_list key = has_suffix key head_count_kv

-- What the loop of `Read` keeps.
pub record Notes : Type 0 where
  pub arch : Bytes
  pub ints : Table
  pub lists : Table

abbrev pub no_notes : Notes
no_notes = record { arch = []; ints = []; lists = [] }

abbrev pub note_int : Bytes → Option ℕ → Notes → Notes
note_int key none notes = notes
note_int key (some v) notes =
    if want_int key then record notes { ints = (key, v) ∷ notes.ints } else notes

abbrev pub note_list : Bytes → ℕ × ℕ → Notes → Notes
note_list key (sum, n) notes =
    if ltb 0 n && want_list key then record notes { lists = (key, sum) ∷ notes.lists } else notes

-- The value of a key, by its type.
unfoldable pub value : ℕ → Bytes → ℕ → Notes → Parser Notes
unfolding str skip_array scalar want_int want_list
value fuel key typ notes =
    if same key general_architecture && typ == t_string
    then (str >>= λ arch. pure (record notes { arch = arch }))
    else if typ == t_array
    then (skip_array fuel (want_list key) >>= λ found. pure (note_list key found notes))
    else (scalar typ >>= λ v. pure (note_int key v notes))

unfoldable pub entries : ℕ → ℕ → Notes → Parser Notes
unfolding str uint value
entries fuel zero notes = pure notes
entries fuel (suc n) notes =
    str >>= λ key. uint 4 >>= λ typ. value fuel key typ notes >>= λ after. entries fuel n after

pub record Meta : Type 0 where
  pub architecture : Bytes
  pub block_count : ℕ
  pub head_count : ℕ
  pub head_count_kv : ℕ
  pub head_count_kv_list : Bool
  pub embedding_length : ℕ
  pub key_length : ℕ
  pub value_length : ℕ
  pub context_length : ℕ

abbrev pub get : Notes → Bytes → ℕ
unfolding find
get notes suffix = int_or_zero (find (notes.arch ++ suffix) notes.ints)

abbrev pub has_value : Option ℕ → Bool
has_value none = false
has_value (some v) = true

abbrev pub or_else : Option ℕ → ℕ → ℕ
or_else none n = n
or_else (some v) n = v

unfoldable pub meta_of : Notes → Parser Meta
unfolding find
meta_of notes =
    let list : Option ℕ = find (notes.arch ++ head_count_kv) notes.lists in
    if same notes.arch []
    then fail no_architecture
    else pure (record {
      architecture = notes.arch;
      block_count = get notes block_count;
      head_count = get notes head_count;
      head_count_kv = or_else list (get notes head_count_kv);
      head_count_kv_list = has_value list;
      embedding_length = get notes embedding_length;
      key_length = get notes key_length;
      value_length = get notes value_length;
      context_length = get notes context_length;
    })

abbrev pub magic : Bytes
magic = codes "GGUF"

-- `Read` after the count of the pairs, and after the version.
unfoldable pub counted : ℕ → ℕ → Parser Meta
unfolding entries meta_of
counted fuel count =
    if ltb max_array count
    then fail implausible_count
    else (entries fuel count no_notes >>= meta_of)

unfoldable pub versioned : ℕ → ℕ → Parser Meta
unfolding uint counted
versioned fuel version =
    if ltb version 2 || ltb 3 version
    then fail unsupported_version
    else (uint 8 >>= λ tensors. uint 8 >>= λ count. counted fuel count)

unfoldable pub body : ℕ → Bytes → Parser Meta
unfolding uint versioned
body fuel hdr =
    if same hdr magic then (uint 4 >>= λ version. versioned fuel version) else fail not_gguf

-- `Read`. A nested array takes twelve bytes at each level, so the fuel does not run out.
unfoldable pub read : Parser Meta
unfolding read_full body
read bs = next (read_full 4 bs) (λ hdr. body (suc (length bs)) hdr)

abbrev pub is_positive : ℕ → Bool
is_positive x = ltb 0 x && ltb x 9_223_372_036_854_775_808

-- The products of `int64` wrap.
abbrev pub mul : ℕ → ℕ → ℕ
mul a b = a * b % two64

abbrev pub key_size : Meta → ℕ
key_size m =
    if not (is_positive m.key_length) && is_positive m.embedding_length
    then m.embedding_length / m.head_count
    else m.key_length

abbrev pub value_size : Meta → ℕ
value_size m = if is_positive m.value_length then m.value_length else key_size m

abbrev pub kv_heads : Meta → ℕ
kv_heads m = if is_positive m.head_count_kv then m.head_count_kv else m.head_count

-- `KVBytesPerToken`
unfoldable pub kv_bytes_per_token : Meta → ℕ
kv_bytes_per_token m =
    let one = mul (kv_heads m) ((key_size m + value_size m) % two64) in
    if not (is_positive m.block_count) || not (is_positive m.head_count)
    then 0
    else if not (is_positive (key_size m))
    then 0
    else if m.head_count_kv_list
    then mul one 2
    else mul (mul (mul m.block_count (kv_heads m)) ((key_size m + value_size m) % two64)) 2
