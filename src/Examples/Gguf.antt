-- ===== src/Examples/Gguf.antt =====
-- internal/gguf/gguf.go at concrete inputs.
use flockd.Base.{some, length, ◌<◌, ◌*◌, ◌≡◌, ◌≢◌, refl, true, false, List, [], ◌∷◌, arith}
use flockd.Gguf.{
  Bytes, skip_array, Error, codes, ok, failed, spent, read_full, little_endian, uint, kind_of,
  scalar_of, scalar, extend, cut_short, not_gguf,
}
use flockd.Gguf.Header.{Meta, read, body, general_architecture}
use flockd.Gguf.Print.{bits, chars, flat, nested, end, more, put_uint, put_str, ArrayFits}
use flockd.Gguf.Values.{sum_ints}
use flockd.Gguf.Described.{
  one, many, Entry, put_header, put_entries, put_value, HeaderFits, described, meta_at, int_at,
  list_at,
}
use flockd.Gguf.Ends.Depth.{skip_array_depth}
use flockd.Gguf.Whole.{read-put_header, read_cut}
use flockd.Gguf.Size.{cost}

short : length (put_uint 4 4 (put_uint 8 1 (put_uint 4 7 []))) < 12 * 2
unfolding put_uint
short = omega arith

-- Two layers of one and two heads, a nested array and a value that is skipped.
abbrev pairs : List Entry
pairs =
    (codes "a.rope", one 6 (bits 7))
    ∷ (general_architecture, one 8 (chars (codes "a")))
    ∷ (codes "a.tokens", many (nested (more (flat 8 (chars (codes "x") ∷ [])) end)))
    ∷ (codes "a.block_count", one 4 (bits 2))
    ∷ (codes "a.attention.head_count_kv", many (flat 5 (bits 1 ∷ bits 2 ∷ [])))
    ∷ []

pairs_fit : HeaderFits 3 291 pairs
unfolding ArrayFits kind_of
pairs_fit = record {
  from_two = omega arith;
  to_three = omega arith;
  few_tensors = omega arith;
  few_pairs = omega arith;
  each = ground arith;
}

meta_values :
    (int_at (codes "a.block_count") pairs 0 ≡ 2)
    × ((meta_at (codes "a") pairs).head_count_kv ≡ 3)
    × ((meta_at (codes "a") pairs).head_count_kv_list ≡ true)
unfolding meta_at int_at list_at sum_ints
meta_values = (refl, refl, refl)

read_values :
    (read (put_header 3 291 pairs (1 ∷ [])) ≡ ok (meta_at (codes "a") pairs) (1 ∷ []))
    × (read (codes "GG") ≡ failed cut_short)
    × (read (codes "GGML and more") ≡ failed not_gguf)
unfolding read read_full body put_header put_entries put_uint put_str put_value meta_at sum_ints
read_values = (refl, refl, refl)

-- Two calls are enough for an array of numbers, and not for some array of 24 bytes.
skip_array_depth_example :
    (skip_array 2 true (put_uint 4 4 (put_uint 8 1 (put_uint 4 7 []))) ≢ spent)
    × (deep : Bytes) × (length deep ≡ 24)
    × (skip_array 2 true deep ≡ spent)
skip_array_depth_example =
    skip_array_depth 2 true (put_uint 4 4 (put_uint 8 1 (put_uint 4 7 []))) short

read-put_header_example : read (put_header 3 291 pairs (1 ∷ [])) ≡ described pairs (1 ∷ [])
read-put_header_example = read-put_header 3 291 pairs (1 ∷ []) pairs_fit

cut_fits : HeaderFits 2 0 []
cut_fits = record {
  from_two = omega arith;
  to_three = omega arith;
  few_tensors = omega arith;
  few_pairs = omega arith;
  each = tt;
}

read_cut_example : (e : Error) × (read (codes "GGUF") ≡ failed e)
unfolding put_header
read_cut_example =
    read_cut 2 0 [] (codes "GGUF") 2 (put_uint 3 0 (put_uint 8 0 (put_uint 8 0 []))) cut_fits refl

-- -1 as a byte.
signed_value : scalar 1 (255 ∷ []) ≡ ok (some 18_446_744_073_709_551_615) []
unfolding scalar scalar_of uint read_full little_endian kind_of extend
signed_value = refl

abbrev llama : Meta
llama = record {
  architecture = codes "llama";
  block_count = 32;
  head_count = 32;
  head_count_kv = 8;
  head_count_kv_list = false;
  embedding_length = 4096;
  key_length = 0;
  value_length = 0;
  context_length = 131_072;
}

cost_of_llama : cost llama ≡ 131_072
cost_of_llama = refl
