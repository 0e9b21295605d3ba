-- ===== src/Gguf/Described.antt =====
-- internal/gguf/gguf.go: a header as the list of its pairs, how it is written, and what it describes.
use flockd.Base.{
  ℕ, ◌≤◌, ◌<◌, ◌==◌, ◌≡◌, true, false, ◌&&◌, List, [], ◌∷◌, ◌++◌, Option, none, some, length, All,
  ltb, if◌then◌else◌,
}
use flockd.Gguf.{
  Bytes, Result, ok, failed, no_architecture, same, kind_of, t_string, t_array, max_string,
  max_array,
}
use flockd.Gguf.Header.{
  Meta, general_architecture, block_count, head_count, head_count_kv, embedding_length, key_length,
  value_length, context_length, magic, or_else, has_value,
}
use flockd.Gguf.Print.{
  room, put_uint, put_str, Item, bits, chars, put_item, Fits, int_of, Array, put_array, ArrayFits,
}
use flockd.Gguf.Arrays.{found}

pub data Value : Type 0 where
  one : ℕ → Item → Value
  many : Array → Value

abbrev pub Entry : Type 0
Entry = Bytes × Value

abbrev pub type_of : Value → ℕ
type_of (one typ item) = typ
type_of (many a) = t_array

unfoldable pub put_value : Value → Bytes → Bytes
unfolding kind_of put_item put_array
put_value (one typ item) rest = put_item (kind_of typ) item rest
put_value (many a) rest = put_array a rest

unfoldable pub put_entries : List Entry → Bytes → Bytes
unfolding put_str put_uint put_value
put_entries [] rest = rest
put_entries ((k, v) ∷ es) rest =
    put_str k (put_uint 4 (type_of v) (put_value v (put_entries es rest)))

-- A header of so many tensors, with what follows.
unfoldable pub put_header : ℕ → ℕ → List Entry → Bytes → Bytes
unfolding put_uint put_entries
put_header version tensors es rest =
    magic ++ put_uint 4 version (put_uint 8 tensors (put_uint 8 (length es) (put_entries es rest)))

abbrev pub ValueFits : Value → Type 0
ValueFits (one typ item) = (typ < room 4) × (typ == t_array ≡ false) × Fits (kind_of typ) item
ValueFits (many a) = ArrayFits a

abbrev pub EntryFits : Entry → Type 0
EntryFits (k, v) = (length k ≤ max_string) × ValueFits v

pub record HeaderFits (version tensors : ℕ) (es : List Entry) : Type 0 where
  pub from_two : 2 ≤ version
  pub to_three : version ≤ 3
  pub few_tensors : tensors < room 8
  pub few_pairs : length es ≤ max_array
  pub each : All EntryFits es

abbrev pub chars_of : Item → Bytes
chars_of (bits n) = []
chars_of (chars s) = s

-- The last string of the architecture.
unfoldable pub arch_at : List Entry → Bytes → Bytes
arch_at [] last = last
arch_at ((k, one typ item) ∷ es) last =
    arch_at es (if same k general_architecture && typ == t_string then chars_of item else last)
arch_at ((k, many a) ∷ es) last = arch_at es last

-- The last integer of a key.
unfoldable pub int_at : Bytes → List Entry → ℕ → ℕ
unfolding kind_of int_of
int_at key [] last = last
int_at key ((k, one typ item) ∷ es) last =
    int_at key es (if same k key then or_else (int_of (kind_of typ) item) last else last)
int_at key ((k, many a) ∷ es) last = int_at key es last

-- The sum of the last array of a key that is not empty.
unfoldable pub list_at : Bytes → List Entry → Option ℕ → Option ℕ
list_at key [] last = last
list_at key ((k, one typ item) ∷ es) last = list_at key es last
list_at key ((k, many a) ∷ es) last =
    list_at key es (if same k key && ltb 0 (found true a).1 then some (found true a).0 else last)

-- The meta data of the pairs for an architecture.
unfoldable pub meta_at : Bytes → List Entry → Meta
unfolding int_at list_at
meta_at arch es =
    let get : Bytes → ℕ = λ suffix. int_at (arch ++ suffix) es 0 in
    let list : Option ℕ = list_at (arch ++ head_count_kv) es none in
    record {
      architecture = arch;
      block_count = get block_count;
      head_count = get head_count;
      head_count_kv = or_else list (get head_count_kv);
      head_count_kv_list = has_value list;
      embedding_length = get embedding_length;
      key_length = get key_length;
      value_length = get value_length;
      context_length = get context_length;
    }

unfoldable pub described : List Entry → Bytes → Result Meta
unfolding arch_at meta_at
described es rest =
    if same (arch_at es []) [] then failed no_architecture else ok (meta_at (arch_at es []) es) rest
