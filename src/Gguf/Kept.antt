-- ===== src/Gguf/Kept.antt =====
-- internal/gguf/gguf.go: what the loop of `Read` keeps answers for the last pairs of the wanted keys.
use flockd.Base.{
  ℕ, ◌==◌, ◌≡◌, refl, ap, sym, ◌∙◌, Bool, true, ◌&&◌, List, [], ◌∷◌, ◌++◌, Option, none, some, ltb,
  if◌then◌else◌, arith, Bool-cases, inl, inr,
}
use flockd.Gguf.{Bytes, same, kind_of, t_string}
use flockd.Gguf.Header.{
  Notes, note_int, note_list, find, int_or_zero, want_int, want_list, has_suffix,
  general_architecture, or_else,
}
use flockd.Gguf.Print.{Item, bits, chars, int_of, Array, flat, nested}
use flockd.Gguf.Arrays.{found}
use flockd.Gguf.Described.{Value, one, many, Entry, chars_of, arch_at, int_at, list_at}

same-eq : (a b : Bytes) → same a b ≡ true → a ≡ b
same-eq [] [] h = refl
same-eq [] (b ∷ bs) h = cc
same-eq (a ∷ xs) [] h = cc
same-eq (a ∷ xs) (b ∷ bs) h = ground (arith, h, same-eq xs bs)

same_self : (a : Bytes) → same a a ≡ true
same_self [] = refl
same_self (a ∷ xs) = ground (arith, same_self xs)

pub has_suffix-++ : (a s : Bytes) → has_suffix (a ++ s) s ≡ true
unfolding has_suffix
has_suffix-++ [] [] = refl
has_suffix-++ [] (b ∷ s) = ground (arith, same_self (b ∷ s))
has_suffix-++ (b ∷ a) s = ground (arith, has_suffix-++ a s)

-- The pair in the loop of `Read`.
abbrev pub note : Entry → Notes → Notes
note (k, one typ item) notes =
    if same k general_architecture && typ == t_string
    then record notes { arch = chars_of item }
    else note_int k (int_of (kind_of typ) item) notes
note (k, many a) notes = note_list k (found (want_list k) a) notes

unfoldable pub notes_after : List Entry → Notes → Notes
notes_after [] notes = notes
notes_after (e ∷ es) notes = notes_after es (note e notes)

note_int_lem :
    (key k : Bytes) (o : Option ℕ) (notes : Notes)
    → ((note_int k o notes).arch ≡ notes.arch)
      × ((note_int k o notes).lists ≡ notes.lists)
      × (want_int key ≡ true
          → int_or_zero (find key (note_int k o notes).ints) ≡ (
              if same k key
              then or_else o (int_or_zero (find key notes.ints))
              else int_or_zero (find key notes.ints)))
unfolding find
note_int_lem key k none notes = (refl, refl, λ w. ground arith)
note_int_lem key k (some v) notes = elim (Bool-cases (want_int k)) [
  | inl q ↦ rw q (refl, refl, λ w. ground arith)
  | inr q ↦ rw q (
    refl,
    refl,
    λ w. elim (Bool-cases (same k key)) [
      | inl e ↦ let eq : k ≡ key = same-eq k key e in cc
      | inr e ↦ rw e refl
    ],
  )
]

note_list_lem :
    (key k : Bytes) (sum n : ℕ) (notes : Notes)
    → ((note_list k (sum, n) notes).arch ≡ notes.arch)
      × ((note_list k (sum, n) notes).ints ≡ notes.ints)
      × (want_list key ≡ true
          → find key (note_list k (sum, n) notes).lists
            ≡ (if same k key && ltb 0 n then some sum else find key notes.lists))
unfolding find
note_list_lem key k sum n notes = elim (Bool-cases (want_list k)) [
  | inl q ↦ rw q (ground arith, ground arith, λ w. ground arith)
  | inr q ↦ rw q (
    ground arith,
    ground arith,
    λ w. elim (Bool-cases (same k key)) [
      | inl e ↦ let eq : k ≡ key = same-eq k key e in cc
      | inr e ↦ rw e (ground arith)
    ],
  )
]

no_int : (typ : ℕ) (item : Item) → (typ == t_string) ≡ true → int_of (kind_of typ) item ≡ none
unfolding kind_of int_of
no_int typ (bits n) h = ground (arith, h)
no_int typ (chars s) h = ground (arith, h)

found_length : (sum : Bool) (a : Array) → (found sum a).1 ≡ (found true a).1
found_length sum (flat typ items) = refl
found_length sum (nested inner) = refl

-- One pair changes what is kept as it changes the last values.
note_lem :
    (key k : Bytes) (v : Value) (notes : Notes)
    → ((note (k, v) notes).arch ≡ arch_at ((k, v) ∷ []) notes.arch)
      × (want_int key ≡ true
          → int_or_zero (find key (note (k, v) notes).ints)
            ≡ int_at key ((k, v) ∷ []) (int_or_zero (find key notes.ints)))
      × (want_list key ≡ true
          → find key (note (k, v) notes).lists ≡ list_at key ((k, v) ∷ []) (find key notes.lists))
unfolding arch_at int_at list_at find
note_lem key k (one typ item) notes =
    elim (Bool-cases (same k general_architecture && typ == t_string)) [
      | inl q ↦ rw q (refl, λ w. rw (no_int typ item (ground (arith, q))) (ground arith), λ w. refl)
      | inr q ↦ rw q (
        (note_int_lem key k (int_of (kind_of typ) item) notes).0,
        (note_int_lem key k (int_of (kind_of typ) item) notes).2,
        λ w. ap (find key) (note_int_lem key k (int_of (kind_of typ) item) notes).1,
      )
    ]
note_lem key k (many a) notes =
    let kept = note_list_lem key k (found (want_list k) a).0 (found (want_list k) a).1 notes in
    (kept.0, λ w. ap (λ t. int_or_zero (find key t)) kept.1, λ w. kept.2 w ∙ summed w)
  where
    summed :
        want_list key ≡ true
        → (if same k key && ltb 0 (found (want_list k) a).1
            then some (found (want_list k) a).0
            else find key notes.lists)
          ≡ (if same k key && ltb 0 (found true a).1
              then some (found true a).0
              else find key notes.lists)
    summed w = rw (found_length (want_list k) a) (elim (Bool-cases (same k key)) [
      | inl e ↦ let asked : want_list k ≡ true = ap want_list (same-eq k key e) ∙ w in rw asked refl
      | inr e ↦ rw e refl
    ])

arch_step :
    (e : Entry) (es : List Entry) (last : Bytes)
    → arch_at (e ∷ es) last ≡ arch_at es (arch_at (e ∷ []) last)
unfolding arch_at
arch_step (k, one typ item) es last = refl
arch_step (k, many a) es last = refl

int_step :
    (key : Bytes) (e : Entry) (es : List Entry) (last : ℕ)
    → int_at key (e ∷ es) last ≡ int_at key es (int_at key (e ∷ []) last)
unfolding int_at
int_step key (k, one typ item) es last = refl
int_step key (k, many a) es last = refl

list_step :
    (key : Bytes) (e : Entry) (es : List Entry) (last : Option ℕ)
    → list_at key (e ∷ es) last ≡ list_at key es (list_at key (e ∷ []) last)
unfolding list_at
list_step key (k, one typ item) es last = refl
list_step key (k, many a) es last = refl

pub arch-notes_after :
    (es : List Entry) (notes : Notes) → (notes_after es notes).arch ≡ arch_at es notes.arch
unfolding notes_after arch_at
arch-notes_after [] notes = refl
arch-notes_after (e ∷ es) notes =
    arch-notes_after es (note e notes)
    ∙ ap (arch_at es) (note_lem [] e.0 e.1 notes).0
    ∙ sym (arch_step e es notes.arch)

pub int-notes_after :
    (key : Bytes) (es : List Entry) (notes : Notes)
    → want_int key ≡ true
    → int_or_zero (find key (notes_after es notes).ints)
      ≡ int_at key es (int_or_zero (find key notes.ints))
unfolding notes_after int_at
int-notes_after key [] notes w = refl
int-notes_after key (e ∷ es) notes w =
    int-notes_after key es (note e notes) w
    ∙ ap (int_at key es) ((note_lem key e.0 e.1 notes).1 w)
    ∙ sym (int_step key e es (int_or_zero (find key notes.ints)))

pub list-notes_after :
    (key : Bytes) (es : List Entry) (notes : Notes)
    → want_list key ≡ true
    → find key (notes_after es notes).lists ≡ list_at key es (find key notes.lists)
unfolding notes_after list_at
list-notes_after key [] notes w = refl
list-notes_after key (e ∷ es) notes w =
    list-notes_after key es (note e notes) w
    ∙ ap (list_at key es) ((note_lem key e.0 e.1 notes).2 w)
    ∙ sym (list_step key e es (find key notes.lists))
