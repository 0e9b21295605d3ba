-- ===== src/Models/Id.antt =====
-- internal/models/manager.go: `ValidateID`, over the code points of an id.
use flockd.Base.{
  ℕ, ◌≤◌, ◌≡◌, ◌≢◌, refl, Bool, true, false, ◌&&◌, ◌||◌, not, List, [], ◌∷◌, ltb, leb, ◌==◌, arith,
  length, if◌then◌else◌,
}

abbrev pub max_id_len : ℕ
max_id_len = 128

-- A letter, a digit, or one of "._-".
abbrev pub allowed : ℕ → Bool
allowed c =
    leb 97 c && leb c 122
    || leb 65 c && leb c 90
    || leb 48 c && leb c 57
    || c == 46
    || c == 95
    || c == 45

unfoldable pub all_allowed : List ℕ → Bool
all_allowed [] = true
all_allowed (c ∷ s) = allowed c && all_allowed s

abbrev pub starts_with : ℕ → List ℕ → Bool
starts_with c [] = false
starts_with c (d ∷ s) = d == c

-- `strings.Contains(id, "..")`
unfoldable pub has_dots : List ℕ → Bool
has_dots [] = false
has_dots (c ∷ s) = c == 46 && starts_with 46 s || has_dots s

-- A letter outside ASCII is more than one byte, and is refused either way.
unfoldable pub validate_id : List ℕ → Bool
unfolding all_allowed has_dots
validate_id s =
    not (length s == 0 || ltb max_id_len (length s))
    && not (has_dots s || starts_with 46 s || starts_with 45 s)
    && all_allowed s

abbrev pub slash : ℕ
slash = 47

abbrev pub in_first : ℕ → List (List ℕ) → List (List ℕ)
in_first c [] = (c ∷ []) ∷ []
in_first c (s ∷ ss) = (c ∷ s) ∷ ss

-- The elements of a path.
unfoldable pub elements : List ℕ → List (List ℕ)
elements [] = [] ∷ []
elements (c ∷ s) =
    let rest = elements s in if c == slash || c == 92 then [] ∷ rest else in_first c rest

all_allowed-elements : (s : List ℕ) → all_allowed s ≡ true → elements s ≡ s ∷ []
unfolding all_allowed elements
all_allowed-elements [] h = refl
all_allowed-elements (c ∷ s) h = ground (arith, all_allowed-elements s)

-- An id that passes is one element of a path, on systems with either slash, of at most 128 bytes, and
-- is neither empty nor a directory's "." or "..": a file named by it lies in the directory that it is
-- joined to.
pub validate_id-elements :
    (s : List ℕ)
    → validate_id s ≡ true
    → (elements s ≡ s ∷ []) × (s ≢ []) × (s ≢ 46 ∷ []) × (s ≢ 46 ∷ 46 ∷ []) × (length s ≤ 128)
unfolding validate_id
validate_id-elements [] h = ground arith
validate_id-elements (c ∷ s) h = (
  all_allowed-elements (c ∷ s) (ground (arith, h)),
  λ e. cc,
  λ e. ground (arith, h),
  λ e. ground (arith, h),
  ground (arith, h),
)
