-- ===== src/Decision.antt =====
-- internal/decision/request.go: the validation of a decision request. A JSON value is a tree whose
-- objects keep the order of the document; `compact` keeps the value, and the strings that
-- hold JSON are leaves.
pub mod Values
pub mod Parse
pub mod Wire
pub mod Written
pub mod Again
pub mod RoundTrip
pub mod Answers
pub mod Fine
pub mod Accepted
pub mod Ordered
pub mod Response
use flockd.Base.{
  ℕ, zero, suc, ◌+◌, ◌/◌, ◌%◌, String, List, [], ◌∷◌, Option, none, some, ltb, get_elem?,
  if◌then◌else◌,
}
use flockd.Decision.Values.{Json}
use Prim.Native.String.{◌++◌ as append}

pub data QuestionType : Type 0 where
  choice score noul unknown : QuestionType

-- A JSON text in a Go string: empty, no JSON, or a value.
pub data Leaf : Type 0 where
  no_leaf : Leaf
  broken : String → Leaf
  json : Json → Leaf

pub record DecisionOption : Type 0 where
  pub key : String
  pub description : Leaf

pub record Question : Type 0 where
  pub id : String
  pub type_of : QuestionType
  pub instructions : Leaf
  pub options : List DecisionOption

pub record Input : Type 0 where
  pub state : Leaf
  pub questions : List Question

pub record Request : Type 0 where
  pub model : String
  pub input : Input

-- The messages of a `ValidationError`, with the path that each names.
pub data Invalid : Type 0 where
  malformed model_required images_not_supported state_required state_not_leaf : Invalid
  questions_required questions_not_object empty_question_id : Invalid
  questions_count : ℕ → Invalid
  question_twice question_not_object unknown_type instructions_required : String → Invalid
  instructions_not_leaf instructions_empty criteria_required criteria_not_object : String → Invalid
  criteria_not_array empty_option_key keys_not_true_and_false : String → Invalid
  options_count levels_count : String → ℕ → Invalid
  option_twice option_not_leaf : String → String → Invalid
  level_not_leaf : String → ℕ → Invalid

pub data Parsed {ℓ} (A : Type ℓ) : Type ℓ where
  ok : A → Parsed A
  bad : Invalid → Parsed A

abbrev pub max_questions : ℕ
max_questions = 64

abbrev pub min_choice_options : ℕ
min_choice_options = 2

abbrev pub max_choice_options : ℕ
max_choice_options = 255

abbrev pub min_score_levels : ℕ
min_score_levels = 2

abbrev pub max_score_levels : ℕ
max_score_levels = 10

abbrev pub or_empty : Option String → String
or_empty none = ""
or_empty (some s) = s

abbrev pub digit : ℕ → String
digit n = or_empty (get_elem? ("0" ∷ "1" ∷ "2" ∷ "3" ∷ "4" ∷ "5" ∷ "6" ∷ "7" ∷ "8" ∷ "9" ∷ []) n)

-- `strconv.Itoa`; the fuel is the number, which a digit less is below.
unfoldable pub digits : ℕ → ℕ → String
digits zero n = digit n
digits (suc fuel) n =
    let rest = digits fuel (n / 10) in if ltb n 10 then digit n else append rest (digit (n % 10))

unfoldable pub itoa : ℕ → String
unfolding digits
itoa n = digits n n
