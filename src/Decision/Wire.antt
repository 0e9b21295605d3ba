-- ===== src/Decision/Wire.antt =====
-- internal/decision/wire.go: the body for the runtime, its answers, and the public response. What the
-- writer puts out is a list of tokens; numbers of type `F` are written by `num` when they are finite.
use flockd.Base.{
  ◌==◌, Bool, true, false, String, List, [], ◌∷◌, ◌++◌, Option, none, some, if◌then◌else◌, length,
}
use flockd.Decision.{
  QuestionType, choice, score, noul, unknown, Leaf, no_leaf, broken, json, DecisionOption, Question,
  Input,
}
use flockd.Decision.Values.{
  Json, null, scalar, text, arr, obj, Items, no_items, item, Fields, no_fields, field,
}

pub data Token : Type 0 where
  open_object close_object open_array close_array comma colon null_token : Token
  string_token scalar_token : String → Token

-- The compact text of a value.
unfoldable mutual
  pub render : Json → List Token
  render null = null_token ∷ []
  render (scalar s) = scalar_token s ∷ []
  render (text s) = string_token s ∷ []
  render (arr vs) = open_array ∷ render_items true vs ++ close_array ∷ []
  render (obj fs) = open_object ∷ render_fields true fs ++ close_object ∷ []

  pub render_items : Bool → Items → List Token
  render_items first no_items = []
  render_items first (item v vs) =
      (if first then [] else comma ∷ []) ++ render v ++ render_items false vs

  pub render_fields : Bool → Fields → List Token
  render_fields first no_fields = []
  render_fields first (field k v fs) =
      (if first then [] else comma ∷ [])
      ++ string_token k ∷ colon ∷ render v
      ++ render_fields false fs

-- `InvalidInputError` and the other errors, with what each names.
pub data WireError : Type 0 where
  no_questions state_empty state_not_json answers_count not_finite : WireError
  instructions_empty instructions_not_json type_unknown no_answer : String → WireError
  description_not_json no_probability : String → String → WireError
  wrong_type no_value wrong_answer : String → WireError

pub data Wire {ℓ} (A : Type ℓ) : Type ℓ where
  ok : A → Wire A
  failed : WireError → Wire A

abbrev pub next_ok {ℓ κ} : {A : Type ℓ} {B : Type κ} → Wire A → (A → Wire B) → Wire B
next_ok (ok a) f = f a
next_ok (failed e) f = failed e

abbrev pub unless {ℓ} : {A : Type ℓ} → Option WireError → Wire A → Wire A
unless none w = w
unless (some e) w = failed e

-- `checkLeaf`, with the errors of its path
abbrev pub check_leaf : Leaf → Bool → WireError → WireError → Option WireError
check_leaf no_leaf nullable empty not_json = if nullable then none else some empty
check_leaf (broken s) nullable empty not_json = some not_json
check_leaf (json v) nullable empty not_json = none

abbrev pub json_or_null : Leaf → List Token
json_or_null no_leaf = null_token ∷ []
json_or_null (broken s) = scalar_token s ∷ []
json_or_null (json v) = render v

abbrev pub raw_leaf : Leaf → List Token
raw_leaf no_leaf = []
raw_leaf (broken s) = scalar_token s ∷ []
raw_leaf (json v) = render v

-- `writer.key`
abbrev pub key : Bool → String → List Token
key first k = (if first then [] else comma ∷ []) ++ string_token k ∷ colon ∷ []

abbrev pub type_string : QuestionType → String
type_string choice = "choice"
type_string score = "score"
type_string noul = "noul"
type_string unknown = "unknown"

abbrev pub first_error : Option WireError → Option WireError → Option WireError
first_error none later = later
first_error (some e) later = some e

unfoldable pub check_options : String → List DecisionOption → Option WireError
check_options id [] = none
check_options id (o ∷ os) =
    first_error
      (check_leaf o.description true (description_not_json id o.key)
        (description_not_json id o.key))
      (check_options id os)

unfoldable pub keyed_options : Bool → List DecisionOption → List Token
unfolding render
keyed_options first [] = []
keyed_options first (o ∷ os) =
    key first o.key ++ json_or_null o.description ++ keyed_options false os

unfoldable pub level_options : Bool → List DecisionOption → List Token
unfolding render
level_options first [] = []
level_options first (o ∷ os) =
    (if first then [] else comma ∷ []) ++ json_or_null o.description ++ level_options false os

abbrev pub criteria_key : List Token
criteria_key = comma ∷ string_token "criteria" ∷ colon ∷ []

abbrev pub noul_criteria : List DecisionOption → List Token
noul_criteria [] = []
noul_criteria (o ∷ os) =
    criteria_key ++ open_object ∷ keyed_options true (o ∷ os) ++ close_object ∷ []

unfoldable pub write_criteria : Question → Wire (List Token)
unfolding keyed_options level_options
write_criteria q = elim q.type_of [
  | choice ↦ ok (criteria_key ++ open_object ∷ keyed_options true q.options ++ close_object ∷ [])
  | score ↦ ok (criteria_key ++ open_array ∷ level_options true q.options ++ close_array ∷ [])
  | noul ↦ ok (noul_criteria q.options)
  | unknown ↦ failed (type_unknown q.id)
]

unfoldable pub write_question : Bool → Question → Wire (List Token)
unfolding check_options write_criteria
write_question first q =
    unless
      (first_error
        (check_leaf q.instructions false (instructions_empty q.id) (instructions_not_json q.id))
        (check_options q.id q.options))
      (next_ok (write_criteria q) (λ criteria. ok (
        key first q.id
        ++ open_object
          ∷ string_token "type"
          ∷ colon
          ∷ string_token (type_string q.type_of)
          ∷ comma
          ∷ string_token "instructions"
          ∷ colon
          ∷ raw_leaf q.instructions
        ++ criteria
        ++ close_object ∷ [])))

unfoldable pub write_questions : Bool → List Question → Wire (List Token)
unfolding write_question
write_questions first [] = ok []
write_questions first (q ∷ qs) =
    let rest = write_questions false qs in
    next_ok (write_question first q) (λ ts. next_ok rest (λ us. ok (ts ++ us)))

abbrev pub body_tokens : List Token → List Token → List Token
body_tokens state qs =
    open_object ∷ string_token "state" ∷ colon ∷ state
    ++ comma ∷ string_token "questions" ∷ colon ∷ open_object ∷ qs
    ++ close_object ∷ close_object ∷ []

-- `RuntimeBody`
unfoldable pub runtime_body : Input → Wire (List Token)
unfolding write_questions
runtime_body input =
    if length input.questions == 0
    then failed no_questions
    else unless (check_leaf input.state false state_empty state_not_json) (
        next_ok (write_questions true input.questions)
          (λ qs. ok (body_tokens (raw_leaf input.state) qs)))
