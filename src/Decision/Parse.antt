-- ===== src/Decision/Parse.antt =====
-- internal/decision/request.go: `ParseRequest`.
use flockd.Base.{
  ℕ, suc, Bool, true, false, ◌&&◌, ◌||◌, String, List, [], ◌∷◌, Option, none, some, ltb, str_eq,
  if◌then◌else◌, length,
}
use flockd.Decision.{
  QuestionType, choice, score, noul, DecisionOption, Question, Input, Request, malformed,
  model_required, images_not_supported, state_required, state_not_leaf, questions_required,
  questions_not_object, empty_question_id, questions_count, question_twice, question_not_object,
  unknown_type, instructions_required, instructions_not_leaf, instructions_empty, criteria_required,
  criteria_not_object, criteria_not_array, empty_option_key, keys_not_true_and_false, options_count,
  levels_count, option_twice, option_not_leaf, level_not_leaf, Parsed, ok, bad, max_questions, Leaf,
  no_leaf, json, unknown, min_choice_options, max_choice_options, min_score_levels,
  max_score_levels, itoa,
}
use flockd.Decision.Values.{
  Json, text, ordered_object, array, is_leaf, is_null, is_empty_leaf, last_field, present,
}

-- An error ends the parse.
abbrev pub and_then {ℓ κ} : {A : Type ℓ} {B : Type κ} → Parsed A → (A → Parsed B) → Parsed B
and_then (ok a) f = f a
and_then (bad e) f = bad e

abbrev pub prepend {ℓ} : {A : Type ℓ} → A → Parsed (List A) → Parsed (List A)
prepend a (ok rest) = ok (a ∷ rest)
prepend a (bad e) = bad e

-- seen[key]
unfoldable pub is_seen : List String → String → Bool
is_seen [] key = false
is_seen (k ∷ ks) key = let rest = is_seen ks key in if str_eq k key then true else rest

-- null: an option with no description
abbrev pub option_value : String → String → Json → Parsed Leaf
option_value id key v =
    if is_null v
    then ok no_leaf
    else if is_leaf v
    then ok (json v)
    else bad (option_not_leaf id key)

-- The loop of `choiceOptions`.
unfoldable pub choice_loop :
    String → List String → List (String × Json) → Parsed (List DecisionOption)
unfolding is_seen
choice_loop id seen [] = ok []
choice_loop id seen ((k, v) ∷ ms) =
    let rest = choice_loop id (k ∷ seen) ms in
    if str_eq k ""
    then bad (empty_option_key id)
    else if is_seen seen k
    then bad (option_twice id k)
    else and_then (option_value id k v) (λ d. prepend (record { key = k; description = d }) rest)

abbrev pub choice_members : String → Option (List (String × Json)) → Parsed (List DecisionOption)
choice_members id none = bad (criteria_not_object id)
choice_members id (some ms) =
    if ltb (length ms) min_choice_options || ltb max_choice_options (length ms)
    then bad (options_count id (length ms))
    else choice_loop id [] ms

unfoldable pub choice_options : String → Json → Parsed (List DecisionOption)
unfolding choice_loop
choice_options id v = choice_members id (ordered_object v)

-- The loop of `scoreLevels`, from level `n`.
unfoldable pub score_loop : String → ℕ → List Json → Parsed (List DecisionOption)
unfolding itoa
score_loop id n [] = ok []
score_loop id n (v ∷ vs) =
    let rest = score_loop id (suc n) vs in
    if is_leaf v
    then prepend (record { key = itoa n; description = json v }) rest
    else bad (level_not_leaf id n)

abbrev pub score_elements : String → Option (List Json) → Parsed (List DecisionOption)
score_elements id none = bad (criteria_not_array id)
score_elements id (some vs) =
    if ltb (length vs) min_score_levels || ltb max_score_levels (length vs)
    then bad (levels_count id (length vs))
    else score_loop id 0 vs

unfoldable pub score_levels : String → Json → Parsed (List DecisionOption)
unfolding score_loop
score_levels id v = score_elements id (array v)

unfoldable pub noul_loop : String → List (String × Json) → Parsed (List DecisionOption)
noul_loop id [] = ok []
noul_loop id ((k, v) ∷ ms) =
    let rest = noul_loop id ms in
    if is_leaf v
    then prepend (record { key = k; description = json v }) rest
    else bad (option_not_leaf id k)

abbrev pub true_and_false : List (String × Json) → Bool
true_and_false [] = false
true_and_false (a ∷ []) = false
true_and_false (a ∷ b ∷ []) =
    str_eq a.0 "true" && str_eq b.0 "false" || str_eq a.0 "false" && str_eq b.0 "true"
true_and_false (a ∷ b ∷ c ∷ ms) = false

abbrev pub noul_members : String → Option (List (String × Json)) → Parsed (List DecisionOption)
noul_members id none = bad (criteria_not_object id)
noul_members id (some ms) =
    if true_and_false ms then noul_loop id ms else bad (keys_not_true_and_false id)

unfoldable pub noul_options : String → Json → Parsed (List DecisionOption)
unfolding noul_loop
noul_options id v = noul_members id (ordered_object v)

abbrev pub type_name : Option Json → String
type_name (some (text s)) = s
type_name _ = ""

abbrev pub question_type : String → Option QuestionType
question_type name =
    if str_eq name "choice"
    then some choice
    else if str_eq name "score"
    then some score
    else if str_eq name "noul"
    then some noul
    else none

abbrev pub parse_criteria : String → QuestionType → Option Json → Parsed (List DecisionOption)
parse_criteria id choice none = bad (criteria_required id)
parse_criteria id choice (some v) = choice_options id v
parse_criteria id score none = bad (criteria_required id)
parse_criteria id score (some v) = score_levels id v
parse_criteria id noul none = ok []
parse_criteria id noul (some v) = noul_options id v
parse_criteria id unknown v = ok []

abbrev pub parse_instructions : String → Option Json → Parsed Json
parse_instructions id none = bad (instructions_required id)
parse_instructions id (some v) =
    if is_leaf v
    then if is_empty_leaf v then bad (instructions_empty id) else ok v
    else bad (instructions_not_leaf id)

abbrev pub question_of : String → QuestionType → Option Json → Option Json → Parsed Question
question_of id t instructions criteria = and_then (parse_instructions id instructions) (λ v.
    and_then (parse_criteria id t criteria)
      (λ os. ok (record { id = id; type_of = t; instructions = json v; options = os })))

abbrev pub parse_typed : String → Option QuestionType → List (String × Json) → Parsed Question
parse_typed id none ms = bad (unknown_type id)
parse_typed id (some t) ms =
    question_of id t (present (last_field "instructions" ms)) (present (last_field "criteria" ms))

abbrev pub parse_fields : String → Option (List (String × Json)) → Parsed Question
parse_fields id none = bad (question_not_object id)
parse_fields id (some ms) = parse_typed id (question_type (type_name (last_field "type" ms))) ms

unfoldable pub parse_question : String → Json → Parsed Question
unfolding last_field choice_options score_levels noul_options
parse_question id v = parse_fields id (ordered_object v)

unfoldable pub parse_questions : List String → List (String × Json) → Parsed (List Question)
unfolding is_seen parse_question
parse_questions seen [] = ok []
parse_questions seen ((id, v) ∷ ms) =
    let rest = parse_questions (id ∷ seen) ms in
    if str_eq id ""
    then bad empty_question_id
    else if is_seen seen id
    then bad (question_twice id)
    else and_then (parse_question id v) (λ q. prepend q rest)

abbrev pub questions_of : Option (List (String × Json)) → Parsed (List Question)
questions_of none = bad questions_not_object
questions_of (some ms) =
    if ltb (length ms) 1 || ltb max_questions (length ms)
    then bad (questions_count (length ms))
    else parse_questions [] ms

abbrev pub parse_model : Option Json → Parsed String
parse_model (some (text s)) = if str_eq s "" then bad model_required else ok s
parse_model _ = bad model_required

abbrev pub parse_state : Option Json → Parsed Json
parse_state none = bad state_required
parse_state (some v) = if is_leaf v then ok v else bad state_not_leaf

abbrev pub input_of : Json → Option Json → Parsed Input
input_of state none = bad questions_required
input_of state (some v) =
    and_then (questions_of (ordered_object v))
      (λ qs. ok (record { state = json state; questions = qs }))

abbrev pub without_images : Option Json → Parsed Request → Parsed Request
without_images none rest = rest
without_images (some v) rest = bad images_not_supported

abbrev pub rest_of : List (String × Json) → String → Parsed Request
rest_of top model = and_then (parse_state (present (last_field "state" top))) (λ state.
    and_then (input_of state (last_field "questions" top))
      (λ input. ok (record { model = model; input = input })))

abbrev pub request_of : List (String × Json) → Parsed Request
request_of top =
    and_then (parse_model (last_field "model" top))
      (λ model. without_images (present (last_field "images" top)) (rest_of top model))

abbrev pub parse_top : Option (List (String × Json)) → Parsed Request
parse_top none = bad malformed
parse_top (some top) = request_of top

-- A body that is no JSON has no value.
abbrev pub body_members : Option Json → Option (List (String × Json))
body_members none = none
body_members (some v) = ordered_object v

unfoldable pub parse_request : Option Json → Parsed Request
unfolding parse_questions last_field
parse_request body = parse_top (body_members body)
