-- ===== src/Decision/RoundTrip.antt =====
-- internal/decision: a request that was accepted, written for the runtime and parsed again.
use flockd.Base.{
  suc, ◌≡◌, refl, ap, ◌∙◌, sym, true, false, ◌||◌, String, List, [], ◌∷◌, Option, none, some, arith,
  ltb, str_eq, if◌then◌else◌, length,
}
use flockd.Decision.{
  QuestionType, choice, score, noul, unknown, json, DecisionOption, Question, Input, Request,
  Parsed, ok, bad, model_required, state_not_leaf, questions_count, empty_question_id,
  question_twice, instructions_not_leaf, instructions_empty, max_questions,
}
use flockd.Decision.Values.{
  Json, null, scalar, text, arr, obj, no_fields, field, members, ordered_object, array, is_leaf,
  is_null, is_empty_leaf, last_field, present,
}
use flockd.Decision.Parse.{
  and_then, prepend, is_seen, type_name, question_type, parse_criteria, parse_instructions,
  parse_typed, parse_fields, parse_question, parse_questions, without_images, rest_of, questions_of,
  parse_model, parse_state, input_of, request_of, parse_top, body_members, parse_request,
}
use flockd.Decision.Written.{leaf_value, question_value, question_fields}
use flockd.Decision.Again.{
  and_then-cases, prepend-cases, guard-cases, demand-cases, choice_members-again,
  score_elements-again, noul_members-again,
}

leaf_not_null : (v : Json) → is_leaf v ≡ true → is_null v ≡ false
leaf_not_null v e = ground (arith, e)

-- What an instruction must be.
instructions-again :
    (id : String) (o : Option Json) (v : Json)
    → parse_instructions id o ≡ ok v
    → (is_null v ≡ false) × (parse_instructions id (some v) ≡ ok v)
instructions-again id none v e = cc
instructions-again id (some w) v e =
    let (leaf, e₁) =
      demand-cases (is_leaf w) (instructions_not_leaf id)
        (if is_empty_leaf w then bad (instructions_empty id) else ok w) v e in
    let (filled, e₂) = guard-cases (is_empty_leaf w) (instructions_empty id) (ok w) v e₁ in
    let same : w ≡ v = ground (arith, e₂) in
    rw⁻¹ same (leaf_not_null w leaf, rw (leaf, filled) refl)

criteria-again :
    (id name : String) (t : QuestionType) (o : Option Json) (v : Json) (os : List DecisionOption)
    → question_type name ≡ some t
    → is_null v ≡ false
    → parse_instructions id (some v) ≡ ok v
    → parse_criteria id t o ≡ ok os
    → parse_question id
        (question_value (record { id = id; type_of = t; instructions = json v; options = os }))
      ≡ ok (record { id = id; type_of = t; instructions = json v; options = os })
unfolding parse_question members last_field
criteria-again id name choice none v os t n i e = cc
criteria-again id name choice (some w) v os t n i e =
    rw (n, i, choice_members-again id (ordered_object w) os e) refl
criteria-again id name score none v os t n i e = cc
criteria-again id name score (some w) v os t n i e =
    rw (n, i, score_elements-again id (array w) os e) refl
criteria-again id name noul none v os t n i e =
    let nothing : os ≡ [] = ground (arith, e) in rw nothing (rw (n, i) refl)
criteria-again id name noul (some w) v os t n i e =
    let (a, b, whole, again) = noul_members-again id (ordered_object w) os e in
    rw whole (rw (n, i, rw whole at again) refl)
criteria-again id name unknown o v os t n i e = ground (arith, t)

fields-again :
    (id : String) (t : Option QuestionType) (name : String) (ms : List (String × Json))
    (q : Question)
    → question_type name ≡ t
    → parse_typed id t ms ≡ ok q
    → (parse_question id (question_value q) ≡ ok q) × (q.id ≡ id)
fields-again id none name ms q t e = cc
fields-again id (some t) name ms q n e =
    let instructions = present (last_field "instructions" ms) in
    let criteria = present (last_field "criteria" ms) in
    let whole : Json → List DecisionOption → Question =
      λ v os. record { id = id; type_of = t; instructions = json v; options = os } in
    let (v, ei, e₁) =
      and_then-cases (parse_instructions id instructions)
        (λ v. and_then (parse_criteria id t criteria) (λ os. ok (whole v os))) q e in
    let (os, ec, e₂) = and_then-cases (parse_criteria id t criteria) (λ os. ok (whole v os)) q e₁ in
    let same : whole v os ≡ q = ground (arith, e₂) in
    let (not_null, again) = instructions-again id instructions v ei in
    rw⁻¹ same (criteria-again id name t criteria v os n not_null again ec, refl)

question-again :
    (id : String) (ms : Option (List (String × Json))) (q : Question)
    → parse_fields id ms ≡ ok q
    → (parse_question id (question_value q) ≡ ok q) × (q.id ≡ id)
question-again id none q e = cc
question-again id (some ms) q e =
    fields-again id (question_type (type_name (last_field "type" ms)))
      (type_name (last_field "type" ms)) ms q refl e

parse_question-again :
    (id : String) (v : Json) (q : Question)
    → parse_question id v ≡ ok q
    → (parse_question id (question_value q) ≡ ok q) × (q.id ≡ id)
unfolding parse_question
parse_question-again id v q e = question-again id (ordered_object v) q e

next_question :
    (seen : List String) (id : String) (v : Json) (ms : List (String × Json)) (q : Question)
    (qs : List Question)
    → str_eq id "" ≡ false
    → is_seen seen id ≡ false
    → parse_question id v ≡ ok q
    → parse_questions (id ∷ seen) ms ≡ ok qs
    → parse_questions seen ((id, v) ∷ ms) ≡ ok (q ∷ qs)
unfolding parse_questions
next_question seen id v ms q qs named new one rest = rw (named, new, one, rest) refl

questions-again :
    (seen : List String) (ms : List (String × Json)) (qs : List Question)
    → parse_questions seen ms ≡ ok qs
    → (parse_questions seen (members (question_fields qs)) ≡ ok qs)
      × (length (members (question_fields qs)) ≡ length ms)
unfolding parse_questions members question_fields
questions-again seen [] qs e = ground (arith, e)
questions-again seen ((id, v) ∷ ms) qs e =
    let rest = parse_questions (id ∷ seen) ms in
    let write : Question → Parsed (List Question) = λ q. prepend q rest in
    let (named, e₁) =
      guard-cases (str_eq id "") empty_question_id
        (if is_seen seen id then bad (question_twice id) else and_then (parse_question id v) write)
        qs e in
    let (new, e₂) =
      guard-cases (is_seen seen id) (question_twice id) (and_then (parse_question id v) write) qs
        e₁ in
    let (q, eq, e₃) = and_then-cases (parse_question id v) write qs e₂ in
    let (qs', later, whole) = prepend-cases q rest qs e₃ in
    let (again, count) = questions-again (id ∷ seen) ms qs' later in
    let (one, same) = parse_question-again id v q eq in
    rw (whole, same)
      (
        next_question seen id (question_value q) (members (question_fields qs')) q qs' named new one
            again,
        ap suc count,
      )

-- The body for the runtime, with the model beside it: a request of the public API.
abbrev pub request_value : Request → Json
request_value r = obj (
    field "model" (text r.model) (
      field "state" (leaf_value r.input.state)
        (field "questions" (obj (question_fields r.input.questions)) no_fields)))

pub questions_of-again :
    (ms : Option (List (String × Json))) (qs : List Question)
    → questions_of ms ≡ ok qs
    → questions_of (some (members (question_fields qs))) ≡ ok qs
questions_of-again none qs e = cc
questions_of-again (some ms) qs e =
    let (within, e₁) =
      guard-cases (ltb (length ms) 1 || ltb max_questions (length ms)) (questions_count (length ms))
        (parse_questions [] ms) qs e in
    let (again, count) = questions-again [] ms qs e₁ in rw (count, within, again) refl

model-again :
    (o : Option Json) (s : String) → parse_model o ≡ ok s → parse_model (some (text s)) ≡ ok s
model-again none s e = cc
model-again (some null) s e = cc
model-again (some (scalar t)) s e = cc
model-again (some (arr vs)) s e = cc
model-again (some (obj fs)) s e = cc
model-again (some (text t)) s e =
    let (named, e₁) = guard-cases (str_eq t "") model_required (ok t) s e in
    let same : t ≡ s = ground (arith, e₁) in rw⁻¹ same (rw named refl)

state-again :
    (o : Option Json) (v : Json)
    → parse_state o ≡ ok v
    → (is_null v ≡ false) × (parse_state (some v) ≡ ok v)
state-again none v e = cc
state-again (some w) v e =
    let (leaf, e₁) = demand-cases (is_leaf w) state_not_leaf (ok w) v e in
    let same : w ≡ v = ground (arith, e₁) in rw⁻¹ same (leaf_not_null w leaf, rw leaf refl)

pub images-cases :
    (o : Option Json) (p : Parsed Request) (r : Request) → without_images o p ≡ ok r → p ≡ ok r
images-cases none p r e = e
images-cases (some v) p r e = cc

input-again :
    (state : Json) (o : Option Json) (input : Input)
    → input_of state o ≡ ok input
    → (input.state ≡ json state)
      × (questions_of (some (members (question_fields input.questions))) ≡ ok input.questions)
input-again state none input e = cc
input-again state (some v) input e =
    let (qs, eq, e₁) =
      and_then-cases (questions_of (ordered_object v))
        (λ qs. ok (record { state = json state; questions = qs })) input e in
    let same : record { state = json state; questions = qs } ≡ input = ground (arith, e₁) in
    rw⁻¹ same (refl, questions_of-again (ordered_object v) qs eq)

request_again :
    (model : String) (state : Json) (qs : List Question)
    → parse_model (some (text model)) ≡ ok model
    → is_null state ≡ false
    → parse_state (some state) ≡ ok state
    → questions_of (some (members (question_fields qs))) ≡ ok qs
    → parse_request (
        some (
          request_value
            (record { model = model; input = record { state = json state; questions = qs } })))
      ≡ ok (record { model = model; input = record { state = json state; questions = qs } })
unfolding parse_request members last_field
request_again model state qs m n s q = rw (m, n, s, q) refl

request_of-again :
    (top : List (String × Json)) (r : Request)
    → request_of top ≡ ok r
    → parse_request (some (request_value r)) ≡ ok r
request_of-again top r e =
    let images = present (last_field "images" top) in
    let (model, em, e₁) =
      and_then-cases (parse_model (last_field "model" top))
        (λ model. without_images images (rest_of top model)) r e in
    let e₂ = images-cases images (rest_of top model) r e₁ in
    let (state, es, e₃) =
      and_then-cases (parse_state (present (last_field "state" top)))
        (λ state.
          and_then (input_of state (last_field "questions" top))
            (λ input. ok (record { model = model; input = input })))
        r e₂ in
    let (input, ei, e₄) =
      and_then-cases (input_of state (last_field "questions" top))
        (λ input. ok (record { model = model; input = input })) r e₃ in
    let same : record { model = model; input = input } ≡ r = ground (arith, e₄) in
    let (null_free, state_again) = state-again (present (last_field "state" top)) state es in
    let (kept, qs) = input-again state (last_field "questions" top) input ei in
    let whole : record {
      model = model;
      input = record { state = json state; questions = input.questions };
    }
        ≡ r =
      ap (λ l. record { model = model; input = record input { state = l } }) (sym kept) ∙ same in
    rw⁻¹ whole (
      request_again model state input.questions (model-again (last_field "model" top) model em)
        null_free state_again qs)

accepted :
    (top : Option (List (String × Json))) (r : Request)
    → parse_top top ≡ ok r
    → parse_request (some (request_value r)) ≡ ok r
accepted none r e = cc
accepted (some top) r e = request_of-again top r e

-- A request that is accepted, written for the runtime with its model beside it, is accepted again, as
-- the same request: with every question and option in its place, every description and instruction as
-- it was, and nothing that the first parse did not see.
pub parse_request-again :
    (body : Option Json) (r : Request)
    → parse_request body ≡ ok r
    → parse_request (some (request_value r)) ≡ ok r
unfolding parse_request
parse_request-again body r e = accepted (body_members body) r e
