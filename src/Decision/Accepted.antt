-- ===== src/Decision/Accepted.antt =====
-- internal/decision: what was accepted can be written for the runtime.
use flockd.Base.{
  ◌≡◌, refl, ap, ◌∙◌, Bool, true, false, ◌||◌, String, List, [], ◌∷◌, ◌++◌, ◌==◌, Option, none,
  some, arith, ltb, str_eq, if◌then◌else◌, length,
}
use flockd.Decision.{
  QuestionType, choice, score, noul, unknown, json, DecisionOption, Question, Input, Request,
  Parsed, ok, bad, questions_count, empty_question_id, question_twice, max_questions,
}
use flockd.Decision.Values.{Json, members, ordered_object, last_field, present}
use flockd.Decision.Parse.{
  and_then, prepend, is_seen, type_name, question_type, parse_criteria, parse_instructions,
  parse_typed, parse_fields, parse_question, parse_questions, without_images, rest_of, questions_of,
  parse_model, parse_state, input_of, request_of, parse_top, body_members, parse_request,
}
use flockd.Decision.Written.{question_fields, body_value}
use flockd.Decision.Again.{and_then-cases, prepend-cases, guard-cases}
use flockd.Decision.Wire.{
  Token, Wire as Result, render, check_options, write_criteria, write_question, write_questions,
  runtime_body, body_tokens,
}
use flockd.Decision.Written.{runtime_body-render}
use flockd.Decision.Fine.{criteria-fine}
use flockd.Decision.RoundTrip.{questions_of-again, images-cases}

-- Some text is written.
abbrev Writes : Result (List Token) → Type 0
Writes w = (ts : List Token) × (w ≡ Result.ok ts)

question-Writes :
    (first : Bool) (id name : String) (t : QuestionType) (v : Json) (os : List DecisionOption)
    → question_type name ≡ some t
    → check_options id os ≡ none
    → Writes (
        write_question first (record { id = id; type_of = t; instructions = json v; options = os }))
unfolding write_question write_criteria
question-Writes first id name choice v os t c = rw c ((_, refl))
question-Writes first id name score v os t c = rw c ((_, refl))
question-Writes first id name noul v os t c = rw c ((_, refl))
question-Writes first id name unknown v os t c = ground (arith, t)

typed-Writes :
    (first : Bool) (id name : String) (t : Option QuestionType) (ms : List (String × Json))
    (q : Question)
    → question_type name ≡ t
    → parse_typed id t ms ≡ ok q
    → Writes (write_question first q)
typed-Writes first id name none ms q n e = cc
typed-Writes first id name (some t) ms q n e =
    let criteria = present (last_field "criteria" ms) in
    let whole : Json → List DecisionOption → Question =
      λ v os. record { id = id; type_of = t; instructions = json v; options = os } in
    let (v, ei, e₁) =
      and_then-cases (parse_instructions id (present (last_field "instructions" ms)))
        (λ v. and_then (parse_criteria id t criteria) (λ os. ok (whole v os))) q e in
    let (os, ec, e₂) = and_then-cases (parse_criteria id t criteria) (λ os. ok (whole v os)) q e₁ in
    let same : whole v os ≡ q = ground (arith, e₂) in
    rw⁻¹ same (question-Writes first id name t v os n (criteria-fine id t criteria os ec))

fields-Writes :
    (first : Bool) (id : String) (ms : Option (List (String × Json))) (q : Question)
    → parse_fields id ms ≡ ok q
    → Writes (write_question first q)
fields-Writes first id none q e = cc
fields-Writes first id (some ms) q e =
    typed-Writes first id (type_name (last_field "type" ms))
      (question_type (type_name (last_field "type" ms))) ms q refl e

parsed-Writes :
    (first : Bool) (id : String) (v : Json) (q : Question)
    → parse_question id v ≡ ok q
    → Writes (write_question first q)
unfolding parse_question
parsed-Writes first id v q e = fields-Writes first id (ordered_object v) q e

questions-Writes :
    (first : Bool) (seen : List String) (ms : List (String × Json)) (qs : List Question)
    → parse_questions seen ms ≡ ok qs
    → Writes (write_questions first qs)
unfolding parse_questions write_questions
questions-Writes first seen [] qs e =
    let nothing : qs ≡ [] = ground (arith, e) in rw nothing ([], refl)
questions-Writes first seen ((id, v) ∷ ms) qs e =
    let rest = parse_questions (id ∷ seen) ms in
    let write : Question → Parsed (List Question) = λ q. prepend q rest in
    let (named, e₁) =
      guard-cases (str_eq id "") empty_question_id
        (if is_seen seen id then bad (question_twice id) else and_then (parse_question id v) write)
        qs e in
    let (new, e₂) =
      guard-cases (is_seen seen id) (question_twice id) (and_then (parse_question id v) write) qs
        e₁ in
    let (q, eq, e₃) = and_then-cases (parse_question id v) write qs e₂ in
    let (qs', later, whole) = prepend-cases q rest qs e₃ in
    let (ts, w) = parsed-Writes first id v q eq in
    let (us, ws) = questions-Writes false (id ∷ seen) ms qs' later in
    rw whole (ts ++ us, rw (w, ws) refl)

some_questions :
    (qs : List Question)
    → questions_of (some (members (question_fields qs))) ≡ ok qs
    → length qs == 0 ≡ false
unfolding members question_fields
some_questions [] e = cc
some_questions (q ∷ qs) e = ground arith

questions_of-Writes :
    (ms : Option (List (String × Json))) (qs : List Question)
    → questions_of ms ≡ ok qs
    → Writes (write_questions true qs)
questions_of-Writes none qs e = cc
questions_of-Writes (some ms) qs e =
    questions-Writes true [] ms qs
      (guard-cases (ltb (length ms) 1 || ltb max_questions (length ms))
        (questions_count (length ms)) (parse_questions [] ms) qs e).1

input-Writes :
    (state : Json) (o : Option Json) (input : Input)
    → input_of state o ≡ ok input
    → Writes (runtime_body input)
unfolding runtime_body
input-Writes state none input e = cc
input-Writes state (some v) input e =
    let (qs, eq, e₁) =
      and_then-cases (questions_of (ordered_object v))
        (λ qs. ok (record { state = json state; questions = qs })) input e in
    let same : record { state = json state; questions = qs } ≡ input = ground (arith, e₁) in
    let (ts, w) = questions_of-Writes (ordered_object v) qs eq in
    rw⁻¹ same (
      body_tokens (render state) ts,
      rw (some_questions qs (questions_of-again (ordered_object v) qs eq), w) refl,
    )

request_of-Writes :
    (top : List (String × Json)) (r : Request)
    → request_of top ≡ ok r
    → Writes (runtime_body r.input)
request_of-Writes top r e =
    let images = present (last_field "images" top) in
    let (model, em, e₁) =
      and_then-cases (parse_model (last_field "model" top))
        (λ model. without_images images (rest_of top model)) r e in
    let e₂ = images-cases images (rest_of top model) r e₁ in
    let (state, es, e₃) =
      and_then-cases (parse_state (present (last_field "state" top)))
        (λ state.
          and_then (input_of state (last_field "questions" top))
            (λ input. ok (record { model = model; input = input })))
        r e₂ in
    let (input, ei, e₄) =
      and_then-cases (input_of state (last_field "questions" top))
        (λ input. ok (record { model = model; input = input })) r e₃ in
    let same : input ≡ r.input = ground (arith, e₄) in
    rw⁻¹ same (input-Writes state (last_field "questions" top) input ei)

top-Writes :
    (top : Option (List (String × Json))) (r : Request)
    → parse_top top ≡ ok r
    → Writes (runtime_body r.input)
top-Writes none r e = cc
top-Writes (some top) r e = request_of-Writes top r e

-- Every request that is accepted can be sent to the runtime, and is sent as the compact JSON of its
-- state and its questions, with each member in the order of the request.
pub runtime_body-parse_request :
    (body : Option Json) (r : Request)
    → parse_request body ≡ ok r
    → runtime_body r.input ≡ Result.ok (render (body_value r.input))
unfolding parse_request
runtime_body-parse_request body r e =
    let (ts, w) = top-Writes (body_members body) r e in
    w ∙ ap (λ t. Result.ok t) (runtime_body-render r.input ts w)
