-- ===== src/Examples/Decision.antt =====
-- internal/decision at concrete inputs: a request with a choice, a score and a noul question.
use flockd.Base.{ℕ, ◌≡◌, Bool, refl, leb, if◌then◌else◌, [], ◌∷◌, List, none, some, map}
use flockd.Base.Dict.{Dict}
use flockd.Decision.{choice, score, no_leaf, json, Request, ok, itoa}
use flockd.Decision.Values.{
  Json, null, scalar, text, arr, obj, no_items, item, no_fields, field, members, elements,
}
use flockd.Decision.Parse.{
  parse_request, parse_question, choice_options, choice_loop, score_levels, score_loop,
}
use flockd.Decision.Wire.{Wire, not_finite, render, runtime_body}
use flockd.Decision.Written.{body_value}
use flockd.Decision.RoundTrip.{request_value, parse_request-again}
use flockd.Decision.Accepted.{runtime_body-parse_request}
use flockd.Decision.Answers.{RuntimeAnswer, Answer, parse_answers, write_response}
use flockd.Decision.Ordered.{shape, asked, parse_answers-shape}
use flockd.Decision.Response.{finite_answers, response_value, write_response-parse_answers}

-- The fields in another order, a field that is not read, and a model that is named twice.
abbrev asked_body : Json
asked_body = obj (
    field "questions"
      (obj (
        field "spam"
          (obj (
            field "criteria" (obj (field "yes" (text "junk") (field "no" null no_fields)))
              (field "type" (text "choice") (field "instructions" (text "Is it?") no_fields))))
          (field "tone"
            (obj (
              field "type" (text "score") (
                field "instructions" (text "How kind?") (
                  field "criteria" (arr (item (text "rude") (item (text "kind") no_items)))
                    no_fields))))
            no_fields)))
      (field "seed" (scalar "7") (
        field "model" (text "old")
          (field "state" (text "hello") (field "model" (text "laguna") no_fields)))))

abbrev accepted : Request
accepted = record {
  model = "laguna";
  input = record {
    state = json (text "hello");
    questions =
        (record {
          id = "spam";
          type_of = choice;
          instructions = json (text "Is it?");
          options =
              (record { key = "yes"; description = json (text "junk") })
              ∷ (record { key = "no"; description = no_leaf })
              ∷ [];
        })
        ∷ (record {
          id = "tone";
          type_of = score;
          instructions = json (text "How kind?");
          options =
              (record { key = "0"; description = json (text "rude") })
              ∷ (record { key = "1"; description = json (text "kind") })
              ∷ [];
        })
        ∷ [];
  };
}

parse_asked : parse_request (some asked_body) ≡ ok accepted
unfolding parse_request parse_question choice_options score_levels choice_loop score_loop members
    elements
parse_asked = refl

parse_request-again_example : parse_request (some (request_value accepted)) ≡ ok accepted
parse_request-again_example = parse_request-again (some asked_body) accepted parse_asked

runtime_body-parse_request_example :
    runtime_body accepted.input ≡ Wire.ok (render (body_value accepted.input))
runtime_body-parse_request_example =
    runtime_body-parse_request (some asked_body) accepted parse_asked

abbrev said : Dict (RuntimeAnswer ℕ)
said =
    (
      "tone",
      record {
        type_name = "score";
        choice_of = none;
        score_of = some 1;
        noul_of = none;
        probabilities = ("1", 9) ∷ ("0", 1) ∷ [];
        confidence_of = some 8;
      },
    )
    ∷ (
      "spam",
      record {
        type_name = "choice";
        choice_of = some "no";
        score_of = none;
        noul_of = none;
        probabilities = ("no", 6) ∷ ("yes", 4) ∷ [];
        confidence_of = none;
      },
    )
    ∷ []

abbrev read : List (Answer ℕ)
read =
    (record {
      question_id = "spam";
      answer_type = choice;
      chosen = "no";
      score_value = 0;
      noul_value = 0;
      distribution = ("yes", 4) ∷ ("no", 6) ∷ [];
      confidence = 0;
    })
    ∷ (record {
      question_id = "tone";
      answer_type = score;
      chosen = "";
      score_value = 1;
      noul_value = 0;
      distribution = ("0", 1) ∷ ("1", 9) ∷ [];
      confidence = 8;
    })
    ∷ []

parse_said : parse_answers 0 said accepted.input.questions ≡ Wire.ok read
unfolding parse_answers
parse_said = refl

parse_answers-shape_example : map shape read ≡ map asked accepted.input.questions
parse_answers-shape_example = parse_answers-shape 0 said accepted.input.questions read parse_said

-- A number above one hundred stands for one that is not finite.
abbrev small : ℕ → Bool
small f = leb f 100

write_response-parse_answers_example : write_response small itoa "laguna" accepted.input read 12 ≡ (
    if finite_answers small itoa accepted.input.questions read
    then Wire.ok (render (response_value small itoa "laguna" accepted.input.questions read 12))
    else Wire.failed not_finite)
write_response-parse_answers_example =
    write_response-parse_answers small itoa 0 said "laguna" accepted.input read 12 parse_said
