-- ===== src/Decision/Response.antt =====
-- internal/decision/wire.go: the public response to the answers that were read, as a tree of JSON.
use flockd.Base.{
  ℕ, suc, ◌==◌, ◌≡◌, refl, ap, sym, ◌∙◌, Bool, true, false, ◌&&◌, String, List, [], ◌∷◌, ◌++◌, map,
  str_eq, eq_iff, arith, length, if◌then◌else◌,
}
use flockd.Base.Dict.{Dict}
use mathlib.Core.List.{append_assoc}
use flockd.Decision.{
  QuestionType, choice, score, noul, unknown, DecisionOption, Question, Input, Leaf, itoa,
}
use flockd.Decision.Values.{Json, scalar, text, obj, Fields, no_fields, field}
use flockd.Decision.Wire.{
  Token, open_object, close_object, comma, colon, string_token, scalar_token, render, render_fields,
  not_finite, Wire, ok, failed, next_ok, type_string, key,
}
use flockd.Decision.Written.{option_fields, keyed_options_lem}
use flockd.Decision.Answers.{
  RuntimeAnswer, Answer, parse_answers, num, probabilities_tokens, distribution_tokens,
  value_tokens, same_type, write_answer, write_answers, write_response, field_key,
}
use flockd.Decision.Ordered.{shape, asked, parse_answers-shape}

module _ {F : Type 0} (finite : F → Bool) (show : F → String) where
  -- The numbers that a response gives of an answer, by its type.
  abbrev pub numbers : QuestionType → Answer F → List F
  numbers choice a = map (λ p. p.1) a.distribution ++ (a.confidence ∷ [])
  numbers score a = a.score_value ∷ (map (λ p. p.1) a.distribution ++ (a.confidence ∷ []))
  numbers noul a = a.noul_value ∷ []
  numbers unknown a = []

  unfoldable pub all_finite : List F → Bool
  all_finite [] = true
  all_finite (x ∷ xs) = finite x && all_finite xs

  unfoldable pub finite_answers : List Question → List (Answer F) → Bool
  unfolding all_finite
  finite_answers [] bs = true
  finite_answers (q ∷ qs) [] = true
  finite_answers (q ∷ qs) (a ∷ bs) = all_finite (numbers q.type_of a) && finite_answers qs bs

  unfoldable pub probability_fields : List (String × F) → Fields
  probability_fields [] = no_fields
  probability_fields ((k, p) ∷ ps) = field k (scalar (show p)) (probability_fields ps)

  abbrev pub distribution_fields : Answer F → Fields
  distribution_fields a =
      field "probabilities" (obj (probability_fields a.distribution))
        (field "confidence" (scalar (show a.confidence)) no_fields)

  abbrev pub value_fields : QuestionType → List DecisionOption → Answer F → Fields
  value_fields choice os a = field "choice" (text a.chosen) (distribution_fields a)
  value_fields score os a =
      field "score" (scalar (show a.score_value))
        (field "legend" (obj (option_fields os)) (distribution_fields a))
  value_fields noul os a = field "noul" (scalar (show a.noul_value)) no_fields
  value_fields unknown os a = no_fields

  abbrev pub answer_value : Question → Answer F → Json
  answer_value q a =
      obj (field "type" (text (type_string q.type_of)) (value_fields q.type_of q.options a))

  unfoldable pub answer_fields : List Question → List (Answer F) → Fields
  answer_fields [] bs = no_fields
  answer_fields (q ∷ qs) [] = no_fields
  answer_fields (q ∷ qs) (a ∷ bs) = field q.id (answer_value q a) (answer_fields qs bs)

  abbrev usage_fields : ℕ → Fields
  usage_fields input_tokens =
      field "usage"
        (obj (
          field "input_tokens" (scalar (itoa input_tokens))
            (field "output_tokens" (scalar "0") no_fields)))
        no_fields

  -- The response of the public API.
  abbrev pub response_value : String → List Question → List (Answer F) → ℕ → Json
  response_value model qs bs input_tokens = obj (
      field "model" (text model)
        (field "answers" (obj (answer_fields qs bs)) (usage_fields input_tokens)))

  -- What is written where all numbers are finite.
  abbrev written : Bool → List Token → Wire (List Token)
  written c ts = if c then ok ts else failed not_finite

  next_ok-written :
      (c d : Bool) (w : Wire (List Token)) (f : List Token → Wire (List Token)) (ts us : List Token)
      → w ≡ written c ts
      → f ts ≡ written d us
      → next_ok w f ≡ written (c && d) us
  next_ok-written true d w f ts us h e = rw h e
  next_ok-written false d w f ts us h e = rw h refl

  same_written : (c : Bool) (ts us : List Token) → ts ≡ us → written c ts ≡ written c us
  same_written c ts us e = rw e refl

  all_finite-++ : (xs ys : List F) → all_finite (xs ++ ys) ≡ (all_finite xs && all_finite ys)
  unfolding all_finite
  all_finite-++ [] ys = refl
  all_finite-++ (x ∷ xs) ys = ground (arith, all_finite-++ xs ys)

  and-true : (c : Bool) → (c && true) ≡ c
  and-true true = refl
  and-true false = refl

  -- A step whose text goes into what is written.
  next_ok-ok :
      (c : Bool) (w : Wire (List Token)) (g : List Token → List Token) (ts us : List Token)
      → w ≡ written c ts
      → g ts ≡ us
      → next_ok w (λ t. ok (g t)) ≡ written c us
  next_ok-ok true w g ts us h e = rw h (ap (λ t. ok t) e)
  next_ok-ok false w g ts us h e = rw h refl

  probabilities-written :
      (first : Bool) (ps : List (String × F))
      → probabilities_tokens finite show first ps
        ≡ written (all_finite (map (λ p. p.1) ps)) (render_fields first (probability_fields ps))
  unfolding probabilities_tokens all_finite render probability_fields
  probabilities-written first [] = refl
  probabilities-written true ((k, p) ∷ ps) =
      next_ok-written (finite p) (all_finite (map (λ q. q.1) ps)) (num finite show p) _
        (scalar_token (show p) ∷ []) _ refl
        (next_ok-ok (all_finite (map (λ q. q.1) ps)) (probabilities_tokens finite show false ps) _ _
          _ (probabilities-written false ps) refl)
  probabilities-written false ((k, p) ∷ ps) =
      next_ok-written (finite p) (all_finite (map (λ q. q.1) ps)) (num finite show p) _
        (scalar_token (show p) ∷ []) _ refl
        (next_ok-ok (all_finite (map (λ q. q.1) ps)) (probabilities_tokens finite show false ps) _ _
          _ (probabilities-written false ps) refl)

  distribution-written :
      (a : Answer F)
      → distribution_tokens finite show a
        ≡ written
            (all_finite (map (λ p. p.1) a.distribution ++ (a.confidence ∷ [])))
            (render_fields false (distribution_fields a))
  unfolding distribution_tokens all_finite render
  distribution-written a =
      let ps : List F = map (λ p. p.1) a.distribution in
      let both : (all_finite (map (λ p. p.1) a.distribution) && finite a.confidence)
          ≡ all_finite (map (λ p. p.1) a.distribution ++ (a.confidence ∷ [])) =
        ground (arith, all_finite-++ (map (λ p. p.1) a.distribution) (a.confidence ∷ [])) in
      next_ok-written (all_finite (map (λ p. p.1) a.distribution)) (finite a.confidence)
        (probabilities_tokens finite show true a.distribution) _
        (render_fields true (probability_fields a.distribution))
        (render_fields false (distribution_fields a)) (probabilities-written true a.distribution)
        (next_ok-ok (finite a.confidence) (num finite show a.confidence) _
          (scalar_token (show a.confidence) ∷ []) _ refl
          (ap (λ t. comma ∷ string_token "probabilities" ∷ colon ∷ open_object ∷ t)
            (sym (
              append_assoc (render_fields true (probability_fields a.distribution))
                (close_object ∷ []) _))))
      ∙ ap (λ c. written c (render_fields false (distribution_fields a))) both

  value-written :
      (id : String) (t : QuestionType) (i : Leaf) (os : List DecisionOption) (a : Answer F)
      → value_tokens finite show (record { id = id; type_of = t; instructions = i; options = os }) a
        ≡ written (all_finite (numbers t a)) (render_fields false (value_fields t os a))
  unfolding value_tokens all_finite render
  value-written id choice i os a =
      next_ok-ok (all_finite (numbers choice a)) (distribution_tokens finite show a) _ _ _
        (distribution-written a) refl
  value-written id score i os a =
      next_ok-written (finite a.score_value) (all_finite (numbers choice a))
        (num finite show a.score_value) _ (scalar_token (show a.score_value) ∷ []) _ refl
        (next_ok-ok (all_finite (numbers choice a)) (distribution_tokens finite show a) _ _ _
          (distribution-written a)
          (ap
              (λ k.
                comma
                  ∷ string_token "score"
                  ∷ colon
                  ∷ scalar_token (show a.score_value)
                  ∷ comma
                  ∷ string_token "legend"
                  ∷ colon
                  ∷ open_object
                  ∷ k
                ++ (close_object ∷ render_fields false (distribution_fields a)))
              (keyed_options_lem true os)
            ∙ ap
                (λ t.
                  comma
                  ∷ string_token "score"
                  ∷ colon
                  ∷ scalar_token (show a.score_value)
                  ∷ comma
                  ∷ string_token "legend"
                  ∷ colon
                  ∷ open_object
                  ∷ t)
                (sym (append_assoc (render_fields true (option_fields os)) (close_object ∷ []) _))))
  value-written id noul i os a =
      next_ok-ok (finite a.noul_value) (num finite show a.noul_value) _
        (scalar_token (show a.noul_value) ∷ []) _ refl refl
      ∙ ap (λ c. written c (render_fields false (value_fields noul os a)))
          (sym (and-true (finite a.noul_value)))
  value-written id unknown i os a = refl

  key_text :
      (first : Bool) (q : Question) (a : Answer F)
      → key first q.id
          ++ open_object
            ∷ string_token "type"
            ∷ colon
            ∷ string_token (type_string q.type_of)
            ∷ render_fields false (value_fields q.type_of q.options a)
          ++ close_object ∷ []
        ≡ key first q.id ++ render (answer_value q a)
  unfolding render
  key_text true q a = refl
  key_text false q a = refl

  answer-written :
      (first : Bool) (q : Question) (a : Answer F)
      → shape a ≡ asked q
      → write_answer finite show first q a
        ≡ written (all_finite (numbers q.type_of a)) (key first q.id ++ render (answer_value q a))
  unfolding write_answer render
  answer-written first q a s =
      let about : str_eq a.question_id q.id ≡ true =
        ground (arith, ap (λ x. x.about) s, eq_iff a.question_id q.id) in
      let kind : same_type a.answer_type q.type_of ≡ true = ground (
        arith,
        ap (λ x. type_string x.kind) s,
        eq_iff (type_string a.answer_type) (type_string q.type_of),
      ) in
      rw (about, kind)
        (next_ok-ok (all_finite (numbers q.type_of a)) (value_tokens finite show q a) _ _ _
          (value-written q.id q.type_of q.instructions q.options a) (key_text first q a))

  same_length :
      (xs : List (Answer F)) (qs : List Question)
      → map shape xs ≡ map asked qs
      → length xs ≡ length qs
  same_length [] [] e = refl
  same_length [] (q ∷ qs) e = cc
  same_length (a ∷ xs) [] e = cc
  same_length (a ∷ xs) (q ∷ qs) e = ap (λ n. suc n) (same_length xs qs (ground (arith, e)))

  joined :
      (first : Bool) (id : String) (v : Json) (fs : Fields)
      → (key first id ++ render v) ++ render_fields false fs ≡ render_fields first (field id v fs)
  unfolding render
  joined true id v fs = refl
  joined false id v fs = refl

  answers-written :
      (first : Bool) (qs : List Question) (bs : List (Answer F))
      → map shape bs ≡ map asked qs
      → write_answers finite show first qs bs
        ≡ written (finite_answers qs bs) (render_fields first (answer_fields qs bs))
  unfolding write_answers finite_answers answer_fields render
  answers-written first [] [] e = refl
  answers-written first [] (a ∷ bs) e = cc
  answers-written first (q ∷ qs) [] e = cc
  answers-written first (q ∷ qs) (a ∷ bs) e =
      next_ok-written (all_finite (numbers q.type_of a)) (finite_answers qs bs)
        (write_answer finite show first q a) _ (key first q.id ++ render (answer_value q a)) _
        (answer-written first q a (ground (arith, e)))
        (next_ok-ok (finite_answers qs bs) (write_answers finite show false qs bs) _ _ _
          (answers-written false qs bs (ground (arith, e)))
          (joined first q.id (answer_value q a) (answer_fields qs bs)))

  -- For the answers that `ParseAnswers` accepts for the questions, `WriteResponse` writes the response
  -- if every number in it is finite (of a choice its probabilities and its confidence, of a score its
  -- value too, of a noul its value), and fails for a number that is not finite otherwise. What it
  -- writes is the text of the tree with the model, the answers under their questions' ids in the order
  -- of the request, and the usage.
  pub write_response-parse_answers :
      (zero_f : F) (answers : Dict (RuntimeAnswer F)) (model : String) (input : Input)
      (bs : List (Answer F)) (input_tokens : ℕ)
      → parse_answers zero_f answers input.questions ≡ ok bs
      → write_response finite show model input bs input_tokens ≡ (
          if finite_answers input.questions bs
          then ok (render (response_value model input.questions bs input_tokens))
          else failed not_finite)
  unfolding write_response render
  write_response-parse_answers zero_f answers model input bs input_tokens e =
      let shapes : map shape bs ≡ map asked input.questions =
        parse_answers-shape zero_f answers input.questions bs e in
      let same : length bs == length input.questions ≡ true =
        ground (arith, same_length bs input.questions shapes) in
      rw same (
        next_ok-ok (finite_answers input.questions bs)
          (write_answers finite show true input.questions bs) _
          (render_fields true (answer_fields input.questions bs)) _
          (answers-written true input.questions bs shapes)
          (ap
            (λ t.
              open_object
              ∷ string_token "model"
              ∷ colon
              ∷ string_token model
              ∷ comma
              ∷ string_token "answers"
              ∷ colon
              ∷ open_object
              ∷ t)
            (append_assoc (render_fields true (answer_fields input.questions bs))
                (close_object ∷ field_key finite show "usage") _
              ∙ sym (
                  ap (λ t. t ++ close_object ∷ [])
                    (append_assoc (render_fields true (answer_fields input.questions bs))
                      (close_object ∷ []) (render_fields false (usage_fields input_tokens)))
                  ∙ append_assoc (render_fields true (answer_fields input.questions bs))
                      (close_object ∷ render_fields false (usage_fields input_tokens))
                      (close_object ∷ [])))))
