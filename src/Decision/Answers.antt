-- ===== src/Decision/Answers.antt =====
-- internal/decision/wire.go: the runtime's answers, and the public response. Numbers are of a type `F`,
-- with the tests and the text that the encoder uses.
use flockd.Base.{
  ℕ, ◌==◌, Bool, true, false, ◌&&◌, String, List, [], ◌∷◌, ◌++◌, Option, none, some, str_eq,
  if◌then◌else◌, length,
}
use flockd.Base.Dict.{Dict, lookup}
use flockd.Decision.{
  QuestionType, choice, score, noul, unknown, DecisionOption, Question, Input, itoa,
}
use flockd.Decision.Wire.{
  Token, open_object, close_object, comma, colon, string_token, scalar_token, no_answer, wrong_type,
  no_value, no_probability, answers_count, wrong_answer, not_finite, Wire, ok, failed, next_ok, key,
  type_string, keyed_options,
}

pub record RuntimeAnswer (F : Type 0) : Type 0 where
  pub type_name : String
  pub choice_of : Option String
  pub score_of : Option F
  pub noul_of : Option F
  pub probabilities : Dict F
  pub confidence_of : Option F

pub record Answer (F : Type 0) : Type 0 where
  pub question_id : String
  pub answer_type : QuestionType
  pub chosen : String
  pub score_value : F
  pub noul_value : F
  pub distribution : List (String × F)
  pub confidence : F

module _ {F : Type 0} (zero_f : F) where
  abbrev pub or_zero : Option F → F
  or_zero none = zero_f
  or_zero (some f) = f

  abbrev pub no_values : Question → Answer F
  no_values q = record {
    question_id = q.id;
    answer_type = q.type_of;
    chosen = "";
    score_value = zero_f;
    noul_value = zero_f;
    distribution = [];
    confidence = zero_f;
  }

  abbrev pub with_probability :
      String → DecisionOption → Option F → Wire (List (String × F)) → Wire (List (String × F))
  with_probability id o none rest = failed (no_probability id o.key)
  with_probability id o (some p) rest = next_ok rest (λ ps. ok ((o.key, p) ∷ ps))

  -- The probabilities in the order of the options.
  unfoldable pub distribution_of : String → Dict F → List DecisionOption → Wire (List (String × F))
  unfolding lookup
  distribution_of id probabilities [] = ok []
  distribution_of id probabilities (o ∷ os) =
      with_probability id o (lookup o.key probabilities) (distribution_of id probabilities os)

  abbrev pub distributed : Question → RuntimeAnswer F → Answer F → Wire (Answer F)
  distributed q ra a =
      next_ok (distribution_of q.id ra.probabilities q.options)
        (λ ps. ok (record a { distribution = ps; confidence = or_zero ra.confidence_of }))

  abbrev pub choice_answer : Question → RuntimeAnswer F → Option String → Wire (Answer F)
  choice_answer q ra none = failed (no_value q.id)
  choice_answer q ra (some c) = distributed q ra (record (no_values q) { chosen = c })

  abbrev pub score_answer : Question → RuntimeAnswer F → Option F → Wire (Answer F)
  score_answer q ra none = failed (no_value q.id)
  score_answer q ra (some f) = distributed q ra (record (no_values q) { score_value = f })

  abbrev pub noul_answer : Question → Option F → Wire (Answer F)
  noul_answer q none = failed (no_value q.id)
  noul_answer q (some f) = ok (record (no_values q) { noul_value = f })

  abbrev pub typed_answer : Question → QuestionType → RuntimeAnswer F → Wire (Answer F)
  typed_answer q choice ra = choice_answer q ra ra.choice_of
  typed_answer q score ra = score_answer q ra ra.score_of
  typed_answer q noul ra = noul_answer q ra.noul_of
  typed_answer q unknown ra = ok (no_values q)

  abbrev pub answer_of : Question → Option (RuntimeAnswer F) → Wire (Answer F)
  answer_of q none = failed (no_answer q.id)
  answer_of q (some ra) =
      if str_eq ra.type_name (type_string q.type_of)
      then typed_answer q q.type_of ra
      else failed (wrong_type q.id)

  -- `ParseRuntimeResponse` after the decoder
  unfoldable pub parse_answers : Dict (RuntimeAnswer F) → List Question → Wire (List (Answer F))
  unfolding lookup distribution_of
  parse_answers answers [] = ok []
  parse_answers answers (q ∷ qs) =
      let rest = parse_answers answers qs in
      next_ok (answer_of q (lookup q.id answers)) (λ a. next_ok rest (λ bs. ok (a ∷ bs)))

abbrev pub same_type : QuestionType → QuestionType → Bool
same_type s t = str_eq (type_string s) (type_string t)

module _ {F : Type 0} (finite : F → Bool) (show : F → String) where
  -- `writer.num`
  abbrev pub num : F → Wire (List Token)
  num f = if finite f then ok (scalar_token (show f) ∷ []) else failed not_finite

  unfoldable pub probabilities_tokens : Bool → List (String × F) → Wire (List Token)
  probabilities_tokens first [] = ok []
  probabilities_tokens first ((k, p) ∷ ps) =
      let rest = probabilities_tokens false ps in
      next_ok (num p) (λ t. next_ok rest (λ ts. ok (key first k ++ t ++ ts)))

  -- `writer.distribution`
  unfoldable pub distribution_tokens : Answer F → Wire (List Token)
  unfolding probabilities_tokens
  distribution_tokens a = next_ok (probabilities_tokens true a.distribution) (λ ps.
      next_ok (num a.confidence) (λ c. ok (
        comma ∷ string_token "probabilities" ∷ colon ∷ open_object ∷ ps
        ++ close_object ∷ comma ∷ string_token "confidence" ∷ colon ∷ c)))

  abbrev pub field_key : String → List Token
  field_key k = comma ∷ string_token k ∷ colon ∷ []

  unfoldable pub value_tokens : Question → Answer F → Wire (List Token)
  unfolding keyed_options distribution_tokens
  value_tokens q a = elim q.type_of [
    | choice ↦
        next_ok (distribution_tokens a) (λ d. ok (field_key "choice" ++ string_token a.chosen ∷ d))
    | score ↦ next_ok (num a.score_value) (λ s. next_ok (distribution_tokens a) (λ d. ok (
        field_key "score"
        ++ s
        ++ field_key "legend"
        ++ open_object ∷ keyed_options true q.options
        ++ close_object ∷ d)))
    | noul ↦ next_ok (num a.noul_value) (λ f. ok (field_key "noul" ++ f))
    | unknown ↦ ok []
  ]

  unfoldable pub write_answer : Bool → Question → Answer F → Wire (List Token)
  unfolding value_tokens
  write_answer first q a =
      if str_eq a.question_id q.id && same_type a.answer_type q.type_of
      then next_ok (value_tokens q a) (λ ts. ok (
          key first q.id
          ++ open_object ∷ string_token "type" ∷ colon ∷ string_token (type_string q.type_of) ∷ ts
          ++ close_object ∷ []))
      else failed (wrong_answer q.id)

  unfoldable pub write_answers : Bool → List Question → List (Answer F) → Wire (List Token)
  unfolding write_answer
  write_answers first [] bs = ok []
  write_answers first (q ∷ qs) [] = failed answers_count
  write_answers first (q ∷ qs) (a ∷ bs) =
      let rest = write_answers false qs bs in
      next_ok (write_answer first q a) (λ ts. next_ok rest (λ us. ok (ts ++ us)))

  -- `WriteResponse`
  unfoldable pub write_response : String → Input → List (Answer F) → ℕ → Wire (List Token)
  unfolding write_answers itoa
  write_response model input answers input_tokens =
      if length answers == length input.questions
      then next_ok (write_answers true input.questions answers) (λ ts. ok (
          open_object
            ∷ string_token "model"
            ∷ colon
            ∷ string_token model
            ∷ comma
            ∷ string_token "answers"
            ∷ colon
            ∷ open_object
            ∷ ts
          ++ close_object ∷ field_key "usage"
          ++ open_object
            ∷ string_token "input_tokens"
            ∷ colon
            ∷ scalar_token (itoa input_tokens)
            ∷ comma
            ∷ string_token "output_tokens"
            ∷ colon
            ∷ scalar_token "0"
            ∷ close_object
            ∷ close_object
            ∷ []))
      else failed answers_count
