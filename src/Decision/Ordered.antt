-- ===== src/Decision/Ordered.antt =====
-- internal/decision/wire.go: the order of the answers, and that they can be written.
use flockd.Base.{
  ◌≡◌, refl, ap, ◌∙◌, inl, inr, String, List, [], ◌∷◌, map, Option, none, some, str_eq, arith,
  Bool-cases,
}
use flockd.Base.Dict.{Dict, lookup}
use flockd.Decision.{QuestionType, choice, score, noul, unknown, DecisionOption, Question}
use flockd.Decision.Wire.{Wire, ok, failed, next_ok, type_string}
use flockd.Decision.Answers.{
  RuntimeAnswer, Answer, or_zero, no_values, with_probability, distribution_of, distributed,
  choice_answer, score_answer, noul_answer, typed_answer, answer_of, parse_answers,
}

-- What an answer is about: the question, its type, and the options that have a probability, in order.
pub record Shape : Type 0 where
  pub about : String
  pub kind : QuestionType
  pub keys : List String

abbrev pub shape : {F : Type 0} → Answer F → Shape
shape a = record {
  about = a.question_id;
  kind = a.answer_type;
  keys = map (λ p. p.0) a.distribution;
}

abbrev pub asked_keys : QuestionType → List DecisionOption → List String
asked_keys choice os = map (λ o. o.key) os
asked_keys score os = map (λ o. o.key) os
asked_keys noul os = []
asked_keys unknown os = []

abbrev pub asked : Question → Shape
asked q = record { about = q.id; kind = q.type_of; keys = asked_keys q.type_of q.options }

module _ {ℓ κ} {A : Type ℓ} {B : Type κ} where
  next_ok-cases :
      (w : Wire A) (f : A → Wire B) (b : B)
      → next_ok w f ≡ ok b
      → (a : A) × (w ≡ ok a) × (f a ≡ ok b)
  next_ok-cases (ok a) f b e = (a, refl, e)
  next_ok-cases (failed x) f b e = cc

module _ {F : Type 0} (zero_f : F) where
  with_probability-keys :
      (id : String) (o : DecisionOption) (p : Option F) (rest : Wire (List (String × F)))
      (os : List DecisionOption) (ds : List (String × F))
      → ((ds' : List (String × F)) → rest ≡ ok ds' → map (λ p. p.0) ds' ≡ map (λ o. o.key) os)
      → with_probability zero_f id o p rest ≡ ok ds
      → map (λ p. p.0) ds ≡ o.key ∷ map (λ o. o.key) os
  with_probability-keys id o none rest os ds h e = cc
  with_probability-keys id o (some p) rest os ds h e =
      let (ds', er, e₁) = next_ok-cases rest (λ ps. ok ((o.key, p) ∷ ps)) ds e in
      let same : (o.key, p) ∷ ds' ≡ ds = ground (arith, e₁) in
      rw⁻¹ same (ap (λ ks. o.key ∷ ks) (h ds' er))

  distribution_of-keys :
      (id : String) (ps : Dict F) (os : List DecisionOption) (ds : List (String × F))
      → distribution_of zero_f id ps os ≡ ok ds
      → map (λ p. p.0) ds ≡ map (λ o. o.key) os
  unfolding distribution_of
  distribution_of-keys id ps [] ds e = let nothing : ds ≡ [] = ground (arith, e) in rw nothing refl
  distribution_of-keys id ps (o ∷ os) ds e =
      with_probability-keys id o (lookup o.key ps) (distribution_of zero_f id ps os) os ds
        (λ rest er. distribution_of-keys id ps os rest er) e

  distributed-shape :
      (q : Question) (ra : RuntimeAnswer F) (a b : Answer F)
      → a.question_id ≡ q.id
      → a.answer_type ≡ q.type_of
      → distributed zero_f q ra a ≡ ok b
      → shape b ≡ record { about = q.id; kind = q.type_of; keys = map (λ o. o.key) q.options }
  distributed-shape q ra a b i t e =
      let (ps, ed, e₁) =
        next_ok-cases (distribution_of zero_f q.id ra.probabilities q.options)
          (λ ps. ok (record a { distribution = ps; confidence = or_zero zero_f ra.confidence_of }))
          b e in
      let same : record a { distribution = ps; confidence = or_zero zero_f ra.confidence_of } ≡ b =
        ground (arith, e₁) in
      rw⁻¹ same (rw (i, t, distribution_of-keys q.id ra.probabilities q.options ps ed) refl)

  choice_answer-shape :
      (q : Question) (ra : RuntimeAnswer F) (c : Option String) (a : Answer F)
      → choice_answer zero_f q ra c ≡ ok a
      → shape a ≡ record { about = q.id; kind = q.type_of; keys = map (λ o. o.key) q.options }
  choice_answer-shape q ra none a e = cc
  choice_answer-shape q ra (some c) a e =
      distributed-shape q ra (record (no_values zero_f q) { chosen = c }) a refl refl e

  score_answer-shape :
      (q : Question) (ra : RuntimeAnswer F) (f : Option F) (a : Answer F)
      → score_answer zero_f q ra f ≡ ok a
      → shape a ≡ record { about = q.id; kind = q.type_of; keys = map (λ o. o.key) q.options }
  score_answer-shape q ra none a e = cc
  score_answer-shape q ra (some f) a e =
      distributed-shape q ra (record (no_values zero_f q) { score_value = f }) a refl refl e

  noul_answer-shape :
      (q : Question) (f : Option F) (a : Answer F)
      → noul_answer zero_f q f ≡ ok a
      → shape a ≡ record { about = q.id; kind = q.type_of; keys = [] }
  noul_answer-shape q none a e = cc
  noul_answer-shape q (some f) a e =
      let same : record (no_values zero_f q) { noul_value = f } ≡ a = ground (arith, e) in
      rw⁻¹ same refl

  typed_answer-shape :
      (q : Question) (t : QuestionType) (ra : RuntimeAnswer F) (a : Answer F)
      → typed_answer zero_f q t ra ≡ ok a
      → shape a ≡ record { about = q.id; kind = q.type_of; keys = asked_keys t q.options }
  typed_answer-shape q choice ra a e = choice_answer-shape q ra ra.choice_of a e
  typed_answer-shape q score ra a e = score_answer-shape q ra ra.score_of a e
  typed_answer-shape q noul ra a e = noul_answer-shape q ra.noul_of a e
  typed_answer-shape q unknown ra a e =
      let same : no_values zero_f q ≡ a = ground (arith, e) in rw⁻¹ same refl

  answer_of-shape :
      (q : Question) (ra : Option (RuntimeAnswer F)) (a : Answer F)
      → answer_of zero_f q ra ≡ ok a
      → shape a ≡ asked q
  answer_of-shape q none a e = cc
  answer_of-shape q (some ra) a e =
      elim (Bool-cases (str_eq ra.type_name (type_string q.type_of))) [
        | inl same ↦ typed_answer-shape q q.type_of ra a (ground (arith, same, e))
        | inr other ↦ ground (arith, other, e)
      ]

  -- The answers that are read from the runtime's response are one for each question, in the order of
  -- the request and of the question's type; the probabilities of a choice and of a score are one for
  -- each option, in the order in which the options were written.
  pub parse_answers-shape :
      (answers : Dict (RuntimeAnswer F)) (qs : List Question) (bs : List (Answer F))
      → parse_answers zero_f answers qs ≡ ok bs
      → map shape bs ≡ map asked qs
  unfolding parse_answers
  parse_answers-shape answers [] bs e = let nothing : bs ≡ [] = ground (arith, e) in rw nothing refl
  parse_answers-shape answers (q ∷ qs) bs e =
      let (a, ea, e₁) =
        next_ok-cases (answer_of zero_f q (lookup q.id answers))
          (λ a. next_ok (parse_answers zero_f answers qs) (λ bs. ok (a ∷ bs))) bs e in
      let (bs', eb, e₂) =
        next_ok-cases (parse_answers zero_f answers qs) (λ bs. ok (a ∷ bs)) bs e₁ in
      let same : a ∷ bs' ≡ bs = ground (arith, e₂) in
      rw⁻¹ same (
        ap (λ s. s ∷ map shape bs') (answer_of-shape q (lookup q.id answers) a ea)
        ∙ ap (λ ss. asked q ∷ ss) (parse_answers-shape answers qs bs' eb))
