-- ===== src/Decision/Written.antt =====
-- internal/decision/wire.go: what the body for the runtime says.
use flockd.Base.{
  ◌≡◌, refl, ap, ◌∙◌, sym, inl, inr, Bool, true, false, String, List, [], ◌∷◌, ◌++◌, Option, none,
  some, arith, Bool-cases, length, ◌==◌,
}
use mathlib.Core.List.{append_assoc, append-nil}
use flockd.Decision.{
  QuestionType, choice, score, noul, unknown, Leaf, no_leaf, broken, json, DecisionOption, Question,
  Input,
}
use flockd.Decision.Values.{
  Json, null, scalar, text, arr, obj, Items, no_items, item, Fields, no_fields, field,
}
use flockd.Decision.Wire.{
  Token, open_object, close_object, close_array, comma, colon, string_token, render, render_items,
  render_fields, WireError, Wire, ok, failed, next_ok, unless, first_error, check_leaf,
  json_or_null, raw_leaf, key, type_string, check_options, keyed_options, level_options,
  noul_criteria, write_criteria, write_question, write_questions, runtime_body, body_tokens,
  instructions_empty, instructions_not_json, state_empty, state_not_json,
}

-- The value that a leaf stands for; an empty one is null.
abbrev pub leaf_value : Leaf → Json
leaf_value no_leaf = null
leaf_value (broken s) = scalar s
leaf_value (json v) = v

unfoldable pub option_fields : List DecisionOption → Fields
option_fields [] = no_fields
option_fields (o ∷ os) = field o.key (leaf_value o.description) (option_fields os)

unfoldable pub option_items : List DecisionOption → Items
option_items [] = no_items
option_items (o ∷ os) = item (leaf_value o.description) (option_items os)

abbrev pub noul_fields : List DecisionOption → Fields
noul_fields [] = no_fields
noul_fields (o ∷ os) = field "criteria" (obj (option_fields (o ∷ os))) no_fields

abbrev pub criteria_fields : QuestionType → List DecisionOption → Fields
criteria_fields choice os = field "criteria" (obj (option_fields os)) no_fields
criteria_fields score os = field "criteria" (arr (option_items os)) no_fields
criteria_fields noul os = noul_fields os
criteria_fields unknown os = no_fields

-- A question as the public API writes one.
abbrev pub question_value : Question → Json
question_value q = obj (
    field "type" (text (type_string q.type_of))
      (field "instructions" (leaf_value q.instructions) (criteria_fields q.type_of q.options)))

unfoldable pub question_fields : List Question → Fields
question_fields [] = no_fields
question_fields (q ∷ qs) = field q.id (question_value q) (question_fields qs)

abbrev pub body_value : Input → Json
body_value input = obj (
    field "state" (leaf_value input.state)
      (field "questions" (obj (question_fields input.questions)) no_fields))

ok-inj : {a b : List Token} → ok a ≡ ok b → a ≡ b
ok-inj e = cc

json_or_null_lem : (l : Leaf) → json_or_null l ≡ render (leaf_value l)
unfolding render
json_or_null_lem no_leaf = refl
json_or_null_lem (broken s) = refl
json_or_null_lem (json v) = refl

raw_leaf_lem :
    (l : Leaf) (a b : WireError)
    → check_leaf l false a b ≡ none
    → raw_leaf l ≡ render (leaf_value l)
unfolding render
raw_leaf_lem no_leaf a b e = cc
raw_leaf_lem (broken s) a b e = cc
raw_leaf_lem (json v) a b e = refl

pub keyed_options_lem :
    (first : Bool) (os : List DecisionOption)
    → keyed_options first os ≡ render_fields first (option_fields os)
unfolding keyed_options render option_fields
keyed_options_lem first [] = refl
keyed_options_lem true (o ∷ os) =
    rw (json_or_null_lem o.description, keyed_options_lem false os) refl
keyed_options_lem false (o ∷ os) =
    rw (json_or_null_lem o.description, keyed_options_lem false os) refl

level_options_lem :
    (first : Bool) (os : List DecisionOption)
    → level_options first os ≡ render_items first (option_items os)
unfolding level_options render option_items
level_options_lem first [] = refl
level_options_lem true (o ∷ os) =
    rw (json_or_null_lem o.description, level_options_lem false os) refl
level_options_lem false (o ∷ os) =
    rw (json_or_null_lem o.description, level_options_lem false os) refl

noul_criteria_lem :
    (os : List DecisionOption) → noul_criteria os ≡ render_fields false (noul_fields os)
unfolding render
noul_criteria_lem [] = refl
noul_criteria_lem (o ∷ os) =
    rw
      (
        keyed_options_lem true (o ∷ os),
        append-nil (render_fields true (option_fields (o ∷ os)) ++ close_object ∷ []),
      )
      refl

write_criteria_lem :
    (id : String) (t : QuestionType) (i : Leaf) (os : List DecisionOption) (ts : List Token)
    → write_criteria (record { id = id; type_of = t; instructions = i; options = os }) ≡ ok ts
    → ts ≡ render_fields false (criteria_fields t os)
unfolding write_criteria
write_criteria_lem id choice i os ts e =
    sym (ok-inj e)
    ∙ rw
        (
          keyed_options_lem true os,
          append-nil (render_fields true (option_fields os) ++ close_object ∷ []),
        )
        refl
write_criteria_lem id score i os ts e =
    sym (ok-inj e)
    ∙ rw
        (
          level_options_lem true os,
          append-nil (render_items true (option_items os) ++ close_array ∷ []),
        )
        refl
write_criteria_lem id noul i os ts e = sym (ok-inj e) ∙ noul_criteria_lem os
write_criteria_lem id unknown i os ts e = cc

next_ok-cases :
    (w : Wire (List Token)) (f : List Token → Wire (List Token)) (ts : List Token)
    → next_ok w f ≡ ok ts
    → (us : List Token) × (w ≡ ok us) × (f us ≡ ok ts)
next_ok-cases (ok us) f ts e = (us, refl, e)
next_ok-cases (failed x) f ts e = cc

unless-cases :
    (c : Option WireError) (w : Wire (List Token)) (ts : List Token)
    → unless c w ≡ ok ts
    → (c ≡ none) × (w ≡ ok ts)
unless-cases none w ts e = (refl, e)
unless-cases (some x) w ts e = cc

assembled :
    (first : Bool) (q : Question) (leaf criteria : List Token)
    → leaf ≡ render (leaf_value q.instructions)
    → criteria ≡ render_fields false (criteria_fields q.type_of q.options)
    → key first q.id
        ++ open_object
          ∷ string_token "type"
          ∷ colon
          ∷ string_token (type_string q.type_of)
          ∷ comma
          ∷ string_token "instructions"
          ∷ colon
          ∷ leaf
        ++ criteria
        ++ close_object ∷ []
      ≡ key first q.id ++ render (question_value q)
unfolding render
assembled true q leaf criteria l c = rw (l, c) refl
assembled false q leaf criteria l c = rw (l, c) refl

joined :
    (first : Bool) (id : String) (v : Json) (fs : Fields) (us vs : List Token)
    → us ≡ key first id ++ render v
    → vs ≡ render_fields false fs
    → us ++ vs ≡ render_fields first (field id v fs)
unfolding render
joined true id v fs us vs u w = rw (u, w) refl
joined false id v fs us vs u w = rw (u, w) refl

first_error-none : (a b : Option WireError) → first_error a b ≡ none → a ≡ none
first_error-none none b e = refl
first_error-none (some x) b e = cc

write_question_lem :
    (first : Bool) (q : Question) (ts : List Token)
    → write_question first q ≡ ok ts
    → ts ≡ key first q.id ++ render (question_value q)
unfolding write_question
write_question_lem first q ts e =
    let (checked, w) =
      unless-cases
        (first_error
          (check_leaf q.instructions false (instructions_empty q.id) (instructions_not_json q.id))
          (check_options q.id q.options))
        _ ts e in
    let (criteria, wc, e') = next_ok-cases (write_criteria q) _ ts w in
    let leaf : raw_leaf q.instructions ≡ render (leaf_value q.instructions) =
      raw_leaf_lem q.instructions (instructions_empty q.id) (instructions_not_json q.id) (
        first_error-none
          (check_leaf q.instructions false (instructions_empty q.id) (instructions_not_json q.id))
          (check_options q.id q.options) checked) in
    let body : criteria ≡ render_fields false (criteria_fields q.type_of q.options) =
      write_criteria_lem q.id q.type_of q.instructions q.options criteria wc in
    sym (ok-inj e') ∙ assembled first q (raw_leaf q.instructions) criteria leaf body

write_questions_lem :
    (first : Bool) (qs : List Question) (ts : List Token)
    → write_questions first qs ≡ ok ts
    → ts ≡ render_fields first (question_fields qs)
unfolding write_questions render question_fields
write_questions_lem first [] ts e = sym (ok-inj e)
write_questions_lem first (q ∷ qs) ts e =
    let (us, wq, e₁) = next_ok-cases (write_question first q) _ ts e in
    let (vs, wqs, e₂) = next_ok-cases (write_questions false qs) _ ts e₁ in
    sym (ok-inj e₂)
    ∙ joined first q.id (question_value q) (question_fields qs) us vs
        (write_question_lem first q us wq) (write_questions_lem false qs vs wqs)

-- Two braces close the body.
ends :
    (state qs : List Token)
    → body_tokens state qs
      ≡ open_object
        ∷ string_token "state"
        ∷ colon
        ∷ (state
            ++ comma
              ∷ string_token "questions"
              ∷ colon
              ∷ open_object
              ∷ (qs ++ close_object ∷ [] ++ [])
            ++ close_object ∷ [])
ends state qs =
    ap (λ r. open_object ∷ string_token "state" ∷ colon ∷ r)
      (append_assoc state (comma ∷ string_token "questions" ∷ colon ∷ open_object ∷ qs)
          (close_object ∷ close_object ∷ [])
        ∙ ap (λ r. state ++ comma ∷ string_token "questions" ∷ colon ∷ open_object ∷ r)
            (sym (append_assoc qs (close_object ∷ []) (close_object ∷ []))
              ∙ ap (λ r. r ++ close_object ∷ []) (sym (append-nil (qs ++ close_object ∷ []))))
        ∙ sym (
            append_assoc state
              (comma
                ∷ string_token "questions"
                ∷ colon
                ∷ open_object
                ∷ (qs ++ close_object ∷ [] ++ []))
              (close_object ∷ [])))

body_assembled :
    (input : Input) (leaf qs : List Token)
    → leaf ≡ render (leaf_value input.state)
    → qs ≡ render_fields true (question_fields input.questions)
    → body_tokens leaf qs ≡ render (body_value input)
unfolding render
body_assembled input leaf qs l w =
    rw (l, w)
      (ends (render (leaf_value input.state))
        (render_fields true (question_fields input.questions)))

started :
    (input : Input) (ts : List Token)
    → length input.questions == 0 ≡ false
    → runtime_body input ≡ ok ts
    → unless (check_leaf input.state false state_empty state_not_json) (
        next_ok
          (write_questions true input.questions)
          (λ qs. ok (body_tokens (raw_leaf input.state) qs)))
      ≡ ok ts
unfolding runtime_body
started input ts something e = ground (arith, something, e)

-- What the runtime is sent is the compact JSON of an object with the state and then the questions, each
-- object with its members in the order of the request, and each value as it was written.
pub runtime_body-render :
    (input : Input) (ts : List Token) → runtime_body input ≡ ok ts → ts ≡ render (body_value input)
unfolding runtime_body
runtime_body-render input ts e = elim (Bool-cases (length input.questions == 0)) [
  | inl nothing ↦ ground (arith, nothing, e)
  | inr something ↦
      let (checked, w) =
        unless-cases (check_leaf input.state false state_empty state_not_json)
          (next_ok (write_questions true input.questions)
            (λ qs. ok (body_tokens (raw_leaf input.state) qs)))
          ts (started input ts something e) in
      let (qs, wq, e') =
        next_ok-cases (write_questions true input.questions)
          (λ qs. ok (body_tokens (raw_leaf input.state) qs)) ts w in
      sym (ok-inj e')
      ∙ body_assembled input (raw_leaf input.state) qs
          (raw_leaf_lem input.state state_empty state_not_json checked)
          (write_questions_lem true input.questions qs wq)
]
