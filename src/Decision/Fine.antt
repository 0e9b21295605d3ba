-- ===== src/Decision/Fine.antt =====
-- internal/decision: the criteria that are accepted pass the checks of the writer.
use flockd.Base.{
  ℕ, suc, ◌≡◌, refl, true, ◌||◌, String, List, [], ◌∷◌, Option, none, some, arith, ltb, str_eq,
  if◌then◌else◌, length,
}
use flockd.Decision.{
  QuestionType, choice, score, noul, unknown, Leaf, json, DecisionOption, Parsed, ok, bad,
  level_not_leaf, option_not_leaf, options_count, levels_count, keys_not_true_and_false,
  empty_option_key, option_twice, empty_option_key, option_twice, level_not_leaf, option_not_leaf,
  options_count, levels_count, keys_not_true_and_false, itoa, min_choice_options,
  max_choice_options, min_score_levels, max_score_levels,
}
use flockd.Decision.Values.{Json, ordered_object, array, is_leaf}
use flockd.Decision.Parse.{
  and_then, prepend, is_seen, option_value, choice_loop, choice_members, choice_options, score_loop,
  score_elements, score_levels, noul_loop, true_and_false, noul_members, noul_options,
  parse_criteria,
}
use flockd.Decision.Again.{and_then-cases, prepend-cases, guard-cases, demand-cases}
use flockd.Decision.Wire.{WireError, check_leaf, check_options, description_not_json}

option_value-fine :
    (id key : String) (v : Json) (d : Leaf) (a b : WireError)
    → option_value id key v ≡ ok d
    → check_leaf d true a b ≡ none
option_value-fine id key v d a b e = ground (arith, e)

choice_loop-fine :
    (id : String) (seen : List String) (ms : List (String × Json)) (os : List DecisionOption)
    → choice_loop id seen ms ≡ ok os
    → check_options id os ≡ none
unfolding choice_loop check_options
choice_loop-fine id seen [] os e = ground (arith, e)
choice_loop-fine id seen ((k, v) ∷ ms) os e =
    let rest = choice_loop id (k ∷ seen) ms in
    let write : Leaf → Parsed (List DecisionOption) =
      λ d. prepend (record { key = k; description = d }) rest in
    let (named, e₁) =
      guard-cases (str_eq k "") (empty_option_key id)
        (if is_seen seen k then bad (option_twice id k) else and_then (option_value id k v) write)
        os e in
    let (new, e₂) =
      guard-cases (is_seen seen k) (option_twice id k) (and_then (option_value id k v) write) os
        e₁ in
    let (d, value, e₃) = and_then-cases (option_value id k v) write os e₂ in
    let (os', later, q) = prepend-cases (record { key = k; description = d }) rest os e₃ in
    rw q (
      rw
        (
          option_value-fine id k v d (description_not_json id k) (description_not_json id k) value,
          choice_loop-fine id (k ∷ seen) ms os' later,
        )
        refl)

score_loop-fine :
    (id : String) (n : ℕ) (vs : List Json) (os : List DecisionOption)
    → score_loop id n vs ≡ ok os
    → check_options id os ≡ none
unfolding score_loop check_options
score_loop-fine id n [] os e = ground (arith, e)
score_loop-fine id n (v ∷ vs) os e =
    let (leaf, e₁) =
      demand-cases (is_leaf v) (level_not_leaf id n)
        (prepend (record { key = itoa n; description = json v }) (score_loop id (suc n) vs)) os e in
    let (os', later, q) =
      prepend-cases (record { key = itoa n; description = json v }) (score_loop id (suc n) vs) os
        e₁ in
    rw q (score_loop-fine id (suc n) vs os' later)

noul_loop-fine :
    (id : String) (ms : List (String × Json)) (os : List DecisionOption)
    → noul_loop id ms ≡ ok os
    → check_options id os ≡ none
unfolding noul_loop check_options
noul_loop-fine id [] os e = ground (arith, e)
noul_loop-fine id ((k, v) ∷ ms) os e =
    let (leaf, e₁) =
      demand-cases (is_leaf v) (option_not_leaf id k)
        (prepend (record { key = k; description = json v }) (noul_loop id ms)) os e in
    let (os', later, q) =
      prepend-cases (record { key = k; description = json v }) (noul_loop id ms) os e₁ in
    rw q (noul_loop-fine id ms os' later)

choice_members-fine :
    (id : String) (ms : Option (List (String × Json))) (os : List DecisionOption)
    → choice_members id ms ≡ ok os
    → check_options id os ≡ none
choice_members-fine id none os e = cc
choice_members-fine id (some ms) os e =
    choice_loop-fine id [] ms os
      (guard-cases (ltb (length ms) min_choice_options || ltb max_choice_options (length ms))
        (options_count id (length ms)) (choice_loop id [] ms) os e).1

score_elements-fine :
    (id : String) (vs : Option (List Json)) (os : List DecisionOption)
    → score_elements id vs ≡ ok os
    → check_options id os ≡ none
score_elements-fine id none os e = cc
score_elements-fine id (some vs) os e =
    score_loop-fine id 0 vs os
      (guard-cases (ltb (length vs) min_score_levels || ltb max_score_levels (length vs))
        (levels_count id (length vs)) (score_loop id 0 vs) os e).1

noul_members-fine :
    (id : String) (ms : Option (List (String × Json))) (os : List DecisionOption)
    → noul_members id ms ≡ ok os
    → check_options id os ≡ none
noul_members-fine id none os e = cc
noul_members-fine id (some ms) os e =
    noul_loop-fine id ms os
      (demand-cases (true_and_false ms) (keys_not_true_and_false id) (noul_loop id ms) os e).1

pub criteria-fine :
    (id : String) (t : QuestionType) (o : Option Json) (os : List DecisionOption)
    → parse_criteria id t o ≡ ok os
    → check_options id os ≡ none
unfolding choice_options score_levels noul_options check_options
criteria-fine id choice none os e = cc
criteria-fine id choice (some v) os e = choice_members-fine id (ordered_object v) os e
criteria-fine id score none os e = cc
criteria-fine id score (some v) os e = score_elements-fine id (array v) os e
criteria-fine id noul none os e = ground (arith, e)
criteria-fine id noul (some v) os e = noul_members-fine id (ordered_object v) os e
criteria-fine id unknown o os e = ground (arith, e)
