-- ===== src/Decision/Again.antt =====
-- internal/decision: the criteria of a question, written and parsed again.
use flockd.Base.{
  ℕ, suc, ◌≡◌, refl, ap, Bool, true, false, ◌||◌, String, List, [], ◌∷◌, Option, none, some, arith,
  ltb, str_eq, if◌then◌else◌, length,
}
use flockd.Decision.{
  Leaf, json, DecisionOption, Parsed, ok, bad, Invalid, empty_option_key, option_twice,
  level_not_leaf, option_not_leaf, options_count, levels_count, keys_not_true_and_false, itoa,
  min_choice_options, max_choice_options, min_score_levels, max_score_levels,
}
use flockd.Decision.Values.{Json, arr, obj, members, elements, is_leaf}
use flockd.Decision.Parse.{
  and_then, prepend, is_seen, option_value, choice_loop, choice_members, choice_options, score_loop,
  score_elements, score_levels, noul_loop, true_and_false, noul_members, noul_options,
}
use flockd.Decision.Written.{leaf_value, option_fields, option_items}

module _ {ℓ κ} {A : Type ℓ} {B : Type κ} where
  pub and_then-cases :
      (p : Parsed A) (f : A → Parsed B) (b : B)
      → and_then p f ≡ ok b
      → (a : A) × (p ≡ ok a) × (f a ≡ ok b)
  and_then-cases (ok a) f b e = (a, refl, e)
  and_then-cases (bad x) f b e = cc

module _ {ℓ} {A : Type ℓ} where
  pub prepend-cases :
      (a : A) (p : Parsed (List A)) (b : List A)
      → prepend a p ≡ ok b
      → (rest : List A) × (p ≡ ok rest) × (b ≡ a ∷ rest)
  prepend-cases a (ok rest) b e = (rest, refl, ground (arith, e))
  prepend-cases a (bad x) b e = cc

  pub guard-cases :
      (c : Bool) (x : Invalid) (p : Parsed A) (a : A)
      → (if c then bad x else p) ≡ ok a
      → (c ≡ false) × (p ≡ ok a)
  guard-cases true x p a e = cc
  guard-cases false x p a e = (refl, e)

  pub demand-cases :
      (c : Bool) (x : Invalid) (p : Parsed A) (a : A)
      → (if c then p else bad x) ≡ ok a
      → (c ≡ true) × (p ≡ ok a)
  demand-cases true x p a e = (refl, e)
  demand-cases false x p a e = cc

option_value-again :
    (id key : String) (v : Json) (d : Leaf)
    → option_value id key v ≡ ok d
    → option_value id key (leaf_value d) ≡ ok d
option_value-again id key v d e = ground (arith, e)

choice_loop-again :
    (id : String) (seen : List String) (ms : List (String × Json)) (os : List DecisionOption)
    → choice_loop id seen ms ≡ ok os
    → (choice_loop id seen (members (option_fields os)) ≡ ok os)
      × (length (members (option_fields os)) ≡ length ms)
unfolding choice_loop members option_fields
choice_loop-again id seen [] os e = ground (arith, e)
choice_loop-again id seen ((k, v) ∷ ms) os e =
    let rest = choice_loop id (k ∷ seen) ms in
    let write : Leaf → Parsed (List DecisionOption) =
      λ d. prepend (record { key = k; description = d }) rest in
    let (named, e₁) =
      guard-cases (str_eq k "") (empty_option_key id)
        (if is_seen seen k then bad (option_twice id k) else and_then (option_value id k v) write)
        os e in
    let (new, e₂) =
      guard-cases (is_seen seen k) (option_twice id k) (and_then (option_value id k v) write) os
        e₁ in
    let (d, value, e₃) = and_then-cases (option_value id k v) write os e₂ in
    let (os', later, q) = prepend-cases (record { key = k; description = d }) rest os e₃ in
    let (again, count) = choice_loop-again id (k ∷ seen) ms os' later in
    rw q (rw (named, new, option_value-again id k v d value, again) refl, ap suc count)

score_loop-again :
    (id : String) (n : ℕ) (vs : List Json) (os : List DecisionOption)
    → score_loop id n vs ≡ ok os
    → (score_loop id n (elements (option_items os)) ≡ ok os)
      × (length (elements (option_items os)) ≡ length vs)
unfolding score_loop elements option_items
score_loop-again id n [] os e = ground (arith, e)
score_loop-again id n (v ∷ vs) os e =
    let (leaf, e₁) =
      demand-cases (is_leaf v) (level_not_leaf id n)
        (prepend (record { key = itoa n; description = json v }) (score_loop id (suc n) vs)) os e in
    let (os', later, q) =
      prepend-cases (record { key = itoa n; description = json v }) (score_loop id (suc n) vs) os
        e₁ in
    let (again, count) = score_loop-again id (suc n) vs os' later in
    rw q (rw (leaf, again) refl, ap suc count)

pub choice_members-again :
    (id : String) (ms : Option (List (String × Json))) (os : List DecisionOption)
    → choice_members id ms ≡ ok os
    → choice_options id (obj (option_fields os)) ≡ ok os
unfolding choice_options
choice_members-again id none os e = cc
choice_members-again id (some ms) os e =
    let (within, e₁) =
      guard-cases (ltb (length ms) min_choice_options || ltb max_choice_options (length ms))
        (options_count id (length ms)) (choice_loop id [] ms) os e in
    let (again, count) = choice_loop-again id [] ms os e₁ in ground (arith, again, count, within)

pub score_elements-again :
    (id : String) (vs : Option (List Json)) (os : List DecisionOption)
    → score_elements id vs ≡ ok os
    → score_levels id (arr (option_items os)) ≡ ok os
unfolding score_levels
score_elements-again id none os e = cc
score_elements-again id (some vs) os e =
    let (within, e₁) =
      guard-cases (ltb (length vs) min_score_levels || ltb max_score_levels (length vs))
        (levels_count id (length vs)) (score_loop id 0 vs) os e in
    let (again, count) = score_loop-again id 0 vs os e₁ in ground (arith, again, count, within)

-- The two descriptions of a noul question, as they were written.
pub noul_members-again :
    (id : String) (ms : Option (List (String × Json))) (os : List DecisionOption)
    → noul_members id ms ≡ ok os
    → (a b : DecisionOption) × (os ≡ a ∷ b ∷ [])
      × (noul_options id (obj (option_fields os)) ≡ ok os)
unfolding noul_options noul_loop members option_fields
noul_members-again id none os e = cc
noul_members-again id (some []) os e = cc
noul_members-again id (some (a ∷ [])) os e = cc
noul_members-again id (some (a ∷ b ∷ c ∷ ms)) os e = cc
noul_members-again id (some ((j, v) ∷ (k, w) ∷ [])) os e =
    let (keys, e₁) =
      demand-cases (true_and_false ((j, v) ∷ (k, w) ∷ [])) (keys_not_true_and_false id)
        (noul_loop id ((j, v) ∷ (k, w) ∷ [])) os e in
    let (leaf, e₂) =
      demand-cases (is_leaf v) (option_not_leaf id j)
        (prepend (record { key = j; description = json v }) (noul_loop id ((k, w) ∷ []))) os e₁ in
    let (os', later, q) =
      prepend-cases (record { key = j; description = json v }) (noul_loop id ((k, w) ∷ [])) os e₂ in
    let (leaf', e₃) =
      demand-cases (is_leaf w) (option_not_leaf id k)
        (prepend (record { key = k; description = json w }) (ok [])) os' later in
    let whole : os
        ≡ record { key = j; description = json v } ∷ record { key = k; description = json w } ∷ [] =
      ground (arith, q, e₃) in
    (
      record { key = j; description = json v },
      record { key = k; description = json w },
      whole,
      rw (whole, keys, leaf, leaf') refl,
    )
