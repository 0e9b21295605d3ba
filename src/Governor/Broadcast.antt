-- ===== src/Governor/Broadcast.antt =====
-- internal/governor/governor.go: what a transition sends to the subscribers.
use flockd.Base.{
  ◌≡◌, ◌≢◌, refl, List, [], ◌∷◌, ◌++◌, map, Option, none, some, arith, length, ltb, if◌then◌else◌,
  true, false, Bool-cases, inl, inr,
}
use flockd.Governor.Policy.{State}
use flockd.Governor.Core.{Governor, offer, same_state, transition, sub_capacity}

-- What a subscriber reads last when it empties its channel.
abbrev pub newest : List State → Option State
newest [] = none
newest (st ∷ []) = some st
newest (st ∷ t ∷ rest) = newest (t ∷ rest)

same_state-eq : (a b : State) → same_state a b ≡ true → a ≡ b
unfolding same_state
same_state-eq a b h = ground arith

newest-append : (st : State) (b : List State) → newest (b ++ st ∷ []) ≡ some st
newest-append st [] = refl
newest-append st (a ∷ []) = refl
newest-append st (a ∷ c ∷ b) = newest-append st (c ∷ b)

newest-offer :
    (st : State) (b : List State)
    → newest (offer st b) ≡ (if ltb (length b) sub_capacity then some st else newest b)
unfolding offer
newest-offer st b = ground (arith, newest-append st b)

newest-offers :
    (st : State) (bs : List (List State))
    → map newest (map (offer st) bs)
      ≡ map (λ b. if ltb (length b) sub_capacity then some st else newest b) bs
newest-offers st [] = refl
newest-offers st (b ∷ bs) = rw (newest-offer st b, newest-offers st bs)

same_state-ne : (a b : State) → a ≢ b → same_state a b ≡ false
same_state-ne a b h = elim (Bool-cases (same_state a b)) [
  | inl e ↦ absurd (h (same_state-eq a b e))
  | inr e ↦ e
]

-- After a transition to another state, what each subscriber will read last is that state, except where
-- its channel is full: that subscriber is left with what it would have read last before.
pub newest-transition :
    (g : Governor) (st : State)
    → st ≢ g.state
    → map newest (transition g st).subs
      ≡ map (λ b. if ltb (length b) sub_capacity then some st else newest b) g.subs
unfolding transition
newest-transition g st h = rw (same_state-ne st g.state h) (newest-offers st g.subs)
