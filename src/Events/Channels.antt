-- ===== src/Events/Channels.antt =====
-- internal/events/events.go: each subscriber's channel in the hub against the calls that concern it.
use flockd.Base.{
  ℕ, suc, ◌≡◌, refl, ap, ◌∙◌, List, [], ◌∷◌, Option, none, some, arith, ◌==◌, if◌then◌else◌,
}
use flockd.Events.{
  Hub, new_hub, send, publish_all, publish, subscribe, remove_sub, detach, rest_of, read_sub,
  receive,
}

pub data Op {ℓ} (A : Type ℓ) : Type ℓ where
  publishes : A → Op A
  subscribes : Op A
  detaches : ℕ → Op A
  receives : ℕ → Op A

abbrev pub map_some {ℓ} : {A : Type ℓ} → (A → A) → Option A → Option A
map_some f none = none
map_some f (some a) = some (f a)

module _ {ℓ} {A : Type ℓ} where
  -- The hub after its calls, the newest first.
  unfoldable pub after : List (Op A) → Hub A
  unfolding new_hub publish subscribe detach receive
  after [] = new_hub
  after (publishes e ∷ ops) = publish (after ops) e
  after (subscribes ∷ ops) = (subscribe (after ops)).0
  after (detaches id ∷ ops) = detach (after ops) id
  after (receives id ∷ ops) = receive (after ops) id

  unfoldable pub channel : ℕ → List (ℕ × List A) → Option (List A)
  channel id [] = none
  channel id ((j, ch) ∷ subs) = if j == id then some ch else channel id subs

  abbrev pub subscriptions : List (Op A) → ℕ
  subscriptions [] = 0
  subscriptions (publishes e ∷ ops) = subscriptions ops
  subscriptions (subscribes ∷ ops) = suc (subscriptions ops)
  subscriptions (detaches id ∷ ops) = subscriptions ops
  subscriptions (receives id ∷ ops) = subscriptions ops

  -- One subscriber's channel by itself: from its subscription on, what is published is sent to it, and
  -- its own reads and its own end are all that touches it otherwise.
  unfoldable pub alone : ℕ → List (Op A) → Option (List A)
  unfolding send
  alone id [] = none
  alone id (publishes e ∷ ops) = map_some (send e) (alone id ops)
  alone id (subscribes ∷ ops) =
      let rest = alone id ops in if subscriptions ops == id then some [] else rest
  alone id (detaches j ∷ ops) = let rest = alone id ops in if j == id then none else rest
  alone id (receives j ∷ ops) =
      let rest = alone id ops in if j == id then map_some rest_of rest else rest

  channel-publish_all :
      (id : ℕ) (e : A) (subs : List (ℕ × List A))
      → channel id (publish_all e subs) ≡ map_some (send e) (channel id subs)
  unfolding channel publish_all
  channel-publish_all id e [] = refl
  channel-publish_all id e ((j, ch) ∷ subs) = ground (arith, channel-publish_all id e subs)

  channel-remove_sub :
      (id j : ℕ) (subs : List (ℕ × List A))
      → channel id (remove_sub j subs) ≡ (if j == id then none else channel id subs)
  unfolding channel remove_sub
  channel-remove_sub id j [] = ground arith
  channel-remove_sub id j ((k, ch) ∷ subs) = ground (arith, channel-remove_sub id j subs)

  channel-read_sub :
      (id j : ℕ) (subs : List (ℕ × List A))
      → channel id (read_sub j subs)
        ≡ (if j == id then map_some rest_of (channel id subs) else channel id subs)
  unfolding channel read_sub
  channel-read_sub id j [] = ground arith
  channel-read_sub id j ((k, ch) ∷ subs) = ground (arith, channel-read_sub id j subs)

  next-after : (ops : List (Op A)) → (after ops).next ≡ subscriptions ops
  unfolding after
  next-after [] = refl
  next-after (publishes e ∷ ops) = next-after ops
  next-after (subscribes ∷ ops) = ap suc (next-after ops)
  next-after (detaches id ∷ ops) = next-after ops
  next-after (receives id ∷ ops) = next-after ops

  -- After any calls, a subscriber's channel is what it would be if it were alone: no other subscriber,
  -- slow or gone, takes an event from it or adds one.
  pub channel-after : (id : ℕ) (ops : List (Op A)) → channel id (after ops).subs ≡ alone id ops
  unfolding after alone channel
  channel-after id [] = refl
  channel-after id (publishes e ∷ ops) =
      channel-publish_all id e (after ops).subs ∙ ap (map_some (send e)) (channel-after id ops)
  channel-after id (subscribes ∷ ops) = rw (next-after ops, channel-after id ops) refl
  channel-after id (detaches j ∷ ops) =
      channel-remove_sub id j (after ops).subs ∙ ground (arith, channel-after id ops)
  channel-after id (receives j ∷ ops) =
      channel-read_sub id j (after ops).subs ∙ ground (arith, channel-after id ops)
