-- ===== src/Examples/Events.antt =====
-- internal/events at concrete inputs: two subscribers, of which one reads and then leaves.
use flockd.Base.{ℕ, ◌≡◌, refl, List, [], ◌∷◌, none, some}
use flockd.Events.Channels.{
  Op, publishes, subscribes, detaches, receives, after, channel, alone, channel-after,
}

abbrev calls : List (Op ℕ)
calls =
    detaches 0 ∷ publishes 6 ∷ receives 0 ∷ publishes 5 ∷ subscribes ∷ publishes 4 ∷ subscribes ∷ []

channels :
    (channel 1 (after calls).subs ≡ some (5 ∷ 6 ∷ [])) × (channel 0 (after calls).subs ≡ none)
unfolding after channel
channels = (refl, refl)

channel-after_example : channel 1 (after calls).subs ≡ alone 1 calls
channel-after_example = channel-after 1 calls
