-- ===== src/Events.antt =====
-- internal/events/events.go: the hub that fans events out to its subscribers. A subscriber's channel is
-- known by its id, and is the list of its unread events, the oldest first.
pub mod Channels
use flockd.Base.{
  ℕ, zero, suc, ◌+◌, Bool, true, false, List, [], ◌∷◌, ◌++◌, Option, none, some, ltb, ◌==◌,
  if◌then◌else◌, length,
}

pub record Hub {ℓ} (A : Type ℓ) : Type ℓ where
  pub subs : List (ℕ × List A)
  pub next : ℕ

abbrev pub channel_capacity : ℕ
channel_capacity = 64

module _ {ℓ} {A : Type ℓ} where
  unfoldable pub new_hub : Hub A
  new_hub = record { subs = []; next = 0 }

  -- `select { case ch <- e: default: }`
  unfoldable pub send : A → List A → List A
  send e ch = if ltb (length ch) channel_capacity then ch ++ e ∷ [] else ch

  unfoldable pub publish_all : A → List (ℕ × List A) → List (ℕ × List A)
  unfolding send
  publish_all e [] = []
  publish_all e ((id, ch) ∷ subs) = (id, send e ch) ∷ publish_all e subs

  unfoldable pub publish : Hub A → A → Hub A
  unfolding publish_all
  publish h e = record h { subs = publish_all e h.subs }

  unfoldable pub subscribe : Hub A → Hub A × ℕ
  subscribe h = (record { subs = (h.next, []) ∷ h.subs; next = suc h.next }, h.next)

  unfoldable pub remove_sub : ℕ → List (ℕ × List A) → List (ℕ × List A)
  remove_sub id [] = []
  remove_sub id ((j, ch) ∷ subs) =
      let rest = remove_sub id subs in if j == id then rest else (j, ch) ∷ rest

  -- The func that `Subscribe` returns.
  unfoldable pub detach : Hub A → ℕ → Hub A
  unfolding remove_sub
  detach h id = record h { subs = remove_sub id h.subs }

  abbrev pub rest_of : List A → List A
  rest_of [] = []
  rest_of (e ∷ ch) = ch

  unfoldable pub read_sub : ℕ → List (ℕ × List A) → List (ℕ × List A)
  read_sub id [] = []
  read_sub id ((j, ch) ∷ subs) = (j, if j == id then rest_of ch else ch) ∷ read_sub id subs

  -- A consumer takes its oldest unread event, if it has one.
  unfoldable pub receive : Hub A → ℕ → Hub A
  unfolding read_sub
  receive h id = record h { subs = read_sub id h.subs }
