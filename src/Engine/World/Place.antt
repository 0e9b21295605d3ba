-- ===== src/Engine/World/Place.antt =====
-- internal/engine/engine.go: where one step of a request leads it.
use flockd.Base.{◌≡◌, ◌⊎◌, inl, inr, refl, true, some, String, arith, Option-cases}
use flockd.Base.Dict.{lookup}
use flockd.Engine.{Engine}
use flockd.Engine.Requests.{
  Request, check_kind, give_up, pass_ungated, take_slot, confirm_slot, leave_gone, follow,
  fail_start, finish, wanted,
}
use flockd.Engine.World.{
  RequestStep, checks, gives_up, passes, takes, confirms, leaves_gone, follows, fails, finishes,
}
use flockd.Engine.World.Balance.{holds_entry}

-- The entry after the step: the one before, which a request that holds it after held before; or one
-- of the loaded models'.
abbrev pub Placed : Engine → Request → Request → Type 0
Placed e r r' =
    ((r'.entry ≡ r.entry) × (holds_entry r'.phase ≡ true → holds_entry r.phase ≡ true))
    ⊎ ((k : String) × (lookup k e.models ≡ some r'.entry))

module _ (e : Engine) (r : Request) where
  follow-Placed : Placed e r (follow e r).1
  unfolding follow
  follow-Placed = elim (Option-cases (lookup (wanted e (e.entries r.entry).spec.id) e.models)) [
    | inl h ↦ rw (h, follow) (inl (refl, λ p. cc))
    | inr (m, h) ↦ rw (h, follow) (inr (wanted e (e.entries r.entry).spec.id, h))
  ]

  pub Step-Placed : (q : Engine × Request) → RequestStep e r q → Placed e r q.1
  unfolding check_kind give_up pass_ungated take_slot confirm_slot leave_gone fail_start finish
  Step-Placed _ (checks p) = inl (ground arith, ground arith)
  Step-Placed _ (gives_up p) = inl (ground arith, ground arith)
  Step-Placed q (passes now _ p h) = inl (ground arith, ground arith)
  Step-Placed q (takes _ p h) = inl (ground arith, ground arith)
  Step-Placed _ (confirms now p) = inl (ground arith, ground arith)
  Step-Placed q (leaves_gone _ p h) = inl (ground arith, ground arith)
  Step-Placed _ (follows p) = follow-Placed
  Step-Placed _ (fails p) = inl (ground arith, ground arith)
  Step-Placed _ (finishes p) = inl (ground arith, ground arith)
