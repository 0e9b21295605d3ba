-- ===== src/Engine/World/Load.antt =====
-- internal/engine/engine.go: what one step of a request in `Complete` does to the demand counters.
use flockd.Base.{ℕ, ◌+◌, ◌-◌, ◌≤◌, ◌≡◌, some, arith, inl, inr, Option-cases}
use flockd.Base.Dict.{lookup}
use flockd.Base.Int.{pos, pos-+ℤ, pos_minus_one}
use flockd.Engine.{Engine}
use flockd.Engine.Requests.{
  Request, acquired, waiting, holding, running, moving, check_kind, give_up, pass_ungated,
  take_slot, confirm_slot, leave_gone, follow, fail_start, finish, wanted,
}
use flockd.Engine.World.{
  RequestStep, checks, gives_up, passes, takes, confirms, leaves_gone, follows, fails, finishes,
}
use flockd.Engine.World.Balance.{load_share}

abbrev LoadBalanced : Engine → Request → ℕ → ℕ → Engine × Request → Type 0
LoadBalanced e r l n q = (q.0.loads l).cur ≡ pos (n + load_share l q.1 - load_share l r)

module _ (e : Engine) (r : Request) (kept : (e.entries r.entry).load ≡ r.load) (l n : ℕ)
    (cur : (e.loads l).cur ≡ pos n) (share : load_share l r ≤ n) where
  check_kind-LoadBalanced : r.phase ≡ acquired → LoadBalanced e r l n (check_kind e r)
  unfolding check_kind
  check_kind-LoadBalanced p = ground (arith, cur, pos-+ℤ n 1)

  give_up-LoadBalanced : r.phase ≡ waiting → LoadBalanced e r l n (give_up e r)
  unfolding give_up
  give_up-LoadBalanced p = ground (arith, cur, pos_minus_one n)

  pass_ungated-LoadBalanced :
      (now : ℕ) (q : Engine × Request)
      → r.phase ≡ waiting
      → pass_ungated e r now ≡ some q
      → LoadBalanced e r l n q
  unfolding pass_ungated
  pass_ungated-LoadBalanced now q p h = ground (arith, cur)

  take_slot-LoadBalanced :
      (q : Engine × Request) → r.phase ≡ waiting → take_slot e r ≡ some q → LoadBalanced e r l n q
  unfolding take_slot
  take_slot-LoadBalanced q p h = ground (arith, cur)

  confirm_slot-LoadBalanced :
      (now : ℕ) → r.phase ≡ holding → LoadBalanced e r l n (confirm_slot e r now)
  unfolding confirm_slot
  confirm_slot-LoadBalanced now p = ground (arith, cur)

  leave_gone-LoadBalanced :
      (q : Engine × Request) → r.phase ≡ waiting → leave_gone e r ≡ some q → LoadBalanced e r l n q
  unfolding leave_gone
  leave_gone-LoadBalanced q p h = ground (arith, cur)

  follow-LoadBalanced : r.phase ≡ moving → LoadBalanced e r l n (follow e r)
  unfolding follow
  follow-LoadBalanced p =
      elim (Option-cases (lookup (wanted e (e.entries r.entry).spec.id) e.models)) [
        | inl h ↦ rw (h, follow) (ground (arith, cur, pos_minus_one n))
        | inr (m, h) ↦ rw (h, follow) (ground (arith, cur))
      ]

  fail_start-LoadBalanced : r.phase ≡ running → LoadBalanced e r l n (fail_start e r)
  unfolding fail_start
  fail_start-LoadBalanced p = ground (arith, cur, pos_minus_one n)

  finish-LoadBalanced : r.phase ≡ running → LoadBalanced e r l n (finish e r)
  unfolding finish
  finish-LoadBalanced p = ground (arith, cur, kept, pos_minus_one n)

  pub Step-LoadBalanced :
      (q : Engine × Request)
      → RequestStep e r q
      → (q.0.loads l).cur ≡ pos (n + load_share l q.1 - load_share l r)
  Step-LoadBalanced _ (checks p) = check_kind-LoadBalanced p
  Step-LoadBalanced _ (gives_up p) = give_up-LoadBalanced p
  Step-LoadBalanced q (passes now _ p h) = pass_ungated-LoadBalanced now q p h
  Step-LoadBalanced q (takes _ p h) = take_slot-LoadBalanced q p h
  Step-LoadBalanced _ (confirms now p) = confirm_slot-LoadBalanced now p
  Step-LoadBalanced q (leaves_gone _ p h) = leave_gone-LoadBalanced q p h
  Step-LoadBalanced _ (follows p) = follow-LoadBalanced p
  Step-LoadBalanced _ (fails p) = fail_start-LoadBalanced p
  Step-LoadBalanced _ (finishes p) = finish-LoadBalanced p
