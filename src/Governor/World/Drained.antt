-- ===== src/Governor/World/Drained.antt =====
-- internal/governor/governor.go: `Drained`, and a request that is admitted twice.
use flockd.Base.{
  ℕ, suc, ◌≡◌, ◌↔◌, refl, sym, ◌∙◌, true, false, List, [], ◌∷◌, ◌++◌, none, String, arith,
  Bool-cases, inl, inr, eq_iff,
}
use flockd.Base.Dict.{Dict, lookup, insert, delete, lookup-delete_self}
use flockd.Governor.Policy.{Policy}
use flockd.Governor.Core.{
  Governor, Lease, elem, handles, is_serving, admit, release, cancel_inflight, wake_drains,
}
use flockd.Governor.World.{World, Reach}
use flockd.Governor.World.Reachable.{start, start-Watched}
use flockd.Governor.World.Yield.{elem-append_left}

no_waiter-elem : (c : ℕ) (g : Governor) → g.drain_waiters ≡ [] → elem c g.drain_waiters ≡ false
no_waiter-elem c g e = rw e

inflight-wake_drains : (g : Governor) → (wake_drains g).inflight ≡ g.inflight
unfolding wake_drains
inflight-wake_drains g = ground arith

wakes :
    (c : ℕ) (g : Governor)
    → elem c g.drain_waiters ≡ true
    → (wake_drains g).inflight ≡ []
    → elem c (wake_drains g).closed ≡ true
wakes c g e h =
    let empty : g.inflight ≡ [] = sym (inflight-wake_drains g) ∙ h in
    unfold wake_drains in rw (empty, wake_drains) (elem-append_left c g.drain_waiters g.closed e)

sleeps :
    (c : ℕ) (g : Governor)
    → elem c g.closed ≡ false
    → elem c (wake_drains g).closed ≡ true
    → (wake_drains g).inflight ≡ []
unfolding wake_drains
sleeps c g e h = ground arith

-- On every trace, a release closes a channel that a drain waits on exactly when it leaves nothing in
-- flight.
pub release_wakes :
    (p : Policy) (now : ℕ) {w : World} (l : Lease) (c : ℕ)
    → Reach (start p now) w
    → elem c w.gov.drain_waiters ≡ true
    → elem c w.gov.closed ≡ false
    → (elem c (release w.gov l).closed ≡ true) ↔ ((release w.gov l).inflight ≡ [])
unfolding release
release_wakes p now {w} l c r e h = elim (Bool-cases (elem l.handle w.gov.released)) [
  | inl again ↦ rw again (
    (λ closed. cc (h, closed)),
    (λ empty. cc (e, no_waiter-elem c w.gov (start-Watched p now r empty))),
  )
  | inr first ↦
      let left = record w.gov { inflight = delete l.id w.gov.inflight } in
      rw first ((λ closed. sleeps c left h closed), (λ empty. wakes c left e empty))
]

-- The two leases of a request that is admitted twice under one id, as the tunnel's dispatch and the
-- engine do, and the Governor after the second was released.
abbrev pub first_lease : Governor → String → Lease
first_lease g id = record { id = id; handle = g.next_handle }

abbrev pub second_lease : Governor → String → Lease
second_lease g id = record { id = id; handle = suc g.next_handle }

unfoldable pub admit_twice : Governor → String → Governor
unfolding admit release
admit_twice g id = release (admit (admit g id).0 id).0 (second_lease g id)

elem-handles-delete :
    (h : ℕ) (id : String) (m : Dict ℕ)
    → elem h (handles m) ≡ false
    → elem h (handles (delete id m)) ≡ false
unfolding delete
elem-handles-delete h id [] e = refl
elem-handles-delete h id ((j, k) ∷ m) e = ground (arith, elem-handles-delete h id m)

elem-append_false :
    (h : ℕ) (xs ys : List ℕ) → elem h xs ≡ false → elem h ys ≡ false → elem h (xs ++ ys) ≡ false
elem-append_false h [] ys e f = f
elem-append_false h (x ∷ xs) ys e f = ground (arith, elem-append_false h xs ys)

module _ (g : Governor) (id : String) (serves : is_serving g.state ≡ true)
    (unreleased : elem g.next_handle g.released ≡ false)
    (unused : elem (suc g.next_handle) g.released ≡ false) where
  released-admit_twice : (admit_twice g id).released ≡ suc g.next_handle ∷ g.released
  unfolding admit_twice
  released-admit_twice = rw serves (rw serves (rw unused (ground arith)))

  cancelled-admit_twice : (admit_twice g id).cancelled ≡ suc g.next_handle ∷ g.cancelled
  unfolding admit_twice
  cancelled-admit_twice = rw serves (rw serves (rw unused (ground arith)))

  inflight-admit_twice :
      (admit_twice g id).inflight
      ≡ delete id (insert id (suc g.next_handle) (insert id g.next_handle g.inflight))
  unfolding admit_twice
  inflight-admit_twice = rw serves (rw serves (rw unused (ground arith)))

  elem-handles-admit_twice :
      elem g.next_handle (handles g.inflight) ≡ false
      → elem g.next_handle (handles (admit_twice g id).inflight) ≡ false
  unfolding insert delete
  elem-handles-admit_twice e = rw inflight-admit_twice (
      ground (
        arith,
        eq_iff id id,
        elem-handles-delete g.next_handle id g.inflight e,
        elem-handles-delete g.next_handle id (delete id g.inflight),
        elem-handles-delete g.next_handle id (delete id (delete id g.inflight)),
      ))

  -- Where an id is admitted twice and the second lease is released, the expiry of a yield's grace does
  -- not cancel the context of the first, which is still out, and the map no longer has the request.
  pub admitted_twice_not_cancelled :
      elem g.next_handle (handles g.inflight) ≡ false
      → elem g.next_handle g.cancelled ≡ false
      → (lookup id (admit_twice g id).inflight ≡ none)
        × (elem g.next_handle (cancel_inflight (admit_twice g id)).released ≡ false)
        × (elem g.next_handle (cancel_inflight (admit_twice g id)).cancelled ≡ false)
  unfolding cancel_inflight
  admitted_twice_not_cancelled e f = (
    rw inflight-admit_twice (lookup-delete_self id _),
    rw released-admit_twice (ground arith),
    elem-append_false g.next_handle (handles (admit_twice g id).inflight) _
        (elem-handles-admit_twice e) (rw cancelled-admit_twice (ground arith)),
  )
