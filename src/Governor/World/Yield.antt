-- ===== src/Governor/World/Yield.antt =====
-- internal/governor/governor.go: the end of a yield's grace (`drainOrCancel`) over traces.
use flockd.Base.{ℕ, ◌≡◌, ◌∙◌, true, false, List, [], ◌∷◌, ◌++◌, some, String, arith}
use flockd.Base.Dict.{Dict, lookup}
use flockd.Governor.Policy.{Policy, State}
use flockd.Governor.Core.{
  Governor, Lease, Drain, admitted, elem, handles, is_serving, admit, release, sample, transition,
  set_policy, subscribe, start_drain, cancel_inflight, wake_drains,
}
use flockd.Governor.World.{
  World, Step, admits, releases, samples, transitions, sets_policy, subscribes, starts, ends,
  expires, ticks, Reach, latest, Nested,
}
use flockd.Governor.World.Inv.{Inv}
use flockd.Governor.World.Reachable.{start, start-Inv, Reach-Inv}

elem-append_right : (h : ℕ) (xs ys : List ℕ) → elem h ys ≡ true → elem h (xs ++ ys) ≡ true
elem-append_right h [] ys e = e
elem-append_right h (x ∷ xs) ys e = ground (arith, elem-append_right h xs ys e)

pub elem-append_left : (h : ℕ) (xs ys : List ℕ) → elem h xs ≡ true → elem h (xs ++ ys) ≡ true
elem-append_left h [] ys e = cc
elem-append_left h (x ∷ xs) ys e = ground (arith, elem-append_left h xs ys)

pub elem-handles :
    (id : String) (h : ℕ) (m : Dict ℕ) → lookup id m ≡ some h → elem h (handles m) ≡ true
unfolding lookup
elem-handles id h [] e = cc
elem-handles id h ((j, k) ∷ m) e = ground (arith, elem-handles id h m)

-- Every request that holds its lease, the newest of its id, has a cancelled context.
abbrev pub AllCancelled : World → Type 0
AllCancelled w =
    (id : String) (h : ℕ)
    → latest id w.leases ≡ some h
    → elem h w.gov.released ≡ false
    → elem h w.gov.cancelled ≡ true

expired-AllCancelled :
    (w : World) (drains : List Drain)
    → Inv w
    → AllCancelled (record w { gov = cancel_inflight w.gov; drains = drains })
unfolding cancel_inflight
expired-AllCancelled w drains i id h e o =
    elem-append_left h (handles w.gov.inflight) w.gov.cancelled
      (elem-handles id h w.gov.inflight (i.books id ∙ ground arith))

-- A trace on which the node does not serve.
pub data Quiet (a : World) : World → Type 0 where
  rests : is_serving a.gov.state ≡ false → Quiet a a
  steps : {b c : World} → Quiet a b → Step b c → is_serving c.gov.state ≡ false → Quiet a c

Quiet-not-serving : {a b : World} → Quiet a b → is_serving b.gov.state ≡ false
Quiet-not-serving (rests h) = h
Quiet-not-serving (steps q s h) = h

cancelled-release :
    (g : Governor) (l : Lease) (h : ℕ)
    → elem h g.cancelled ≡ true
    → elem h (release g l).cancelled ≡ true
unfolding release wake_drains
cancelled-release g l h e = ground arith

released-release :
    (g : Governor) (l : Lease) (h : ℕ)
    → elem h (release g l).released ≡ false
    → elem h g.released ≡ false
unfolding release wake_drains
released-release g l h e = ground arith

cancelled-transition : (g : Governor) (st : State) → (transition g st).cancelled ≡ g.cancelled
unfolding transition
cancelled-transition g st = ground arith

released-transition : (g : Governor) (st : State) → (transition g st).released ≡ g.released
unfolding transition
released-transition g st = ground arith

cancelled-start : (g : Governor) (now : ℕ) → (start_drain g now).0.cancelled ≡ g.cancelled
unfolding start_drain
cancelled-start g now = ground arith

released-start : (g : Governor) (now : ℕ) → (start_drain g now).0.released ≡ g.released
unfolding start_drain
released-start g now = ground arith

admit-serving :
    (g : Governor) (id : String) (l : Lease)
    → (admit g id).1 ≡ admitted l
    → is_serving g.state ≡ true
unfolding admit
admit-serving g id l e = ground arith

Step-AllCancelled :
    {v w : World} → Step v w → is_serving v.gov.state ≡ false → AllCancelled v → AllCancelled w
unfolding sample set_policy subscribe cancel_inflight
Step-AllCancelled (admits w id l e) q c = cc (admit-serving w.gov id l e)
Step-AllCancelled (releases w l m) q c =
    λ id h e o. cancelled-release w.gov l h (c id h e (released-release w.gov l h o))
Step-AllCancelled (samples w pol s) q c = c
Step-AllCancelled (transitions w st) q c =
    rw (cancelled-transition w.gov st, released-transition w.gov st) c
Step-AllCancelled (sets_policy w p) q c = c
Step-AllCancelled (subscribes w) q c = c
Step-AllCancelled (starts w h) q c = rw (cancelled-start w.gov w.now, released-start w.gov w.now) c
Step-AllCancelled (ends w d rest m e) q c = c
Step-AllCancelled (expires w d rest m e) q c =
    λ id h e o. elem-append_right h (handles w.gov.inflight) w.gov.cancelled (c id h e o)
Step-AllCancelled (ticks w n) q c = c

Quiet-AllCancelled : {v w : World} → Quiet v w → AllCancelled v → AllCancelled w
Quiet-AllCancelled (rests h) c = c
Quiet-AllCancelled (steps q s h) c =
    Step-AllCancelled s (Quiet-not-serving q) (Quiet-AllCancelled q c)

-- On every trace from a new Governor on which the leases of each id are released nested (a lease only
-- when the newest lease of its id is that one or has been released): once the grace of a yield has run
-- out, every lease that is the newest of its id and is not released has a cancelled context, for as
-- long as the node does not serve. An older lease of an id that was admitted again is not covered.
pub yield_cancels :
    (p : Policy) (now : ℕ) {w v : World} (drains : List Drain) (r : Reach (start p now) w)
    → Nested r
    → Quiet (record w { gov = cancel_inflight w.gov; drains = drains }) v
    → AllCancelled v
yield_cancels p now {w} drains r n q =
    Quiet-AllCancelled q (expired-AllCancelled w drains (Reach-Inv r n (start-Inv p now)))
