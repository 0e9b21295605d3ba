-- ===== src/Governor/World/Reachable.antt =====
-- internal/governor/governor.go: the Governor and its clients over traces.
use flockd.Base.{ℕ, suc, ◌≡◌, refl, sym, ◌∙◌, [], ◌∷◌, String, arith}
use flockd.Base.Dict.{lookup, insert}
use flockd.Governor.Policy.{Policy, State}
use flockd.Governor.Core.{
  Governor, Lease, admitted, new, set_policy, subscribe, admit, sample, transition, start_drain,
  cancel_inflight,
}
use flockd.Governor.World.{
  World, Step, admits, releases, samples, transitions, sets_policy, subscribes, starts, ends,
  expires, ticks, Reach, here, next, latest, NestedStep, Nested,
}
use flockd.Governor.World.Inv.{
  Inv, out, admitted-Inv, released-Inv, same_books-Inv, starts-waiters, Watched, release-Watched,
  insert-Watched,
}

abbrev pub start : Policy → ℕ → World
start p now = record { gov = new p; leases = []; drains = []; now = now }

pub start-Inv : (p : Policy) (now : ℕ) → Inv (start p now)
unfolding new lookup latest
start-Inv p now = record {
  books = λ id. refl;
  below = λ l m. elim m [ ];
  released_below = λ h e. cc;
  owner = λ l m a b e. elim a [ ];
}

-- What an admission that succeeds has done.
pub admit_shape :
    (g : Governor) (id : String) (l : Lease)
    → (admit g id).1 ≡ admitted l
    → ((admit g id).0 ≡ record g {
      inflight = insert id g.next_handle g.inflight;
      next_handle = suc g.next_handle;
    })
      × (l ≡ record { id = id; handle = g.next_handle })
unfolding admit
admit_shape g id l e = (ground arith, ground arith)

admit-Inv :
    (w : World) (id : String) (l : Lease)
    → (admit w.gov id).1 ≡ admitted l
    → Inv w
    → Inv (record w { gov = (admit w.gov id).0; leases = l ∷ w.leases })
admit-Inv w id l e i =
    let (p, q) = admit_shape w.gov id l e in rw (p, q) (admitted-Inv {w = w} id i)

module _ (g : Governor) (st : State) where
  inflight-transition : (transition g st).inflight ≡ g.inflight
  unfolding transition
  inflight-transition = ground arith

  released-transition : (transition g st).released ≡ g.released
  unfolding transition
  released-transition = ground arith

  next_handle-transition : (transition g st).next_handle ≡ g.next_handle
  unfolding transition
  next_handle-transition = ground arith

  waiters-transition : (transition g st).drain_waiters ≡ g.drain_waiters
  unfolding transition
  waiters-transition = ground arith

module _ (g : Governor) (now : ℕ) where
  inflight-start : (start_drain g now).0.inflight ≡ g.inflight
  unfolding start_drain
  inflight-start = ground arith

  released-start : (start_drain g now).0.released ≡ g.released
  unfolding start_drain
  released-start = ground arith

  next_handle-start : (start_drain g now).0.next_handle ≡ g.next_handle
  unfolding start_drain
  next_handle-start = ground arith

pub Step-Inv : {v w : World} (s : Step v w) → NestedStep s → Inv v → Inv w
unfolding sample set_policy subscribe cancel_inflight
Step-Inv (admits w id l e) n i = admit-Inv w id l e i
Step-Inv (releases w l m) n i = released-Inv l m n i
Step-Inv (samples w pol s) n i = same_books-Inv _ refl refl refl _ _ i
Step-Inv (transitions w st) n i =
    same_books-Inv (transition w.gov st) (inflight-transition w.gov st)
      (released-transition w.gov st) (next_handle-transition w.gov st) _ _ i
Step-Inv (sets_policy w p) n i = same_books-Inv _ refl refl refl _ _ i
Step-Inv (subscribes w) n i = same_books-Inv _ refl refl refl _ _ i
Step-Inv (starts w h) n i =
    same_books-Inv (start_drain w.gov w.now).0 (inflight-start w.gov w.now)
      (released-start w.gov w.now) (next_handle-start w.gov w.now) _ _ i
Step-Inv (ends w d rest m e) n i = same_books-Inv _ refl refl refl _ _ i
Step-Inv (expires w d rest m e) n i = same_books-Inv _ refl refl refl _ _ i
Step-Inv (ticks w k) n i = same_books-Inv _ refl refl refl _ _ i

pub Reach-Inv : {v w : World} (r : Reach v w) → Nested r → Inv v → Inv w
Reach-Inv here n i = i
Reach-Inv (next r s) n i = Step-Inv s n.1 (Reach-Inv r n.0 i)

Step-Watched : {v w : World} → Step v w → Watched v.gov → Watched w.gov
unfolding sample set_policy subscribe cancel_inflight
Step-Watched (admits w id l e) i =
    rw (admit_shape w.gov id l e).0
      (insert-Watched w.gov id w.gov.next_handle (suc w.gov.next_handle))
Step-Watched (releases w l m) i = release-Watched w.gov l i
Step-Watched (samples w pol s) i = i
Step-Watched (transitions w st) i =
    λ e. waiters-transition w.gov st ∙ i (sym (inflight-transition w.gov st) ∙ e)
Step-Watched (sets_policy w p) i = i
Step-Watched (subscribes w) i = i
Step-Watched (starts w h) i = λ e.
    let empty : w.gov.inflight ≡ [] = sym (inflight-start w.gov w.now) ∙ e in
    starts-waiters w.gov w.now empty (i empty)
Step-Watched (ends w d rest m e) i = i
Step-Watched (expires w d rest m e) i = i
Step-Watched (ticks w k) i = i

Reach-Watched : {v w : World} → Reach v w → Watched v.gov → Watched w.gov
Reach-Watched here i = i
Reach-Watched (next r s) i = Step-Watched s (Reach-Watched r i)

-- No drain waits while nothing is in flight, whatever the order of the releases.
pub start-Watched : (p : Policy) (now : ℕ) {w : World} → Reach (start p now) w → Watched w.gov
unfolding new
start-Watched p now r = Reach-Watched r (λ e. refl)

-- On every trace from a new Governor on which the leases of each id are released nested (a lease only
-- when the newest lease of its id is that one or has been released), the map holds for each id the
-- handle of the newest lease that was handed out for it, as long as that lease is not released, and no
-- entry for the id from then on, also where an older lease of the id is still out; and no drain waits
-- while nothing is in flight.
pub reachable_books :
    (p : Policy) (now : ℕ) {w : World} (r : Reach (start p now) w)
    → Nested r
    → ((id : String) → lookup id w.gov.inflight ≡ out w.gov.released (latest id w.leases))
      × (w.gov.inflight ≡ [] → w.gov.drain_waiters ≡ [])
reachable_books p now r n = ((Reach-Inv r n (start-Inv p now)).books, start-Watched p now r)
