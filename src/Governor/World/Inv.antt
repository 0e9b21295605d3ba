-- ===== src/Governor/World/Inv.antt =====
-- internal/governor/governor.go: the books of the Governor against its clients' leases.
use flockd.Base.{
  ℕ, suc, ◌<◌, ◌≡◌, ◌≢◌, refl, sym, ◌∙◌, true, false, List, [], ◌∷◌, Option, none, some, String,
  arith, inl, inr, Bool-cases, eq_iff, str_eq, if◌then◌else◌,
}
use flockd.Base.Dict.{lookup, delete, insert, lookup-delete, lookup-insert}
use flockd.Governor.Core.{Governor, Lease, Drain, elem, release, start_drain}
use flockd.Governor.World.{World, Member, head, tail, latest, IsNested}

-- What the books should hold for an id: the handle of its newest lease, until that is released.
abbrev pub out : List ℕ → Option ℕ → Option ℕ
out released none = none
out released (some h) = if elem h released then none else some h

pub record Inv (w : World) : Type 0 where
  pub books : (id : String) → lookup id w.gov.inflight ≡ out w.gov.released (latest id w.leases)
  -- handles are not used again
  pub below : (l : Lease) → Member l w.leases → l.handle < w.gov.next_handle
  pub released_below : (h : ℕ) → elem h w.gov.released ≡ true → h < w.gov.next_handle
  pub owner :
      (l m : Lease) → Member l w.leases → Member m w.leases → l.handle ≡ m.handle → l.id ≡ m.id

latest-Member :
    (id : String) (ls : List Lease) (h : ℕ)
    → latest id ls ≡ some h
    → (l : Lease) × Member l ls × (l.id ≡ id) × (l.handle ≡ h)
unfolding latest
latest-Member id [] h e = cc
latest-Member id (l ∷ ls) h e = elim (Bool-cases (str_eq l.id id)) [
  | inl same ↦ (l, head, (eq_iff l.id id).0 same, ground arith)
  | inr other ↦ let (m, i, p, q) = latest-Member id ls h (ground arith) in (m, tail i, p, q)
]

-- Steps that leave the books of the requests alone.
module _ {w : World} (g : Governor) (same_inflight : g.inflight ≡ w.gov.inflight)
    (same_released : g.released ≡ w.gov.released) (same_next : g.next_handle ≡ w.gov.next_handle)
    (drains : List Drain) (now : ℕ) where
  pub same_books-Inv :
      Inv w → Inv (record { gov = g; leases = w.leases; drains = drains; now = now })
  same_books-Inv i = record {
    books = λ id. rw (same_inflight, same_released) (i.books id);
    below = λ l m. rw same_next (i.below l m);
    released_below = λ h e. rw same_next (i.released_below h (rw (← same_released) e));
    owner = i.owner;
  }

-- The admission of a request.
module _ {w : World} (id : String) (i : Inv w) where
  abbrev pub admitted_world : World
  admitted_world = record w {
    gov = record w.gov {
      inflight = insert id w.gov.next_handle w.gov.inflight;
      next_handle = suc w.gov.next_handle;
    };
    leases = record { id = id; handle = w.gov.next_handle } ∷ w.leases;
  }

  admitted-books :
      (j : String)
      → lookup j admitted_world.gov.inflight
        ≡ out admitted_world.gov.released (latest j admitted_world.leases)
  unfolding latest
  admitted-books j = ground (
    arith,
    lookup-insert id j w.gov.next_handle w.gov.inflight,
    i.books j,
    i.released_below w.gov.next_handle,
  )

  admitted-below :
      (l : Lease) → Member l admitted_world.leases → l.handle < admitted_world.gov.next_handle
  admitted-below _ head = omega arith
  admitted-below l (tail m) = omega (arith, i.below l m)

  admitted-owner :
      (l m : Lease)
      → Member l admitted_world.leases
      → Member m admitted_world.leases
      → l.handle ≡ m.handle
      → l.id ≡ m.id
  admitted-owner _ _ head head e = refl
  admitted-owner _ m head (tail b) e = absurd (omega (arith, i.below m b))
  admitted-owner l _ (tail a) head e = absurd (omega (arith, i.below l a))
  admitted-owner l m (tail a) (tail b) e = i.owner l m a b e

  pub admitted-Inv : Inv admitted_world
  admitted-Inv = record {
    books = admitted-books;
    below = admitted-below;
    released_below = λ h e. omega (arith, i.released_below h e);
    owner = admitted-owner;
  }

-- The release of a lease.
module _ {w : World} (l : Lease) (m : Member l w.leases) (nested : IsNested w l) (i : Inv w) where
  inflight-release :
      elem l.handle w.gov.released ≡ false → (release w.gov l).inflight ≡ delete l.id w.gov.inflight
  unfolding release
  inflight-release e = ground arith

  released-release :
      elem l.handle w.gov.released ≡ false → (release w.gov l).released ≡ l.handle ∷ w.gov.released
  unfolding release
  released-release e = ground arith

  next_handle-release : (release w.gov l).next_handle ≡ w.gov.next_handle
  unfolding release
  next_handle-release = ground arith

  -- The newest lease of another id has another handle.
  other-handle : (j : String) (h : ℕ) → l.id ≢ j → latest j w.leases ≡ some h → h ≢ l.handle
  other-handle j h ne e same =
      let (k, mk, p, q) = latest-Member j w.leases h e in ne (i.owner l k m mk (sym (q ∙ same)) ∙ p)

  out-release :
      (j : String) (o : Option ℕ)
      → latest j w.leases ≡ o
      → (if str_eq l.id j then none else out w.gov.released o) ≡ out (l.handle ∷ w.gov.released) o
  out-release j none e = ground arith
  out-release j (some h) e = elim (Bool-cases (str_eq l.id j)) [
    | inl same ↦ rw same (ground (arith, nested h (rw ((eq_iff l.id j).0 same) e)))
    | inr other ↦
        rw other (ground (arith, other-handle j h (λ p. cc (other, (eq_iff l.id j).1 p)) e))
  ]

  release-again : elem l.handle w.gov.released ≡ true → release w.gov l ≡ w.gov
  unfolding release
  release-again e = rw e

  released_below-release :
      elem l.handle w.gov.released ≡ false
      → (h : ℕ) → elem h (release w.gov l).released ≡ true
      → h < (release w.gov l).next_handle
  released_below-release first h e =
      rw next_handle-release
        (ground (arith, released-release first, i.released_below h, i.below l m))

  pub released-Inv : Inv (record w { gov = release w.gov l })
  released-Inv = elim (Bool-cases (elem l.handle w.gov.released)) [
    | inl again ↦ rw (release-again again) i
    | inr first ↦ record {
      books = λ j.
          rw
            (
              inflight-release first,
              released-release first,
              lookup-delete l.id j w.gov.inflight,
              i.books j,
            )
            (out-release j (latest j w.leases) refl);
      below = λ k mk. rw next_handle-release (i.below k mk);
      released_below = released_below-release first;
      owner = i.owner;
    }
  ]

-- Nobody waits for an empty node to drain.
abbrev pub Watched : Governor → Type 0
Watched g = g.inflight ≡ [] → g.drain_waiters ≡ []

pub release-Watched : (g : Governor) (l : Lease) → Watched g → Watched (release g l)
unfolding release
release-Watched g l i e = ground (arith, i)

pub insert-Watched :
    (g : Governor) (id : String) (h n : ℕ)
    → Watched (record g { inflight = insert id h g.inflight; next_handle = n })
unfolding insert
insert-Watched g id h n e = cc

pub starts-waiters :
    (g : Governor) (now : ℕ)
    → g.inflight ≡ []
    → g.drain_waiters ≡ []
    → (start_drain g now).0.drain_waiters ≡ []
unfolding start_drain
starts-waiters g now e h = rw (e, start_drain) h
