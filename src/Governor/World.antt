-- ===== src/Governor/World.antt =====
-- internal/governor/governor.go: the Governor with its clients. A step is one critical section of a
-- method or of a `drainOrCancel` goroutine, so a trace is an interleaving of them.
pub mod Inv
pub mod Reachable
pub mod Yield
pub mod Drained
use flockd.Base.{
  ℕ, ◌+◌, ◌≤◌, ◌<◌, ◌≡◌, true, false, List, [], ◌∷◌, Option, none, some, String, str_eq,
  if◌then◌else◌,
}
use flockd.Governor.Policy.{State, Policy, Signals}
use flockd.Governor.Core.{
  Governor, Lease, Drain, admitted, elem, set_policy, subscribe, admit, release, sample, transition,
  start_drain, cancel_inflight,
}

pub record World : Type 0 where
  pub gov : Governor
  -- every lease that was handed out, the released ones too
  pub leases : List Lease
  -- the goroutines in their select
  pub drains : List Drain
  pub now : ℕ

pub data Member {ℓ} {A : Type ℓ} (a : A) : List A → Type ℓ where
  head : {xs : List A} → Member a (a ∷ xs)
  tail : {b : A} {xs : List A} → Member a xs → Member a (b ∷ xs)

-- The handle of the newest lease with an id.
unfoldable pub latest : String → List Lease → Option ℕ
latest id [] = none
latest id (l ∷ ls) = if str_eq l.id id then some l.handle else latest id ls

-- A lease is released when the newest of its id is that one or has been released. (The tunnel's
-- dispatch holds a lease while the engine takes another of the same id; the Governor itself does not
-- ask for an order.)
abbrev pub IsNested : World → Lease → Type 0
IsNested w l =
    (h : ℕ) → latest l.id w.leases ≡ some h → elem h w.gov.released ≡ false → h ≡ l.handle

pub data Step : World → World → Type 0 where
  admits :
      (w : World) (id : String) (l : Lease)
      → (admit w.gov id).1 ≡ admitted l
      → Step w (record w { gov = (admit w.gov id).0; leases = l ∷ w.leases })
  releases :
      (w : World) (l : Lease) → Member l w.leases → Step w (record w { gov = release w.gov l })
  samples :
      (w : World) (pol : Policy) (s : Signals) → Step w (record w { gov = (sample w.gov pol s).0 })
  transitions : (w : World) (st : State) → Step w (record w { gov = transition w.gov st })
  sets_policy : (w : World) (p : Policy) → Step w (record w { gov = set_policy w.gov p })
  subscribes : (w : World) → Step w (record w { gov = subscribe w.gov })
  starts :
      (w : World)
      → 0 < w.gov.spawned
      → Step w (record w {
        gov = (start_drain w.gov w.now).0;
        drains = (start_drain w.gov w.now).1 ∷ w.drains;
      })
  -- `case <-g.drainedChan()`
  ends :
      (w : World) (d : Drain) (rest : List Drain)
      → Member d w.drains
      → elem d.chan w.gov.closed ≡ true
      → Step w (record w { drains = rest })
  -- `case <-g.clock.After(grace)`; Go chooses freely where both are ready
  expires :
      (w : World) (d : Drain) (rest : List Drain)
      → Member d w.drains
      → d.deadline ≤ w.now
      → Step w (record w { gov = cancel_inflight w.gov; drains = rest })
  ticks : (w : World) (n : ℕ) → Step w (record w { now = w.now + n })

pub data Reach (a : World) : World → Type 0 where
  here : Reach a a
  next : {b c : World} → Reach a b → Step b c → Reach a c

abbrev pub NestedStep : {a b : World} → Step a b → Type 0
NestedStep (admits w id l e) = Unit
NestedStep (releases w l m) = IsNested w l
NestedStep (samples w pol s) = Unit
NestedStep (transitions w st) = Unit
NestedStep (sets_policy w p) = Unit
NestedStep (subscribes w) = Unit
NestedStep (starts w h) = Unit
NestedStep (ends w d rest m e) = Unit
NestedStep (expires w d rest m e) = Unit
NestedStep (ticks w n) = Unit

-- The leases of one id are nested all along a trace.
abbrev pub Nested : {a b : World} → Reach a b → Type 0
Nested here = Unit
Nested (next r s) = Nested r × NestedStep s
