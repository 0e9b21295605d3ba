-- ===== src/Engine/World/Reachable.antt =====
-- internal/engine/engine.go: the counts of the engine over traces.
use flockd.Base.{
  ℕ, ◌≤◌, ◌<◌, ◌≡◌, inl, inr, Bool, List, [], ◌∷◌, some, String, arith, Option-cases, ◌&&◌, ◌==◌,
  if◌then◌else◌, sum_of,
}
use flockd.Base.Dict.{lookup}
use flockd.Engine.{Engine}
use flockd.Engine.Requests.{Request, acquired, acquire, wanted, at_entry, add_inflight}
use flockd.Engine.World.{World, Step, arrives, registry, acts, Reach, here, next, start}
use flockd.Engine.World.Balance.{entry_share, slot_share, run_share, is_running}
use flockd.Engine.World.Books.{Inv, start-Inv, registry-Inv, acts-Inv}

-- A request that `acquire` routes to an entry.
abbrev routed : Engine → ℕ → Bool → Engine × Request
routed e m is_decision = (
  at_entry e m add_inflight,
  record { phase = acquired; entry = m; load = (e.entries m).load; is_decision = is_decision },
)

pub acquire_shape :
    (e : Engine) (model : String) (is_decision : Bool) (q : Engine × Request)
    → acquire e model is_decision ≡ some q
    → (m : ℕ) × (lookup (wanted e model) e.models ≡ some m) × (q ≡ routed e m is_decision)
unfolding acquire
acquire_shape e model is_decision q p = elim (Option-cases (lookup (wanted e model) e.models)) [
  | inl h ↦ cc (rw (h, acquire) at p)
  | inr (m, h) ↦ (m, h, cc (rw (h, acquire) at p))
]

module _ {e : Engine} {rs : List Request} (v : Inv e rs) where
  routed-Inv :
      (k : String) (m : ℕ) (is_decision : Bool)
      → lookup k e.models ≡ some m
      → Inv (routed e m is_decision).0 ((routed e m is_decision).1 ∷ rs)
  routed-Inv k m is_decision h = record {
    inflight = λ i l. ground (arith, v.inflight i);
    gate = λ i l s. ground (arith, v.gate i);
    bound = λ i l. ground (arith, v.bound i);
    started = ground (arith, v.started);
    requests = ((v.models k m h, v.loads m (v.models k m h)), v.requests);
    models = v.models;
    keys = λ j n l. ground (arith, v.keys j n);
    loads = λ i l. ground (arith, v.loads i);
  }

  arrives-Inv :
      (model : String) (is_decision : Bool) (q : Engine × Request)
      → acquire e model is_decision ≡ some q
      → Inv q.0 (q.1 ∷ rs)
  arrives-Inv model is_decision q p =
      let (m, h, s) = acquire_shape e model is_decision q p in
      rw s (routed-Inv (wanted e model) m is_decision h)

pub Step-Inv : {v w : World} → Step v w → Inv v.engine v.requests → Inv w.engine w.requests
Step-Inv (arrives model is_decision q p) i = arrives-Inv i model is_decision q p
Step-Inv (registry e st) i = registry-Inv i e st
Step-Inv (acts j r q found st) i = acts-Inv i j r found q st

pub Reach-Inv : {w : World} → Reach start w → Inv w.engine w.requests
Reach-Inv here = start-Inv
Reach-Inv (next r s) = Step-Inv s (Reach-Inv r)

-- How many requests run on an entry's instance.
abbrev pub running_share : ℕ → Request → ℕ
running_share i r = if is_running r.phase && r.entry == i then 1 else 0

running-le-slot :
    (i : ℕ) (rs : List Request) → sum_of (running_share i) rs ≤ sum_of (slot_share i) rs
running-le-slot i [] = omega arith
running-le-slot i (r ∷ rs) = ground (arith, running-le-slot i rs)

-- On every trace from a new engine, however its steps interleave: no instance with a gate ever runs
-- more requests than it has slots.
pub slots_respected :
    {w : World}
    → Reach start w
    → (i : ℕ) → i < w.engine.next_entry
    → 0 < (w.engine.entries i).slots
    → sum_of (running_share i) w.requests ≤ (w.engine.entries i).slots
slots_respected {w} r i h s =
    let v = Reach-Inv r in omega (arith, v.gate i h s, v.bound i h, running-le-slot i w.requests)

-- On every trace from a new engine, however its steps interleave: an entry's in-flight count, a
-- replaced or removed entry's included, is the number of requests that hold the entry, and the engine's
-- count of started requests is the number of those that run.
pub counters_exact :
    {w : World}
    → Reach start w
    → ((i : ℕ)
        → i < w.engine.next_entry
        → (w.engine.entries i).inflight ≡ sum_of (entry_share i) w.requests)
      × (w.engine.started ≡ sum_of run_share w.requests)
counters_exact r = let v = Reach-Inv r in (v.inflight, v.started)
