-- ===== src/Engine/World/Idle.antt =====
-- internal/engine/engine.go: `UnregisterIdle` among requests.
use flockd.Base.{
  ℕ, ◌<◌, ◌≡◌, inl, inr, List, [], ◌∷◌, some, String, arith, Option-cases, eq_iff, sum_of, All,
  All-set, All-get,
}
use flockd.Base.Dict.{lookup, lookup-delete}
use flockd.Engine.{Engine, removed, unregister_idle, remove_locked}
use flockd.Engine.Requests.{Request, wanted}
use flockd.Engine.World.{
  World, RegistryStep, unregisters_idle, Step, arrives, registry, acts, Reach, here, next, start,
}
use flockd.Engine.World.Balance.{entry_share}
use flockd.Engine.World.Place.{Placed, Step-Placed}
use flockd.Engine.World.Registry.{Step-Grown}
use flockd.Engine.World.Books.{Inv, balanced, registry-Inv}
use flockd.Engine.World.Reachable.{Reach-Inv, Step-Inv, acquire_shape}

-- The request does not hold the entry `m`.
abbrev Free : ℕ → Request → Type 0
Free m r = entry_share m r ≡ 0

-- The entry is no model's, and no request holds it.
record Dead (m : ℕ) (w : World) : Type 0 where
  old : m < w.engine.next_entry
  unlisted : (k : String) → lookup k w.engine.models ≡ some m → ⊥
  free : All (Free m) w.requests

all-Free : (m : ℕ) (rs : List Request) → sum_of (entry_share m) rs ≡ 0 → All (Free m) rs
all-Free m [] h = tt
all-Free m (r ∷ rs) h = (omega (arith, h), all-Free m rs (omega (arith, h)))

module _ (m : ℕ) {w : World} (i : Inv w.engine w.requests) (d : Dead m w) where
  registry-Dead : (e : Engine) → RegistryStep w.engine e → Dead m (record w { engine = e })
  registry-Dead e st = record {
    old = omega (arith, d.old, (Step-Grown w.engine i.models i.loads m 0 "" e st).next_entry);
    unlisted = λ k h. elim ((Step-Grown w.engine i.models i.loads m 0 k e st).models m h) [
      | inl p ↦ d.unlisted k p
      | inr (p, _, _) ↦ absurd (omega (arith, d.old))
    ];
    free = d.free;
  }

  moved-Free : (r r' : Request) → Free m r → Placed w.engine r r' → Free m r'
  moved-Free r r' f (inl (same, held)) = ground (arith, f)
  moved-Free r r' f (inr (k, h)) = ground (arith, d.unlisted k)

  Step-Dead : {w' : World} → Step w w' → Dead m w'
  Step-Dead (arrives model is_decision q p) =
      let (n, h, s) = acquire_shape w.engine model is_decision q p in
      rw s (record {
        old = d.old;
        unlisted = d.unlisted;
        free = (ground (arith, d.unlisted (wanted w.engine model)), d.free);
      })
  Step-Dead (registry e st) = registry-Dead e st
  Step-Dead (acts j r q found st) = record {
    old = omega (arith, d.old, (balanced i j r found q st m d.old).next_entry);
    unlisted = λ k. rw ((balanced i j r found q st m d.old).models) (d.unlisted k);
    free = All-set (Free m) w.requests j q.1 d.free (
        moved-Free r q.1 (All-get (Free m) w.requests j r d.free found)
          (Step-Placed w.engine r q st));
  }

Reach-Dead :
    (m : ℕ) {w w' : World}
    → Inv w.engine w.requests
    → Dead m w
    → Reach w w'
    → Dead m w' × Inv w'.engine w'.requests
Reach-Dead m i d here = (d, i)
Reach-Dead m i d (next r s) =
    let (d', i') = Reach-Dead m i d r in (Step-Dead m i' d' s, Step-Inv s i')

unregister_idle_shape :
    (e : Engine) (id : String) (m : ℕ)
    → (unregister_idle e id).1 ≡ removed m
    → (lookup id e.models ≡ some m)
      × ((e.entries m).inflight ≡ 0)
      × ((unregister_idle e id).0 ≡ remove_locked e id)
unfolding unregister_idle
unregister_idle_shape e id m p = elim (Option-cases (lookup id e.models)) [
  | inl h ↦ cc (rw (h, unregister_idle) at p)
  | inr (n, h) ↦ ground arith
]

-- The models after a removal.
removed-unlisted :
    {e : Engine} {rs : List Request} (i : Inv e rs) (id : String) (m : ℕ)
    → lookup id e.models ≡ some m
    → (k : String) → lookup k (remove_locked e id).models ≡ some m
    → ⊥
unfolding remove_locked
removed-unlisted {e} i id m h k p =
    ground (arith, lookup-delete id k e.models, i.keys k m, i.keys id m h, eq_iff id k)

-- On every trace from a new engine: where `UnregisterIdle` removes an entry, no request holds the entry
-- then, and none does after any further steps.
pub unregister_idle_released :
    {w w' : World} (id : String) (m : ℕ)
    → Reach start w
    → (unregister_idle w.engine id).1 ≡ removed m
    → Reach (record w { engine = (unregister_idle w.engine id).0 }) w'
    → All (λ r. entry_share m r ≡ 0) w'.requests
unregister_idle_released {w} id m r p r' =
    let i = Reach-Inv r in
    let (h, zero_inflight, s) = unregister_idle_shape w.engine id m p in
    let i' = registry-Inv i _ (unregisters_idle id) in
    let d : Dead m (record w { engine = (unregister_idle w.engine id).0 }) = record {
      old = omega (
        arith,
        i.models id m h,
        (Step-Grown w.engine i.models i.loads m 0 "" _ (unregisters_idle id)).next_entry,
      );
      unlisted = rw s (removed-unlisted i id m h);
      free = all-Free m w.requests (omega (arith, i.inflight m (i.models id m h), zero_inflight));
    } in
    (Reach-Dead m i' d r').0.free
