-- ===== src/Engine/World/Demand.antt =====
-- internal/engine/engine.go: `Demand`, and the demand counters over traces.
use flockd.Base.{
  ℕ, ◌+◌, ◌-◌, ◌<◌, ◌≡◌, ◌≢◌, refl, ◌∙◌, false, List, [], ◌∷◌, some, String, arith, sum_of,
  sum_of-set, le-sum_of, All, All-set, All-get, All-map, get_elem?, set, ap, Option, update,
}
use flockd.Base.Dict.{lookup}
use flockd.Base.Int.{pos, negsuc, ◌+ℤ◌, max_ℤ}
use flockd.Engine.{Engine, DemandReport, new, demand}
use flockd.Engine.Requests.{Request, finish, at_entry, add_inflight}
use flockd.Engine.World.{
  World, RegistryStep, Step, arrives, registry, acts, Reach, here, next, start, RequestStep, strays,
}
use flockd.Engine.World.Balance.{load_share}
use flockd.Engine.World.Load.{Step-LoadBalanced}
use flockd.Engine.World.Registry.{Step-Grown}
use flockd.Engine.World.Books.{Inv, Below, balanced, fresh-load_share}
use flockd.Engine.World.Reachable.{Reach-Inv, acquire_shape}

-- The request is demand on the counter of its entry.
abbrev Kept : Engine → Request → Type 0
Kept e r = (e.entries r.entry).load ≡ r.load

record Exact (e : Engine) (rs : List Request) : Type 0 where
  kept : All (Kept e) rs
  cur : (l : ℕ) → l < e.next_load → (e.loads l).cur ≡ pos (sum_of (load_share l) rs)

module _ {e : Engine} {rs : List Request} (v : Inv e rs) (x : Exact e rs) where
  registry-kept :
      (e' : Engine)
      → RegistryStep e e'
      → (qs : List Request) → All (Below e) qs
      → All (Kept e) qs
      → All (Kept e') qs
  registry-kept e' st [] b k = tt
  registry-kept e' st (q ∷ qs) b k = (
    (Step-Grown e v.models v.loads q.entry 0 "" e' st).load b.0.0 ∙ k.0,
    registry-kept e' st qs b.1 k.1,
  )

  registry-Exact : (e' : Engine) → RegistryStep e e' → Exact e' rs
  registry-Exact e' st = record {
    kept = registry-kept e' st rs v.requests x.kept;
    cur = λ l h.
        let g = Step-Grown e v.models v.loads 0 l "" e' st in
        ground (arith, g.cur, g.fresh_cur, x.cur l, fresh-load_share e l rs, v.requests);
  }

  module _ (i : ℕ) (r : Request) (found : get_elem? rs i ≡ some r) (q : Engine × Request)
      (st : RequestStep e r q) where
    acts-kept : (qs : List Request) → All (Below e) qs → All (Kept e) qs → All (Kept q.0) qs
    acts-kept [] b k = tt
    acts-kept (p ∷ qs) b k =
        ((balanced v i r found q st p.entry b.0.0).loads ∙ k.0, acts-kept qs b.1 k.1)

    acts-cur :
        (l : ℕ)
        → l < q.0.next_load
        → (q.0.loads l).cur ≡ pos (sum_of (load_share l) rs + load_share l q.1 - load_share l r)
    acts-cur l h =
        let below = All-get (Below e) rs i r v.requests found in
        let b = balanced v i r found q st r.entry below.0 in
        Step-LoadBalanced e r (All-get (Kept e) rs i r x.kept found) l (sum_of (load_share l) rs)
          (x.cur l (omega (arith, b.next_load))) (le-sum_of (load_share l) rs i r found) q st

    acts-Exact : strays q.0 q.1 ≡ false → Exact q.0 (set rs i q.1)
    acts-Exact s = record {
      kept = All-set (Kept q.0) rs i q.1 (acts-kept rs v.requests x.kept) (ground arith);
      cur =
          λ l h. acts-cur l h ∙ ap pos (omega (arith, sum_of-set (load_share l) rs i r q.1 found));
    }

Step-Exact :
    {v w : World}
    → Step v w
    → Inv v.engine v.requests
    → (v.strayed ≡ false → Exact v.engine v.requests)
    → w.strayed ≡ false
    → Exact w.engine w.requests
Step-Exact {v} (arrives model is_decision q p) i x s =
    let (n, h, t) = acquire_shape v.engine model is_decision q p in
    rw t (record {
      kept = (
        ground arith,
        All-map (Kept v.engine) (Kept (at_entry v.engine n add_inflight)) v.requests
            (λ r k. ground arith) (x s).kept,
      );
      cur = λ l b. ground (arith, (x s).cur l);
    })
Step-Exact (registry e st) i x s = registry-Exact i (x s) e st
Step-Exact (acts j r q found st) i x s =
    acts-Exact i (x (ground arith)) j r found q st (ground arith)

start-Exact : Exact new []
unfolding new
start-Exact = record { kept = tt; cur = λ l h. refl }

Reach-Exact : {w : World} → Reach start w → w.strayed ≡ false → Exact w.engine w.requests
Reach-Exact here s = start-Exact
Reach-Exact (next r st) s = Step-Exact st (Reach-Inv r) (Reach-Exact r) s

abbrev demanded : Engine → ℕ → Engine × Option DemandReport
demanded e m =
    let l = (e.entries m).load in
    let c = e.loads l in
    (
      record e { loads = update e.loads l (record { cur = c.cur; peak = c.cur }) },
      some (record { now = c.cur; peak = max_ℤ c.peak c.cur }),
    )

demand_shape :
    (e : Engine) (id : String) (m : ℕ) → lookup id e.models ≡ some m → demand e id ≡ demanded e m
unfolding demand
demand_shape e id m h = rw (h, demand) refl

-- On every trace from a new engine on which no request has followed its model onto another counter:
-- `Demand` reports for a loaded model the number of requests that wait for it or run on it, and as the
-- peak the larger of that number and the recorded peak; a second call at once reports the number as
-- the peak, too.
pub demand_exact :
    {w : World} (id : String) (m : ℕ)
    → Reach start w
    → w.strayed ≡ false
    → lookup id w.engine.models ≡ some m
    → let l = (w.engine.entries m).load in
      let n = sum_of (load_share l) w.requests in
      ((demand w.engine id).1
        ≡ some (record { now = pos n; peak = max_ℤ (w.engine.loads l).peak (pos n) }))
      × ((demand (demand w.engine id).0 id).1 ≡ some (record { now = pos n; peak = pos n }))
demand_exact {w} id m r s h =
    let i = Reach-Inv r in
    let c = (Reach-Exact r s).cur (w.engine.entries m).load (i.loads m (i.models id m h)) in
    rw (demand_shape w.engine id m h, demand_shape (demanded w.engine m).0 id m h)
      (ground (arith, c), ground (arith, c))

-- A request that followed its model onto another demand counter than the one it was counted on: its end
-- takes one from the counter of the entry, which never counted it, and leaves its own where it is.
pub stray_finish :
    (e : Engine) (r : Request)
    → (e.entries r.entry).load ≢ r.load
    → ((finish e r).0.loads r.load ≡ e.loads r.load)
      × (((finish e r).0.loads (e.entries r.entry).load).cur
          ≡ (e.loads (e.entries r.entry).load).cur +ℤ negsuc 0)
unfolding finish
stray_finish e r h = ground arith
