-- ===== src/Engine/World/Books.antt =====
-- internal/engine/engine.go: the counts of the engine against its requests, step by step.
use flockd.Base.{
  ℕ, ◌≤◌, ◌<◌, ◌≡◌, refl, ◌∙◌, inl, inr, List, [], ◌∷◌, some, String, arith, sum_of, sum_of-set,
  le-sum_of, All, All-set, All-get, All-map, get_elem?, set,
}
use flockd.Base.Dict.{lookup}
use flockd.Engine.{Engine, new}
use flockd.Engine.Requests.{Request}
use flockd.Engine.World.{RegistryStep, RequestStep}
use flockd.Engine.World.Balance.{
  entry_share, slot_share, load_share, run_share, Covers, Balanced, Step-Balanced,
}
use flockd.Engine.World.Place.{Step-Placed}
use flockd.Engine.World.Registry.{Grown, Step-Grown}

abbrev pub Below : Engine → Request → Type 0
Below e r = (r.entry < e.next_entry) × (r.load < e.next_load)

pub record Inv (e : Engine) (rs : List Request) : Type 0 where
  pub inflight : (i : ℕ) → i < e.next_entry → (e.entries i).inflight ≡ sum_of (entry_share i) rs
  pub gate :
      (i : ℕ)
      → i < e.next_entry
      → 0 < (e.entries i).slots
      → (e.entries i).gate ≡ sum_of (slot_share i) rs
  pub bound : (i : ℕ) → i < e.next_entry → (e.entries i).gate ≤ (e.entries i).slots
  pub started : e.started ≡ sum_of run_share rs
  pub requests : All (Below e) rs
  pub models : (k : String) (m : ℕ) → lookup k e.models ≡ some m → m < e.next_entry
  pub keys : (k : String) (m : ℕ) → lookup k e.models ≡ some m → (e.entries m).spec.id ≡ k
  pub loads : (i : ℕ) → i < e.next_entry → (e.entries i).load < e.next_load

pub start-Inv : Inv new []
unfolding new lookup
start-Inv = record {
  inflight = λ i h. refl;
  gate = λ i h s. refl;
  bound = λ i h. omega arith;
  started = refl;
  requests = tt;
  models = λ k m h. cc;
  keys = λ k m h. cc;
  loads = λ i h. absurd (omega arith);
}

-- Addresses that are not in use yet have no shares.
fresh-entry_share :
    (e : Engine) (i : ℕ) (rs : List Request)
    → e.next_entry ≤ i
    → All (Below e) rs
    → sum_of (entry_share i) rs ≡ 0
fresh-entry_share e i [] h a = refl
fresh-entry_share e i (r ∷ rs) h a = ground (arith, fresh-entry_share e i rs h a.1)

fresh-slot_share :
    (e : Engine) (i : ℕ) (rs : List Request)
    → e.next_entry ≤ i
    → All (Below e) rs
    → sum_of (slot_share i) rs ≡ 0
fresh-slot_share e i [] h a = refl
fresh-slot_share e i (r ∷ rs) h a = ground (arith, fresh-slot_share e i rs h a.1)

pub fresh-load_share :
    (e : Engine) (l : ℕ) (rs : List Request)
    → e.next_load ≤ l
    → All (Below e) rs
    → sum_of (load_share l) rs ≡ 0
fresh-load_share e l [] h a = refl
fresh-load_share e l (r ∷ rs) h a = ground (arith, fresh-load_share e l rs h a.1)

module _ {e : Engine} {rs : List Request} (v : Inv e rs) where
  module _ (e' : Engine) (st : RegistryStep e e') where
    grown : (i l : ℕ) (k : String) → Grown e e' i l k
    grown i l k = Step-Grown e v.models v.loads i l k e' st

    registry-models : (k : String) (m : ℕ) → lookup k e'.models ≡ some m → m < e'.next_entry
    registry-models k m h = elim ((grown m 0 k).models m h) [
      | inl old ↦ omega (arith, v.models k m old, (grown m 0 k).next_entry)
      | inr (_, q, _) ↦ q
    ]

    registry-keys : (k : String) (m : ℕ) → lookup k e'.models ≡ some m → (e'.entries m).spec.id ≡ k
    registry-keys k m h = elim ((grown m 0 k).models m h) [
      | inl old ↦ rw ((grown m 0 k).spec (v.models k m old)) (v.keys k m old)
      | inr (_, _, q) ↦ q
    ]

    pub registry-Inv : Inv e' rs
    registry-Inv = record {
      inflight = λ i h.
          let g = grown i 0 "" in
          ground (arith, g.inflight, g.fresh_inflight, v.inflight i, fresh-entry_share e i rs);
      gate = λ i h s.
          let g = grown i 0 "" in
          ground
            (arith, g.gate, g.slots, g.fresh_gate, v.gate i, fresh-slot_share e i rs, v.requests);
      bound =
          λ i h. let g = grown i 0 "" in ground (arith, g.gate, g.slots, g.fresh_gate, v.bound i);
      started = (grown 0 0 "").started ∙ v.started;
      requests =
          All-map (Below e) (Below e') rs
            (λ r b. (
              omega (arith, b.0, (grown 0 0 "").next_entry),
              omega (arith, b.1, (grown 0 0 "").next_load),
            ))
            v.requests;
      models = registry-models;
      keys = registry-keys;
      loads = λ i h.
          let g = grown i 0 "" in ground (arith, g.load, g.fresh_load, v.loads i, g.next_load);
    }

  module _ (i : ℕ) (r : Request) (found : get_elem? rs i ≡ some r) where
    pub covered : (j : ℕ) → j < e.next_entry → Covers e r j
    covered j h = record {
      inflight = omega (arith, v.inflight j h, le-sum_of (entry_share j) rs i r found);
      gate = λ s. omega (arith, v.gate j h s, le-sum_of (slot_share j) rs i r found);
      bound = v.bound j h;
      started = omega (arith, v.started, le-sum_of run_share rs i r found);
    }

    module _ (q : Engine × Request) (st : RequestStep e r q) where
      abbrev pub balanced : (j : ℕ) → j < e.next_entry → Balanced e r q j
      balanced j h = Step-Balanced j (covered j h) q st

      -- The entry that the request holds, at which the global fields are read.
      abbrev here_balanced : Balanced e r q r.entry
      here_balanced = balanced r.entry (All-get (Below e) rs i r v.requests found).0

      acts-Below : Below q.0 q.1
      acts-Below =
          let b = here_balanced in
          let (p, p') = All-get (Below e) rs i r v.requests found in
          elim (Step-Placed e r q st) [
            | inl (same, _) ↦
                (omega (arith, b.next_entry, same, p), omega (arith, b.next_load, b.load, p'))
            | inr (k, h) ↦ (
              omega (arith, b.next_entry, v.models k q.1.entry h),
              omega (arith, b.next_load, b.load, p'),
            )
          ]

      pub acts-Inv : Inv q.0 (set rs i q.1)
      acts-Inv = record {
        inflight = λ j h.
            let b = balanced j (omega (arith, h, here_balanced.next_entry)) in
            omega (
              arith,
              b.inflight,
              v.inflight j (omega (arith, h, b.next_entry)),
              sum_of-set (entry_share j) rs i r q.1 found,
            );
        gate = λ j h s.
            let b = balanced j (omega (arith, h, here_balanced.next_entry)) in
            omega (
              arith,
              b.gate (omega (arith, b.slots, s)),
              v.gate j (omega (arith, h, b.next_entry)) (omega (arith, b.slots, s)),
              sum_of-set (slot_share j) rs i r q.1 found,
            );
        bound = λ j h.
            let b = balanced j (omega (arith, h, here_balanced.next_entry)) in
            omega (arith, b.bound, b.slots);
        started =
            omega (arith, here_balanced.started, v.started, sum_of-set run_share rs i r q.1 found);
        requests =
            All-set (Below q.0) rs i q.1
              (All-map (Below e) (Below q.0) rs
                (λ r b. (
                  omega (arith, b.0, here_balanced.next_entry),
                  omega (arith, b.1, here_balanced.next_load),
                ))
                v.requests)
              acts-Below;
        models = λ k m h.
            omega (arith, v.models k m (rw (← here_balanced.models) h), here_balanced.next_entry);
        keys = λ k m h.
            let old = let o : lookup k e.models ≡ some m = rw (← here_balanced.models) h in o in
            rw ((balanced m (v.models k m old)).specs) (v.keys k m old);
        loads = λ j h.
            let b = balanced j (omega (arith, h, here_balanced.next_entry)) in
            omega (arith, b.loads, b.next_load, v.loads j (omega (arith, h, b.next_entry)));
      }
