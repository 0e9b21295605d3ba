-- ===== src/Engine/World/Registry.antt =====
-- internal/engine/engine.go: what a call on the registry does to entries and demand counters.
use flockd.Base.{
  ℕ, ◌≤◌, ◌<◌, ◌≡◌, ◌⊎◌, refl, inl, inr, some, String, arith, eq_iff, Option-cases, Bool-cases, ltb,
}
use flockd.Base.Dict.{lookup, lookup-insert, lookup-delete}
use flockd.Base.Int.{pos}
use flockd.Engine.{
  Engine, ModelSpec, register_slots, replace, remove_locked, unregister, unregister_idle,
  set_default, demand,
}
use flockd.Engine.World.{
  RegistryStep, registers, replaces, unregisters, unregisters_idle, sets_default, demands,
}

-- At an address `i` of an entry, an address `l` of a counter, and a key `k`.
pub record Grown (e e' : Engine) (i l : ℕ) (k : String) : Type 0 where
  pub inflight : i < e.next_entry → (e'.entries i).inflight ≡ (e.entries i).inflight
  pub gate : i < e.next_entry → (e'.entries i).gate ≡ (e.entries i).gate
  pub slots : i < e.next_entry → (e'.entries i).slots ≡ (e.entries i).slots
  pub load : i < e.next_entry → (e'.entries i).load ≡ (e.entries i).load
  pub spec : i < e.next_entry → (e'.entries i).spec ≡ (e.entries i).spec
  pub fresh_inflight : e.next_entry ≤ i → i < e'.next_entry → (e'.entries i).inflight ≡ 0
  pub fresh_gate : e.next_entry ≤ i → i < e'.next_entry → (e'.entries i).gate ≡ 0
  pub fresh_load : e.next_entry ≤ i → i < e'.next_entry → (e'.entries i).load < e'.next_load
  pub cur : l < e.next_load → (e'.loads l).cur ≡ (e.loads l).cur
  pub fresh_cur : e.next_load ≤ l → l < e'.next_load → (e'.loads l).cur ≡ pos 0
  pub next_entry : e.next_entry ≤ e'.next_entry
  pub next_load : e.next_load ≤ e'.next_load
  pub started : e'.started ≡ e.started
  pub models :
      (m : ℕ)
      → lookup k e'.models ≡ some m
      → (lookup k e.models ≡ some m)
        ⊎ ((e.next_entry ≤ m) × (m < e'.next_entry) × ((e'.entries m).spec.id ≡ k))

module _ (e : Engine) (below : (k : String) (m : ℕ) → lookup k e.models ≡ some m → m < e.next_entry)
    (loads : (i : ℕ) → i < e.next_entry → (e.entries i).load < e.next_load) (i l : ℕ)
    (k : String) where
  same-Grown : Grown e e i l k
  same-Grown = record {
    inflight = λ h. refl;
    gate = λ h. refl;
    slots = λ h. refl;
    load = λ h. refl;
    spec = λ h. refl;
    fresh_inflight = λ p q. absurd (omega arith);
    fresh_gate = λ p q. absurd (omega arith);
    fresh_load = λ p q. absurd (omega arith);
    cur = λ h. refl;
    fresh_cur = λ p q. absurd (omega arith);
    next_entry = omega arith;
    next_load = omega arith;
    started = refl;
    models = λ m h. inl h;
  }

  register_slots-Grown : (s : ModelSpec) (n c now : ℕ) → Grown e (register_slots e s n c now) i l k
  unfolding register_slots
  register_slots-Grown s n c now =
      ground (arith, lookup-insert s.id k e.next_entry e.models, eq_iff s.id k)

  replace-Grown : (s : ModelSpec) (n c : ℕ) → Grown e (replace e s n c).0 i l k
  unfolding replace
  replace-Grown s n c = elim (Option-cases (lookup s.id e.models)) [
    | inl h ↦ rw (h, replace) same-Grown
    | inr (m, h) ↦
        rw (h, replace)
          (ground (
            arith,
            below s.id m h,
            loads m,
            lookup-insert s.id k e.next_entry e.models,
            eq_iff s.id k,
          ))
  ]

  remove_locked-Grown : (id : String) → Grown e (remove_locked e id) i l k
  unfolding remove_locked
  remove_locked-Grown id = ground (arith, lookup-delete id k e.models)

  unregister_idle-Grown : (id : String) → Grown e (unregister_idle e id).0 i l k
  unfolding unregister_idle
  unregister_idle-Grown id = elim (Option-cases (lookup id e.models)) [
    | inl h ↦ rw (h, unregister_idle) same-Grown
    | inr (m, h) ↦ elim (Bool-cases (ltb 0 (e.entries m).inflight)) [
      | inl busy ↦ rw (h, unregister_idle) (rw busy same-Grown)
      | inr idle ↦ rw (h, unregister_idle) (rw idle (remove_locked-Grown id))
    ]
  ]

  set_default-Grown : (id : String) → Grown e (set_default e id).0 i l k
  unfolding set_default
  set_default-Grown id = ground arith

  demand-Grown : (id : String) → Grown e (demand e id).0 i l k
  unfolding demand
  demand-Grown id = ground arith

  pub Step-Grown : (e' : Engine) → RegistryStep e e' → Grown e e' i l k
  unfolding unregister
  Step-Grown _ (registers s n c now) = register_slots-Grown s n c now
  Step-Grown _ (replaces s n c) = replace-Grown s n c
  Step-Grown _ (unregisters id) = remove_locked-Grown id
  Step-Grown _ (unregisters_idle id) = unregister_idle-Grown id
  Step-Grown _ (sets_default id) = set_default-Grown id
  Step-Grown _ (demands id) = demand-Grown id
