-- ===== src/Engine/Listed.antt =====
-- internal/engine/engine.go: the registry's calls, and what they do to the default model.
use flockd.Base.{
  ℕ, ◌<◌, ◌≡◌, ◌≢◌, ◌⊎◌, refl, ap, ◌∙◌, inl, inr, true, false, none, some, String, arith,
  Option-cases, Bool-cases, ltb, eq_iff, str_eq,
}
use flockd.Base.Dict.{
  lookup, delete, lookup-delete, lookup-insert, Distinct, delete-Distinct, insert-Distinct,
}
use flockd.Engine.{
  Engine, ModelSpec, chat_model, remove_locked, register_slots, replace, unregister,
  unregister_idle, set_default, demand,
}
use flockd.Engine.Default.{elects_oldest}
use flockd.Engine.World.{
  RegistryStep, registers, replaces, unregisters, unregisters_idle, sets_default, demands,
}

pub record Listed (e : Engine) : Type 0 where
  pub distinct : Distinct e.models
  pub named : lookup "" e.models ≡ none
  pub below : (k : String) (m : ℕ) → lookup k e.models ≡ some m → m < e.next_entry
  pub default :
      (e.default_id ≡ "")
      ⊎ ((m : ℕ) × (lookup e.default_id e.models ≡ some m) × (chat_model (e.entries m).spec ≡ true))

-- What the daemon asks of the registry, which checks none of it: a model that it registers has an id and
-- is not loaded over another of the same id, and a resize keeps the kind of the model.
abbrev pub Fits : {e e' : Engine} → RegistryStep e e' → Type 0
Fits {e} (registers s k n now) = (s.id ≢ "") × (lookup s.id e.models ≡ none)
Fits {e} (replaces s k n) =
    (m : ℕ) → lookup s.id e.models ≡ some m → chat_model s ≡ chat_model (e.entries m).spec
Fits (unregisters id) = Unit
Fits (unregisters_idle id) = Unit
Fits (sets_default id) = Unit
Fits (demands id) = Unit

-- A default that is loaded is not the empty id.
default_named :
    {e : Engine} (l : Listed e) (m : ℕ)
    → lookup e.default_id e.models ≡ some m
    → str_eq e.default_id "" ≡ false
default_named {e} l m h = elim (Bool-cases (str_eq e.default_id "")) [
  | inr other ↦ other
  | inl same ↦ cc (rw ((eq_iff e.default_id "").0 same) at h, l.named)
]

module _ {e : Engine} (l : Listed e) where
  register_slots-default :
      (s : ModelSpec) (k n now : ℕ)
      → lookup s.id e.models ≡ none
      → let e' = register_slots e s k n now in
        (e'.default_id ≡ "")
        ⊎ ((m : ℕ) × (lookup e'.default_id e'.models ≡ some m)
            × (chat_model (e'.entries m).spec ≡ true))
  unfolding register_slots
  register_slots-default s k n now fresh = elim l.default [
    | inl none_yet ↦ elim (Bool-cases (chat_model s)) [
      | inl chat ↦ inr (
        e.next_entry,
        rw (none_yet, chat)
            (ground (
              arith,
              lookup-insert s.id s.id e.next_entry e.models,
              eq_iff s.id s.id,
              eq_iff "" "",
            )),
        ground arith,
      )
      | inr other ↦ inl (rw other (ground arith))
    ]
    | inr (m, h, chat) ↦ inr (
      m,
      rw (default_named l m h) (
          ground (
            arith,
            lookup-insert s.id e.default_id e.next_entry e.models,
            eq_iff s.id e.default_id,
          )),
      ground (arith, l.below e.default_id m h),
    )
  ]

  register_slots-Listed :
      (s : ModelSpec) (k n now : ℕ)
      → s.id ≢ ""
      → lookup s.id e.models ≡ none
      → Listed (register_slots e s k n now)
  unfolding register_slots
  register_slots-Listed s k n now named fresh = record {
    distinct = insert-Distinct s.id e.next_entry e.models l.distinct;
    named = ground (arith, l.named, lookup-insert s.id "" e.next_entry e.models, eq_iff s.id "");
    below = λ j m h. ground (arith, l.below j m, lookup-insert s.id j e.next_entry e.models);
    default = register_slots-default s k n now fresh;
  }

  replaced-Listed :
      (s : ModelSpec) (k n old : ℕ)
      → lookup s.id e.models ≡ some old
      → chat_model s ≡ chat_model (e.entries old).spec
      → Listed (replace e s k n).0
  unfolding replace
  replaced-Listed s k n old h kind =
      rw (h, replace)
        (record {
          distinct = insert-Distinct s.id e.next_entry e.models l.distinct;
          named =
              ground (arith, l.named, lookup-insert s.id "" e.next_entry e.models, eq_iff s.id "");
          below = λ j m p. ground (arith, l.below j m, lookup-insert s.id j e.next_entry e.models);
          default = elim l.default [
            | inl none_yet ↦ inl none_yet
            | inr (m, p, chat) ↦ elim (Bool-cases (str_eq s.id e.default_id)) [
              | inl same ↦
                  let q : s.id ≡ e.default_id = (eq_iff s.id e.default_id).0 same in
                  inr (
                    e.next_entry,
                    ground (arith, lookup-insert s.id e.default_id e.next_entry e.models),
                    ground (arith, h, p, ap (λ k. lookup k e.models) q),
                  )
              | inr other ↦ inr (
                m,
                ground (arith, lookup-insert s.id e.default_id e.next_entry e.models),
                ground (arith, l.below e.default_id m p),
              )
            ]
          ];
        })

  replace-Listed :
      (s : ModelSpec) (k n : ℕ)
      → ((m : ℕ) → lookup s.id e.models ≡ some m → chat_model s ≡ chat_model (e.entries m).spec)
      → Listed (replace e s k n).0
  unfolding replace
  replace-Listed s k n kind = elim (Option-cases (lookup s.id e.models)) [
    | inl h ↦ rw (h, replace) l
    | inr (m, h) ↦ replaced-Listed s k n m h (kind m h)
  ]

  spec-remove_locked :
      (id : String) (m : ℕ) → ((remove_locked e id).entries m).spec ≡ (e.entries m).spec
  unfolding remove_locked
  spec-remove_locked id m = ground arith

  kept-default :
      (id : String)
      → str_eq e.default_id id ≡ false
      → (remove_locked e id).default_id ≡ e.default_id
  unfolding remove_locked
  kept-default id other = rw other refl

  lookup-remove_locked :
      (id : String) (k : String)
      → lookup k (remove_locked e id).models ≡ lookup k (delete id e.models)
  unfolding remove_locked
  lookup-remove_locked id k = refl

  remove_locked-default :
      (id : String)
      → let e' = remove_locked e id in
        (e'.default_id ≡ "")
        ⊎ ((m : ℕ) × (lookup e'.default_id e'.models ≡ some m)
            × (chat_model (e'.entries m).spec ≡ true))
  remove_locked-default id = elim (Bool-cases (str_eq e.default_id id)) [
    | inl same ↦ rw (← (eq_iff e.default_id id).0 same) (elim (elects_oldest e l.distinct l.named) [
      | inl (m, h, chat, _) ↦ inr (m, h, ap chat_model (spec-remove_locked e.default_id m) ∙ chat)
      | inr (empty, _) ↦ inl empty
    ])
    | inr other ↦ elim l.default [
      | inl none_yet ↦ inl (kept-default id other ∙ none_yet)
      | inr (m, h, chat) ↦ inr (
        m,
        rw (kept-default id other, lookup-remove_locked id e.default_id)
            (ground (
              arith,
              lookup-delete id e.default_id e.models,
              eq_iff id e.default_id,
              eq_iff e.default_id id,
            )),
        ap chat_model (spec-remove_locked id m) ∙ chat,
      )
    ]
  ]

  remove_locked-Listed : (id : String) → Listed (remove_locked e id)
  unfolding remove_locked
  remove_locked-Listed id = record {
    distinct = delete-Distinct id e.models l.distinct;
    named = ground (arith, l.named, lookup-delete id "" e.models);
    below = λ k m h. ground (arith, l.below k m, lookup-delete id k e.models);
    default = remove_locked-default id;
  }

  unregister_idle-Listed : (id : String) → Listed (unregister_idle e id).0
  unfolding unregister_idle
  unregister_idle-Listed id = elim (Option-cases (lookup id e.models)) [
    | inl h ↦ rw (h, unregister_idle) l
    | inr (m, h) ↦ elim (Bool-cases (ltb 0 (e.entries m).inflight)) [
      | inl busy ↦ rw (h, unregister_idle) (rw busy l)
      | inr idle ↦ rw (h, unregister_idle) (rw idle (remove_locked-Listed id))
    ]
  ]

  set_default-Listed : (id : String) → Listed (set_default e id).0
  unfolding set_default chat_model
  set_default-Listed id = elim (Option-cases (lookup id e.models)) [
    | inl h ↦ rw (h, set_default) l
    | inr (m, h) ↦ elim (Bool-cases (e.entries m).spec.decision) [
      | inl d ↦ rw (h, set_default) (rw d l)
      | inr d ↦ elim (Bool-cases (e.entries m).spec.embeddings) [
        | inl b ↦ rw (h, set_default) (rw (d, b) l)
        | inr b ↦
            rw (h, set_default)
              (rw (d, b)
                (record {
                  distinct = l.distinct;
                  named = l.named;
                  below = l.below;
                  default = inr (m, h, ground arith);
                }))
      ]
    ]
  ]

  demand-Listed : (id : String) → Listed (demand e id).0
  unfolding demand
  demand-Listed id = elim (Option-cases (lookup id e.models)) [
    | inl h ↦ rw (h, demand) l
    | inr (m, h) ↦
        rw (h, demand)
          (record { distinct = l.distinct; named = l.named; below = l.below; default = l.default })
  ]

  pub Step-Listed : {e' : Engine} (st : RegistryStep e e') → Fits st → Listed e'
  unfolding unregister
  Step-Listed (registers s k n now) f = register_slots-Listed s k n now f.0 f.1
  Step-Listed (replaces s k n) f = replace-Listed s k n f
  Step-Listed (unregisters id) f = remove_locked-Listed id
  Step-Listed (unregisters_idle id) f = unregister_idle-Listed id
  Step-Listed (sets_default id) f = set_default-Listed id
  Step-Listed (demands id) f = demand-Listed id
