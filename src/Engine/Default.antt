-- ===== src/Engine/Default.antt =====
-- internal/engine/engine.go: the default model, and its election when the default is removed.
use flockd.Base.{
  ℕ, ◌≤◌, ◌≡◌, ◌≢◌, ◌⊎◌, refl, subst, ap, inl, inr, true, false, [], ◌∷◌, none, some, String, arith,
  Bool-cases, eq_iff, str_eq,
}
use flockd.Base.Dict.{Dict, lookup, delete, lookup-delete, Distinct, delete-Distinct}
use flockd.Engine.{Engine, ModelEntry, Candidate, chat_model, elect, consider, beats, remove_locked}

-- What the loop over the models has elected, from a candidate on.
pub record Elected (entries : ℕ → ModelEntry) (ms : Dict ℕ) (c r : Candidate) : Type 0 where
  pub winner :
      (r ≡ c)
      ⊎ ((m : ℕ) × (lookup r.id ms ≡ some m)
          × (chat_model (entries m).spec ≡ true)
          × (r.oldest ≡ (entries m).loaded_at))
  pub oldest :
      (k : String) (m : ℕ)
      → lookup k ms ≡ some m
      → chat_model (entries m).spec ≡ true
      → (r.id ≢ "") × (r.oldest ≤ (entries m).loaded_at)
  pub no_younger : c.id ≢ "" → (r.id ≢ "") × (r.oldest ≤ c.oldest)

consider_cases :
    (id : String) (m : ModelEntry) (c : Candidate)
    → ((consider id m c ≡ c) × (chat_model m.spec ≡ true → (c.id ≢ "") × (c.oldest ≤ m.loaded_at)))
      ⊎ ((consider id m c ≡ record { id = id; oldest = m.loaded_at })
          × (chat_model m.spec ≡ true)
          × (c.id ≢ "" → m.loaded_at ≤ c.oldest))
consider_cases id m c = elim (Bool-cases (chat_model m.spec)) [
  | inr other ↦ inl (ground arith, λ p. cc)
  | inl chat ↦ elim (Bool-cases (beats id m c)) [
    | inl win ↦ inr (ground arith, chat, λ p. ground (arith, eq_iff c.id ""))
    | inr lose ↦ inl (ground arith, λ p. (ground (arith, eq_iff c.id ""), ground arith))
  ]
]

module _ (entries : ℕ → ModelEntry) where
  -- A key of the rest is a key of the whole.
  lookup_tail :
      (id k : String) (m n : ℕ) (ms : Dict ℕ)
      → lookup id ms ≡ none
      → lookup k ms ≡ some n
      → lookup k ((id, m) ∷ ms) ≡ some n
  unfolding lookup
  lookup_tail id k m n ms fresh h = elim (Bool-cases (str_eq id k)) [
    | inl e ↦ cc (rw ((eq_iff id k).0 e) at fresh)
    | inr e ↦ rw e h
  ]

  lookup_head : (id : String) (m : ℕ) (ms : Dict ℕ) → lookup id ((id, m) ∷ ms) ≡ some m
  unfolding lookup
  lookup_head id m ms = ground (arith, eq_iff id id)

  lookup-cons :
      (id k : String) (m n : ℕ) (ms : Dict ℕ)
      → lookup k ((id, m) ∷ ms) ≡ some n
      → (m ≡ n) ⊎ (lookup k ms ≡ some n)
  unfolding lookup
  lookup-cons id k m n ms h = ground arith

  module _ (id : String) (m : ℕ) (ms : Dict ℕ) (c r : Candidate) (named : id ≢ "")
      (fresh : lookup id ms ≡ none) where
    passed-Elected :
        (chat_model (entries m).spec ≡ true → (c.id ≢ "") × (c.oldest ≤ (entries m).loaded_at))
        → Elected entries ms c r
        → Elected entries ((id, m) ∷ ms) c r
    passed-Elected lose i = record {
      winner = elim i.winner [
        | inl e ↦ inl e
        | inr (n, h, chat, o) ↦ inr (n, lookup_tail id r.id m n ms fresh h, chat, o)
      ];
      oldest = λ k n h chat. elim (lookup-cons id k m n ms h) [
        | inl e ↦ ground (arith, i.no_younger)
        | inr e ↦ i.oldest k n e chat
      ];
      no_younger = i.no_younger;
    }

    won-Elected :
        chat_model (entries m).spec ≡ true
        → (c.id ≢ "" → (entries m).loaded_at ≤ c.oldest)
        → Elected entries ms (record { id = id; oldest = (entries m).loaded_at }) r
        → Elected entries ((id, m) ∷ ms) c r
    won-Elected chat older i = record {
      winner = elim i.winner [
        | inl e ↦ inr (m, rw e (lookup_head id m ms), chat, rw e refl)
        | inr (n, h, chat', o) ↦ inr (n, lookup_tail id r.id m n ms fresh h, chat', o)
      ];
      oldest = λ k n h chat. elim (lookup-cons id k m n ms h) [
        | inl e ↦ ground (arith, i.no_younger)
        | inr e ↦ i.oldest k n e chat
      ];
      no_younger = λ h. ground (arith, i.no_younger);
    }

    step-Elected :
        Elected entries ms (consider id (entries m) c) r → Elected entries ((id, m) ∷ ms) c r
    step-Elected i = elim (consider_cases id (entries m) c) [
      | inl (same, lose) ↦ passed-Elected lose (subst (λ x. Elected entries ms x r) same i)
      | inr (same, chat, older) ↦
          won-Elected chat older (subst (λ x. Elected entries ms x r) same i)
    ]

  pub elect-Elected :
      (ms : Dict ℕ) (c : Candidate)
      → Distinct ms
      → lookup "" ms ≡ none
      → Elected entries ms c (elect entries ms c)
  unfolding elect lookup
  elect-Elected [] c d n = record {
    winner = inl refl;
    oldest = λ k m h. cc;
    no_younger = λ h. (h, omega arith);
  }
  elect-Elected ((id, m) ∷ ms) c d n =
      step-Elected id m ms c (elect entries ms (consider id (entries m) c))
        (ground (arith, eq_iff id "")) d.0
        (elect-Elected ms (consider id (entries m) c) d.1 (ground (arith)))

abbrev id_of : Candidate → String
id_of c = c.id

-- Where the default model is removed, the longest-loaded chat model takes over: it is one of the models
-- that are left, and no other of them was loaded before it; if no chat model is left there is no
-- default. The models stand once each, and none has the empty id.
pub elects_oldest :
    (e : Engine)
    → Distinct e.models
    → lookup "" e.models ≡ none
    → let e' = remove_locked e e.default_id in
      ((m : ℕ) × (lookup e'.default_id e'.models ≡ some m)
        × (chat_model (e.entries m).spec ≡ true)
        × ((k : String) (n : ℕ)
            → lookup k e'.models ≡ some n
            → chat_model (e.entries n).spec ≡ true
            → (e.entries m).loaded_at ≤ (e.entries n).loaded_at))
      ⊎ ((e'.default_id ≡ "")
          × ((k : String) (n : ℕ)
              → lookup k e'.models ≡ some n
              → chat_model (e.entries n).spec ≡ false))
unfolding remove_locked
elects_oldest e d n =
    let v =
      elect-Elected e.entries (delete e.default_id e.models) (record { id = ""; oldest = 0 })
        (delete-Distinct e.default_id e.models d)
        (ground (arith, lookup-delete e.default_id "" e.models)) in
    rw ((eq_iff e.default_id e.default_id).1 refl) (elim v.winner [
      | inr (m, h, chat, o) ↦
          inl (m, h, chat, λ k l h' chat'. omega (arith, o, (v.oldest k l h' chat').1))
      | inl same ↦ inr (
        ap id_of same,
        λ k l h. elim (Bool-cases (chat_model (e.entries l).spec)) [
          | inl chat ↦ absurd ((v.oldest k l h chat).0 (ap id_of same))
          | inr other ↦ other
        ],
      )
    ])
