-- ===== src/Models/Consent.antt =====
-- internal/models/manager.go: `EnsureArtifact` and the models that others put in the store.
use flockd.Base.{
  ℕ, ◌≡◌, refl, ◌∙◌, inl, inr, ◌⊎◌, Bool, true, false, some, String, str_eq, arith, Bool-cases,
  Option-cases,
}
use flockd.Base.Dict.{
  lookup, insert, delete, lookup-insert, lookup-delete, Distinct, insert-Distinct, delete-Distinct,
}
use flockd.Models.{
  Manager, Entry, Evicted, fits, stuck, over_budget, evict_for, is_mesh, is_ready, ready, mesh,
}
use flockd.Models.Ensure.{
  Spec, Download, arrived, broke, ensure, register, abandon, finish, cached, fetch, settle,
  new_entry,
}
use flockd.Models.Budget.{evict_for-spares}

module _ (m : Manager) (id : String) (now : ℕ) where
  cached-cases :
      ((cached m id now).0.entries ≡ m.entries)
      ⊎ ((e : Entry) × (((cached m id now).0.entries ≡ insert id e m.entries)
            ⊎ ((cached m id now).0.entries ≡ delete id (insert id e m.entries))))
  unfolding cached
  cached-cases = elim (Option-cases (lookup id m.entries)) [
    | inl n ↦ inl (rw n refl)
    | inr (e, l) ↦ elim (Bool-cases (is_ready e)) [
      | inr r ↦ inl (rw (l, r) refl)
      | inl r ↦ elim (Bool-cases (m.disk id)) [
        | inl on ↦ inr (record e { last_used = now }, inl (rw (l, r, on) refl))
        | inr off ↦ inr (record e { last_used = now }, inr (rw (l, r, off) refl))
      ]
    ]
  ]

  cached-Distinct : Distinct m.entries → Distinct (cached m id now).0.entries
  cached-Distinct d = elim cached-cases [
    | inl e ↦ rw e d
    | inr (e, inl f) ↦ rw f (insert-Distinct id e m.entries d)
    | inr (e, inr f) ↦
        rw f (delete-Distinct id (insert id e m.entries) (insert-Distinct id e m.entries d))
  ]

  lookup-cached :
      (j : String) → str_eq id j ≡ false → lookup j (cached m id now).0.entries ≡ lookup j m.entries
  lookup-cached j other = elim cached-cases [
    | inl e ↦ rw e refl
    | inr (e, inl f) ↦ rw f (ground (arith, lookup-insert id j e m.entries))
    | inr (e, inr f) ↦
        rw f (
          ground
            (arith, lookup-insert id j e m.entries, lookup-delete id j (insert id e m.entries)))
  ]

lookup-settle :
    (m : Manager) (spec : Spec) (now : ℕ) (got : Download) (j : String)
    → str_eq spec.id j ≡ false
    → lookup j (settle (register m spec now) spec (new_entry spec now) now got).0.entries
      ≡ lookup j m.entries
unfolding register abandon finish
lookup-settle m spec now broke j other = ground (
  arith,
  lookup-insert spec.id j (new_entry spec now) m.entries,
  lookup-delete spec.id j (insert spec.id (new_entry spec now) m.entries),
)
lookup-settle m spec now (arrived size) j other = ground (
  arith,
  lookup-insert spec.id j (new_entry spec now) m.entries,
  lookup-insert spec.id j
      (record (new_entry spec now) { size = size; last_used = now; state = ready })
      (insert spec.id (new_entry spec now) m.entries),
)

lookup-fetch :
    (spec : Spec) (now : ℕ) (got : Download) (j : String) (q : Manager × Evicted)
    → str_eq spec.id j ≡ false
    → lookup j (fetch spec now got q).0.entries ≡ lookup j q.0.entries
lookup-fetch spec now got j (m, fits) other = lookup-settle m spec now got j other
lookup-fetch spec now got j (m, stuck id) other = refl
lookup-fetch spec now got j (m, over_budget) other = refl

-- A download for the mesh, however it ends, leaves each other model that is the operator's or pinned
-- in the store.
pub ensure-spares :
    (valid deletable : String → Bool) (m : Manager) (spec : Spec) (now : ℕ) (got : Download)
    (j : String) (e : Entry)
    → Distinct m.entries
    → spec.origin ≡ mesh
    → str_eq spec.id j ≡ false
    → lookup j m.entries ≡ some e
    → (e.pinned ≡ true) ⊎ (is_mesh e.origin ≡ false)
    → lookup j (ensure valid deletable m spec now got).0.entries ≡ some e
unfolding ensure
ensure-spares valid deletable m spec now got j e d o other l kept =
    let m' = (cached m spec.id now).0 in
    let l' : lookup j m'.entries ≡ some e = lookup-cached m spec.id now j other ∙ l in
    let room = evict_for deletable m' spec.total_bytes (is_mesh (some spec.origin)) in
    let after : lookup j room.0.entries ≡ some e =
      elim (evict_for-spares deletable m' spec.total_bytes (is_mesh (some spec.origin))
        (cached-Distinct m spec.id now d) j) [
          | inl same ↦ same ∙ l'
          | inr (gone, x, lx, r, p, mine) ↦ ground (arith, kept, lx, l', p, mine, o)
        ] in
    elim (Bool-cases (valid spec.id)) [
      | inr bad ↦ rw bad l
      | inl good ↦ elim (Bool-cases spec.has_artifact) [
        | inr nothing ↦ rw (good, nothing) l
        | inl there ↦ elim (Bool-cases ((cached m spec.id now).1)) [
          | inl have ↦ rw (good, there, have) l'
          | inr miss ↦ rw (good, there, miss) (lookup-fetch spec now got j room other ∙ after)
        ]
      ]
    ]
