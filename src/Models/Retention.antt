-- ===== src/Models/Retention.antt =====
-- internal/models/manager.go: `Retain`.
use flockd.Base.{
  ℕ, ◌+◌, ◌*◌, ◌<◌, ◌≡◌, refl, ◌∙◌, inl, inr, Bool, true, false, ◌&&◌, ◌||◌, not, List, [], ◌∷◌,
  Option, none, some, String, ltb, leb, str_eq, eq_iff, arith, if◌then◌else◌, Bool-cases,
}
use flockd.Base.Dict.{Dict, lookup, delete, lookup-delete, Distinct, has_id}
use flockd.Models.{Manager, Entry, evicted_unused, save, tell, is_ready, remove_files, drop_entry}

abbrev pub day : ℕ
day = 86_400_000_000_000

-- `LastUsed` before the cutoff, which lies `days` days before now; times are nanoseconds.
abbrev pub is_victim : (String → Bool) → ℕ → ℕ → String × Entry → Bool
is_victim loaded days now (id, e) =
    not e.pinned && is_ready e && ltb (e.last_used + days * day) now && not (loaded id)

unfoldable pub victims : (String → Bool) → ℕ → ℕ → Dict Entry → List String
victims loaded days now [] = []
victims loaded days now (p ∷ ps) =
    let rest = victims loaded days now ps in
    if is_victim loaded days now p then p.0 ∷ rest else rest

-- What cannot be removed is passed over.
unfoldable pub retire : (String → Bool) → Manager → List String → Manager × List String
unfolding remove_files delete
retire deletable m [] = (m, [])
retire deletable m (id ∷ ids) =
    let (m', ok) = remove_files deletable m id in
    let gone = retire deletable (drop_entry m' id) ids in
    let kept = retire deletable m ids in if ok then (gone.0, id ∷ gone.1) else kept

unfoldable pub report_all : Manager → List String → Manager
report_all m [] = m
report_all m (id ∷ ids) = report_all (tell m (evicted_unused id)) ids

abbrev pub saved_if_any : Manager → List String → Manager
saved_if_any m [] = m
saved_if_any m (id ∷ ids) = save m

-- `Retain`, with the ids that it evicts.
unfoldable pub retain : (String → Bool) → (String → Bool) → Manager → ℕ → Manager × List String
unfolding victims retire report_all
retain loaded deletable m now =
    let (m', ids) = retire deletable m (victims loaded m.retention_days now m.entries) in
    if leb m.retention_days 0 then (m, []) else (report_all (saved_if_any m' ids) ids, ids)

report_all_entries : (m : Manager) (ids : List String) → (report_all m ids).entries ≡ m.entries
unfolding report_all
report_all_entries m [] = refl
report_all_entries m (id ∷ ids) = report_all_entries (tell m (evicted_unused id)) ids

saved_entries : (m : Manager) (ids : List String) → (saved_if_any m ids).entries ≡ m.entries
saved_entries m [] = refl
saved_entries m (id ∷ ids) = refl

module _ (deletable : String → Bool) where
  abbrev without : Manager → String → Manager
  without m id = drop_entry (record m { disk = λ j. if str_eq id j then false else m.disk j }) id

  remove_files_ok :
      (m : Manager) (id : String)
      → deletable id ≡ true
      → remove_files deletable m id
        ≡ (record m { disk = λ j. if str_eq id j then false else m.disk j }, true)
  unfolding remove_files
  remove_files_ok m id e = rw e refl

  remove_files_bad :
      (m : Manager) (id : String) → deletable id ≡ false → remove_files deletable m id ≡ (m, false)
  unfolding remove_files
  remove_files_bad m id e = rw e refl

  -- An entry goes exactly when its id is reported.
  lookup-retire :
      (m : Manager) (ids : List String) (j : String)
      → (lookup j (retire deletable m ids).0.entries
          ≡ (if has_id j (retire deletable m ids).1 then none else lookup j m.entries))
        × (has_id j (retire deletable m ids).1 ≡ has_id j ids && deletable j)
  unfolding retire has_id
  lookup-retire m [] j = (refl, refl)
  lookup-retire m (id ∷ ids) j = elim (Bool-cases (deletable id)) [
    | inl ok ↦ rw (remove_files_ok m id ok) (
        ground (
          arith,
          lookup-retire (without m id) ids j,
          lookup-delete id j m.entries,
          eq_iff id j,
          ok,
        ))
    | inr bad ↦
        rw (remove_files_bad m id bad) (ground (arith, lookup-retire m ids j, eq_iff id j, bad))
  ]

-- The policy: a model goes when it is complete, neither pinned nor loaded, and was last used more than so
-- many days ago.
abbrev pub due : (String → Bool) → ℕ → ℕ → String → Option Entry → Bool
due loaded days now j none = false
due loaded days now j (some e) =
    not (e.pinned || loaded j)
    && not (leb now (86_400_000_000_000 * days + e.last_used))
    && is_ready e

has_id-victims :
    (loaded : String → Bool) (days now : ℕ) (ps : Dict Entry) (j : String)
    → Distinct ps
    → has_id j (victims loaded days now ps) ≡ due loaded days now j (lookup j ps)
unfolding victims has_id lookup
has_id-victims loaded days now [] j d = refl
has_id-victims loaded days now ((k, f) ∷ ps) j d =
    ground (arith, has_id-victims loaded days now ps j d.1, d.0, eq_iff k j)

retain_shape :
    (loaded deletable : String → Bool) (m : Manager) (now : ℕ)
    → 0 < m.retention_days
    → ((retain loaded deletable m now).0.entries
        ≡ (retire deletable m (victims loaded m.retention_days now m.entries)).0.entries)
      × ((retain loaded deletable m now).1
          ≡ (retire deletable m (victims loaded m.retention_days now m.entries)).1)
unfolding retain
retain_shape loaded deletable m now pos =
    let on : leb m.retention_days 0 ≡ false = ground (arith, pos) in
    let (m', ids) = retire deletable m (victims loaded m.retention_days now m.entries) in
    rw on (report_all_entries (saved_if_any m' ids) ids ∙ saved_entries m' ids, refl)

-- The retention sweep takes exactly the models that are complete, not pinned, not loaded and unused
-- for longer than the window, but for those whose files cannot be removed; it reports just these, and
-- leaves every other entry as it was.
pub lookup-retain :
    (loaded deletable : String → Bool) (m : Manager) (now : ℕ) (j : String)
    → Distinct m.entries
    → 0 < m.retention_days
    → (lookup j (retain loaded deletable m now).0.entries ≡ (
        if due loaded m.retention_days now j (lookup j m.entries) && deletable j
        then none
        else lookup j m.entries))
      × (has_id j (retain loaded deletable m now).1
          ≡ due loaded m.retention_days now j (lookup j m.entries) && deletable j)
lookup-retain loaded deletable m now j d pos =
    let (entries, ids) = retain_shape loaded deletable m now pos in
    rw (entries, ids)
      (ground (
        arith,
        lookup-retire deletable m (victims loaded m.retention_days now m.entries) j,
        has_id-victims loaded m.retention_days now m.entries j d,
      ))
