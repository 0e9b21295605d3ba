-- ===== src/Models.antt =====
-- internal/models/manager.go: the model store under its disk budget. The files are known by the ids
-- whose set is complete on disk; bytes are natural numbers.
pub mod Ensure
pub mod Candidates
pub mod Loop
pub mod Budget
pub mod Retention
pub mod Resume
pub mod Consent
pub mod Id
use flockd.Base.{
  ℕ, ◌+◌, ◌-◌, ◌*◌, Bool, true, false, ◌&&◌, ◌||◌, not, List, [], ◌∷◌, Option, none, some, String,
  ltb, leb, str_eq, if◌then◌else◌,
}
use flockd.Base.Dict.{Dict, lookup, insert, delete}

pub data Origin : Type 0 where
  operator mesh : Origin

pub data EntryState : Type 0 where
  downloading ready : EntryState

pub record Entry : Type 0 where
  pub sha256 : String
  pub size : ℕ
  pub pinned : Bool
  pub last_used : ℕ
  pub state : EntryState
  -- none is the empty string
  pub origin : Option Origin

pub data Row : Type 0 where
  evicted : Origin → String → Row
  evicted_unused : String → Row
  download_started download_failed downloaded : Origin → String → Row

pub record Manager : Type 0 where
  pub max_disk_mb : ℕ
  pub retention_days : ℕ
  pub entries : Dict Entry
  -- the total of each download in progress
  pub progress : Dict ℕ
  -- models.json
  pub saved : Dict Entry
  pub disk : String → Bool
  -- newest first
  pub rows : List Row

-- `saveLocked`
abbrev pub save : Manager → Manager
save m = record m { saved = m.entries }

abbrev pub tell : Manager → Row → Manager
tell m row = record m { rows = row ∷ m.rows }

abbrev pub is_ready : Entry → Bool
is_ready e = elim e.state [ ready ↦ true | downloading ↦ false ]

abbrev pub is_mesh : Option Origin → Bool
is_mesh none = false
is_mesh (some operator) = false
is_mesh (some mesh) = true

-- `os.RemoveAll` and `os.Remove`, which succeed on what `deletable` says.
unfoldable pub remove_files : (String → Bool) → Manager → String → Manager × Bool
remove_files deletable m id =
    if deletable id
    then (record m { disk = λ j. if str_eq id j then false else m.disk j }, true)
    else (m, false)

abbrev pub occupies : (String → Bool) → String × Entry → Bool
occupies disk (id, e) = not (is_ready e && not (disk id))

-- The bytes that the entries count for.
unfoldable pub used : (String → Bool) → Dict Entry → ℕ
used disk [] = 0
used disk (p ∷ ps) = let rest = used disk ps in if occupies disk p then p.1.size + rest else rest

abbrev pub is_candidate : Bool → (String → Bool) → String × Entry → Bool
is_candidate mesh_only disk (id, e) =
    occupies disk (id, e) && not e.pinned && is_ready e && (not mesh_only || is_mesh e.origin)

unfoldable pub candidates : Bool → (String → Bool) → Dict Entry → Dict Entry
candidates mesh_only disk [] = []
candidates mesh_only disk (p ∷ ps) =
    let rest = candidates mesh_only disk ps in
    if is_candidate mesh_only disk p then p ∷ rest else rest

-- `sort.Slice` by `LastUsed`; it may order entries of one time in any way.
unfoldable pub insert_by_use : String × Entry → Dict Entry → Dict Entry
insert_by_use p [] = p ∷ []
insert_by_use p (q ∷ qs) =
    let rest = insert_by_use p qs in
    if leb p.1.last_used q.1.last_used then p ∷ q ∷ qs else q ∷ rest

unfoldable pub sort_by_use : Dict Entry → Dict Entry
unfolding insert_by_use
sort_by_use [] = []
sort_by_use (p ∷ ps) = insert_by_use p (sort_by_use ps)

abbrev pub actor_for : Bool → Origin
actor_for mesh_only = if mesh_only then mesh else operator

abbrev pub drop_entry : Manager → String → Manager
drop_entry m id = record m { entries = delete id m.entries }

pub record Evicting : Type 0 where
  pub manager : Manager
  pub total : ℕ
  -- the entry whose files could not be removed
  pub failed : Option String

module _ (deletable : String → Bool) (mesh_only : Bool) (budget : ℕ) where
  unfoldable pub evict_loop : Manager → ℕ → Dict Entry → Evicting
  unfolding remove_files delete
  evict_loop m total [] = record { manager = m; total = total; failed = none }
  evict_loop m total ((id, e) ∷ cs) =
      let (m', ok) = remove_files deletable m id in
      let rest =
        evict_loop (tell (drop_entry m' id) (evicted (actor_for mesh_only) id)) (total - e.size)
          cs in
      if leb total budget
      then record { manager = m; total = total; failed = none }
      else if ok
      then rest
      else record { manager = m; total = total; failed = some id }

pub data Evicted : Type 0 where
  fits : Evicted
  stuck : String → Evicted
  over_budget : Evicted

abbrev pub budget_of : Manager → ℕ
budget_of m = m.max_disk_mb * 1024 * 1024

abbrev pub concluded : ℕ → Evicting → Manager × Evicted
concluded budget v = elim v.failed [
  | some id ↦ (v.manager, stuck id)
  | none ↦ (save v.manager, if ltb budget v.total then over_budget else fits)
]

-- `evictForLocked`
unfoldable pub evict_for : (String → Bool) → Manager → ℕ → Bool → Manager × Evicted
unfolding used candidates sort_by_use evict_loop
evict_for deletable m need mesh_only =
    if leb m.max_disk_mb 0
    then (m, fits)
    else if leb (need + used m.disk m.entries) (budget_of m)
    then (m, fits)
    else concluded (budget_of m) (
        evict_loop deletable mesh_only (budget_of m) m (need + used m.disk m.entries)
          (sort_by_use (candidates mesh_only m.disk m.entries)))

abbrev pub has_entry : Manager → String → Option Entry → Bool
has_entry m id none = false
has_entry m id (some e) = is_ready e && m.disk id

unfoldable pub has : Manager → String → Bool
unfolding lookup
has m id = has_entry m id (lookup id m.entries)

abbrev pub owner : Option Origin → Origin
owner none = operator
owner (some o) = o

abbrev pub origin_entry : Option Entry → Option Origin
origin_entry none = none
origin_entry (some e) = some (owner e.origin)

-- `Origin`
unfoldable pub origin_of : Manager → String → Option Origin
unfolding lookup
origin_of m id = origin_entry (lookup id m.entries)

abbrev pub pin_entry : Manager → String → Bool → Option Entry → Manager × Bool
pin_entry m id pinned none = (m, false)
pin_entry m id pinned (some e) =
    (save (record m { entries = insert id (record e { pinned = pinned }) m.entries }), true)

unfoldable pub pin : Manager → String → Bool → Manager × Bool
unfolding lookup insert
pin m id pinned = pin_entry m id pinned (lookup id m.entries)

abbrev pub touch_entry : Manager → String → ℕ → Option Entry → Manager
touch_entry m id now none = m
touch_entry m id now (some e) =
    save (record m { entries = insert id (record e { last_used = now }) m.entries })

unfoldable pub touch : Manager → String → ℕ → Manager
unfolding lookup insert
touch m id now = touch_entry m id now (lookup id m.entries)

pub data Removed : Type 0 where
  removed invalid_id not_in_cache remove_failed : Removed

abbrev pub remove_entry : (String → Bool) → Manager → String → Option Entry → Manager × Removed
remove_entry deletable m id none = (m, not_in_cache)
remove_entry deletable m id (some e) =
    let (m', ok) = remove_files deletable m id in
    if ok then (save (drop_entry m' id), removed) else (m, remove_failed)

unfoldable pub remove : (String → Bool) → (String → Bool) → Manager → String → Manager × Removed
unfolding lookup delete remove_files
remove valid deletable m id =
    if valid id then remove_entry deletable m id (lookup id m.entries) else (m, invalid_id)
