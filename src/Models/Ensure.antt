-- ===== src/Models/Ensure.antt =====
-- internal/models/manager.go: `EnsureArtifact` for a catalog model, and the load of models.json.
use flockd.Base.{ℕ, Bool, true, false, [], ◌∷◌, Option, none, some, String, str_eq, if◌then◌else◌}
use flockd.Base.Dict.{Dict, lookup, insert, delete}
use flockd.Models.{
  Manager, Entry, downloading, ready, Origin, download_started, download_failed, downloaded, save,
  tell, is_ready, is_mesh, drop_entry, evict_for, Evicted, fits,
}

-- A spec with the bytes of its files.
pub record Spec : Type 0 where
  pub id : String
  pub sha256 : String
  pub has_artifact : Bool
  pub total_bytes : ℕ
  pub origin : Origin

-- The bytes of the files that a download left on the disk, or its error.
pub data Download : Type 0 where
  arrived : ℕ → Download
  broke : Download

pub data Ensured : Type 0 where
  artifact invalid_id no_artifact failed : Ensured
  refused : Evicted → Ensured

abbrev pub cached_entry : Manager → String → ℕ → Option Entry → Manager × Bool
cached_entry m id now none = (m, false)
cached_entry m id now (some e) =
    let used_now =
      save (record m { entries = insert id (record e { last_used = now }) m.entries }) in
    if is_ready e
    then if m.disk id then (used_now, true) else (save (drop_entry used_now id), false)
    else (m, false)

-- The index has it, complete, or forgets it.
unfoldable pub cached : Manager → String → ℕ → Manager × Bool
unfolding lookup insert delete
cached m id now = cached_entry m id now (lookup id m.entries)

abbrev pub new_entry : Spec → ℕ → Entry
new_entry spec now = record {
  sha256 = spec.sha256;
  size = spec.total_bytes;
  pinned = false;
  last_used = now;
  state = downloading;
  origin = some spec.origin;
}

unfoldable pub register : Manager → Spec → ℕ → Manager
unfolding insert
register m spec now =
    tell
      (save (record m {
        entries = insert spec.id (new_entry spec now) m.entries;
        progress = insert spec.id spec.total_bytes m.progress;
      }))
      (download_started spec.origin spec.id)

unfoldable pub abandon : Manager → Spec → Manager
unfolding delete
abandon m spec =
    tell
      (save (record m { entries = delete spec.id m.entries; progress = delete spec.id m.progress }))
      (download_failed spec.origin spec.id)

-- The entry is the one that was registered, whatever became of the index since.
unfoldable pub finish : Manager → Spec → Entry → ℕ → ℕ → Manager
unfolding insert delete
finish m spec e size now =
    tell
      (save (record m {
        entries =
            insert spec.id (record e { size = size; last_used = now; state = ready }) m.entries;
        progress = delete spec.id m.progress;
        disk = λ j. if str_eq spec.id j then true else m.disk j;
      }))
      (downloaded spec.origin spec.id)

abbrev pub settle : Manager → Spec → Entry → ℕ → Download → Manager × Ensured
settle m spec e now broke = (abandon m spec, failed)
settle m spec e now (arrived size) = (finish m spec e size now, artifact)

abbrev pub fetch : Spec → ℕ → Download → Manager × Evicted → Manager × Ensured
fetch spec now got (m, fits) = settle (register m spec now) spec (new_entry spec now) now got
fetch spec now got (m, r) = (m, refused r)

-- Without other calls between its critical sections.
unfoldable pub ensure :
    (String → Bool) → (String → Bool) → Manager → Spec → ℕ → Download → Manager × Ensured
unfolding cached register abandon finish evict_for
ensure valid deletable m spec now got =
    let (m', have) = cached m spec.id now in
    let room = evict_for deletable m' spec.total_bytes (is_mesh (some spec.origin)) in
    if valid spec.id
    then if spec.has_artifact
      then if have then (m', artifact) else fetch spec now got room
      else (m, no_artifact)
    else (m, invalid_id)

-- A crash in the middle of a download.
abbrev pub crashed : Manager → Spec → ℕ → Manager
crashed m spec now = register m spec now

unfoldable pub keep_valid : (String → Bool) → Dict Entry → Dict Entry
keep_valid valid [] = []
keep_valid valid ((id, e) ∷ es) =
    let rest = keep_valid valid es in if valid id then (id, e) ∷ rest else rest

-- `NewManager` over the models.json that was written last.
unfoldable pub restart : (String → Bool) → Manager → Manager
unfolding keep_valid
restart valid m = record {
  max_disk_mb = m.max_disk_mb;
  retention_days = 0;
  entries = keep_valid valid m.saved;
  progress = [];
  saved = m.saved;
  disk = m.disk;
  rows = [];
}

-- `SetMaxDiskMB` and `SetRetentionDays`
abbrev pub set_max_disk_mb : Manager → ℕ → Manager
set_max_disk_mb m mb = record m { max_disk_mb = mb }

abbrev pub set_retention_days : Manager → ℕ → Manager
set_retention_days m days = record m { retention_days = days }
