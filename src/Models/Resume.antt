-- ===== src/Models/Resume.antt =====
-- internal/models/manager.go: a download that a crash cut off.
use flockd.Base.{
  ℕ, ◌+◌, ◌*◌, ◌≤◌, ◌<◌, ◌≡◌, refl, Bool, true, false, [], ◌∷◌, some, String, str_eq, eq_iff, arith,
}
use flockd.Base.Dict.{lookup, insert, delete}
use flockd.Models.{
  Manager, fits, over_budget, evict_for, used, candidates, sort_by_use, evict_loop, is_mesh,
}
use flockd.Models.Ensure.{
  Spec, arrived, artifact, refused, ensure, register, restart, crashed, cached, keep_valid,
  new_entry,
}

eq_refl : (id : String) → str_eq id id ≡ true
eq_refl id = ground (arith, eq_iff id id)

abbrev pub fresh : ℕ → Manager
fresh mb = record {
  max_disk_mb = mb;
  retention_days = 0;
  entries = [];
  progress = [];
  saved = [];
  disk = λ id. false;
  rows = [];
}

module _ (valid deletable : String → Bool) (mb : ℕ) (spec : Spec) (now later : ℕ) (size : ℕ) where
  fresh_fits :
      0 < mb
      → spec.total_bytes ≤ mb * 1024 * 1024
      → evict_for deletable (fresh mb) spec.total_bytes (is_mesh (some spec.origin))
        ≡ (fresh mb, fits)
  unfolding evict_for used
  fresh_fits pos fit = ground arith

  fresh_lem :
      valid spec.id ≡ true
      → spec.has_artifact ≡ true
      → 0 < mb
      → spec.total_bytes ≤ mb * 1024 * 1024
      → (ensure valid deletable (fresh mb) spec now (arrived size)).1 ≡ artifact
  unfolding ensure cached lookup
  fresh_lem v a pos fit = rw (v, a, fresh_fits pos fit) refl

  abbrev left : Manager
  left = record (fresh mb) {
    entries = (spec.id, new_entry spec now) ∷ [];
    saved = (spec.id, new_entry spec now) ∷ [];
  }

  restart-left : valid spec.id ≡ true → restart valid (crashed (fresh mb) spec now) ≡ left
  unfolding restart register insert delete keep_valid
  restart-left v = simp v

  over_left :
      0 < mb
      → mb * 1024 * 1024 < spec.total_bytes + spec.total_bytes
      → (evict_for deletable left spec.total_bytes (is_mesh (some spec.origin))).1 ≡ over_budget
  unfolding evict_for used candidates sort_by_use evict_loop
  over_left pos half = ground arith

  cached-left : cached left spec.id later ≡ (left, false)
  unfolding cached lookup
  cached-left = simp (eq_refl spec.id)

  -- In a store that is otherwise empty, a model of more than half of the disk budget downloads; after a
  -- crash in its download it is refused as over the budget, because the entry that the crash left
  -- counts beside the bytes needed.
  pub resume_counted_twice :
      valid spec.id ≡ true
      → spec.has_artifact ≡ true
      → 0 < mb
      → spec.total_bytes ≤ mb * 1024 * 1024
      → mb * 1024 * 1024 < spec.total_bytes + spec.total_bytes
      → ((ensure valid deletable (fresh mb) spec now (arrived size)).1 ≡ artifact)
        × ((ensure valid deletable
              (restart valid (crashed (fresh mb) spec now))
              spec
              later
              (arrived size)).1
            ≡ refused over_budget)
  unfolding ensure
  resume_counted_twice v a pos fit half =
      (fresh_lem v a pos fit, rw (restart-left v, v, a, cached-left) (ground arith))
