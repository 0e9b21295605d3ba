-- ===== src/Examples/Models.antt =====
-- internal/models at concrete inputs: a store of 8 MB with the mesh's models and one of the operator's.
use flockd.Base.{
  String, ℕ, ◌+◌, ◌*◌, ◌<◌, ◌≡◌, refl, true, false, Bool, [], ◌∷◌, List, none, some, inr, arith,
}
use flockd.Base.Dict.{has_id, lookup, delete}
use flockd.Models.{
  Manager, Entry, Origin, operator, mesh, ready, evict_for, over_budget, budget_of, used,
  candidates, sort_by_use, insert_by_use, evict_loop, remove_files,
}
use flockd.Models.Ensure.{Spec, arrived, artifact, refused, ensure, restart, crashed}
use flockd.Models.Budget.{evict_for-over_budget}
use flockd.Models.Retention.{lookup-retain, retain}
use flockd.Models.Resume.{fresh, resume_counted_twice}
use flockd.Models.Consent.{ensure-spares}

abbrev of_size : ℕ → ℕ → Origin → Entry
of_size mb at owner = record {
  sha256 = "ab";
  size = mb * 1048576;
  pinned = false;
  last_used = at;
  state = ready;
  origin = some owner;
}

abbrev store : Manager
store = record {
  max_disk_mb = 8;
  retention_days = 1;
  entries =
      ("mine", of_size 2 10 operator)
      ∷ ("new", of_size 2 30 mesh)
      ∷ ("old", of_size 2 20 mesh)
      ∷ [];
  progress = [];
  saved = [];
  disk = λ id. true;
  rows = [];
}

abbrev any : String → Bool
any id = true

abbrev big : Spec
big = record {
  id = "big";
  sha256 = "cd";
  has_artifact = true;
  total_bytes = 4 * 1048576;
  origin = mesh;
}

abbrev a_day : ℕ
a_day = 86_400_000_000_000

evict_for-over_budget_example :
    (budget_of store
      < 7 * 1048576
        + used
            (evict_for any store (7 * 1048576) true).0.disk
            (evict_for any store (7 * 1048576) true).0.entries)
    × (lookup "old" (evict_for any store (7 * 1048576) true).0.entries ≡ none)
unfolding evict_for used candidates sort_by_use insert_by_use evict_loop remove_files lookup delete
evict_for-over_budget_example =
    evict_for-over_budget any store (7 * 1048576) true (refl, (refl, (refl, tt))) "old" refl

lookup-retain_example :
    (lookup "mine" (retain (λ id. false) any store (2 * a_day)).0.entries ≡ none)
    × (has_id "mine" (retain (λ id. false) any store (2 * a_day)).1 ≡ true)
unfolding lookup
lookup-retain_example =
    lookup-retain (λ id. false) any store (2 * a_day) "mine" (refl, (refl, (refl, tt)))
      (ground arith)

resume_counted_twice_example :
    ((ensure any any (fresh 6) big 5 (arrived 4194304)).1 ≡ artifact)
    × ((ensure any any (restart any (crashed (fresh 6) big 5)) big 9 (arrived 4194304)).1
        ≡ refused over_budget)
resume_counted_twice_example =
    resume_counted_twice any any 6 big 5 9 4194304 refl refl (ground arith) (ground arith)
      (ground arith)

ensure-spares_example :
    lookup "mine" (ensure any any store big 40 (arrived 4194304)).0.entries
    ≡ some (of_size 2 10 operator)
unfolding lookup
ensure-spares_example =
    ensure-spares any any store big 40 (arrived 4194304) "mine" (of_size 2 10 operator)
      (refl, (refl, (refl, tt))) refl refl refl (inr refl)

abbrev dotted : List ℕ
dotted = 97 ∷ 46 ∷ 49 ∷ []
