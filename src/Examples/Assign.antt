-- ===== src/Examples/Assign.antt =====
-- internal/assign at concrete inputs: a node with one model in its catalog.
use flockd.Base.{◌≡◌, ◌⊎◌, refl, true, false, [], ◌∷◌, none, some, inl, str_eq, if◌then◌else◌}
use flockd.Base.Dict.{lookup, insert, delete}
use flockd.Assign.{
  Node, Request, operator, mesh, found, absent, serves, assigned, declined, empty, admit,
  admit_start, admit_finish, refusal, contains, conclude, enqueue, evict, active, pinned,
  failure_row, reports, publishes,
}
use flockd.Assign.Worker.{waiting, started, loading, choose}
use flockd.Assign.World.{World, Reach, here, next_step, arrives, finishes, head, start}
use flockd.Assign.World.Served.{served_as}
use flockd.Assign.World.InFlight.{in_flight-served_as}
use flockd.Assign.Answers.{Allowed, admit-Allowed, refused_lem}
use flockd.Assign.Removals.{removals, removals-evict, taken, begun, withdrawn, withdrawn_removes}

-- The operator keeps gemma on disk.
abbrev node : Node
node = record {
  has_ops = true;
  has_mgr = true;
  policy = record { mesh_managed = true; exclude = "qwen" ∷ []; pinned = [] };
  valid_id = λ id. true;
  loaded = λ id. false;
  complete = λ id. str_eq id "gemma";
  origin = λ id. if str_eq id "gemma" then some operator else none;
  cache_pinned = λ id. false;
  fetching = λ id. false;
  removable = λ id. true;
  catalog = λ id.
      if str_eq id "gemma" then found (record { sha256 = "ab"; decision = false }) else absent;
  check_runtime = λ id decision. serves;
  now = 7;
}

abbrev gemma : Request
gemma = record { id = "gemma"; sha256 = "ab"; decision = false; stage = false }

abbrev qwen : Request
qwen = record { id = "qwen"; sha256 = ""; decision = false; stage = false }

abbrev queued : World
queued = record start { service = admit_finish node (admit_start node empty gemma).0 gemma }

abbrev trace : Reach start queued
unfolding admit_start refusal contains conclude
trace = next_step (next_step here (arrives node gemma refl)) (finishes node gemma [] head)

in_flight-served_as_example : served_as queued.service.queue queued.worker "gemma" assigned ≡ true
unfolding admit_start admit_finish refusal contains conclude enqueue insert delete lookup
in_flight-served_as_example =
    in_flight-served_as queued "gemma"
      (record { state = assigned; since = 7; error = ""; stage = false }) trace refl

admit-Allowed_example : Allowed node gemma
unfolding admit admit_start admit_finish refusal contains conclude enqueue insert delete lookup
admit-Allowed_example = admit-Allowed node gemma empty refl refl

refused_lem_example :
    (lookup "qwen" (admit node empty qwen).pending
      ≡ some (record {
        state = declined;
        since = 7;
        error = "model is in models.exclude";
        stage = false;
      }))
    × (contains (admit node empty qwen).queue "qwen" ≡ false)
    × ((admit node empty qwen).acts
        ≡ failure_row declined "qwen" "model is in models.exclude"
          ∷ publishes "qwen" declined "model is in models.exclude"
          ∷ reports "qwen" declined
          ∷ [])
unfolding refusal contains lookup
refused_lem_example =
    refused_lem node qwen empty (record { state = declined; reason = "model is in models.exclude" })
      "qwen" refl refl refl refl

removals-evict_example :
    (removals (evict node empty "gemma").acts ≡ [])
    ⊎ ((removals (evict node empty "gemma").acts ≡ "gemma" ∷ [])
        × (node.origin "gemma" ≡ some mesh)
        × (pinned node "gemma" ≡ false)
        × (active (lookup "gemma" empty.pending) ≡ false))
unfolding removals
removals-evict_example = removals-evict node empty "gemma"

withdrawn_removes_example :
    ((taken node gemma).1 ≡ waiting "gemma")
    × ((begun node gemma).1 ≡ started "gemma")
    × (choose (begun node gemma).0 "gemma" ≡ loading "gemma")
    × (removals (withdrawn node gemma).acts ≡ "gemma" ∷ [])
    × (removals (evict node empty "gemma").acts ≡ [])
unfolding refusal contains
withdrawn_removes_example =
    withdrawn_removes node gemma refl refl refl refl refl refl refl (inl refl)
