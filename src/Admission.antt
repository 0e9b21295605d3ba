-- ===== src/Admission.antt =====
-- internal/modelops/memory.go: what the loaded models are charged, and the room that admission and the
-- idle sweep make. Models are listed by id with what `engine.Usage` says of them; "" is no default.
-- A request may arrive at a model while the sweep runs: `busy` says where `UnregisterIdle` fails.
pub mod Room
pub mod Idle
pub mod Measure
pub mod Resize
pub mod Charges
use flockd.Base.{
  ℕ, ◌+◌, ◌==◌, Bool, true, false, ◌&&◌, ◌||◌, not, List, [], ◌∷◌, Option, none, some, String, ltb,
  leb, str_eq, if◌then◌else◌,
}
use flockd.Base.Dict.{Dict, lookup, delete}
use flockd.Models.{Origin, is_mesh}

pub record Usage : Type 0 where
  pub inflight : ℕ
  pub last_used : ℕ

-- The memory fields of a `loadInfo`.
pub record LoadInfo : Type 0 where
  pub origin : Option Origin
  pub estimate_mb : ℕ
  pub measured_mb : ℕ
  pub vram_seq : ℕ

pub record Service : Type 0 where
  pub discrete : Bool
  pub budget_mb : ℕ
  pub models : Dict Usage
  pub loads : Dict LoadInfo
  pub default_model : String
  pub vram_used_mb : ℕ
  pub vram_sampled : Bool
  pub vram_sample_seq : ℕ
  pub draining_mb : ℕ
  -- newest first
  pub unloaded : List String

abbrev pub charge : Bool → Option LoadInfo → ℕ
charge discrete none = 0
charge discrete (some li) =
    if ltb 0 li.measured_mb && not discrete then li.measured_mb else li.estimate_mb

-- `footprintLocked`
unfoldable pub footprint : Service → String → ℕ
unfolding lookup
footprint s id = charge s.discrete (lookup id s.loads)

-- `hostFootprintLocked`
unfoldable pub host_footprint : Service → String → ℕ
unfolding lookup
host_footprint s id = charge false (lookup id s.loads)

abbrev pub newer : ℕ → Option LoadInfo → ℕ
newer seq none = 0
newer seq (some li) = if li.vram_seq == seq then li.estimate_mb else 0

unfoldable pub newer_sum : Service → Dict Usage → ℕ
unfolding lookup
newer_sum s [] = 0
newer_sum s ((id, u) ∷ ms) = newer s.vram_sample_seq (lookup id s.loads) + newer_sum s ms

unfoldable pub footprint_sum : Service → Dict Usage → ℕ
unfolding footprint
footprint_sum s [] = 0
footprint_sum s ((id, u) ∷ ms) = footprint s id + footprint_sum s ms

-- `usedLocked`
unfoldable pub used : Service → ℕ
unfolding newer_sum footprint_sum
used s =
    if s.discrete && s.vram_sampled
    then s.vram_used_mb + s.draining_mb + newer_sum s s.models
    else footprint_sum s s.models + s.draining_mb

unfoldable pub fits : Service → ℕ → Bool
unfolding used
fits s estimate = leb (used s + estimate) s.budget_mb

pub record Candidate : Type 0 where
  pub id : String
  pub mesh_placed : Bool
  pub last_used : ℕ

abbrev pub origin_of : Option LoadInfo → Bool
origin_of none = false
origin_of (some li) = is_mesh li.origin

abbrev pub may_go : Service → String → String × Usage → Bool
may_go s for_id (id, u) =
    not (str_eq id for_id) && not (str_eq id s.default_model) && u.inflight == 0

unfoldable pub candidates : Service → String → Dict Usage → List Candidate
unfolding lookup
candidates s for_id [] = []
candidates s for_id ((id, u) ∷ ms) =
    let rest = candidates s for_id ms in
    if may_go s for_id (id, u)
    then (record { id = id; mesh_placed = origin_of (lookup id s.loads); last_used = u.last_used })
      ∷ rest
    else rest

-- Mesh-placed models first, then by last use; `sort.Slice` may order equals in any way.
abbrev pub goes_before : Candidate → Candidate → Bool
goes_before a b =
    if a.mesh_placed
    then not b.mesh_placed || leb a.last_used b.last_used
    else not b.mesh_placed && leb a.last_used b.last_used

unfoldable pub insert_candidate : Candidate → List Candidate → List Candidate
insert_candidate a [] = a ∷ []
insert_candidate a (b ∷ bs) =
    let rest = insert_candidate a bs in if goes_before a b then a ∷ b ∷ bs else b ∷ rest

unfoldable pub sort_candidates : List Candidate → List Candidate
unfolding insert_candidate
sort_candidates [] = []
sort_candidates (a ∷ bs) = insert_candidate a (sort_candidates bs)

-- `unload` of an idle model, after `UnregisterIdle` has found it idle
unfoldable pub unload_idle_model : Service → String → Service
unfolding delete
unload_idle_model s id = record s {
  models = delete id s.models;
  loads = delete id s.loads;
  unloaded = id ∷ s.unloaded;
}

unfoldable pub room_loop : (String → Bool) → Service → ℕ → List Candidate → Service
unfolding fits unload_idle_model
room_loop busy s estimate [] = s
room_loop busy s estimate (c ∷ cs) =
    let kept = room_loop busy s estimate cs in
    let gone = room_loop busy (unload_idle_model s c.id) estimate cs in
    if fits s estimate then s else if busy c.id then kept else gone

abbrev pub settled : Service → Service → String → ℕ → Service × Bool
settled before s for_id estimate =
    if fits s estimate
    then (s, true)
    else (s, str_eq for_id before.default_model || str_eq before.default_model "")

-- `admit` after `shrinkForRoom`, with whether the load is admitted.
unfoldable pub make_room : (String → Bool) → Service → String → ℕ → Service × Bool
unfolding fits candidates sort_candidates room_loop
make_room busy s for_id estimate =
    settled s (room_loop busy s estimate (sort_candidates (candidates s for_id s.models))) for_id
      estimate

abbrev pub idle_past : Service → ℕ → ℕ → String × Usage → Bool
idle_past s threshold now (id, u) =
    not (str_eq id s.default_model) && u.inflight == 0 && not (ltb now (u.last_used + threshold))

unfoldable pub idle_loop : (String → Bool) → Service → ℕ → ℕ → Dict Usage → Service × List String
unfolding unload_idle_model
idle_loop busy s threshold now [] = (s, [])
idle_loop busy s threshold now ((id, u) ∷ ms) =
    let kept = idle_loop busy s threshold now ms in
    let gone = idle_loop busy (unload_idle_model s id) threshold now ms in
    if idle_past s threshold now (id, u) && not (busy id) then (gone.0, id ∷ gone.1) else kept

-- `UnloadIdle`, with the ids that it unloads.
unfoldable pub unload_idle : (String → Bool) → Service → ℕ → ℕ → Service × List String
unfolding idle_loop
unload_idle busy s threshold now =
    if threshold == 0 then (s, []) else idle_loop busy s threshold now s.models

-- `admit`; `shrunk` is what `shrinkForRoom` made of the service, whose first test is the loop's.
unfoldable pub admit : (String → Bool) → Service → Service → String → ℕ → Service × Bool
unfolding fits make_room
admit busy s shrunk for_id estimate =
    if leb s.budget_mb 0
    then (s, true)
    else if fits s estimate
    then (s, true)
    else make_room busy shrunk for_id estimate
