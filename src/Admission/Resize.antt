-- ===== src/Admission/Resize.antt =====
-- internal/modelops/scale.go: `Resize` and `drain`, with the planner of internal/memory and the accounting
-- of memory.go. The layouts are the slot fields of the same `loadInfo`s, by id.
use flockd.Base.{
  ℕ, ◌+◌, ◌-◌, ◌==◌, Bool, true, false, ◌&&◌, none, some, String, ltb, leb, if◌then◌else◌,
}
use flockd.Base.Dict.{Dict, lookup, insert}
use flockd.Memory.Float.{Float64}
use flockd.Memory.Plan.{Plan, PlanInput, plan_context}
use flockd.Admission.{LoadInfo, Service, footprint, used}

pub record Layout (Number : Type 0) : Type 0 where
  pub slots : ℕ
  pub ctx_per_slot : ℕ
  pub plan : PlanInput Number

-- What `Resize` has decided when it starts the new runtime: the slots before, the plan, and the charge of
-- the old instance.
pub data Choice : Type 0 where
  not_loaded : Choice
  unchanged no_room : ℕ → Choice
  start : ℕ → Plan → ℕ → Choice

abbrev pub decide_plan : Service → ℕ → ℕ → ℕ → Plan → Choice
decide_plan s from old target plan =
    if target == from
    then unchanged from
    else if ltb 0 s.budget_mb && ltb s.budget_mb (used s + plan.estimate_mb)
    then no_room from
    else if ltb from target && leb plan.slots from
    then no_room from
    else start from plan old

module _ (fl : Float64) where
  -- The plan input of the load, for the memory that is free with the old instance still there.
  abbrev pub asked : Service → PlanInput fl.Number → ℕ → PlanInput fl.Number
  asked s p target = record p { slots = target; budget_mb = s.budget_mb; used_mb = used s }

  abbrev pub planned : Service → PlanInput fl.Number → ℕ → Plan
  planned s p target = plan_context fl (asked s p target)

  -- `Resize` up to the start of the runtime.
  unfoldable pub decide : Service → Dict (Layout fl.Number) → String → ℕ → Choice
  unfolding lookup used footprint plan_context
  decide s layouts id target = elim (lookup id layouts) [
    | none ↦ not_loaded
    | some l ↦ decide_plan s l.slots (footprint s id) target (planned s l.plan target)
  ]

abbrev pub with_plan : ℕ → Plan → LoadInfo → LoadInfo
with_plan seq plan li = record li {
  estimate_mb = plan.estimate_mb;
  measured_mb = 0;
  vram_seq = seq;
}

unfoldable pub put_plan : ℕ → String → Plan → Dict LoadInfo → Dict LoadInfo
unfolding lookup insert
put_plan seq id plan loads = elim (lookup id loads) [
  | none ↦ loads
  | some li ↦ insert id (with_plan seq plan li) loads
]

unfoldable pub put_layout :
    {Number : Type 0} → String → Plan → Dict (Layout Number) → Dict (Layout Number)
unfolding lookup insert
put_layout id plan layouts = elim (lookup id layouts) [
  | none ↦ layouts
  | some l ↦ insert id (record l { slots = plan.slots; ctx_per_slot = plan.ctx_per_slot }) layouts
]

-- The accounting once `Replace` has swapped the new instance in; the old one drains.
unfoldable pub swap : Service → String → Plan → ℕ → Service
unfolding put_plan
swap s id plan old = record s {
  loads = put_plan s.vram_sample_seq id plan s.loads;
  draining_mb = s.draining_mb + old;
}

-- `Resize` after the runtime has started: the model may have been unloaded meanwhile.
unfoldable pub finish_resize :
    {Number : Type 0}
    → Service
    → Dict (Layout Number)
    → String
    → Plan
    → ℕ
    → Service × Dict (Layout Number) × Bool
unfolding lookup swap put_layout
finish_resize s layouts id plan old = elim (lookup id s.models) [
  | none ↦ (s, layouts, false)
  | some u ↦ (swap s id plan old, put_layout id plan layouts, true)
]

-- The end of `drain`.
unfoldable pub drained : Service → ℕ → Service
drained s old = record s { draining_mb = s.draining_mb - old }
