-- ===== src/Examples/Engine.antt =====
-- internal/engine at concrete inputs: a model with one slot, and a request that runs on it.
use flockd.Base.{
  String, ℕ, ◌≡◌, ◌≤◌, ◌<◌, ◌⊎◌, ◌||◌, refl, true, false, [], ◌∷◌, Option, none, some, arith,
  sum_of, set, All,
}
use flockd.Base.Dict.{lookup, delete}
use flockd.Base.Int.{pos, max_ℤ}
use flockd.Engine.{
  Engine, ModelSpec, chat_model, new, register_slots, remove_locked, unregister_idle, refused, busy,
  set_default, not_chat_model, demand,
}
use flockd.Engine.Requests.{
  Request, running, acquired, acquire, check_kind, take_slot, confirm_slot, give_up,
}
use flockd.Engine.World.{
  World, strays, gives_up, checks, takes, confirms, arrives, registry, acts, registers, Reach, here,
  next, start,
}
use flockd.Engine.World.Balance.{entry_share, run_share}
use flockd.Engine.World.Reachable.{running_share, slots_respected, counters_exact}
use flockd.Engine.World.Idle.{unregister_idle_released}
use flockd.Engine.World.Demand.{demand_exact}
use flockd.Engine.Calls.{Called, none_yet, after, default_loaded}

abbrev gemma : ModelSpec
gemma = record { id = "gemma"; decision = false; embeddings = false }

abbrev bge : ModelSpec
bge = record { id = "bge"; decision = false; embeddings = true }

abbrev qwen : ModelSpec
qwen = record { id = "qwen"; decision = false; embeddings = false }

abbrev loaded : World
loaded = record start { engine = register_slots new gemma 7 1 100 }

abbrev fresh : Engine × Request
fresh = (new, record { phase = acquired; entry = 0; load = 0; is_decision = false })

abbrev or_fresh : Option (Engine × Request) → Engine × Request
or_fresh none = fresh
or_fresh (some q) = q

abbrev acted : World → Engine × Request → World
acted w q = record {
  engine = q.0;
  requests = set w.requests 0 q.1;
  strayed = w.strayed || strays q.0 q.1;
}

abbrev arrival : Engine × Request
arrival = or_fresh (acquire loaded.engine "" false)

abbrev arrived : World
arrived = record loaded { engine = arrival.0; requests = arrival.1 ∷ [] }

abbrev checked : World
checked = acted arrived (check_kind arrived.engine arrival.1)

abbrev checked_request : Request
checked_request = (check_kind arrived.engine arrival.1).1

abbrev taken : Engine × Request
taken = or_fresh (take_slot checked.engine checked_request)

abbrev held : World
held = acted checked taken

abbrev serving : World
serving = acted held (confirm_slot held.engine taken.1 150)

loaded-Reach : Reach start loaded
loaded-Reach = next here (registry _ (registers gemma 7 1 100))

serving-Reach : Reach start serving
unfolding register_slots acquire check_kind take_slot confirm_slot new
serving-Reach =
    next
      (next
        (next (next loaded-Reach (arrives "" false arrival refl))
          (acts 0 arrival.1 (check_kind arrived.engine arrival.1) refl (checks refl)))
        (acts 0 checked_request taken refl (takes taken refl refl)))
      (acts 0 taken.1 (confirm_slot held.engine taken.1 150) refl (confirms 150 refl))

serving_request : sum_of (running_share 0) serving.requests ≡ 1
unfolding register_slots acquire check_kind take_slot confirm_slot new
serving_request = refl

slots_respected_example :
    sum_of (running_share 0) serving.requests ≤ (serving.engine.entries 0).slots
unfolding register_slots acquire check_kind take_slot confirm_slot new
slots_respected_example = slots_respected serving-Reach 0 (omega arith) (omega arith)

abbrev CountersExact : World → Type 0
CountersExact w =
    ((i : ℕ)
      → i < w.engine.next_entry
      → (w.engine.entries i).inflight ≡ sum_of (entry_share i) w.requests)
    × (w.engine.started ≡ sum_of run_share w.requests)

counters_exact_example : CountersExact serving
counters_exact_example = counters_exact serving-Reach

busy_refused : (unregister_idle serving.engine "gemma").1 ≡ refused busy
unfolding register_slots acquire check_kind take_slot confirm_slot new unregister_idle
busy_refused = refl

-- The request gives up; the model is unloaded, and another one loaded.
abbrev left : Engine × Request
left = give_up checked.engine checked_request

abbrev idle_again : World
idle_again = acted checked left

abbrev after_unload : World
after_unload = record idle_again { engine = (unregister_idle idle_again.engine "gemma").0 }

abbrev other_loaded : World
other_loaded = record after_unload { engine = register_slots after_unload.engine qwen 9 2 200 }

idle_again-Reach : Reach start idle_again
unfolding register_slots acquire check_kind give_up new
idle_again-Reach =
    next
      (next (next loaded-Reach (arrives "" false arrival refl))
        (acts 0 arrival.1 (check_kind arrived.engine arrival.1) refl (checks refl)))
      (acts 0 checked_request left refl (gives_up refl))

unregister_idle_released_example : All (λ r. entry_share 0 r ≡ 0) other_loaded.requests
unfolding register_slots acquire check_kind give_up new unregister_idle
unregister_idle_released_example =
    unregister_idle_released {w = idle_again} {w' = other_loaded} "gemma" 0 idle_again-Reach refl
      (next here (registry _ (registers qwen 9 2 200)))

demand_exact_example :
    ((demand serving.engine "gemma").1
      ≡ some (record { now = pos 1; peak = max_ℤ (serving.engine.loads 0).peak (pos 1) }))
    × ((demand (demand serving.engine "gemma").0 "gemma").1
        ≡ some (record { now = pos 1; peak = pos 1 }))
unfolding register_slots acquire check_kind take_slot confirm_slot new
demand_exact_example = demand_exact "gemma" 0 serving-Reach refl refl

-- The request was counted on counter 0; its entry has counter 1 by now.
abbrev reloaded : Engine
reloaded = register_slots (register_slots new gemma 7 1 100) gemma 8 1 200

abbrev stray : Request
stray = record { phase = running; entry = 1; load = 0; is_decision = false }

abbrev three : Engine
three = register_slots (register_slots (register_slots new gemma 7 1 100) bge 8 0 50) qwen 9 2 200

three_default : (three.default_id ≡ "gemma") × ((remove_locked three "gemma").default_id ≡ "qwen")
unfolding register_slots new remove_locked
three_default = (refl, refl)

abbrev ElectsOldest : Engine → Type 0
ElectsOldest e =
    let e' = remove_locked e e.default_id in
    ((m : ℕ) × (lookup e'.default_id e'.models ≡ some m)
      × (chat_model (e.entries m).spec ≡ true)
      × ((k : String) (n : ℕ)
          → lookup k e'.models ≡ some n
          → chat_model (e.entries n).spec ≡ true
          → (e.entries m).loaded_at ≤ (e.entries n).loaded_at))
    ⊎ ((e'.default_id ≡ "")
        × ((k : String) (n : ℕ)
            → lookup k e'.models ≡ some n
            → chat_model (e.entries n).spec ≡ false))

embedding_refused : (set_default three "bge").1 ≡ some not_chat_model
unfolding register_slots new set_default delete
embedding_refused = refl

one_called : Called (register_slots new gemma 7 1 100)
unfolding new lookup
one_called = after none_yet (registers gemma 7 1 100) (λ e. cc, refl)

default_loaded_example :
    ((register_slots new gemma 7 1 100).default_id ≡ "")
    ⊎ ((m : ℕ) × (lookup
            (register_slots new gemma 7 1 100).default_id
            (register_slots new gemma 7 1 100).models
          ≡ some m)
        × (chat_model ((register_slots new gemma 7 1 100).entries m).spec ≡ true))
default_loaded_example = default_loaded one_called
