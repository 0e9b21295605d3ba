-- ===== src/Engine/World.antt =====
-- internal/engine/engine.go: the Engine with its requests. A step is one critical section of a request
-- or one method, so a trace is an interleaving of them. `strayed` tells whether a request has followed
-- its model onto another demand counter than its own.
pub mod Balance
pub mod Load
pub mod Place
pub mod Registry
pub mod Books
pub mod Reachable
pub mod Idle
pub mod Demand
use flockd.Base.{
  ℕ, suc, ◌+◌, ◌≤◌, ◌<◌, ◌≡◌, Bool, true, false, ◌||◌, not, List, [], ◌∷◌, Option, none, some,
  String, ◌==◌, if◌then◌else◌, get_elem?, set,
}
use flockd.Engine.{
  Engine, ModelSpec, Unregistered, new, register_slots, replace, unregister, unregister_idle,
  set_default, demand,
}
use flockd.Engine.Requests.{
  Phase, acquired, waiting, holding, running, moving, ended, Request, acquire, check_kind, give_up,
  pass_ungated, take_slot, confirm_slot, leave_gone, follow, fail_start, finish,
}

pub record World : Type 0 where
  pub engine : Engine
  -- every request that was routed to a model, the ended ones too
  pub requests : List Request
  pub strayed : Bool

pub data RegistryStep (e : Engine) : Engine → Type 0 where
  registers : (s : ModelSpec) (k n now : ℕ) → RegistryStep e (register_slots e s k n now)
  replaces : (s : ModelSpec) (k n : ℕ) → RegistryStep e (replace e s k n).0
  unregisters : (id : String) → RegistryStep e (unregister e id).0
  unregisters_idle : (id : String) → RegistryStep e (unregister_idle e id).0
  sets_default : (id : String) → RegistryStep e (set_default e id).0
  demands : (id : String) → RegistryStep e (demand e id).0

pub data RequestStep (e : Engine) (r : Request) : Engine × Request → Type 0 where
  checks : r.phase ≡ acquired → RequestStep e r (check_kind e r)
  gives_up : r.phase ≡ waiting → RequestStep e r (give_up e r)
  passes :
      (now : ℕ) (q : Engine × Request)
      → r.phase ≡ waiting
      → pass_ungated e r now ≡ some q
      → RequestStep e r q
  takes : (q : Engine × Request) → r.phase ≡ waiting → take_slot e r ≡ some q → RequestStep e r q
  confirms : (now : ℕ) → r.phase ≡ holding → RequestStep e r (confirm_slot e r now)
  leaves_gone :
      (q : Engine × Request) → r.phase ≡ waiting → leave_gone e r ≡ some q → RequestStep e r q
  follows : r.phase ≡ moving → RequestStep e r (follow e r)
  fails : r.phase ≡ running → RequestStep e r (fail_start e r)
  finishes : r.phase ≡ running → RequestStep e r (finish e r)

abbrev pub strays : Engine → Request → Bool
strays e r = not ((e.entries r.entry).load == r.load)

pub data Step (w : World) : World → Type 0 where
  arrives :
      (model : String) (is_decision : Bool) (q : Engine × Request)
      → acquire w.engine model is_decision ≡ some q
      → Step w (record w { engine = q.0; requests = q.1 ∷ w.requests })
  registry : (e : Engine) → RegistryStep w.engine e → Step w (record w { engine = e })
  acts :
      (i : ℕ) (r : Request) (q : Engine × Request)
      → get_elem? w.requests i ≡ some r
      → RequestStep w.engine r q
      → Step w (record {
        engine = q.0;
        requests = set w.requests i q.1;
        strayed = w.strayed || strays q.0 q.1;
      })

pub data Reach (a : World) : World → Type 0 where
  here : Reach a a
  next : {b c : World} → Reach a b → Step b c → Reach a c

abbrev pub start : World
start = record { engine = new; requests = []; strayed = false }
