-- ===== src/Assign/World.antt =====
-- internal/assign/assign.go: the service with its worker, and the pushes that run beside it, each in its
-- own goroutine. A step is one critical section, or a stretch of one goroutine that shares no state.
pub mod Served
pub mod Pushes
pub mod Progress
pub mod InFlight
use flockd.Base.{ℕ, ◌≡◌, Bool, true, false, List, [], ◌∷◌, String}
use flockd.Assign.{
  Node, Service, Request, Pending, empty, admit_start, admit_finish, evict, expire, unloaded,
}
use flockd.Assign.Worker.{
  Failure, Phase, idle, waiting, started, fetching, kept, caching, loading, readying, failing, next,
  still_queued, begin, choose, fetched, settle_stage, finish_stage, loaded, finish_ready,
  check_failure, fail,
}

pub record World : Type 0 where
  pub service : Service
  pub worker : Phase
  -- the admissions that have passed their first lock
  pub admits : List Request

pub data Member (r : Request) : List Request → Type 0 where
  head : {rs : List Request} → Member r (r ∷ rs)
  tail : {q : Request} {rs : List Request} → Member r rs → Member r (q ∷ rs)

pub data WorkerStep (s : Service) : Phase → Service × Phase → Type 0 where
  pops : WorkerStep s idle (next s)
  -- it looks again on battery, and finds the placement gone
  stops : (id : String) → still_queued s id ≡ false → WorkerStep s (waiting id) (s, idle)
  begins : (n : Node) (id : String) → WorkerStep s (waiting id) (begin n s id)
  chooses : (id : String) → WorkerStep s (started id) (s, choose s id)
  fetches : (id : String) → WorkerStep s (fetching id) (fetched s id)
  fetch_fails :
      (id : String) (f : Failure) → WorkerStep s (fetching id) (s, check_failure s true id f)
  settles : (id : String) → WorkerStep s (kept id) (s, settle_stage s id)
  stages : (id : String) → WorkerStep s (caching id) (finish_stage s id, idle)
  loads : (id : String) → WorkerStep s (loading id) (loaded s id)
  load_fails :
      (id : String) (f : Failure) → WorkerStep s (loading id) (s, check_failure s false id f)
  readies : (id : String) → WorkerStep s (readying id) (finish_ready s id, idle)
  fails :
      (only_staged : Bool) (id : String) (f : Failure) (now : ℕ)
      → WorkerStep s (failing only_staged id f) (fail s only_staged id f now, idle)

pub data Step (w : World) : World → Type 0 where
  arrives :
      (n : Node) (r : Request)
      → (admit_start n w.service r).1 ≡ true
      → Step w (record w { service = (admit_start n w.service r).0; admits = r ∷ w.admits })
  settled :
      (n : Node) (r : Request)
      → (admit_start n w.service r).1 ≡ false
      → Step w (record w { service = (admit_start n w.service r).0 })
  finishes :
      (n : Node) (r : Request) (rest : List Request)
      → Member r w.admits
      → Step w (record w { service = admit_finish n w.service r; admits = rest })
  evicts : (n : Node) (id : String) → Step w (record w { service = evict n w.service id })
  unloads : (n : Node) (id : String) → Step w (record w { service = unloaded n w.service id })
  expires :
      (now : ℕ)
      → Step w (record w { service = record w.service { pending = expire w.service.pending now } })
  works :
      (q : Service × Phase)
      → WorkerStep w.service w.worker q
      → Step w (record w { service = q.0; worker = q.1 })

pub data Reach (a : World) : World → Type 0 where
  here : Reach a a
  next_step : {b c : World} → Reach a b → Step b c → Reach a c

abbrev pub start : World
start = record { service = empty; worker = idle; admits = [] }
