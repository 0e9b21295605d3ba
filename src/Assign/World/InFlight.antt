-- ===== src/Assign/World/InFlight.antt =====
-- internal/assign/assign.go: the placements in flight over the traces of the service.
use flockd.Base.{◌≡◌, refl, inl, inr, String, arith, true, some}
use flockd.Base.Dict.{lookup}
use flockd.Assign.{Service, Pending, expire}
use flockd.Assign.World.{
  World, Step, arrives, settled, finishes, evicts, unloads, expires, works, Reach, here, next_step,
  start,
}
use flockd.Assign.World.Served.{served_as}
use flockd.Assign.World.Pushes.{
  Inv, admit_start-Inv, admit_finish-Inv, evict-Inv, unloaded-Inv, lookup-expire, expire-Distinct,
}
use flockd.Assign.World.Progress.{WorkerStep-Inv}
use flockd.Assign.Worker.{Phase}
use flockd.Base.{ℕ}

expire-Inv :
    (s : Service) (w : Phase) (now : ℕ)
    → Inv s w
    → Inv (record s { pending = expire s.pending now }) w
expire-Inv s w now i = record {
  served = λ j. elim (lookup-expire j s.pending now i.distinct) [
    | inl e ↦ ground (arith, e)
    | inr e ↦ ground (arith, e, i.served j)
  ];
  distinct = expire-Distinct s.pending now i.distinct;
}

Step-Inv : (a b : World) → Step a b → Inv a.service a.worker → Inv b.service b.worker
Step-Inv a _ (arrives n r e) i = admit_start-Inv a.service a.worker i n r
Step-Inv a _ (settled n r e) i = admit_start-Inv a.service a.worker i n r
Step-Inv a _ (finishes n r rest m) i = admit_finish-Inv a.service a.worker i n r
Step-Inv a _ (evicts n id) i = evict-Inv a.service a.worker i n id
Step-Inv a _ (unloads n id) i = unloaded-Inv a.service a.worker i n id
Step-Inv a _ (expires now) i = expire-Inv a.service a.worker now i
Step-Inv a _ (works q st) i = WorkerStep-Inv a.service a.worker q st i

start-Inv : Inv start.service start.worker
unfolding lookup
start-Inv = record { served = λ j. refl; distinct = tt }

Reach-Inv : (w : World) → Reach start w → Inv w.service w.worker
Reach-Inv _ here = start-Inv
Reach-Inv _ (next_step {b} {c} t st) = Step-Inv b c st (Reach-Inv b t)

-- However pushes, evictions, unloads, the sweep of old records and the worker interleave, a placement
-- that is `assigned` is in the queue or is the one that the worker took off it, and one that is
-- `downloading` is the one that the worker is on: none is announced and forgotten.
pub in_flight-served_as :
    (w : World) (id : String) (p : Pending)
    → Reach start w
    → lookup id w.service.pending ≡ some p
    → served_as w.service.queue w.worker id p.state ≡ true
in_flight-served_as w id p t e = ground (arith, (Reach-Inv w t).served id, e)
