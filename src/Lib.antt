-- ===== src/Lib.antt =====
-- Verification of flockd, the Teraflock node daemon: the parts of the Go program under internal/ that
-- decide when a node serves, with how much memory, and what its callers are told.
--
-- internal/governor
--   schedule.go      Governor/Window (`Window.Contains`, `inAnyWindow`), Governor/Parse (`ParseWindow`
--                    over code points, with the parts of Go's strings and time packages that it uses)
--   governor.go      Governor/Policy (`State`, `Policy`, `desiredState`), Governor/Core (the Governor's
--                    fields and every method), Governor/World (the Governor with its clients: one step
--                    for each critical section, so that traces are interleavings)
--   A request's context is known by a handle; `cancelled` lists the handles whose context is cancelled.
--   `evaluate` is the composition of `sample` and `transition`; in World they are two steps, and a
--   transition goes to any state, so that other calls may come between and the signals are free. Times
--   are nanoseconds.
-- internal/memory
--   memory.go        Memory/Estimate (hardware kind, automatic budget, footprint estimate)
--   plan.go          Memory/Plan (caps, slot search, the encoder's loop, `PlanContext`)
--   float64 is the record Memory/Float.Float64, with no laws, so that no rounding is assumed away. The
--   encoder's loop runs on fuel equal to the context that it starts from; every round takes 256 off, so
--   it does not run out.
-- internal/engine
--   engine.go        Engine (entries, demand counters and the registry of models), Engine/Requests (the
--                    critical sections of one request in `Complete`, `enter` and `meteredStream.finish`),
--                    Engine/World (the registry with its requests, whose sections interleave),
--                    Engine/Default, Engine/Listed and Engine/Calls (the default model)
--   Pointers to entries and counters are addresses of heaps. The admitter is a choice: a request that
--   waits may give up. Atomic updates that follow each other in one request, with no wait between, are
--   one step. The counts that a request takes down after it took them up are on ℕ, where `-` stops at
--   0; the demand counters are integers.
-- internal/modelops
--   scale.go         Scaling (`pow2ceil`, `growTarget`, `shrinkTarget`, and one model's turn in `ScaleTick`
--                    with the scaling fields of its `loadInfo`)
--   memory.go        Admission (the accounting, `admit`, `UnloadIdle`, and `unload` of an idle model),
--                    Admission/Room (what admission unloads), Admission/Idle (the sweep),
--                    Admission/Measure (`Measure`, `Memory`), Admission/Resize (`Resize` before and
--                    after the start of the runtime, `drain`), Admission/Charges (proofs)
--   What `shrinkForRoom` leaves is an argument of `admit`. A request may arrive at a model between the
--   look at it and its unload: `busy` says at which. `bits.Len` runs on fuel equal to its number, which
--   is halved each round, so it does not run out.
-- internal/events
--   events.go        Events (`Hub`, with the reads of its consumers)
-- internal/telemetry
--   telemetry.go     Telemetry (`Stats`, its rings of timestamps, `Snapshot`)
--   persist.go       Telemetry/Persist (`Persister` over an abstract file, with restarts)
-- internal/live, internal/activity
--   live.go          Ring (the ring of finished requests), Live (`Tracker`, `Handle`)
--   activity.go      Ring (`Ring`)
--
-- internal/assign
--   assign.go        Assign (`Service`, `admit`, `evict`, `conclude`, `expire`, the unload hook),
--                    Assign/Worker (`process` in its critical sections), Assign/World (pushes beside the
--                    worker), Assign/Answers (refusals), Assign/Removals (what leaves the disk)
--   The catalog, the model store, the operations and the policy are a `Node` that each call reads anew;
--   reports, events, activity rows and calls of the operations are acts that the service lists. A push
--   runs in its own goroutine, so the two locked sections of an admission are two steps.
--
-- internal/models
--   manager.go       Models (`Manager`, its index and `evictForLocked`, `Has`, `Origin`, `Pin`, `Touch`,
--                    `Remove`), Models/Ensure (`EnsureArtifact`, `NewManager`), Models/Retention
--                    (`Retain`), Models/Id (`ValidateID` over code points), Models/Candidates, Models/Loop,
--                    Models/Budget, Models/Consent and Models/Resume (proofs)
--   The disk is the set of ids whose files are all there; which files can be removed is an argument. A
--   sort by time is an insertion sort, one of the orders that `sort.Slice` may choose among equals.
--   Sizes are natural numbers.
--
-- internal/decision
--   request.go       Decision (types and limits), Decision/Values (JSON values, `orderedObject`, `leaf`),
--                    Decision/Parse (`ParseRequest`), Decision/Again and Decision/RoundTrip (proofs)
--   wire.go          Decision/Wire (`RuntimeBody`), Decision/Answers (`ParseRuntimeResponse`,
--                    `WriteResponse`), Decision/Written, Decision/Fine, Decision/Accepted,
--                    Decision/Ordered, Decision/Response (proofs)
--   A JSON value is a tree whose objects keep the order of the document, and what the writer puts out is
--   a list of tokens: the scanner and the encoder of the standard library lie between these and bytes.
--   `strconv.Itoa` runs on fuel equal to its number, which loses a digit each round.
--
-- internal/gguf
--   gguf.go          Gguf (the parser of single values), Gguf/Header (`Read`, `wantInt`, `wantList` and
--                    `KVBytesPerToken`), Gguf/Print and Gguf/Described (the format that it reads, as
--                    printers of a header and what a header describes), Gguf/Extends, Gguf/Ends,
--                    each with a child for the header, Gguf/Ends/Depth, Gguf/Values, Gguf/Arrays, Gguf/Levels, Gguf/Kept,
--                    Gguf/RoundTrip, Gguf/Whole and Gguf/Size (proofs)
--   A file is the list of its bytes, an `int64` its bit pattern. A nested array is read with fuel one above
--   the number of bytes; each level takes twelve bytes, so the fuel does not run out. The loops over
--   counts recur on the counts, and stop at the first error as the code does.
--
-- Base holds the shared names: Boolean tests on the native numbers, lists, and Go's maps as association
-- lists with their laws. Examples holds tests and the theorems at concrete inputs.
--
-- Not modelled: goroutine scheduling inside a critical section, logging, int64 overflow of sizes, and
-- the parts of the daemon that only move bytes (HTTP handlers, the tunnel's transport, downloads). Of
-- the parts with state, the loads and `shrinkForRoom` of internal/modelops and the transfers of
-- internal/models are left out: they drive runtimes and downloads. So are the runtime adapter, the
-- probes, enrollment, configuration, self-update and the service files, which read and write processes,
-- devices and files.
pub mod Base
pub mod Governor
pub mod Memory
pub mod Ring
pub mod Live
pub mod Assign
pub mod Models
pub mod Decision
pub mod Admission
pub mod Engine
pub mod Events
pub mod Scaling
pub mod Telemetry
pub mod Examples
pub mod Gguf
