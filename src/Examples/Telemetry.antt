-- ===== src/Examples/Telemetry.antt =====
-- internal/telemetry at concrete inputs.
use flockd.Base.{ℕ, ◌*◌, ◌≡◌, refl, true, false, List, [], ◌∷◌, arith}
use flockd.Telemetry.{snapshot, within, minute, new_stats, no_counters, lifetime, record_request}
use flockd.Telemetry.Persist.{
  Daemon, missing, restart, save, records_request, saves, restarts, Reach, here, next,
  saved_survives,
}
use flockd.Telemetry.Rates.{
  Op, records_tokens, starts, finishes, after, tokens_of, requests_of, snapshot_counts,
}

abbrev second : ℕ
second = 1_000_000_000

-- Three tokens 85 seconds ago, a request 55 seconds ago, two tokens 5 seconds ago.
abbrev day : List Op
day =
    records_tokens 2 (90 * second)
    ∷ finishes
    ∷ Op.records_request 20 (40 * second)
    ∷ records_tokens 3 (10 * second)
    ∷ starts
    ∷ []

rates : let s = snapshot (after 0 day) (95 * second) in (s.tokens_1m ≡ 2) × (s.session_tokens ≡ 5)
unfolding after snapshot
rates = (refl, refl)

snapshot_counts_example :
    let s = snapshot (after 0 day) (95 * second) in
    (s.tokens_1m ≡ tokens_of (within (95 * second) minute) day)
    × (s.requests_per_min ≡ requests_of (within (95 * second) minute) day)
    × (s.session_tokens ≡ tokens_of (λ t. true) day)
    × (s.session_requests ≡ requests_of (λ t. true) day)
snapshot_counts_example = snapshot_counts 0 day (95 * second) (omega arith) (omega arith)

abbrev no_file : Daemon
no_file = record { stats = new_stats 0; file = missing; last = no_counters }

abbrev first_run : Daemon
first_run = restart no_file 10 true

-- A request that pays 7, a save that fails, a crash, and a request that pays 5.
abbrev second_run : Daemon
second_run =
    let d =
      restart (save (record first_run { stats = record_request first_run.stats 7 20 }) false) 30
        true in
    record d { stats = record_request d.stats 5 40 }

second_run-Reach : Reach first_run second_run
second_run-Reach =
    next (next (next (next here (records_request 7 20)) (saves false)) (restarts 30 true))
      (records_request 5 40)

saved_survives_example :
    lifetime (restart (save second_run true) 50 true).stats ≡ lifetime second_run.stats
saved_survives_example = saved_survives no_file 10 true 50 true second_run-Reach

-- The failed save cost the first run's request.
second_run_earned : (lifetime second_run.stats).earned_microcred ≡ 5
unfolding restart save record_request lifetime
second_run_earned = refl
