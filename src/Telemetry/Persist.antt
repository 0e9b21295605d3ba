-- ===== src/Telemetry/Persist.antt =====
-- internal/telemetry/persist.go: the counters on disk, over restarts of the daemon. A file holds what
-- `SaveCounters` wrote, or is missing, cannot be read, or cannot be used.
use flockd.Base.{
  ℕ, ◌≡◌, refl, sym, ap, ◌∙◌, inl, inr, ◌⊎◌, Bool, true, false, ◌&&◌, Option, none, some, arith,
  ◌==◌, if◌then◌else◌, Bool-cases, Option-cases,
}
use flockd.Telemetry.{
  Stats, Counters, no_counters, new_stats, restore, lifetime, since_of, record_tokens,
  record_request, request_started, request_finished,
}

pub data StatsFile : Type 0 where
  missing unreadable unusable : StatsFile
  holds : Counters → StatsFile

-- The daemon: its `Stats`, the file, and what its `Persister` takes the file to hold.
pub record Daemon : Type 0 where
  pub stats : Stats
  pub file : StatsFile
  pub last : Counters

-- An unusable file is moved aside, if the rename succeeds.
unfoldable pub load_counters : StatsFile → Bool → StatsFile × Option Counters
load_counters missing renamed = (missing, none)
load_counters unreadable renamed = (unreadable, none)
load_counters unusable true = (missing, none)
load_counters unusable false = (unusable, none)
load_counters (holds c) renamed = (holds c, some c)

abbrev pub restored : Daemon → Option Counters → Daemon
restored d none = d
restored d (some c) = record d { stats = restore d.stats c; last = c }

-- A new process: `NewStats`, a `Persister` that knows of no file yet, and its `Restore`.
unfoldable pub restart : Daemon → ℕ → Bool → Daemon
unfolding load_counters new_stats restore
restart d now renamed =
    let (file, c) = load_counters d.file renamed in
    restored (record { stats = new_stats now; file = file; last = no_counters }) c

abbrev pub time_eq : Option ℕ → Option ℕ → Bool
time_eq none none = true
time_eq none (some b) = false
time_eq (some a) none = false
time_eq (some a) (some b) = a == b

abbrev pub counters_eq : Counters → Counters → Bool
counters_eq c d =
    c.tokens == d.tokens
    && c.requests == d.requests
    && c.earned_microcred == d.earned_microcred
    && time_eq c.since d.since

-- `Save`, with whether the file could be written.
unfoldable pub save : Daemon → Bool → Daemon
unfolding lifetime
save d written =
    let c = lifetime d.stats in
    if counters_eq c d.last then d else if written then record d { file = holds c; last = c } else d

pub data Step (d : Daemon) : Daemon → Type 0 where
  records_tokens : (n now : ℕ) → Step d (record d { stats = record_tokens d.stats n now })
  records_request :
      (payout now : ℕ) → Step d (record d { stats = record_request d.stats payout now })
  starts : Step d (record d { stats = request_started d.stats })
  finishes : Step d (record d { stats = request_finished d.stats })
  saves : (written : Bool) → Step d (save d written)
  -- after a shutdown or a crash
  restarts : (now : ℕ) (renamed : Bool) → Step d (restart d now renamed)

pub data Reach (a : Daemon) : Daemon → Type 0 where
  here : Reach a a
  next : {b c : Daemon} → Reach a b → Step b c → Reach a c

-- What the persister takes the file to hold is there, if it takes it to hold anything.
abbrev InSync : Daemon → Type 0
InSync d = (d.last ≡ no_counters) ⊎ (d.file ≡ holds d.last)

loaded-InSync :
    (f : StatsFile) (renamed : Bool) (s : Stats)
    → InSync (
        restored
          (record { stats = s; file = (load_counters f renamed).0; last = no_counters })
          (load_counters f renamed).1)
unfolding load_counters
loaded-InSync missing renamed s = inl refl
loaded-InSync unreadable renamed s = inl refl
loaded-InSync unusable true s = inl refl
loaded-InSync unusable false s = inl refl
loaded-InSync (holds c) renamed s = inr refl

restart-InSync : (d : Daemon) (now : ℕ) (renamed : Bool) → InSync (restart d now renamed)
unfolding restart
restart-InSync d now renamed = loaded-InSync d.file renamed (new_stats now)

save-InSync : (d : Daemon) (written : Bool) → InSync d → InSync (save d written)
unfolding save
save-InSync d written s = elim (Bool-cases (counters_eq (lifetime d.stats) d.last)) [
  | inl same ↦ rw same s
  | inr other ↦ elim (Bool-cases written) [
    | inl yes_written ↦ rw (other, yes_written) (inr refl)
    | inr failed ↦ rw (other, failed) s
  ]
]

Step-InSync : {d e : Daemon} → Step d e → InSync d → InSync e
Step-InSync (records_tokens n now) s = s
Step-InSync (records_request payout now) s = s
Step-InSync starts s = s
Step-InSync finishes s = s
Step-InSync {d} (saves written) s = save-InSync d written s
Step-InSync {d} (restarts now renamed) s = restart-InSync d now renamed

Reach-InSync : {a d : Daemon} → InSync a → Reach a d → InSync d
Reach-InSync s here = s
Reach-InSync s (next r st) = Step-InSync st (Reach-InSync s r)

time_eq-eq : (a b : Option ℕ) → time_eq a b ≡ true → a ≡ b
time_eq-eq none none e = refl
time_eq-eq none (some b) e = cc
time_eq-eq (some a) none e = cc
time_eq-eq (some a) (some b) e = ground arith

counters_eq-eq : (c d : Counters) → counters_eq c d ≡ true → c ≡ d
counters_eq-eq c d e = ground (arith, time_eq-eq c.since d.since)

-- The lifetime always has a beginning.
lifetime-since : (s : Stats) → (t : ℕ) × ((lifetime s).since ≡ some t)
unfolding lifetime
lifetime-since s = elim (Option-cases s.base.since) [
  | inl e ↦ (s.started, rw (e, since_of) refl)
  | inr (t, e) ↦ (t, rw (e, since_of) refl)
]

file-save : (d : Daemon) → InSync d → (save d true).file ≡ holds (lifetime d.stats)
unfolding save
file-save d s = elim (Bool-cases (counters_eq (lifetime d.stats) d.last)) [
  | inr other ↦ rw other refl
  | inl same ↦
      let e = counters_eq-eq (lifetime d.stats) d.last same in
      let (t, h) = lifetime-since d.stats in
      elim s [
        | inl zero_last ↦ cc (e, zero_last, h)
        | inr there ↦ rw same (there ∙ ap holds (sym e))
      ]
]

lifetime-restore :
    (c : Counters) (now t : ℕ) → c.since ≡ some t → lifetime (restore (new_stats now) c) ≡ c
unfolding lifetime restore new_stats
lifetime-restore c now t e = ground (arith, e)

restart-holds :
    (d : Daemon) (c : Counters) (now : ℕ) (renamed : Bool)
    → d.file ≡ holds c
    → (restart d now renamed).stats ≡ restore (new_stats now) c
unfolding restart load_counters
restart-holds d c now renamed e = rw (e, load_counters) refl

-- From any start of the daemon, over any calls, saves that may fail, crashes and restarts: where the
-- counters are saved and the daemon is started again, the lifetime totals and the time since which they
-- count are the same as before.
pub saved_survives :
    (boot : Daemon) (booted : ℕ) (set_aside : Bool) {d : Daemon} (now : ℕ) (renamed : Bool)
    → Reach (restart boot booted set_aside) d
    → lifetime (restart (save d true) now renamed).stats ≡ lifetime d.stats
saved_survives boot booted set_aside {d} now renamed r =
    let s = Reach-InSync (restart-InSync boot booted set_aside) r in
    let (t, h) = lifetime-since d.stats in
    rw (restart-holds (save d true) (lifetime d.stats) now renamed (file-save d s))
      (lifetime-restore (lifetime d.stats) now t h)
