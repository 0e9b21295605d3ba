-- ===== src/Telemetry.antt =====
-- internal/telemetry/telemetry.go: the rolling windows and the counters that outlive a run. Timestamps
-- are held newest first; `t.After(now.Add(-w))` is written `now < t + w`.
pub mod Window
pub mod Rates
pub mod Persist
use flockd.Base.{
  ℕ, zero, suc, ◌+◌, ◌-◌, Bool, true, false, List, [], ◌∷◌, Option, none, some, ltb, if◌then◌else◌,
  length,
}

abbrev pub minute : ℕ
minute = 60_000_000_000

abbrev pub five_minutes : ℕ
five_minutes = 300_000_000_000

abbrev pub max_timestamps : ℕ
max_timestamps = 65536

abbrev pub within : ℕ → ℕ → ℕ → Bool
within now w t = ltb now (t + w)

unfoldable pub compact : ℕ → List ℕ → List ℕ
compact now [] = []
compact now (t ∷ ts) =
    let rest = compact now ts in if within now five_minutes t then t ∷ rest else rest

unfoldable pub add : List ℕ → ℕ → List ℕ
unfolding compact
add ts t = if ltb max_timestamps (length (t ∷ ts)) then compact t (t ∷ ts) else t ∷ ts

-- From the newest on, up to the first that is too old.
unfoldable pub count_since : ℕ → ℕ → List ℕ → ℕ
count_since now w [] = 0
count_since now w (t ∷ ts) =
    let rest = suc (count_since now w ts) in if within now w t then rest else 0

pub record Counters : Type 0 where
  pub tokens : ℕ
  pub requests : ℕ
  pub earned_microcred : ℕ
  -- `none` is the zero time
  pub since : Option ℕ

pub record Stats : Type 0 where
  pub tokens : List ℕ
  pub requests : List ℕ
  pub total_requests : ℕ
  pub total_tokens : ℕ
  pub inflight : ℕ
  pub earned_microcred : ℕ
  pub base : Counters
  pub started : ℕ

abbrev pub no_counters : Counters
no_counters = record { tokens = 0; requests = 0; earned_microcred = 0; since = none }

unfoldable pub new_stats : ℕ → Stats
new_stats now = record {
  tokens = [];
  requests = [];
  total_requests = 0;
  total_tokens = 0;
  inflight = 0;
  earned_microcred = 0;
  base = no_counters;
  started = now;
}

unfoldable pub restore : Stats → Counters → Stats
restore s c = record s { base = c }

abbrev pub since_of : Option ℕ → ℕ → Option ℕ
since_of none started = some started
since_of (some t) started = some t

unfoldable pub lifetime : Stats → Counters
lifetime s = record {
  tokens = s.base.tokens + s.total_tokens;
  requests = s.base.requests + s.total_requests;
  earned_microcred = s.base.earned_microcred + s.earned_microcred;
  since = since_of s.base.since s.started;
}

-- The loop of `RecordTokens`.
unfoldable pub add_times : ℕ → List ℕ → ℕ → List ℕ
unfolding add
add_times zero ts t = ts
add_times (suc n) ts t = add (add_times n ts t) t

unfoldable pub record_tokens : Stats → ℕ → ℕ → Stats
unfolding add_times
record_tokens s n now = record s {
  tokens = add_times n s.tokens now;
  total_tokens = s.total_tokens + n;
}

unfoldable pub record_request : Stats → ℕ → ℕ → Stats
unfolding add
record_request s payout now = record s {
  requests = add s.requests now;
  total_requests = suc s.total_requests;
  earned_microcred = s.earned_microcred + payout;
}

unfoldable pub request_started : Stats → Stats
request_started s = record s { inflight = suc s.inflight }

unfoldable pub request_finished : Stats → Stats
request_finished s = if ltb 0 s.inflight then record s { inflight = s.inflight - 1 } else s

pub record Snapshot : Type 0 where
  -- sixty times `TokensPerSec1m`
  pub tokens_1m : ℕ
  pub requests_per_min : ℕ
  pub total_requests : ℕ
  pub total_tokens : ℕ
  pub inflight : ℕ
  pub earned_microcred : ℕ
  pub session_requests : ℕ
  pub session_tokens : ℕ
  pub session_earned_microcred : ℕ
  pub lifetime_since : Option ℕ

unfoldable pub snapshot : Stats → ℕ → Snapshot
unfolding count_since lifetime
snapshot s now =
    let life = lifetime s in
    record {
      tokens_1m = count_since now minute s.tokens;
      requests_per_min = count_since now minute s.requests;
      total_requests = life.requests;
      total_tokens = life.tokens;
      inflight = s.inflight;
      earned_microcred = life.earned_microcred;
      session_requests = s.total_requests;
      session_tokens = s.total_tokens;
      session_earned_microcred = s.earned_microcred;
      lifetime_since = life.since;
    }
