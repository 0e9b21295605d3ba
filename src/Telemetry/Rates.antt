-- ===== src/Telemetry/Rates.antt =====
-- internal/telemetry/telemetry.go: the rates of a snapshot against the calls so far.
use flockd.Base.{ℕ, ◌+◌, ◌≤◌, ◌≡◌, refl, ◌∙◌, Bool, true, List, [], ◌∷◌, arith, if◌then◌else◌}
use flockd.Telemetry.{
  Stats, within, minute, new_stats, record_tokens, record_request, request_started,
  request_finished, snapshot,
}
use flockd.Telemetry.Window.{
  Tracks, count_since-number_within, add-Tracks, add_times-Tracks, later-Tracks,
}

pub data Op : Type 0 where
  records_tokens : ℕ → ℕ → Op
  records_request : ℕ → ℕ → Op
  starts : Op
  finishes : Op

-- A run of the daemon after its calls, the newest first.
unfoldable pub after : ℕ → List Op → Stats
unfolding new_stats record_tokens record_request request_started request_finished
after started [] = new_stats started
after started (records_tokens n now ∷ ops) = record_tokens (after started ops) n now
after started (records_request payout now ∷ ops) = record_request (after started ops) payout now
after started (starts ∷ ops) = request_started (after started ops)
after started (finishes ∷ ops) = request_finished (after started ops)

-- The time of the newest record.
abbrev pub latest_of : ℕ → List Op → ℕ
latest_of started [] = started
latest_of started (records_tokens n now ∷ ops) = now
latest_of started (records_request payout now ∷ ops) = now
latest_of started (starts ∷ ops) = latest_of started ops
latest_of started (finishes ∷ ops) = latest_of started ops

-- The clock does not go back.
abbrev pub Timed : ℕ → List Op → Type 0
Timed started [] = Unit
Timed started (records_tokens n now ∷ ops) = (latest_of started ops ≤ now) × Timed started ops
Timed started (records_request payout now ∷ ops) = (latest_of started ops ≤ now) × Timed started ops
Timed started (starts ∷ ops) = Timed started ops
Timed started (finishes ∷ ops) = Timed started ops

-- The tokens of the records that pass a test of their times, and the requests.
abbrev pub tokens_of : (ℕ → Bool) → List Op → ℕ
tokens_of f [] = 0
tokens_of f (records_tokens n now ∷ ops) = (if f now then n else 0) + tokens_of f ops
tokens_of f (records_request payout now ∷ ops) = tokens_of f ops
tokens_of f (starts ∷ ops) = tokens_of f ops
tokens_of f (finishes ∷ ops) = tokens_of f ops

abbrev pub requests_of : (ℕ → Bool) → List Op → ℕ
requests_of f [] = 0
requests_of f (records_tokens n now ∷ ops) = requests_of f ops
requests_of f (records_request payout now ∷ ops) = (if f now then 1 else 0) + requests_of f ops
requests_of f (starts ∷ ops) = requests_of f ops
requests_of f (finishes ∷ ops) = requests_of f ops

record Kept (started : ℕ) (ops : List Op) (s : Stats) : Type 0 where
  tokens : Tracks (latest_of started ops) s.tokens (λ now w. tokens_of (within now w) ops)
  requests : Tracks (latest_of started ops) s.requests (λ now w. requests_of (within now w) ops)
  total_tokens : s.total_tokens ≡ tokens_of (λ t. true) ops
  total_requests : s.total_requests ≡ requests_of (λ t. true) ops

finished_same :
    (s : Stats)
    → ((request_finished s).tokens ≡ s.tokens)
      × ((request_finished s).requests ≡ s.requests)
      × ((request_finished s).total_tokens ≡ s.total_tokens)
      × ((request_finished s).total_requests ≡ s.total_requests)
unfolding request_finished
finished_same s = (ground arith, ground arith, ground arith, ground arith)

after-Kept :
    (started : ℕ) (ops : List Op) → Timed started ops → Kept started ops (after started ops)
unfolding after
after-Kept started [] h =
    let empty : Tracks started [] (λ now w. 0) = record {
      sorted = tt;
      latest = tt;
      counts = λ now w p q. refl;
    } in
    record { tokens = empty; requests = empty; total_tokens = refl; total_requests = refl }
after-Kept started (records_tokens n now ∷ ops) h =
    let k = after-Kept started ops h.1 in
    let s = after started ops in
    record {
      tokens = add_times-Tracks n (latest_of started ops) s.tokens _ now h.0 k.tokens;
      requests = later-Tracks (latest_of started ops) now s.requests _ h.0 k.requests;
      total_tokens = omega (arith, k.total_tokens);
      total_requests = k.total_requests;
    }
after-Kept started (records_request payout now ∷ ops) h =
    let k = after-Kept started ops h.1 in
    let s = after started ops in
    record {
      tokens = later-Tracks (latest_of started ops) now s.tokens _ h.0 k.tokens;
      requests = add-Tracks (latest_of started ops) s.requests _ now h.0 k.requests;
      total_tokens = k.total_tokens;
      total_requests = omega (arith, k.total_requests);
    }
after-Kept started (starts ∷ ops) h =
    let k = after-Kept started ops h in
    record {
      tokens = k.tokens;
      requests = k.requests;
      total_tokens = k.total_tokens;
      total_requests = k.total_requests;
    }
after-Kept started (finishes ∷ ops) h =
    let k = after-Kept started ops h in
    let (a, b, c, d) = finished_same (after started ops) in
    record {
      tokens = rw a k.tokens;
      requests = rw b k.requests;
      total_tokens = c ∙ k.total_tokens;
      total_requests = d ∙ k.total_requests;
    }

-- After any calls, with a clock that does not go back: the rates of a snapshot count exactly the tokens
-- and the requests that were recorded less than a minute before, though timestamps are dropped when
-- there are too many, and the session's totals count all of them.
pub snapshot_counts :
    (started : ℕ) (ops : List Op) (now : ℕ)
    → Timed started ops
    → latest_of started ops ≤ now
    → let s = snapshot (after started ops) now in
      (s.tokens_1m ≡ tokens_of (within now minute) ops)
      × (s.requests_per_min ≡ requests_of (within now minute) ops)
      × (s.session_tokens ≡ tokens_of (λ t. true) ops)
      × (s.session_requests ≡ requests_of (λ t. true) ops)
unfolding snapshot
snapshot_counts started ops now h p =
    let k = after-Kept started ops h in
    let s = after started ops in
    (
      count_since-number_within now minute s.tokens k.tokens.sorted
          ∙ k.tokens.counts now minute p (omega arith),
      count_since-number_within now minute s.requests k.requests.sorted
          ∙ k.requests.counts now minute p (omega arith),
      k.total_tokens,
      k.total_requests,
    )
