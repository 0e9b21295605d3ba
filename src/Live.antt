-- ===== src/Live.antt =====
-- internal/live/live.go: the requests in flight and the ring of those that finished. A handle is known
-- by its sequence number, which is also its key in the source's `inflight` map.
pub mod Books
pub mod Tallies
use flockd.Base.{
  ℕ, zero, suc, ◌+◌, ◌-◌, ◌*◌, ◌/◌, Bool, true, false, List, [], ◌∷◌, ◌++◌, Option, none, some,
  String, ltb, ◌==◌, str_eq, if◌then◌else◌,
}
use flockd.Base.Dict.{Dict, lookup, insert}
use flockd.Ring
use flockd.Ring.{Ring}

pub record Handle : Type 0 where
  pub seq : ℕ
  pub model : String
  pub kind : String
  pub origin : String
  pub start : ℕ
  pub tokens : ℕ
  pub done : Bool

pub record InFlight : Type 0 where
  pub id : ℕ
  pub model : String
  pub kind : String
  pub origin : String
  pub started_at : ℕ
  pub elapsed_ms : ℕ
  pub tokens : ℕ

pub record Finished : Type 0 where
  pub id : ℕ
  pub model : String
  pub kind : String
  pub origin : String
  pub started_at : ℕ
  pub duration_ms : ℕ
  pub prompt_tokens : ℕ
  pub completion_tokens : ℕ
  pub outcome : String

-- What the hub is told.
pub data Event : Type 0 where
  request_started : InFlight → Event
  request_finished : Finished → Event

pub record Tracker : Type 0 where
  pub seq : ℕ
  -- every handle that was made
  pub handles : List Handle
  -- the keys of the `inflight` map
  pub inflight : List ℕ
  pub ring : Ring Finished
  pub events : List Event

abbrev pub zero_finished : Finished
zero_finished = record {
  id = 0;
  model = "";
  kind = "";
  origin = "";
  started_at = 0;
  duration_ms = 0;
  prompt_tokens = 0;
  completion_tokens = 0;
  outcome = "";
}

unfoldable pub new : ℕ → Tracker
new n = record {
  seq = 0;
  handles = [];
  inflight = [];
  ring = Ring.new zero_finished n;
  events = [];
}

-- `now.Sub(start).Milliseconds()`; the clock is monotonic.
abbrev pub milliseconds : ℕ → ℕ → ℕ
milliseconds start now = (now - start) / 1_000_000

unfoldable pub snapshot : Handle → ℕ → InFlight
snapshot h now = record {
  id = h.seq;
  model = h.model;
  kind = h.kind;
  origin = h.origin;
  started_at = h.start;
  elapsed_ms = milliseconds h.start now;
  tokens = h.tokens;
}

unfoldable pub start : Tracker → String → String → String → ℕ → Tracker × ℕ
unfolding snapshot
start t model kind origin now =
    let h : Handle = record {
      seq = suc t.seq;
      model = model;
      kind = kind;
      origin = if str_eq origin "" then "local" else origin;
      start = now;
      tokens = 0;
      done = false;
    } in
    (
      record t {
        seq = suc t.seq;
        handles = h ∷ t.handles;
        inflight = suc t.seq ∷ t.inflight;
        events = request_started (snapshot h now) ∷ t.events;
      },
      suc t.seq,
    )

unfoldable pub find_handle : ℕ → List Handle → Option Handle
find_handle s [] = none
find_handle s (h ∷ hs) = if h.seq == s then some h else find_handle s hs

unfoldable pub modify : ℕ → (Handle → Handle) → List Handle → List Handle
modify s f [] = []
modify s f (h ∷ hs) = (if h.seq == s then f h else h) ∷ modify s f hs

unfoldable pub add_tokens : Tracker → ℕ → ℕ → Tracker
unfolding modify
add_tokens t s n =
    if ltb 0 n
    then record t { handles = modify s (λ h. record h { tokens = h.tokens + n }) t.handles }
    else t

unfoldable pub remove : ℕ → List ℕ → List ℕ
remove s [] = []
remove s (x ∷ xs) = let rest = remove s xs in if x == s then rest else x ∷ rest

-- A completion count of `none` stands for a negative one: the streamed count is used.
abbrev pub finished_of : Handle → String → ℕ → Option ℕ → ℕ → Finished
finished_of h outcome prompt completion now = record {
  id = h.seq;
  model = h.model;
  kind = h.kind;
  origin = h.origin;
  started_at = h.start;
  duration_ms = milliseconds h.start now;
  prompt_tokens = prompt;
  completion_tokens = elim completion [ none ↦ h.tokens | some n ↦ n ];
  outcome = outcome;
}

abbrev pub retire : Tracker → Handle → Finished → Tracker
unfolding modify remove Ring.push
retire t h f = record t {
  handles = modify h.seq (λ g. record g { done = true }) t.handles;
  inflight = remove h.seq t.inflight;
  ring = Ring.push t.ring f;
  events = request_finished f ∷ t.events;
}

-- Only the first call for a handle counts.
unfoldable pub finish : Tracker → ℕ → String → ℕ → Option ℕ → ℕ → Tracker
unfolding find_handle modify remove Ring.push
finish t s outcome prompt completion now = elim (find_handle s t.handles) [
  | none ↦ t
  | some h ↦ if h.done then t else retire t h (finished_of h outcome prompt completion now)
]

unfoldable pub recent : Tracker → ℕ → List Finished
unfolding Ring.recent
recent t limit = Ring.recent t.ring limit

pub record Counts : Type 0 where
  pub total : ℕ
  pub by_kind : Dict ℕ

abbrev pub no_counts : Counts
no_counts = record { total = 0; by_kind = [] }

abbrev pub or_else {ℓ} : {A : Type ℓ} → Option A → A → A
or_else none d = d
or_else (some a) d = a

-- `c.Total++; c.ByKind[h.kind]++`
abbrev pub tally : Handle → Counts → Counts
tally h c = record {
  total = suc c.total;
  by_kind = insert h.kind (suc (or_else (lookup h.kind c.by_kind) 0)) c.by_kind;
}

abbrev pub tally_handle : Option Handle → Dict Counts → Dict Counts
tally_handle none out = out
tally_handle (some h) out = insert h.model (tally h (or_else (lookup h.model out) no_counts)) out

unfoldable pub count_inflight : List Handle → List ℕ → Dict Counts → Dict Counts
unfolding find_handle lookup insert
count_inflight handles [] out = out
count_inflight handles (s ∷ ss) out =
    count_inflight handles ss (tally_handle (find_handle s handles) out)

unfoldable pub counts_by_model : Tracker → Dict Counts
unfolding count_inflight
counts_by_model t = count_inflight t.handles t.inflight []
