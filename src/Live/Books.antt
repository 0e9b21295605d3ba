-- ===== src/Live/Books.antt =====
-- internal/live/live.go: the tracker after any calls, against a log without a bound.
use flockd.Base.{
  ℕ, suc, ◌+◌, ◌≡◌, refl, ap, true, false, ◌&&◌, List, [], ◌∷◌, Option, none, some, String, arith,
  ltb, leb, ◌==◌, if◌then◌else◌, Bool-cases, Option-cases, inl, inr, take,
}
use flockd.Ring
use flockd.Ring.Order
use flockd.Ring.Order.{recent-after, shown}
use flockd.Live.{
  Tracker, Handle, Finished, zero_finished, new, start, add_tokens, finish, find_handle, modify,
  remove, finished_of, recent,
}

pub data Op : Type 0 where
  starts : String → String → String → ℕ → Op
  adds_tokens : ℕ → ℕ → Op
  finishes : ℕ → String → ℕ → Option ℕ → ℕ → Op

unfoldable pub apply : Tracker → Op → Tracker
unfolding start add_tokens finish
apply t (starts model kind origin now) = (start t model kind origin now).0
apply t (adds_tokens s n) = add_tokens t s n
apply t (finishes s outcome prompt completion now) = finish t s outcome prompt completion now

-- The tracker after its calls, the newest first.
unfoldable pub after : ℕ → List Op → Tracker
unfolding apply new
after n [] = new n
after n (op ∷ ops) = apply (after n ops) op

-- The rows of the requests that these calls finish, newest first, without a bound.
abbrev log_finish : Option Handle → (Handle → Finished) → List Finished → List Finished
log_finish none f log = log
log_finish (some h) f log = if h.done then log else f h ∷ log

unfoldable pub log_step : Tracker → Op → List Finished → List Finished
unfolding find_handle
log_step t (starts _ _ _ _) log = log
log_step t (adds_tokens _ _) log = log
log_step t (finishes s outcome prompt completion now) log =
    log_finish (find_handle s t.handles) (λ h. finished_of h outcome prompt completion now) log

unfoldable pub finished_log : ℕ → List Op → List Finished
unfolding log_step after
finished_log n [] = []
finished_log n (op ∷ ops) = log_step (after n ops) op (finished_log n ops)

abbrev pub count : ℕ → List ℕ → ℕ
count s [] = 0
count s (x ∷ xs) = let rest = count s xs in if x == s then suc rest else rest

abbrev pub ids : List Finished → List ℕ
ids [] = []
ids (f ∷ fs) = f.id ∷ ids fs

pub record Inv (n : ℕ) (t : Tracker) (log : List Finished) : Type 0 where
  pub ring : t.ring ≡ Order.after zero_finished n log
  pub once :
      (s : ℕ) → count s t.inflight + count s (ids log) ≡ (if ltb 0 s && leb s t.seq then 1 else 0)
  pub keyed : (s : ℕ) (h : Handle) → find_handle s t.handles ≡ some h → h.seq ≡ s
  pub open_handle :
      (s : ℕ) (h : Handle)
      → find_handle s t.handles ≡ some h
      → count s t.inflight ≡ (if h.done then 0 else 1)

new-Inv : (n : ℕ) → Inv n (new n) []
unfolding new find_handle Order.after
new-Inv n = record {
  ring = refl;
  once = λ s. ground arith;
  keyed = λ s h e. cc;
  open_handle = λ s h e. cc;
}

start-Inv :
    (n : ℕ) (t : Tracker) (log : List Finished) (model kind origin : String) (now : ℕ)
    → Inv n t log
    → Inv n (start t model kind origin now).0 log
unfolding start find_handle
start-Inv n t log model kind origin now i = record {
  ring = i.ring;
  once = λ s. ground (arith, i.once s);
  keyed = λ s h e. ground (arith, i.keyed s h);
  open_handle = λ s h e. ground (arith, i.open_handle s h, i.once s);
}

find-modify :
    (j s : ℕ) (f : Handle → Handle) (hs : List Handle)
    → ((h : Handle) → (f h).seq ≡ h.seq)
    → find_handle j (modify s f hs)
      ≡ (elim (find_handle j hs) [ none ↦ none | some h ↦ some (if h.seq == s then f h else h) ])
unfolding find_handle modify
find-modify j s f [] k = refl
find-modify j s f (h ∷ hs) k = ground (arith, k h, find-modify j s f hs k)

count-remove : (j s : ℕ) (xs : List ℕ) → count j (remove s xs) ≡ (if j == s then 0 else count j xs)
unfolding remove
count-remove j s [] = ground arith
count-remove j s (x ∷ xs) = ground (arith, count-remove j s xs)

-- A handle that is found after a change, and the one that it was before.
modified :
    (j s : ℕ) (f : Handle → Handle) (hs : List Handle) (g : Handle)
    → ((h : Handle) → (f h).seq ≡ h.seq)
    → find_handle j (modify s f hs) ≡ some g
    → (h : Handle) × (find_handle j hs ≡ some h) × (g ≡ (if h.seq == s then f h else h))
modified j s f hs g k e = elim (Option-cases (find_handle j hs)) [
  | inl q ↦ cc (rw q at (find-modify j s f hs k))
  | inr (h, q) ↦ (h, q, cc (rw q at (find-modify j s f hs k)))
]

abbrev with_tokens : ℕ → Handle → Handle
with_tokens k h = record h { tokens = h.tokens + k }

abbrev with_done : Handle → Handle
with_done h = record h { done = true }

module _ {n : ℕ} {t : Tracker} {log : List Finished} (i : Inv n t log) where
  add_tokens-Inv : (s k : ℕ) → Inv n (add_tokens t s k) log
  unfolding add_tokens
  add_tokens-Inv s k = elim (Bool-cases (ltb 0 k)) [
    | inr e ↦ rw e i
    | inl e ↦ rw e (record {
      ring = i.ring;
      once = i.once;
      keyed = λ j g p.
          let (h, q, r) = modified j s (with_tokens k) t.handles g (λ h. refl) p in
          ground (arith, i.keyed j h q);
      open_handle = λ j g p.
          let (h, q, r) = modified j s (with_tokens k) t.handles g (λ h. refl) p in
          ground (arith, i.open_handle j h q);
    })
  ]

  -- The handle that a first call of `Finish` retires.
  module _ (s : ℕ) (h : Handle) (found : find_handle s t.handles ≡ some h)
      (live : h.done ≡ false) where
    retire-once :
        (j : ℕ)
        → count j (remove h.seq t.inflight) + count j (h.seq ∷ ids log)
          ≡ (if ltb 0 j && leb j t.seq then 1 else 0)
    retire-once j = ground (
      arith,
      count-remove j h.seq t.inflight,
      i.keyed s h found,
      i.open_handle s h found,
      i.once j,
      i.once s,
    )

    retire-open_handle :
        (j : ℕ) (g : Handle)
        → find_handle j (modify h.seq with_done t.handles) ≡ some g
        → count j (remove h.seq t.inflight) ≡ (if g.done then 0 else 1)
    retire-open_handle j g p =
        let (k, q, r) = modified j h.seq with_done t.handles g (λ h. refl) p in
        ground (arith, count-remove j h.seq t.inflight, i.keyed j k q, i.open_handle j k q)

    retire-keyed :
        (j : ℕ) (g : Handle) → find_handle j (modify h.seq with_done t.handles) ≡ some g → g.seq ≡ j
    retire-keyed j g p =
        let (k, q, r) = modified j h.seq with_done t.handles g (λ h. refl) p in
        ground (arith, i.keyed j k q)

  finish-Inv :
      (s : ℕ) (outcome : String) (prompt : ℕ) (completion : Option ℕ) (now : ℕ)
      → Inv n (finish t s outcome prompt completion now) (
          log_finish
            (find_handle s t.handles)
            (λ h. finished_of h outcome prompt completion now)
            log)
  unfolding finish Order.after
  finish-Inv s outcome prompt completion now = elim (Option-cases (find_handle s t.handles)) [
    | inl e ↦ rw (e, finish) i
    | inr (h, e) ↦ elim (Bool-cases h.done) [
      | inl d ↦ rw (e, finish) (rw d i)
      | inr d ↦
          rw (e, finish)
            (rw d (record {
              ring = ap (λ r. Ring.push r (finished_of h outcome prompt completion now)) i.ring;
              once = retire-once s h e d;
              keyed = retire-keyed s h e d;
              open_handle = retire-open_handle s h e d;
            }))
    ]
  ]

  apply-Inv : (op : Op) → Inv n (apply t op) (log_step t op log)
  unfolding apply log_step
  apply-Inv (starts model kind origin now) = start-Inv n t log model kind origin now i
  apply-Inv (adds_tokens s k) = add_tokens-Inv s k
  apply-Inv (finishes s outcome prompt completion now) = finish-Inv s outcome prompt completion now

pub after-Inv : (n : ℕ) (ops : List Op) → Inv n (after n ops) (finished_log n ops)
unfolding after finished_log
after-Inv n [] = new-Inv n
after-Inv n (op ∷ ops) = apply-Inv (after-Inv n ops) op

-- After any calls: every request that was started, and none other, is in flight or in the log of the
-- finished ones, exactly once.
pub started_once :
    (n : ℕ) (ops : List Op) (s : ℕ)
    → count s (after n ops).inflight + count s (ids (finished_log n ops))
      ≡ (if ltb 0 s && leb s (after n ops).seq then 1 else 0)
started_once n ops = (after-Inv n ops).once

-- After any calls, the rows that `Recent` gives are the newest of the log of finished requests, newest
-- first, up to the tracker's capacity and the limit.
pub recent-log :
    (n : ℕ) (ops : List Op) (limit : ℕ)
    → recent (after n ops) limit
      ≡ take (shown zero_finished n (finished_log n ops) limit) (finished_log n ops)
unfolding recent
recent-log n ops limit =
    rw (after-Inv n ops).ring (recent-after zero_finished n (finished_log n ops) limit)
