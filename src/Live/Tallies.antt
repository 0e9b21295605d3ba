-- ===== src/Live/Tallies.antt =====
-- internal/live/live.go: `CountsByModel`.
use flockd.Base.{
  ℕ, ◌+◌, ◌≡◌, ◌&&◌, Bool, false, List, [], ◌∷◌, Option, none, some, String, arith, str_eq, eq_iff,
  if◌then◌else◌, Bool-cases, inl, inr,
}
use flockd.Base.Dict.{Dict, lookup, lookup-insert}
use flockd.Live.{
  Tracker, Handle, Counts, no_counts, or_else, tally, tally_handle, find_handle, count_inflight,
  counts_by_model,
}

abbrev pub has_model : String → Option Handle → Bool
has_model m none = false
has_model m (some h) = str_eq h.model m

abbrev pub has_kind : String → String → Option Handle → Bool
has_kind m k none = false
has_kind m k (some h) = str_eq h.model m && str_eq h.kind k

-- How many of the handles pass a test.
abbrev pub number_of : (Option Handle → Bool) → List Handle → List ℕ → ℕ
number_of test handles [] = 0
number_of test handles (s ∷ ss) =
    (if test (find_handle s handles) then 1 else 0) + number_of test handles ss

abbrev pub total_of : String → Dict Counts → ℕ
total_of m out = (or_else (lookup m out) no_counts).total

abbrev pub kind_of : String → String → Dict Counts → ℕ
kind_of m k out = or_else (lookup k (or_else (lookup m out) no_counts).by_kind) 0

total-tally_handle :
    (m : String) (o : Option Handle) (out : Dict Counts)
    → total_of m (tally_handle o out) ≡ (if has_model m o then 1 else 0) + total_of m out
total-tally_handle m none out = omega arith
total-tally_handle m (some h) out = ground (
  arith,
  lookup-insert h.model m (tally h (or_else (lookup h.model out) no_counts)) out,
  eq_iff h.model m,
)

kind-tally_handle :
    (m k : String) (o : Option Handle) (out : Dict Counts)
    → kind_of m k (tally_handle o out) ≡ (if has_kind m k o then 1 else 0) + kind_of m k out
kind-tally_handle m k none out = omega arith
kind-tally_handle m k (some h) out =
    rw (lookup-insert h.model m (tally h (or_else (lookup h.model out) no_counts)) out)
      (elim (Bool-cases (str_eq h.model m)) [
        | inl e ↦
            rw (e, (eq_iff h.model m).0 e, lookup-insert)
              (elim (Bool-cases (str_eq h.kind k)) [
                | inl f ↦ rw (f, (eq_iff h.kind k).0 f) (omega arith)
                | inr f ↦ rw f (omega arith)
              ])
        | inr e ↦ rw e (omega arith)
      ])

module _ (handles : List Handle) (m : String) where
  total-count_inflight :
      (ss : List ℕ) (out : Dict Counts)
      → total_of m (count_inflight handles ss out)
        ≡ number_of (has_model m) handles ss + total_of m out
  unfolding count_inflight
  total-count_inflight [] out = omega arith
  total-count_inflight (s ∷ ss) out = omega (
    arith,
    total-count_inflight ss (tally_handle (find_handle s handles) out),
    total-tally_handle m (find_handle s handles) out,
  )

  kind-count_inflight :
      (k : String) (ss : List ℕ) (out : Dict Counts)
      → kind_of m k (count_inflight handles ss out)
        ≡ number_of (has_kind m k) handles ss + kind_of m k out
  unfolding count_inflight
  kind-count_inflight k [] out = omega arith
  kind-count_inflight k (s ∷ ss) out = omega (
    arith,
    kind-count_inflight k ss (tally_handle (find_handle s handles) out),
    kind-tally_handle m k (find_handle s handles) out,
  )

-- The tally of a model counts the requests in flight on it, in all and of each kind.
pub counts_by_model_lem :
    (t : Tracker) (m k : String)
    → (total_of m (counts_by_model t) ≡ number_of (has_model m) t.handles t.inflight)
      × (kind_of m k (counts_by_model t) ≡ number_of (has_kind m k) t.handles t.inflight)
unfolding counts_by_model
counts_by_model_lem t m k = (
  omega (arith, total-count_inflight t.handles m t.inflight []),
  omega (arith, kind-count_inflight t.handles m k t.inflight []),
)
