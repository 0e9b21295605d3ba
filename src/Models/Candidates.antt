-- ===== src/Models/Candidates.antt =====
-- internal/models/manager.go: the entries that `evictForLocked` chooses, and the bytes that it counts.
use flockd.Base.{
  ◌+◌, ◌≤◌, ◌≡◌, refl, ◌∙◌, inl, inr, Bool, true, false, [], ◌∷◌, none, some, String, leb, str_eq,
  eq_iff, arith, if◌then◌else◌, Bool-cases, All, All-map,
}
use flockd.Base.Dict.{Dict, lookup, delete, Distinct}
use flockd.Models.{Entry, occupies, used, is_candidate, candidates, insert_by_use, sort_by_use}

-- A predicate at every pair, along the selection and the sort.
module _ {ℓ} (P : String × Entry → Type ℓ) where
  All-insert_by_use :
      (p : String × Entry) (qs : Dict Entry) → P p → All P qs → All P (insert_by_use p qs)
  unfolding insert_by_use
  All-insert_by_use p [] h hs = (h, tt)
  All-insert_by_use p (q ∷ qs) h hs = elim (Bool-cases (leb p.1.last_used q.1.last_used)) [
    | inl e ↦ rw e (h, hs)
    | inr e ↦ rw e (hs.0, All-insert_by_use p qs h hs.1)
  ]

  pub All-sort_by_use : (ps : Dict Entry) → All P ps → All P (sort_by_use ps)
  unfolding sort_by_use
  All-sort_by_use [] h = tt
  All-sort_by_use (p ∷ ps) h = All-insert_by_use p (sort_by_use ps) h.0 (All-sort_by_use ps h.1)

lookup-insert_by_use-none :
    (j : String) (p : String × Entry) (qs : Dict Entry)
    → lookup j (p ∷ qs) ≡ none
    → lookup j (insert_by_use p qs) ≡ none
unfolding lookup insert_by_use
lookup-insert_by_use-none j p [] e = e
lookup-insert_by_use-none j p (q ∷ qs) e = elim (Bool-cases (leb p.1.last_used q.1.last_used)) [
  | inl l ↦ rw l e
  | inr l ↦ rw l (ground (arith, lookup-insert_by_use-none j p qs))
]

insert_by_use-Distinct :
    (p : String × Entry) (qs : Dict Entry) → Distinct (p ∷ qs) → Distinct (insert_by_use p qs)
unfolding lookup insert_by_use
insert_by_use-Distinct p [] d = d
insert_by_use-Distinct p (q ∷ qs) d = elim (Bool-cases (leb p.1.last_used q.1.last_used)) [
  | inl l ↦ rw l d
  | inr l ↦ rw l (
    lookup-insert_by_use-none q.0 p qs (ground (arith, d.0, d.1.0, eq_iff p.0 q.0, eq_iff q.0 p.0)),
    insert_by_use-Distinct p qs (ground (arith, d.0), d.1.1),
  )
]

lookup-sort_by_use-none :
    (j : String) (ps : Dict Entry) → lookup j ps ≡ none → lookup j (sort_by_use ps) ≡ none
unfolding lookup sort_by_use
lookup-sort_by_use-none j [] e = e
lookup-sort_by_use-none j (p ∷ ps) e =
    lookup-insert_by_use-none j p (sort_by_use ps) (ground (arith, lookup-sort_by_use-none j ps))

pub sort_by_use-Distinct : (ps : Dict Entry) → Distinct ps → Distinct (sort_by_use ps)
unfolding sort_by_use
sort_by_use-Distinct [] d = tt
sort_by_use-Distinct (p ∷ ps) d =
    insert_by_use-Distinct p (sort_by_use ps)
      (lookup-sort_by_use-none p.0 ps d.0, sort_by_use-Distinct ps d.1)

lookup-insert_by_use :
    (j : String) (p : String × Entry) (qs : Dict Entry)
    → Distinct (p ∷ qs)
    → lookup j (insert_by_use p qs) ≡ lookup j (p ∷ qs)
unfolding lookup insert_by_use
lookup-insert_by_use j p [] d = refl
lookup-insert_by_use j p (q ∷ qs) d = elim (Bool-cases (leb p.1.last_used q.1.last_used)) [
  | inl l ↦ rw l refl
  | inr l ↦ rw l (
      ground (
        arith,
        lookup-insert_by_use j p qs (ground (arith, d.0), d.1.1),
        d.0,
        eq_iff p.0 j,
        eq_iff q.0 j,
        eq_iff q.0 p.0,
      ))
]

pub lookup-sort_by_use :
    (j : String) (ps : Dict Entry) → Distinct ps → lookup j (sort_by_use ps) ≡ lookup j ps
unfolding lookup sort_by_use
lookup-sort_by_use j [] d = refl
lookup-sort_by_use j (p ∷ ps) d =
    lookup-insert_by_use j p (sort_by_use ps)
      (lookup-sort_by_use-none p.0 ps d.0, sort_by_use-Distinct ps d.1)
    ∙ ground (arith, lookup-sort_by_use j ps d.1)

abbrev pub UsedBefore : String × Entry → String × Entry → Type 0
UsedBefore p q = p.1.last_used ≤ q.1.last_used

-- Least recently used first.
abbrev pub Sorted : Dict Entry → Type 0
Sorted [] = Unit
Sorted (p ∷ ps) = All (UsedBefore p) ps × Sorted ps

insert_by_use-Sorted :
    (p : String × Entry) (qs : Dict Entry) → Sorted qs → Sorted (insert_by_use p qs)
unfolding insert_by_use
insert_by_use-Sorted p [] h = (tt, tt)
insert_by_use-Sorted p (q ∷ qs) h = elim (Bool-cases (leb p.1.last_used q.1.last_used)) [
  | inl l ↦ rw l (
    (
      ground arith,
      All-map (UsedBefore q) (UsedBefore p) qs (λ r before. ground (arith, l, before)) h.0,
    ),
    h,
  )
  | inr l ↦
      rw l (All-insert_by_use (UsedBefore q) p qs (ground arith) h.0, insert_by_use-Sorted p qs h.1)
]

pub sort_by_use-Sorted : (ps : Dict Entry) → Sorted (sort_by_use ps)
unfolding sort_by_use
sort_by_use-Sorted [] = tt
sort_by_use-Sorted (p ∷ ps) = insert_by_use-Sorted p (sort_by_use ps) (sort_by_use-Sorted ps)

module _ (mesh_only : Bool) (disk : String → Bool) where
  lookup-candidates-none :
      (j : String) (ps : Dict Entry)
      → lookup j ps ≡ none
      → lookup j (candidates mesh_only disk ps) ≡ none
  unfolding lookup candidates
  lookup-candidates-none j [] e = e
  lookup-candidates-none j (p ∷ ps) e = ground (arith, lookup-candidates-none j ps)

  pub lookup-candidates :
      (j : String) (e : Entry) (ps : Dict Entry)
      → lookup j ps ≡ some e
      → is_candidate mesh_only disk (j, e) ≡ true
      → lookup j (candidates mesh_only disk ps) ≡ some e
  unfolding lookup candidates
  lookup-candidates j e [] l c = l
  lookup-candidates j e ((k, f) ∷ ps) l c = ground (arith, lookup-candidates j e ps, eq_iff k j)

  pub candidates-Distinct :
      (ps : Dict Entry) → Distinct ps → Distinct (candidates mesh_only disk ps)
  unfolding candidates
  candidates-Distinct [] d = tt
  candidates-Distinct (p ∷ ps) d = elim (Bool-cases (is_candidate mesh_only disk p)) [
    | inl c ↦ rw c (lookup-candidates-none p.0 ps d.0, candidates-Distinct ps d.1)
    | inr c ↦ rw c (candidates-Distinct ps d.1)
  ]

  -- The entry of a candidate is the one that the index has.
  abbrev pub Chosen : Dict Entry → String × Entry → Type 0
  Chosen ps p = (lookup p.0 ps ≡ some p.1) × (is_candidate mesh_only disk p ≡ true)

  -- the entries of a distinct tail are still those of the whole
  lookup-later :
      (p : String × Entry) (ps : Dict Entry) (q : String × Entry)
      → lookup p.0 ps ≡ none
      → Chosen ps q
      → Chosen (p ∷ ps) q
  unfolding lookup
  lookup-later p ps q n c = (ground (arith, n, c.0, eq_iff p.0 q.0), c.1)

  pub candidates-Chosen :
      (ps : Dict Entry) → Distinct ps → All (Chosen ps) (candidates mesh_only disk ps)
  unfolding candidates lookup
  candidates-Chosen [] d = tt
  candidates-Chosen (p ∷ ps) d = elim (Bool-cases (is_candidate mesh_only disk p)) [
    | inl c ↦ rw c (
      (ground (arith, eq_iff p.0 p.0), c),
      All-map (Chosen ps) (Chosen (p ∷ ps)) (candidates mesh_only disk ps)
          (λ q. lookup-later p ps q d.0) (candidates-Chosen ps d.1),
    )
    | inr c ↦ rw c (
        All-map (Chosen ps) (Chosen (p ∷ ps)) (candidates mesh_only disk ps)
          (λ q. lookup-later p ps q d.0) (candidates-Chosen ps d.1))
  ]

-- The files after `remove_files`.
abbrev pub without_files : (String → Bool) → String → String → Bool
without_files disk id j = if str_eq id j then false else disk j

used-delete_other :
    (disk : String → Bool) (id : String) (ps : Dict Entry)
    → lookup id ps ≡ none
    → used (without_files disk id) (delete id ps) ≡ used disk ps
unfolding lookup delete used
used-delete_other disk id [] n = refl
used-delete_other disk id (p ∷ ps) n =
    ground (arith, used-delete_other disk id ps, eq_iff p.0 id, eq_iff id p.0)

pub used-delete :
    (disk : String → Bool) (id : String) (e : Entry) (ps : Dict Entry)
    → Distinct ps
    → lookup id ps ≡ some e
    → occupies disk (id, e) ≡ true
    → used (without_files disk id) (delete id ps) + e.size ≡ used disk ps
unfolding lookup delete used
used-delete disk id e [] d l o = cc
used-delete disk id e ((k, f) ∷ ps) d l o = ground (
  arith,
  used-delete_other disk id ps,
  used-delete disk id e ps,
  d.0,
  d.1,
  eq_iff k id,
  eq_iff id k,
)
