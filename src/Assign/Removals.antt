-- ===== src/Assign/Removals.antt =====
-- internal/assign/assign.go: which models leave the disk on the coordinator's word.
use flockd.Base.{
  ◌≡◌, refl, ap, ◌∙◌, inl, inr, ◌⊎◌, true, false, ◌||◌, not, List, [], ◌∷◌, Option, none, some,
  String, arith, str_eq, eq_iff, Bool-cases,
}
use flockd.Base.Dict.{lookup, insert, delete}
use flockd.Assign.{
  Act, removes, records_assignment, records_evicted, records_declined, records_failed,
  cancels_download, publishes, reports, assigned, downloading, Node, Pending, Service, Request,
  active, on_disk, admit, refusal, empty, enqueue, evict, evict_stored, withdraw, pinned, operator,
  mesh, Origin,
}
use flockd.Assign.Worker.{
  Phase, waiting, started, loading, next, begin, choose, loaded, evicted_then_remove, staged,
}
use flockd.Assign.Answers.{passes_lem, admit_passes}

-- The calls of `Ops.Remove` among the acts.
unfoldable pub removals : List Act → List String
removals [] = []
removals (removes id ∷ acts) = id ∷ removals acts
removals (reports id st ∷ acts) = removals acts
removals (publishes id st reason ∷ acts) = removals acts
removals (records_assignment id reason ∷ acts) = removals acts
removals (records_evicted id reason ∷ acts) = removals acts
removals (records_declined id reason ∷ acts) = removals acts
removals (records_failed id reason ∷ acts) = removals acts
removals (cancels_download id ∷ acts) = removals acts

eq_refl : (id : String) → str_eq id id ≡ true
eq_refl id = ground (arith, eq_iff id id)

module _ (n : Node) (s : Service) (id : String) where
  removals-withdraw : (p : Option Pending) → removals (withdraw n s id p).acts ≡ removals s.acts
  unfolding removals
  removals-withdraw none = refl
  removals-withdraw (some p) = ground arith

  removals-evict_stored :
      (o : Option Origin)
      → (removals (evict_stored n s id o).acts ≡ removals s.acts)
        ⊎ ((removals (evict_stored n s id o).acts ≡ id ∷ removals s.acts)
            × (o ≡ some mesh)
            × (pinned n id ≡ false))
  unfolding removals
  removals-evict_stored none = inl refl
  removals-evict_stored (some operator) = inl refl
  removals-evict_stored (some mesh) = ground arith

  -- An eviction removes at most the model it names from the disk, and that one only when it is the
  -- mesh's, not pinned by the operator, and not in flight.
  pub removals-evict :
      (removals (evict n s id).acts ≡ removals s.acts)
      ⊎ ((removals (evict n s id).acts ≡ id ∷ removals s.acts)
          × (n.origin id ≡ some mesh)
          × (pinned n id ≡ false)
          × (active (lookup id s.pending) ≡ false))
  unfolding evict
  removals-evict = elim (Bool-cases (not n.has_mgr || not n.has_ops)) [
    | inl nothing ↦ rw nothing (inl refl)
    | inr both ↦ elim (Bool-cases (active (lookup id s.pending))) [
      | inl on_it ↦ rw (both, on_it) (inl (removals-withdraw (lookup id s.pending)))
      | inr stored ↦ elim (removals-evict_stored (n.origin id)) [
        | inl same ↦ rw (both, stored) (inl same)
        | inr (gone, m, p) ↦ rw (both, stored) (inr (gone, m, p, refl))
      ]
    ]
  ]

-- A push of `r`, the worker up to the load, an eviction while the load runs, and the load's end.
abbrev pub taken : Node → Request → Service × Phase
taken n r = next (admit n empty r)

abbrev pub begun : Node → Request → Service × Phase
begun n r = begin n (taken n r).0 r.id

abbrev pub withdrawn : Node → Request → Service
withdrawn n r = (loaded (evict n (begun n r).0 r.id) r.id).0

module _ (n : Node) (r : Request) (v : n.valid_id r.id ≡ true) (l : n.loaded r.id ≡ false) where
  taken_lem :
      r.stage ≡ false
      → refusal n r ≡ none
      → taken n r ≡ (
        record {
          pending =
              (r.id, record { state = assigned; since = n.now; error = ""; stage = false }) ∷ [];
          queue = [];
          acts =
              records_assignment r.id "" ∷ publishes r.id assigned "" ∷ reports r.id assigned ∷ [];
        },
        waiting r.id,
      )
  unfolding next lookup enqueue insert delete
  taken_lem whole e = rw (admit_passes n r empty (passes_lem n r empty v l refl), e, whole) refl

  begun_lem :
      r.stage ≡ false
      → refusal n r ≡ none
      → on_disk n r.id ≡ true
      → begun n r ≡ (
        record {
          pending =
              (r.id, record { state = downloading; since = n.now; error = ""; stage = false }) ∷ [];
          queue = [];
          acts =
              records_assignment r.id "" ∷ publishes r.id assigned "" ∷ reports r.id assigned ∷ [];
        },
        started r.id,
      )
  unfolding begin lookup insert delete
  begun_lem whole e disk = rw (taken_lem whole e) (simp (eq_refl r.id, disk))

  -- A push of a model that the operator keeps on disk, withdrawn while the load runs, removes it from
  -- the disk when the load ends, whether or not it is the operator's or is pinned; without the load
  -- under way, the same eviction would have left it alone.
  pub withdrawn_removes :
      r.stage ≡ false
      → refusal n r ≡ none
      → n.has_ops ≡ true
      → n.has_mgr ≡ true
      → on_disk n r.id ≡ true
      → (n.origin r.id ≡ some operator) ⊎ (pinned n r.id ≡ true)
      → ((taken n r).1 ≡ waiting r.id)
        × ((begun n r).1 ≡ started r.id)
        × (choose (begun n r).0 r.id ≡ loading r.id)
        × (removals (withdrawn n r).acts ≡ r.id ∷ [])
        × (removals (evict n empty r.id).acts ≡ [])
  unfolding begin choose staged evict loaded evicted_then_remove lookup insert delete removals
  withdrawn_removes whole e ops mgr disk kept = (
    ap (λ q. q.1) (taken_lem whole e),
    ap (λ q. q.1) (begun_lem whole e disk),
    ap (λ q. choose q.0 r.id) (begun_lem whole e disk) ∙ simp (eq_refl r.id),
    ap (λ q. removals (loaded (evict n q.0 r.id) r.id).0.acts) (begun_lem whole e disk)
        ∙ ground (arith, eq_refl r.id),
    elim (removals-evict n empty r.id) [
      | inl same ↦ same
      | inr (gone, m, p, new) ↦ ground (arith, kept, m, p)
    ],
  )
