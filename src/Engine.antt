-- ===== src/Engine.antt =====
-- internal/engine/engine.go: the loaded models. Entries and demand counters are shared by pointers in
-- the source; they stand on heaps here and are known by their addresses, which are not used again.
pub mod World
pub mod Default
pub mod Listed
pub mod Calls
pub mod Requests
use Prim.Native.Nat.{Ordering}
use Prim.Native.String.{compare}
use flockd.Base.{
  ℕ, suc, ◌+◌, max, Bool, true, false, ◌&&◌, ◌||◌, not, List, [], ◌∷◌, Option, none, some, String,
  ltb, ◌==◌, str_eq, if◌then◌else◌, update,
}
use flockd.Base.Dict.{Dict, lookup, insert, delete}
use flockd.Base.Int.{ℤ, pos, ◌+ℤ◌, max_ℤ}

pub record ModelSpec : Type 0 where
  pub id : String
  pub decision : Bool
  pub embeddings : Bool

unfoldable pub chat_model : ModelSpec → Bool
chat_model spec = not spec.decision && not spec.embeddings

pub record ModelEntry : Type 0 where
  pub spec : ModelSpec
  pub instance_id : ℕ
  pub loaded_at : ℕ
  pub inflight : ℕ
  pub last_used : ℕ
  -- tokens in the gate
  pub gate : ℕ
  -- how many the gate holds; 0 is no gate
  pub slots : ℕ
  pub gone : Bool
  pub load : ℕ
  pub served : Bool

pub record LoadCounter : Type 0 where
  pub cur : ℤ
  pub peak : ℤ

abbrev pub add_load : LoadCounter → ℤ → LoadCounter
add_load l n = record { cur = l.cur +ℤ n; peak = max_ℤ l.peak (l.cur +ℤ n) }

pub record Engine : Type 0 where
  pub entries : ℕ → ModelEntry
  pub next_entry : ℕ
  pub loads : ℕ → LoadCounter
  pub next_load : ℕ
  pub models : Dict ℕ
  pub default_id : String
  -- `stats.inflight`
  pub started : ℕ

abbrev pub no_entry : ModelEntry
no_entry = record {
  spec = record { id = ""; decision = false; embeddings = false };
  instance_id = 0;
  loaded_at = 0;
  inflight = 0;
  last_used = 0;
  gate = 0;
  slots = 0;
  gone = false;
  load = 0;
  served = false;
}

unfoldable pub new : Engine
new = record {
  entries = λ i. no_entry;
  next_entry = 0;
  loads = λ l. record { cur = pos 0; peak = pos 0 };
  next_load = 0;
  models = [];
  default_id = "";
  started = 0;
}

pub data Error : Type 0 where
  model_not_found not_chat_model busy : Error

unfoldable pub new_entry : ModelSpec → ℕ → ℕ → ℕ → ℕ → ModelEntry
new_entry spec instance_id slots load now = record {
  spec = spec;
  instance_id = instance_id;
  loaded_at = now;
  inflight = 0;
  last_used = now;
  gate = 0;
  slots = slots;
  gone = false;
  load = load;
  served = false;
}

unfoldable pub register_slots : Engine → ModelSpec → ℕ → ℕ → ℕ → Engine
unfolding new_entry chat_model insert
register_slots e spec instance_id slots now = record e {
  entries = update e.entries e.next_entry (new_entry spec instance_id slots e.next_load now);
  next_entry = suc e.next_entry;
  loads = update e.loads e.next_load (record { cur = pos 0; peak = pos 0 });
  next_load = suc e.next_load;
  models = insert spec.id e.next_entry e.models;
  default_id = if str_eq e.default_id "" && chat_model spec then spec.id else e.default_id;
}

abbrev pub close_gone : ModelEntry → ModelEntry
close_gone m = record m { gone = true }

-- A resize: the new entry takes over the old one's counter and its history.
abbrev pub successor : ModelEntry → ModelSpec → ℕ → ℕ → ModelEntry
unfolding new_entry
successor old spec instance_id slots =
    record (new_entry spec instance_id slots old.load old.loaded_at) {
      last_used = old.last_used;
      served = old.served;
    }

-- `Replace`, with the address of the old entry; `none` where the model is not loaded.
unfoldable pub replace : Engine → ModelSpec → ℕ → ℕ → Engine × Option ℕ
unfolding lookup insert new_entry
replace e spec instance_id slots = elim (lookup spec.id e.models) [
  | none ↦ (e, none)
  | some old ↦ (
    record e {
      entries =
          update (update e.entries old (close_gone (e.entries old))) e.next_entry
            (successor (e.entries old) spec instance_id slots);
      next_entry = suc e.next_entry;
      models = insert spec.id e.next_entry e.models;
    },
    some old,
  )
]

abbrev pub string_ltb : String → String → Bool
string_ltb a b = elim (compare a b) [ Ordering.lt ↦ true | _ ↦ false ]

-- The candidate that the loop over the models holds: an id, and when it was loaded.
pub record Candidate : Type 0 where
  pub id : String
  pub oldest : ℕ

abbrev pub beats : String → ModelEntry → Candidate → Bool
beats id m c =
    str_eq c.id "" || ltb m.loaded_at c.oldest || m.loaded_at == c.oldest && string_ltb id c.id

abbrev pub consider : String → ModelEntry → Candidate → Candidate
consider id m c =
    if chat_model m.spec && beats id m c then record { id = id; oldest = m.loaded_at } else c

unfoldable pub elect : (ℕ → ModelEntry) → Dict ℕ → Candidate → Candidate
unfolding chat_model
elect entries [] c = c
elect entries ((id, m) ∷ ms) c = elect entries ms (consider id (entries m) c)

unfoldable pub remove_locked : Engine → String → Engine
unfolding lookup delete elect
remove_locked e id =
    let models = delete id e.models in
    record e {
      entries = elim (lookup id e.models) [
        | none ↦ e.entries
        | some m ↦ update e.entries m (close_gone (e.entries m))
      ];
      models = models;
      default_id =
          if str_eq e.default_id id
          then (elect e.entries models (record { id = ""; oldest = 0 })).id
          else e.default_id;
    }

unfoldable pub unregister : Engine → String → Engine × Option ℕ
unfolding remove_locked
unregister e id = (remove_locked e id, lookup id e.models)

pub data Unregistered : Type 0 where
  removed : ℕ → Unregistered
  refused : Error → Unregistered

unfoldable pub unregister_idle : Engine → String → Engine × Unregistered
unfolding remove_locked lookup
unregister_idle e id = elim (lookup id e.models) [
  | none ↦ (e, refused model_not_found)
  | some m ↦
      if ltb 0 (e.entries m).inflight then (e, refused busy) else (remove_locked e id, removed m)
]

unfoldable pub set_default : Engine → String → Engine × Option Error
unfolding lookup chat_model
set_default e id = elim (lookup id e.models) [
  | none ↦ (e, some model_not_found)
  | some m ↦
      if (e.entries m).spec.decision
      then (e, some not_chat_model)
      else if (e.entries m).spec.embeddings
      then (e, some not_chat_model)
      else (record e { default_id = id }, none)
]

pub record DemandReport : Type 0 where
  pub now : ℤ
  pub peak : ℤ

-- `Demand` resets the peak.
unfoldable pub demand : Engine → String → Engine × Option DemandReport
unfolding lookup
demand e id = elim (lookup id e.models) [
  | none ↦ (e, none)
  | some m ↦
      let l = (e.entries m).load in
      let c = e.loads l in
      (
        record e { loads = update e.loads l (record { cur = c.cur; peak = c.cur }) },
        some (record { now = c.cur; peak = max_ℤ c.peak c.cur }),
      )
]
