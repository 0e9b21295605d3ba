-- ===== src/Ring.antt =====
-- The bounded rings of internal/activity/activity.go (`Ring`) and internal/live/live.go (the finished
-- requests of a `Tracker`), which hold their entries the same way.
pub mod Order
use flockd.Base.{
  ℕ, zero, suc, ◌+◌, ◌-◌, ◌%◌, Bool, true, false, ◌&&◌, ◌||◌, List, [], ◌∷◌, Option, none, some,
  ltb, leb, ◌==◌, if◌then◌else◌, length, get_elem?, set, replicate,
}

pub record Ring {ℓ} (A : Type ℓ) : Type ℓ where
  pub buf : List A
  pub next : ℕ
  pub full : Bool

abbrev pub default_capacity : ℕ
default_capacity = 200

abbrev pub capacity_of : ℕ → ℕ
capacity_of n = if leb n 0 then default_capacity else n

module _ {ℓ} {A : Type ℓ} where
  -- `zero_value` fills the slots, as Go's `make` does.
  unfoldable pub new : A → ℕ → Ring A
  new zero_value n = record { buf = replicate (capacity_of n) zero_value; next = 0; full = false }

  unfoldable pub push : Ring A → A → Ring A
  push r e =
      let next = (r.next + 1) % length r.buf in
      record { buf = set r.buf r.next e; next = next; full = r.full || next == 0 }

  abbrev pub cons_some : Option A → List A → List A
  cons_some none out = out
  cons_some (some e) out = e ∷ out

  -- The entries from `i` pushes ago on, `count` of them.
  unfoldable pub walk : Ring A → ℕ → ℕ → List A
  walk r i zero = []
  walk r i (suc count) =
      cons_some (get_elem? r.buf ((r.next + length r.buf - i) % length r.buf))
        (walk r (i + 1) count)

  abbrev pub kept : Ring A → ℕ
  kept r = if r.full then length r.buf else r.next

  -- Newest first, at most `limit` (0: all that are kept).
  unfoldable pub recent : Ring A → ℕ → List A
  unfolding walk
  recent r limit = walk r 1 (if ltb 0 limit && ltb limit (kept r) then limit else kept r)
