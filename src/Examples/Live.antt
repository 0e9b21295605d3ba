-- ===== src/Examples/Live.antt =====
-- internal/live and internal/activity at concrete inputs.
use flockd.Base.{ℕ, ◌≡◌, refl, List, [], ◌∷◌, none, take}
use flockd.Ring
use flockd.Ring.Order
use flockd.Ring.Order.{recent-after, shown}
use flockd.Live.{recent}
use flockd.Live.Books.{Op, starts, adds_tokens, finishes, after, finished_log, ids}

-- Two requests; the first finishes, and is told to finish again.
abbrev calls : List Op
calls =
    finishes 1 "error" 0 none 9_000_000
    ∷ finishes 1 "ok" 12 none 8_000_000
    ∷ adds_tokens 1 5
    ∷ starts "gemma" "chat" "" 3_000_000
    ∷ starts "gemma" "completion" "mesh" 1_000_000
    ∷ []

finished_ids : ids (recent (after 2 calls) 0) ≡ 1 ∷ []
unfolding after finished_log recent Ring.new
finished_ids = refl

recent-after_example :
    Ring.recent {A = ℕ} (Order.after {A = ℕ} 0 2 (5 ∷ 4 ∷ 3 ∷ [])) 0
    ≡ take (shown {A = ℕ} 0 2 (5 ∷ 4 ∷ 3 ∷ []) 0) (5 ∷ 4 ∷ 3 ∷ [])
recent-after_example = recent-after 0 2 (5 ∷ 4 ∷ 3 ∷ []) 0
