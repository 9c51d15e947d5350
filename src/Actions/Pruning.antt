-- ===== src/Actions/Pruning.antt =====
-- The pruning of the recorded restarts, and the windows that are counted after it.
use core_dashboard.Prelude.{ℕ, ◌-◌, ◌≤◌, ◌≡◌, refl, List, [], ◌∷◌, ◌++◌, arith, leb, filter}
use core_dashboard.Actions.{global_window_ms, prune}
use core_dashboard.Actions.Window.{recent_count}

filter-keeps :
    (now later : ℕ) (times : List ℕ)
    → now ≤ later
    → recent_count later (filter (λ t. leb (now - global_window_ms) t) times)
      ≡ recent_count later times
filter-keeps now later [] h = refl
filter-keeps now later (t ∷ times) h = ground (arith, filter-keeps now later times h)

pub recent_count-prune :
    (now later : ℕ) (times : List ℕ)
    → now ≤ later
    → recent_count later (prune now times) ≡ recent_count later times
unfolding prune
recent_count-prune now later times h = ground (arith, filter-keeps now later times h)

pub recent_count-append :
    (now t : ℕ) (times : List ℕ) → recent_count now (times ++ t ∷ []) ≡ recent_count now (t ∷ times)
recent_count-append now t [] = refl
recent_count-append now t (u ∷ times) = ground (arith, recent_count-append now t times)
