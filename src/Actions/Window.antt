-- ===== src/Actions/Window.antt =====
-- Counting the restarts of a window, and what a budget at each restart gives for every window.
use core_dashboard.Prelude.{ℕ, ◌≤◌, ◌<◌, Bool, List, [], ◌∷◌, arith, leb, ◌&&◌, filter, length, All}
use core_dashboard.Actions.{global_limit, is_recent}

-- The restarts of the five minutes that end at `now`.
abbrev pub recent_count : ℕ → List ℕ → ℕ
recent_count now times = length (filter (is_recent now) times)

abbrev pub in_window : ℕ → ℕ → Bool
in_window now t = leb t now && is_recent now t

abbrev pub window_count : ℕ → List ℕ → ℕ
window_count now times = length (filter (in_window now) times)

-- No restart is later than the ones in front of it.
abbrev pub IsBefore : ℕ → List ℕ → Type 0
IsBefore now times = All (λ t. t ≤ now) times

abbrev pub IsDescending : List ℕ → Type 0
IsDescending [] = Unit
IsDescending (t ∷ times) = IsBefore t times × IsDescending times

-- At every restart there were fewer than ten in the window before it.
abbrev pub WithinBudget : List ℕ → Type 0
WithinBudget [] = Unit
WithinBudget (t ∷ times) = (recent_count t times < global_limit) × WithinBudget times

-- A later window over the same restarts counts no more.
pub recent_count-later :
    (now later : ℕ) (times : List ℕ)
    → now ≤ later
    → recent_count later times ≤ recent_count now times
recent_count-later now later [] h = omega arith
recent_count-later now later (t ∷ times) h = ground (arith, recent_count-later now later times h)

window_count-recent :
    (now t : ℕ) (times : List ℕ)
    → t ≤ now
    → IsBefore t times
    → window_count now times ≤ recent_count t times
window_count-recent now t [] h b = omega arith
window_count-recent now t (u ∷ times) h (e, b) = ground (arith, window_count-recent now t times h b)

pub window_count-le :
    (now : ℕ) (times : List ℕ)
    → IsDescending times
    → WithinBudget times
    → window_count now times ≤ global_limit
window_count-le now [] d w = omega arith
window_count-le now (t ∷ times) (b, d) (c, w) =
    ground (arith, window_count-le now times d w, window_count-recent now t times)
