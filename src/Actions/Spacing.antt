-- ===== src/Actions/Spacing.antt =====
-- The restarts that a sequence of requests lets through, against both limits.
use core_dashboard.Prelude.{
  ℕ, ◌+◌, ◌≤◌, ◌<◌, ◌≡◌, refl, sym, ◌∙◌, Option, none, some, List, [], ◌∷◌, ◌++◌, arith,
  if◌then◌else◌, All, String, ◌==◌, string_equality, eq_iff, ◌⊎◌, Bool-cases, Option-cases, inl,
  inr,
}
use core_dashboard.Actions.{
  global_limit, container_cooldown_ms, ActionsService, init, get, set, Refusal, check_rate_limit,
  record_restart, Attempt, record_if, attempt_limited,
}
use core_dashboard.Actions.Window.{
  recent_count, recent_count-later, window_count, IsBefore, IsDescending, WithinBudget,
  window_count-le,
}
use core_dashboard.Actions.Pruning.{recent_count-prune, recent_count-append}

-- The restarts let through, the latest first.
abbrev pub History : Type 0
History = List (String × ℕ)

abbrev pub times : History → List ℕ
times [] = []
times ((c, t) ∷ h) = t ∷ times h

abbrev note : Option Refusal → Attempt → History → History
note none a h = (a.container, a.recorded_at) ∷ h
note (some refusal) a h = h

unfoldable pub history_from : List Attempt → ActionsService → History → History
history_from [] s h = h
history_from (a ∷ as_) s h =
    history_from as_ (attempt_limited a s).1 (note (attempt_limited a s).0 a h)

unfoldable pub history : List Attempt → History
history as_ = history_from as_ init []

-- The clock does not go back.
abbrev pub IsOrdered : ℕ → List Attempt → Type 0
IsOrdered now [] = Unit
IsOrdered now (a ∷ as_) =
    (now ≤ a.checked_at) × (a.checked_at ≤ a.recorded_at) × IsOrdered a.recorded_at as_

-- The cooldown between two restarts of one container.
abbrev pub IsCooled : History → Type 0
IsCooled [] = Unit
IsCooled ((c, t) ∷ h) = All (λ e. e.0 ≡ c → e.1 + container_cooldown_ms ≤ t) h × IsCooled h

abbrev latest : String → History → Option ℕ
latest c [] = none
latest c ((d, t) ∷ h) = if d == c then some t else latest c h

get-set :
    (j k : String) (t : ℕ) (m : List (String × ℕ))
    → get j (set k t m) ≡ (if k == j then some t else get j m)
unfolding get set
get-set j k t [] = refl
get-set j k t ((i, old) ∷ m) = ground (arith, eq_iff i k, eq_iff i j, eq_iff k j, get-set j k t m)

-- What the state remembers of the history.
record Remembers (now : ℕ) (s : ActionsService) (h : History) : Type 0 where
  counts :
      (later : ℕ)
      → now ≤ later
      → recent_count later s.global_restarts ≡ recent_count later (times h)
  lasts : (c : String) → get c s.last_restart_at ≡ latest c h

pub record IsLimited (h : History) : Type 0 where
  pub descending : IsDescending (times h)
  pub budget : WithinBudget (times h)
  pub cooled : IsCooled h

cooled_none :
    (c : String) (t : ℕ) (h : History)
    → latest c h ≡ none
    → All (λ e. e.0 ≡ c → e.1 + container_cooldown_ms ≤ t) h
cooled_none c t [] e = tt
cooled_none c t ((d, u) ∷ h) e =
    (λ same. ground (arith, eq_iff d c), cooled_none c t h (ground (arith, eq_iff d c)))

cooled_before :
    (c : String) (now t : ℕ) (h : History)
    → IsBefore now (times h)
    → now + container_cooldown_ms ≤ t
    → All (λ e. e.0 ≡ c → e.1 + container_cooldown_ms ≤ t) h
cooled_before c now t [] b k = tt
cooled_before c now t ((d, u) ∷ h) (b, bs) k = (λ same. omega arith, cooled_before c now t h bs k)

cooled_some :
    (c : String) (last t : ℕ) (h : History)
    → IsDescending (times h)
    → latest c h ≡ some last
    → last + container_cooldown_ms ≤ t
    → All (λ e. e.0 ≡ c → e.1 + container_cooldown_ms ≤ t) h
cooled_some c last t [] d e k = tt
cooled_some c last t ((i, u) ∷ h) (b, d) e k = elim (Bool-cases (i == c)) [
  | inl same ↦
      let found : u ≡ last = ground arith in
      let room : u + container_cooldown_ms ≤ t = omega arith in
      (λ _. room, cooled_before c u t h b room)
  | inr other ↦ (λ p. cc (other, (eq_iff i c).1 p), cooled_some c last t h d (ground arith) k)
]

-- What a passed test says.
check_passed :
    (c : String) (now : ℕ) (s : ActionsService)
    → check_rate_limit c now s ≡ none
    → (recent_count now s.global_restarts < global_limit)
      × ((get c s.last_restart_at ≡ none)
          ⊎ ((last : ℕ) × (get c s.last_restart_at ≡ some last)
              × (last + container_cooldown_ms ≤ now)))
unfolding check_rate_limit
check_passed c now s e = elim (Option-cases (get c s.last_restart_at)) [
  | inl new ↦ (ground arith, inl new)
  | inr (last, found) ↦ (ground arith, inr (last, found, ground arith))
]

module _ (a : Attempt) (now : ℕ) (s : ActionsService) (h : History) where
  module _ (r : Remembers now s h) (n : now ≤ a.checked_at) (m : a.checked_at ≤ a.recorded_at) where
    record-Remembers :
        Remembers a.recorded_at
          (record_restart a.container a.recorded_at s)
          ((a.container, a.recorded_at) ∷ h)
    unfolding record_restart
    record-Remembers = record {
      counts = λ later k. ground (
        arith,
        recent_count-prune a.recorded_at later (s.global_restarts ++ a.recorded_at ∷ []),
        recent_count-append later a.recorded_at s.global_restarts,
        r.counts later,
      );
      lasts = λ c. ground (arith, get-set c a.container a.recorded_at s.last_restart_at, r.lasts c);
    }

    IsBefore-note : IsBefore now (times h) → IsBefore a.recorded_at (times h)
    IsBefore-note b = weaken (times h) b
      where
        weaken : (l : List ℕ) → IsBefore now l → IsBefore a.recorded_at l
        weaken [] b = tt
        weaken (t ∷ l) (p, b) = (omega arith, weaken l b)

    record-IsLimited :
        IsBefore now (times h)
        → IsLimited h
        → check_rate_limit a.container a.checked_at s ≡ none
        → IsLimited ((a.container, a.recorded_at) ∷ h)
    record-IsLimited b l e =
        let (few, last_one) = check_passed a.container a.checked_at s e in
        record {
          descending = (IsBefore-note b, l.descending);
          budget = (
            omega (
              arith,
              r.counts a.checked_at n,
              recent_count-later a.checked_at a.recorded_at (times h) m,
            ),
            l.budget,
          );
          cooled = (
            elim last_one [
              | inl new ↦ cooled_none a.container a.recorded_at h (sym (r.lasts a.container) ∙ new)
              | inr (last, found, k) ↦
                  cooled_some a.container last a.recorded_at h l.descending
                    (sym (r.lasts a.container) ∙ found) (omega arith)
            ],
            l.cooled,
          );
        }

-- What holds between two attempts.
record IsTracked (now : ℕ) (s : ActionsService) (h : History) : Type 0 where
  remembers : Remembers now s h
  before : IsBefore now (times h)
  limited : IsLimited h

abbrev state_after : Option Refusal → Attempt → ActionsService → ActionsService
state_after c a s = (record_if c a s).1

step-IsTracked :
    (a : Attempt) (now : ℕ) (s : ActionsService) (h : History)
    → IsTracked now s h
    → now ≤ a.checked_at
    → a.checked_at ≤ a.recorded_at
    → (c : Option Refusal) → check_rate_limit a.container a.checked_at s ≡ c
    → IsTracked a.recorded_at (state_after c a s) (note (record_if c a s).0 a h)
step-IsTracked a now s h k n m none e =
    let b = IsBefore-note a now s h k.remembers n m k.before in
    record {
      remembers = record-Remembers a now s h k.remembers n m;
      before = (omega arith, b);
      limited = record-IsLimited a now s h k.remembers n m k.before k.limited e;
    }
step-IsTracked a now s h k n m (some refusal) e = record {
  remembers = record {
    counts = λ later p. k.remembers.counts later (omega arith);
    lasts = k.remembers.lasts;
  };
  before = IsBefore-note a now s h k.remembers n m k.before;
  limited = k.limited;
}

history_from-IsLimited :
    (as_ : List Attempt) (now : ℕ) (s : ActionsService) (h : History)
    → IsTracked now s h
    → IsOrdered now as_
    → IsLimited (history_from as_ s h)
unfolding history_from attempt_limited
history_from-IsLimited [] now s h k o = k.limited
history_from-IsLimited (a ∷ as_) now s h k (n, m, o) =
    let c = check_rate_limit a.container a.checked_at s in
    history_from-IsLimited as_ a.recorded_at (state_after c a s) (note (record_if c a s).0 a h)
      (step-IsTracked a now s h k n m c refl) o

init-IsTracked : IsTracked 0 init []
unfolding get
init-IsTracked = record {
  remembers = record { counts = λ later p. refl; lasts = λ c. refl };
  before = tt;
  limited = record { descending = tt; budget = tt; cooled = tt };
}

-- Whatever restarts are asked for, as long as the clock does not go back: each one that is let
-- through comes at least 30 s after every earlier one of its container, and has fewer than ten
-- before it in the five minutes that end with it. The pruning of the list changes nothing of this.
pub history-IsLimited : (as_ : List Attempt) → IsOrdered 0 as_ → IsLimited (history as_)
unfolding history
history-IsLimited as_ o = history_from-IsLimited as_ 0 init [] init-IsTracked o

-- Whatever restarts are asked for, as long as the clock does not go back: no five minutes, wherever
-- they end, hold more than ten restarts.
pub window-history :
    (as_ : List Attempt) (now : ℕ)
    → IsOrdered 0 as_
    → window_count now (times (history as_)) ≤ global_limit
window-history as_ now o =
    let l = history-IsLimited as_ o in
    window_count-le now (times (history as_)) l.descending l.budget
