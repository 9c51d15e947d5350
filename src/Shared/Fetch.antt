-- ===== src/Shared/Fetch.antt =====
-- Requests to other services: what `fetch` can give, and what the clients make of it.
use core_dashboard.Prelude.{
  ℕ, String, Bool, false, not, ◌&&◌, Option, none, some, ◌==◌, string_equality, if◌then◌else◌, leb,
}

-- The truth of an environment variable.
abbrev pub is_set : Option String → Bool
is_set none = false
is_set (some s) = not (s == "")

module _ {ℓ} (B : Type ℓ) where
  -- `fetch` rejects, or a status with the body, if it is JSON.
  pub data Answer : Type ℓ where
    rejected : Answer
    response : ℕ → Option B → Answer

  -- What a client throws, with the status and the body that its message is made of, or returns.
  pub data Outcome : Type ℓ where
    not_configured unreachable : Outcome
    refused : ℕ → B → Outcome
    done : B → Outcome

abbrev pub is_ok : ℕ → Bool
is_ok status = leb 200 status && leb status 299

abbrev or_empty {ℓ} : {B : Type ℓ} → B → Option B → B
or_empty empty none = empty
or_empty empty (some body) = body

-- `empty` stands for `{}`, which the clients read for a body that is no JSON.
unfoldable pub exchange {ℓ} : {B : Type ℓ} → B → Answer B → Outcome B
exchange empty rejected = unreachable
exchange empty (response status body) =
    if is_ok status then done (or_empty empty body) else refused status (or_empty empty body)
