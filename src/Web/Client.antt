-- ===== src/Web/Client.antt =====
-- The reading of the api's answers: apps/web/src/lib/alerts/api.ts, security-audit/api.ts,
-- taskforge-status/api.ts, health/api.ts and metrics/api.ts. `show` writes a number.
pub mod Outcomes
mod Tests
use Prim.Native.String
use core_dashboard.Prelude.{
  ℕ, String, Bool, true, false, Option, none, some, List, [], ◌∷◌, if◌then◌else◌, leb,
}
use core_dashboard.Shared.Fetch.{is_ok, Answer, rejected, response}

-- What the `message` of a body is.
pub data Message : Type 0 where
  missing : Message
  one : String → Message
  several : List String → Message

-- A body, read as what the client expects, and its message.
pub record Body {ℓ} (A : Type ℓ) : Type ℓ where
  pub content : A
  pub message : Message

-- Another error, an error of the api with its text and status, or what was asked for.
pub data Fetched {ℓ} (A : Type ℓ) : Type ℓ where
  broken : Fetched A
  api_error : String → ℕ → Fetched A
  fetched : A → Fetched A

-- `message.join(", ")`.
unfoldable pub join : List String → String
join [] = ""
join (s ∷ []) = s
join (s ∷ t ∷ messages) = String.◌++◌ s (String.◌++◌ ", " (join (t ∷ messages)))

module _ (show : ℕ → String) where
  abbrev pub text_of : ℕ → Message → String
  text_of status missing = String.◌++◌ "HTTP " (show status)
  text_of status (one message) = message
  text_of status (several messages) = join messages

  -- `empty` stands for `{}`, which is read for a body that is no JSON.
  abbrev pub body_of {ℓ} : {A : Type ℓ} → A → Option (Body A) → Body A
  body_of empty none = record { content = empty; message = missing }
  body_of empty (some body) = body

  abbrev pub read_response {ℓ} : {A : Type ℓ} → ℕ → Body A → Fetched A
  read_response status body =
      if is_ok status then fetched body.content else api_error (text_of status body.message) status

  unfoldable pub fetch_alerts {ℓ} : {A : Type ℓ} → A → Answer (Body A) → Fetched A
  fetch_alerts empty rejected = broken
  fetch_alerts empty (response status body) = read_response status (body_of empty body)

  unfoldable pub fetch_security_audit {ℓ} : {A : Type ℓ} → A → Answer (Body A) → Fetched A
  fetch_security_audit empty rejected = broken
  fetch_security_audit empty (response status body) = read_response status (body_of empty body)

  unfoldable pub fetch_taskforge_status {ℓ} : {A : Type ℓ} → A → Answer (Body A) → Fetched A
  fetch_taskforge_status empty rejected = broken
  fetch_taskforge_status empty (response status body) = read_response status (body_of empty body)

-- `response.json()` throws for a body that is no JSON.
abbrev pub read_json {ℓ} : {A : Type ℓ} → ℕ → Option A → Fetched A
read_json status none = broken
read_json status (some body) = if is_ok status then fetched body else broken

unfoldable pub fetch_dependencies_health {ℓ} : {A : Type ℓ} → Answer A → Fetched A
fetch_dependencies_health rejected = broken
fetch_dependencies_health (response status body) = read_json status body

unfoldable pub fetch_series {ℓ} : {A : Type ℓ} → Answer A → Fetched A
fetch_series rejected = broken
fetch_series (response status body) = read_json status body

-- What a panel shows of its query, with its own text for an error that is not the api's.
pub data Shown {ℓ} (A : Type ℓ) : Type ℓ where
  error_text : String → Shown A
  loading empty : Shown A
  rows : List A → Shown A

abbrev pub shown_rows {ℓ} : {A : Type ℓ} → List A → Shown A
shown_rows [] = empty
shown_rows (a ∷ items) = rows (a ∷ items)

unfoldable pub shown {ℓ} : {A : Type ℓ} → String → Option (Fetched (List A)) → Shown A
shown otherwise none = loading
shown otherwise (some broken) = error_text otherwise
shown otherwise (some (api_error text status)) = error_text text
shown otherwise (some (fetched items)) = shown_rows items
