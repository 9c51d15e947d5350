-- ===== src/Web/Client/Outcomes.antt =====
-- What a panel shows for each answer of the api.
use core_dashboard.Prelude.{
  ℕ, ◌≤◌, String, ◌≡◌, ◌↔◌, refl, Bool, true, false, some, List, [], ◌∷◌, arith, if◌then◌else◌,
}
use core_dashboard.Shared.Fetch.{is_ok, Answer, rejected, response}
use core_dashboard.Web.Client.{
  Body, api_error, fetched, text_of, body_of, fetch_alerts, Shown, error_text, shown_rows, shown,
}

-- Whether an answer is a success.
abbrev pub is_success {ℓ} : {B : Type ℓ} → Answer B → Bool
is_success rejected = false
is_success (response status body) = is_ok status

abbrev pub IsErrorText {ℓ} : {A : Type ℓ} → Shown A → Type 0
IsErrorText (error_text message) = Unit
IsErrorText _ = 1 ≤ 0

shown_rows-text {ℓ} : {A : Type ℓ} (items : List A) → IsErrorText (shown_rows items) → 1 ≤ 0
shown_rows-text [] h = h
shown_rows-text (a ∷ items) h = h

module _ {ℓ} {A : Type ℓ} (show : ℕ → String) (empty : List A) (otherwise : String) where
  shown-read :
      (ok : Bool) (status : ℕ) (items : List A) (message : String)
      → IsErrorText
          (shown otherwise (some (if ok then fetched items else api_error message status)))
        ↔ (ok ≡ false)
  unfolding shown
  shown-read true status items message =
      (λ h. absurd (omega (arith, shown_rows-text items h)), λ e. ground arith)
  shown-read false status items message = (λ h. refl, λ e. tt)

  -- The panel of alerts shows an error exactly for an answer that is no success, whatever its
  -- body.
  pub shown-fetch_alerts :
      (answer : Answer (Body (List A)))
      → IsErrorText (shown otherwise (some (fetch_alerts show empty answer)))
        ↔ (is_success answer ≡ false)
  unfolding fetch_alerts
  shown-fetch_alerts rejected = unfold shown in (λ h. refl, λ h. tt)
  shown-fetch_alerts (response status body) =
      let read = body_of show empty body in
      shown-read (is_ok status) status read.content (text_of show status read.message)
