-- ===== src/Web/Login.antt =====
-- apps/web/src/components/login-modal.tsx: the two steps of signing in. What `login` and
-- `verifyTwoFactor` of the session come to are events.
pub mod TwoFactor
mod Tests
use core_dashboard.Prelude.{
  ℕ, String, Bool, true, false, not, Option, none, some, List, [], ◌∷◌, ◌++◌, if◌then◌else◌, filter,
  leb, ◌&&◌, length, take, Text,
}
use core_dashboard.Shared.Fetch.{is_set}

pub data Form : Type 0 where
  credentials two_factor : Form

pub record LoginModal : Type 0 where
  pub form : Form
  pub challenge_token : Option String
  pub error : Option String
  pub submitting : Bool
  pub closed : Bool

abbrev pub new : LoginModal
new = record {
  form = credentials;
  challenge_token = none;
  error = none;
  submitting = false;
  closed = false;
}

-- `setCode(e.target.value.replace(/\D/g, ""))`, on what the field of six characters takes.
abbrev pub is_digit : ℕ → Bool
is_digit c = leb b'0' c && leb c b'9'

unfoldable pub code_of : Text → Text
code_of value = filter is_digit value

-- What a call of the session comes to: `AuthApiError` with its text, or another error.
pub data Reply {ℓ} (A : Type ℓ) : Type ℓ where
  returned : A → Reply A
  api_error : String → Reply A
  other_error : Reply A

abbrev pub error_text {ℓ} : {A : Type ℓ} → String → Reply A → Option String
error_text otherwise (returned a) = none
error_text otherwise (api_error text) = some text
error_text otherwise other_error = some otherwise

-- The requests to the session: the credentials, and the code with its challenge.
pub data Request : Type 0 where
  login : Request
  verify_two_factor : String → Request

-- The button of a form is disabled while a call waits.
abbrev pub submit : Request → LoginModal → LoginModal × List Request
submit request s = (record s { error = none; submitting = true }, request ∷ [])

abbrev pub submit_code : Option String → LoginModal → LoginModal × List Request
submit_code none s = (s, [])
submit_code (some token) s =
    if is_set (some token) then submit (verify_two_factor token) s else (s, [])

abbrev pub submit_form : Form → LoginModal → LoginModal × List Request
submit_form credentials s = submit login s
submit_form two_factor s = submit_code s.challenge_token s

unfoldable pub on_submit : LoginModal → LoginModal × List Request
on_submit s = if s.submitting then (s, []) else submit_form s.form s

-- `login` returns a challenge, or nothing more to do.
abbrev pub challenged : Option String → LoginModal → LoginModal
challenged none s = record s { closed = true }
challenged (some token) s = record s { challenge_token = some token; form = two_factor }

abbrev pub login_result : Reply (Option String) → LoginModal → LoginModal
login_result (returned result) s = challenged result s
login_result reply s = record s { error = error_text "loginError" reply }

unfoldable pub logged_in : Reply (Option String) → LoginModal → LoginModal
logged_in reply s = record (login_result reply s) { submitting = false }

abbrev pub verify_result : Reply (Unit {0}) → LoginModal → LoginModal
verify_result (returned _) s = record s { closed = true }
verify_result reply s = record s { error = error_text "codeError" reply }

unfoldable pub verified : Reply (Unit {0}) → LoginModal → LoginModal
verified reply s = record (verify_result reply s) { submitting = false }

pub data Event : Type 0 where
  submitted : Event
  login_answered : Reply (Option String) → Event
  verify_answered : Reply (Unit {0}) → Event

-- An answer belongs to the form that is shown, and comes only while a call waits.
abbrev pub answer : Form → Event → LoginModal → LoginModal
answer credentials (login_answered reply) s = logged_in reply s
answer two_factor (verify_answered reply) s = verified reply s
answer form event s = s

abbrev pub answer_waiting : Event → LoginModal → LoginModal × List Request
answer_waiting event s = if s.submitting then (answer s.form event s, []) else (s, [])

unfoldable pub step : Event → LoginModal → LoginModal × List Request
step submitted s = on_submit s
step (login_answered reply) s = answer_waiting (login_answered reply) s
step (verify_answered reply) s = answer_waiting (verify_answered reply) s

unfoldable pub run : List Event → LoginModal → LoginModal × List Request
run [] s = (s, [])
run (e ∷ events) s =
    let (t, requests) = step e s in let (u, more) = run events t in (u, requests ++ more)
