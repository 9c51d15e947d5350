-- ===== src/Web/UserMenu.antt =====
-- apps/web/src/components/user-menu.tsx with the form of login-modal.tsx, whose steps are those of
-- Login. `show_login` is whether the form is there: it comes up blank each time, and an answer is one
-- to the form that is there.
use core_dashboard.Prelude.{
  String, Bool, true, false, Option, none, some, List, [], ◌∷◌, ◌++◌, if◌then◌else◌, Text, take,
}
use core_dashboard.Shared.Auth.{AuthUser, Role, viewer, operator, admin}
use core_dashboard.Shared.Fetch.{is_set}
use core_dashboard.Web.View.{
  Label, literal, message, plain, muted, danger, chosen, text, button, field, View, when,
}
use core_dashboard.Web.Login as Login
use core_dashboard.Web.Login.{
  LoginModal, Form, credentials, two_factor, code_of, Event, submitted, Request,
}

pub record UserMenu : Type 0 where
  pub show_login : Bool
  pub modal : LoginModal
  pub email : Text
  pub password : Text
  pub code : Text

abbrev pub new : UserMenu
new = record { show_login = false; modal = Login.new; email = []; password = []; code = [] }

pub data Action : Type 0 where
  open_login close_login : Action
  write_email write_password write_code : Text → Action
  submit : Action
  log_out : Action

-- What is asked of the session.
pub data Call : Type 0 where
  login : Text → Text → Call
  verify_two_factor : String → Text → Call
  logout : Call

-- The requests of the form, with what its fields hold.
abbrev pub calls_of : UserMenu → List Request → List Call
calls_of s [] = []
calls_of s (Request.login ∷ requests) = login s.email s.password ∷ calls_of s requests
calls_of s (Request.verify_two_factor token ∷ requests) =
    verify_two_factor token s.code ∷ calls_of s requests

-- A form that calls `onClose` is taken away, and its state with it.
abbrev pub keep_open : Bool → UserMenu → UserMenu
keep_open true s = new
keep_open false s = s

unfoldable pub on_event : Event → UserMenu → UserMenu × List Call
on_event event s =
    let (modal, requests) = Login.step event s.modal in
    (keep_open modal.closed (record s { modal = modal }), calls_of s requests)

unfoldable pub act : Action → UserMenu → UserMenu × List Call
unfolding on_event
act open_login s = (record s { show_login = true }, [])
act close_login s = (new, [])
act (write_email value) s = (record s { email = value }, [])
act (write_password value) s = (record s { password = value }, [])
act (write_code value) s = (record s { code = code_of (take 6 value) }, [])
act submit s = on_event submitted s
act log_out s = (s, logout ∷ [])

abbrev pub role_name : Role → String
role_name viewer = "viewer"
role_name operator = "operator"
role_name admin = "admin"

abbrev pub error_view : Option String → View Action
error_view none = []
error_view (some error) = when (is_set (some error)) (text danger (literal error) ∷ [])

-- The label of a button while its form is sent is another.
abbrev pub submit_view : Bool → String → View Action
submit_view submitting key =
    button submitting chosen (message (if submitting then "loginModal.submitting" else key) [])
      submit
    ∷ []

abbrev pub form_view : Form → UserMenu → View Action
form_view credentials s =
    field (message "loginModal.emailLabel" []) s.email write_email
      ∷ field (message "loginModal.passwordLabel" []) s.password write_password
      ∷ error_view s.modal.error
    ++ submit_view s.modal.submitting "loginModal.submit"
form_view two_factor s =
    text muted (message "loginModal.twoFactorHint" [])
      ∷ field (message "loginModal.codeLabel" []) s.code write_code
      ∷ error_view s.modal.error
    ++ submit_view s.modal.submitting "loginModal.verify"

-- A click beside the form closes it too.
unfoldable pub login_view : UserMenu → View Action
login_view s =
    button false plain (literal "") close_login
    ∷ text plain (message "loginModal.title" [])
    ∷ button false muted (message "loginModal.close" []) close_login
    ∷ form_view s.modal.form s

abbrev pub email_label : Option String → Label
email_label none = literal ""
email_label (some email) = literal email

abbrev pub anonymous_view : UserMenu → View Action
anonymous_view s =
    button false muted (message "userMenu.login" []) open_login ∷ when s.show_login (login_view s)

abbrev pub signed_in_view : AuthUser → View Action
signed_in_view user =
    text plain (email_label user.email)
    ∷ text chosen (literal (role_name user.role))
    ∷ button false muted (message "userMenu.logout" []) log_out
    ∷ []

-- `user.sub === null`.
unfoldable pub view : AuthUser → UserMenu → View Action
view user s = elim user.sub [ none ↦ anonymous_view s | some sub ↦ signed_in_view user ]
