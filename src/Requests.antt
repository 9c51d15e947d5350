-- ===== src/Requests.antt =====
-- The requests of the web's clients (apps/web/src/lib/alerts/api.ts, security-audit/api.ts), of the
-- api's handlers that take them (alerts-feed.controller.ts, security-audit.controller.ts), and of
-- the api's clients (notify-bot.client.ts, security-audit.service.ts, taskforge-client.service.ts)
-- to the other services. `URLSearchParams` is its pairs; `show` is `String` of a number, and
-- `parse` is `Number` of a text.
pub mod Forwarded
mod Tests
use core_dashboard.Prelude.{
  ℕ, String, Bool, true, false, Option, none, some, List, [], ◌∷◌, ◌++◌, map, Text, codes, ◌==◌,
  string_equality, if◌then◌else◌,
}
use mathlib.Core.Option
use core_dashboard.Shared.Events.{AlertType}
use core_dashboard.Shared.Fetch.{is_set}
use core_dashboard.Shared.Maps.{lookup, insert}
use core_dashboard.Shared.Values.{Number}
use core_dashboard.Auth.{
  bearer, extract_token, JwtLibrary, Environment, Decision, allowed, unauthorized, forbidden,
}
use core_dashboard.Routes.{guarded, security_audit}
use core_dashboard.Alerts.Settings.{list}
use core_dashboard.Audit.{
  page, TaskforgeJobState, queued, active, delayed, completed, failed, dlq, taskforge_job_states,
  recent_failures_limit,
}
use core_dashboard.Web.Pager.{AlertsFilters, SecurityAuditFilters}

abbrev pub Params : Type 0
Params = List (String × Text)

-- `if (value) query.set(name, value)`.
abbrev pub set_if : String → Option Text → Params → Params
set_if name none params = params
set_if name (some []) params = params
set_if name (some (c ∷ s)) params = insert name (c ∷ s) params

abbrev pub set_given : String → Option Text → Params → Params
set_given name none params = params
set_given name (some value) params = insert name value params

pub record Request : Type 0 where
  pub path : Text
  pub params : Params
  pub headers : List (String × Text)

abbrev pub authorized : Text → List (String × Text)
authorized token = ("Authorization", bearer ++ token) ∷ []

abbrev pub option_codes : Option String → Option Text
option_codes none = none
option_codes (some s) = some (codes s)

abbrev pub type_of : (AlertType → Text) → Option AlertType → Option Text
type_of type_text none = none
type_of type_text (some type) = some (type_text type)

module _ (show : ℕ → Text) where
  -- `fetchSecurityAudit`.
  unfoldable pub security_params : SecurityAuditFilters → Params
  security_params f =
      set_if "userId" f.user_id (
        set_if "action" (option_codes f.action)
          (("skip", show f.skip) ∷ ("take", show f.take) ∷ []))

  -- `SecurityAuditService.list`.
  unfoldable pub audit_params : Option Text → Option Text → ℕ → ℕ → Params
  audit_params action user_id skip take =
      set_if "userId" user_id
        (set_if "action" action (("skip", show skip) ∷ ("take", show take) ∷ []))

  abbrev pub audit_request :
      Option String → Option Text → Option Text → Option (ℕ × ℕ) → Option Text → Option Request
  audit_request base_url action user_id (some (take, skip)) (some token) =
      let request : Request = record {
        path = codes "/audit";
        params = audit_params action user_id skip take;
        headers = authorized token;
      } in
      if is_set base_url then some request else none
  audit_request base_url action user_id _ _ = none

  -- `fetchAlerts`; `type_text` is the name of a type.
  unfoldable pub alerts_params : (AlertType → Text) → AlertsFilters → Params
  alerts_params type_text f =
      set_if "type" (type_of type_text f.type)
        (("limit", show f.limit) ∷ ("offset", show f.offset) ∷ [])

  -- `NotifyBotClient.listAlerts`.
  unfoldable pub bot_params : Option ℕ → Option ℕ → Option Text → Params
  bot_params limit offset type =
      set_if "type" type
        (set_given "offset" (Option.map show offset) (set_given "limit" (Option.map show limit) []))

  abbrev pub bot_request : Option (ℕ × ℕ) → Option Text → Text → Option Request
  bot_request none type secret = none
  bot_request (some (limit, offset)) type secret = some (record {
    path = codes "/alerts";
    params = bot_params (some limit) (some offset) type;
    headers = ("X-Webhook-Secret", secret) ∷ [];
  })

module _ (parse : Text → Number) where
  abbrev pub number_of : Option Text → Option Number
  number_of none = none
  number_of (some raw) = some (parse raw)

-- The guard in front of a handler: 401 and 403 are none.
abbrev pub behind_guard {ℓ} : {A : Type ℓ} → Decision → Option A → Option A
behind_guard (allowed user) handled = handled
behind_guard unauthorized handled = none
behind_guard forbidden handled = none

module _ (show : ℕ → Text) (parse : Text → Number) where
  -- `SecurityAuditController.list` behind its guard, with the service: 400 and 401 are none, and
  -- 503 where `base_url`, which is `AUTH_SERVICE_URL`, is not set. `take` is tested like the limit of
  -- the other listings, and `skip` like their offset.
  unfoldable pub on_security_audit :
      JwtLibrary → Environment → Option String → Params → Option Text → Option Request
  on_security_audit jwt env base_url params header =
      behind_guard (guarded jwt env header security_audit) (
        audit_request show base_url (lookup "action" params) (lookup "userId" params)
          (page (number_of parse (lookup "take" params)) (number_of parse (lookup "skip" params)))
          (extract_token header))

  -- `AlertsFeedController.list` with the client, whose environment has the bot's URL and secret.
  unfoldable pub on_alerts_feed : Params → Text → Option Request
  on_alerts_feed params secret =
      bot_request show
        (list (number_of parse (lookup "limit" params)) (number_of parse (lookup "offset" params)))
        (lookup "type" params) secret

abbrev pub state_text : TaskforgeJobState → Text
state_text queued = codes "queued"
state_text active = codes "active"
state_text delayed = codes "delayed"
state_text completed = codes "completed"
state_text failed = codes "failed"
state_text dlq = codes "dlq"

module _ (show : ℕ → Text) where
  -- `TaskforgeClient.listJobs`.
  unfoldable pub jobs_params : Option TaskforgeJobState → Option ℕ → Params
  jobs_params state limit =
      set_given "limit" (Option.map show limit) (set_given "state" (Option.map state_text state) [])

  unfoldable pub jobs_request : Option TaskforgeJobState → Option ℕ → Text → Request
  jobs_request state limit token = record {
    path = codes "/jobs";
    params = jobs_params state limit;
    headers = authorized token;
  }

  -- `TaskforgeStatusService.getStatus`: the requests for the totals, and those for the failures.
  unfoldable pub status_requests : Text → List Request
  status_requests token =
      map (λ state. jobs_request (some state) (some 1) token) taskforge_job_states
      ++ map (λ state. jobs_request (some state) (some recent_failures_limit) token)
          (failed ∷ dlq ∷ [])

  -- `TaskforgeClient.getJobStatus`; `encode` is `encodeURIComponent`.
  unfoldable pub job_request : (Text → Text) → Text → Text → Request
  job_request encode job_id token = record {
    path = codes "/jobs/" ++ encode job_id;
    params = [];
    headers = authorized token;
  }
