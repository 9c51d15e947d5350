-- ===== src/Alerts/Settings.antt =====
-- apps/api/src/alerts: the settings (alerts.controller.ts), the parameters of the feed
-- (alerts-feed.controller.ts), and the bot's client (notify-bot.client.ts) with the environment
-- and what `fetch` answers as arguments.
pub mod Rows
pub mod Listing
use core_dashboard.Prelude.{
  ℕ, ◌+◌, ◌≤◌, String, Bool, true, false, not, ◌&&◌, ◌||◌, Option, none, some, List, [], ◌∷◌, ◌++◌,
  map, filter, any, contains, ◌==◌, string_equality, if◌then◌else◌, ltb, leb,
}
use core_dashboard.Shared.Auth.{AuthUser}
use core_dashboard.Shared.Values.{Number, natural, negative, other}
use core_dashboard.Shared.Fetch.{Answer, Outcome, not_configured, exchange, is_set}
use core_dashboard.Shared.Maps.{lookup, insert}
use core_dashboard.Shared.Sorting.{sort}
use core_dashboard.Alerts.{container_down_alert_key, container_restarted_alert_key}

-- A row of the table, as far as the code reads and writes it; a threshold is any number.
pub record AlertSetting : Type 0 where
  pub key : String
  pub enabled : Bool
  pub threshold : Option Number
  pub updated_by : Option String

abbrev pub known_keys : List String
known_keys = container_down_alert_key ∷ container_restarted_alert_key ∷ []

abbrev pub missing : List AlertSetting → List String
missing existing = filter (λ key. not (any (λ s. s.key == key) existing)) known_keys

abbrev pub default_setting : String → AlertSetting
default_setting key = record { key = key; enabled = true; threshold = none; updated_by = none }

-- `AlertsController.list`, before and after it is sorted by `localeCompare`.
unfoldable pub list_unsorted : List AlertSetting → List AlertSetting
list_unsorted existing = existing ++ map default_setting (missing existing)

unfoldable pub list_settings : (String → String → Bool) → List AlertSetting → List AlertSetting
list_settings locale_le existing = sort (λ a b. locale_le a.key b.key) (list_unsorted existing)

-- `undefined` is none; a threshold may be null besides.
pub record UpdateAlertSettingBody : Type 0 where
  pub enabled : Option Bool
  pub threshold : Option (Option Number)

pub data Update : Type 0 where
  unknown_key nothing_to_update : Update
  updated : AlertSetting → List (String × AlertSetting) → Update

abbrev or_else {ℓ} : {A : Type ℓ} → Option A → A → A
or_else none a = a
or_else (some b) a = b

abbrev is_given {ℓ} : {A : Type ℓ} → Option A → Bool
is_given none = false
is_given (some a) = true

abbrev pub upsert : Option AlertSetting → String → UpdateAlertSettingBody → AuthUser → AlertSetting
upsert none key body user = record {
  key = key;
  enabled = or_else body.enabled true;
  threshold = or_else body.threshold none;
  updated_by = user.sub;
}
upsert (some old) key body user = record old {
  enabled = or_else body.enabled old.enabled;
  threshold = or_else body.threshold old.threshold;
  updated_by = user.sub;
}

abbrev pub is_empty : UpdateAlertSettingBody → Bool
is_empty body = not (is_given body.enabled || is_given body.threshold)

-- The table by its unique keys.
unfoldable pub update :
    String → UpdateAlertSettingBody → AuthUser → List (String × AlertSetting) → Update
update key body user table =
    let row = upsert (lookup key table) key body user in
    if contains key known_keys
    then (if is_empty body then nothing_to_update else updated row (insert key row table))
    else unknown_key

abbrev pub default_limit : ℕ
default_limit = 50

abbrev pub max_limit : ℕ
max_limit = 200

-- `raw` is `Number` of the parameter, if it was given.
abbrev pub parse_non_negative_int : Option Number → ℕ → Option ℕ
parse_non_negative_int none fallback = some fallback
parse_non_negative_int (some (natural n)) fallback = some n
parse_non_negative_int (some _) fallback = none

abbrev pub check_limit : Option ℕ → Option ℕ
check_limit none = none
check_limit (some limit) = if ltb limit 1 || ltb max_limit limit then none else some limit

-- The limit and the offset that are asked for, unless one is refused.
unfoldable pub list : Option Number → Option Number → Option (ℕ × ℕ)
list limit_raw offset_raw = elim (check_limit (parse_non_negative_int limit_raw default_limit)) [
  | none ↦ none
  | some limit ↦ elim (parse_non_negative_int offset_raw 0) [
    | none ↦ none
    | some offset ↦ some (limit, offset)
  ]
]

-- The bot's two kinds of message, and the fields that they carry.
pub data WebhookEvent : Type 0 where
  container_down : String → Option ℕ → WebhookEvent
  container_restarted : String → WebhookEvent

-- `send`: the request that is made; whatever comes of it is only logged.
unfoldable pub send : Option String → Option String → WebhookEvent → Option WebhookEvent
send base_url secret event = if is_set base_url && is_set secret then some event else none

-- `listAlerts`: `answer` is what `fetch` gives if the request is made.
unfoldable pub list_alerts {ℓ} :
    {B : Type ℓ} → B → Option String → Option String → Answer B → Outcome B
list_alerts empty base_url secret answer =
    if is_set base_url && is_set secret then exchange empty answer else not_configured
