-- ===== src/Web/AlertsFeed.antt =====
-- apps/web/src/components/alerts-feed-panel.tsx: the summary of an alert, what the panel renders
-- and what its controls do. `same` is `===` on the types.
pub mod Pages
mod Tests
use core_dashboard.Prelude.{
  ℕ, ◌+◌, ◌-◌, String, Bool, Option, none, some, List, [], ◌∷◌, ◌++◌, map, take, Text, max, ◌==◌,
  number_equality, string_equality, if◌then◌else◌, false,
}
use core_dashboard.Shared.Events.{
  AlertType, deploy, resource_alert, container_down, container_restarted, job_dlq,
}
use core_dashboard.Web.View.{
  Argument, words, label, Label, literal, letters, message, Tone, plain, muted, warning, danger,
  Item, text, choice, View, each,
}
use core_dashboard.Web.Query.{Query, body_view, pages_view}
use core_dashboard.Web.Pager.{page_size, AlertsFeedPanel, select_type}
use Prim.Native.String

-- A value of the payload: undefined or null; a string; a number or another value, with what
-- `String` makes of it.
pub data Unknown : Type 0 where
  nothing : Unknown
  words_value number_value other_value : String → Unknown

abbrev pub Payload : Type 0
Payload = String → Unknown

pub record AlertItem : Type 0 where
  pub id : String
  pub type : AlertType
  pub received_at : Text
  pub payload : Payload

-- `String(value ?? "?")`.
abbrev pub string_of : Unknown → String
string_of nothing = "?"
string_of (words_value s) = s
string_of (number_value s) = s
string_of (other_value s) = s

abbrev pub version_of : Unknown → String
version_of (words_value s) = String.◌++◌ " (" (String.◌++◌ s ")")
version_of _ = ""

abbrev pub exit_code_of : Unknown → String
exit_code_of (number_value s) = String.◌++◌ " (exit " (String.◌++◌ s ")")
exit_code_of _ = ""

abbrev pub is_success : Unknown → Bool
is_success (words_value s) = s == "success"
is_success _ = false

abbrev argument : Payload → String → String × Argument
argument p key = (key, words (string_of (p key)))

unfoldable pub summary_of : AlertType → Payload → Label
summary_of deploy p = message "alertsFeed.summary.deploy" (
    argument p "service"
    ∷ (
      "status",
      label (
          if is_success (p "status")
          then "alertsFeed.summary.deployOk"
          else "alertsFeed.summary.deployFailed"),
    )
    ∷ ("version", words (version_of (p "version")))
    ∷ [])
summary_of resource_alert p =
    message "alertsFeed.summary.resourceAlert"
      (map (argument p) ("host" ∷ "metric" ∷ "value" ∷ "threshold" ∷ []))
summary_of container_down p =
    message "alertsFeed.summary.containerDown"
      (argument p "container" ∷ ("exitCode", words (exit_code_of (p "exitCode"))) ∷ [])
summary_of container_restarted p =
    message "alertsFeed.summary.containerRestarted" (argument p "container" ∷ [])
summary_of job_dlq p = message "alertsFeed.summary.jobDlq" (
    argument p "service"
    ∷ argument p "queue"
    ∷ argument p "name"
    ∷ ("attempts", words (string_of (p "attemptsMade")))
    ∷ ("reason", words (string_of (p "failedReason")))
    ∷ [])

abbrev pub type_tone : AlertType → Tone
type_tone deploy = plain
type_tone resource_alert = warning
type_tone container_down = danger
type_tone container_restarted = muted
type_tone job_dlq = danger

abbrev pub type_label : AlertType → Label
type_label deploy = message "alertsFeed.type.deploy" []
type_label resource_alert = message "alertsFeed.type.resource_alert" []
type_label container_down = message "alertsFeed.type.container_down" []
type_label container_restarted = message "alertsFeed.type.container_restarted" []
type_label job_dlq = message "alertsFeed.type.job_dlq" []

-- `replace("T", " ")`: the first only.
unfoldable pub replace_first : ℕ → ℕ → Text → Text
replace_first c d [] = []
replace_first c d (e ∷ s) = if e == c then d ∷ s else e ∷ replace_first c d s

-- `slice(0, 19).replace("T", " ")`.
unfoldable pub moment_of : Text → Text
unfolding replace_first
moment_of s = replace_first b'T' 32 (take 19 s)

abbrev pub alert_types : List AlertType
alert_types = deploy ∷ resource_alert ∷ container_down ∷ container_restarted ∷ job_dlq ∷ []

pub data Action : Type 0 where
  pick_type : Option AlertType → Action
  to_prev to_next : Action

-- `setOffset((o) => Math.max(0, o - PAGE_SIZE))` and the others.
unfoldable pub act : Action → AlertsFeedPanel → AlertsFeedPanel
act (pick_type type) s = select_type type s
act to_prev s = record s { offset = max 0 (s.offset - page_size) }
act to_next s = record s { offset = s.offset + page_size }

pub record AlertsPage : Type 0 where
  pub total : ℕ
  pub items : List AlertItem

abbrev pub entry : AlertItem → View Action
entry alert =
    text muted (letters (moment_of alert.received_at))
    ∷ text (type_tone alert.type) (type_label alert.type)
    ∷ text plain (summary_of alert.type alert.payload)
    ∷ []

abbrev pub total_of : Option AlertsPage → ℕ
total_of none = 0
total_of (some page) = page.total

abbrev pub items_of : Option AlertsPage → List AlertItem
items_of none = []
items_of (some page) = page.items

abbrev pub choices : List (Label × Action)
choices =
    (message "alertsFeed.allTypes" [], pick_type none)
    ∷ map (λ type. (type_label type, pick_type (some type))) alert_types

abbrev pub keys : String × String × String
keys = ("alertsFeed.error", "alertsFeed.loading", "alertsFeed.empty")

unfoldable pub view : Query AlertsPage → AlertsFeedPanel → View Action
view query s =
    text plain (message "alertsFeed.title" [])
      ∷ choice choices
      ∷ body_view keys query.error query.is_loading (each entry) (items_of query.content)
    ++ pages_view ("alertsFeed.total", "alertsFeed.prev", "alertsFeed.next")
        (total_of query.content) s.offset to_prev to_next
