-- ===== src/Web/Badges.antt =====
-- apps/web/src/components: dependencies-badge.tsx, connection-badge.tsx and locale-switcher.tsx.
use core_dashboard.Prelude.{
  ℕ, String, Bool, true, false, ◌||◌, Option, none, some, List, [], ◌∷◌, string_equality,
  if◌then◌else◌,
}
use core_dashboard.Web.View.{
  literal, message, Tone, muted, success, warning, danger, chosen, text, button, View, each,
}
use core_dashboard.Web.Query.{Query}
use core_dashboard.Web.Sync.{ConnectionStatus, connecting, live, reconnecting}
use core_dashboard.Web.Locale.{Locale, es, en}

pub data DependencyStatus : Type 0 where
  ok down : DependencyStatus

pub data DependencyName : Type 0 where
  cci_auth_service taskforge ops_notify_bot : DependencyName

pub record DependencyCheck : Type 0 where
  pub name : DependencyName
  pub status : DependencyStatus
  pub latency_ms : ℕ

abbrev pub dot_of : DependencyStatus → Tone
dot_of ok = success
dot_of down = danger

abbrev pub dependency_key : DependencyName → String
dependency_key cci_auth_service = "dependenciesBadge.name.cci-auth-service"
dependency_key taskforge = "dependenciesBadge.name.taskforge"
dependency_key ops_notify_bot = "dependenciesBadge.name.ops-notify-bot"

abbrev pub dependencies_of : Option (List DependencyCheck) → List DependencyCheck
dependencies_of none = []
dependencies_of (some dependencies) = dependencies

abbrev pub connection_dot : ConnectionStatus → Tone
connection_dot connecting = muted
connection_dot live = success
connection_dot reconnecting = warning

abbrev pub connection_key : ConnectionStatus → String
connection_key connecting = "connection.connecting"
connection_key live = "connection.live"
connection_key reconnecting = "connection.reconnecting"

module _ {A : Type 0} where
  abbrev pub dependency_view : DependencyCheck → View A
  dependency_view dep = text (dot_of dep.status) (message (dependency_key dep.name) []) ∷ []

  -- Nothing is rendered without dependencies.
  unfoldable pub dependencies_view : Query (List DependencyCheck) → View A
  dependencies_view query = each dependency_view (dependencies_of query.content)

  unfoldable pub connection_view : ConnectionStatus → View A
  connection_view status = text (connection_dot status) (message (connection_key status) []) ∷ []

abbrev pub locales : List Locale
locales = es ∷ en ∷ []

abbrev pub upper_name : Locale → String
upper_name es = "ES"
upper_name en = "EN"

abbrev pub same_locale : Locale → Locale → Bool
same_locale es es = true
same_locale en en = true
same_locale _ _ = false

-- `pending` is whether a switch is under way; the answer is the locale to store, if any.
unfoldable pub on_select : Bool → Locale → Locale → Option Locale
on_select pending current next = if same_locale next current || pending then none else some next

unfoldable pub switcher_view : Bool → Locale → View Locale
switcher_view pending current =
    each
      (λ l.
        button pending (if same_locale l current then chosen else muted) (literal (upper_name l)) l
        ∷ [])
      locales
