-- ===== src/Alerts/Poller.antt =====
-- apps/api/src/alerts/alerts-poller.service.ts: one poll of the bot's feed for all clients.
pub mod Feed
use core_dashboard.Prelude.{
  ℕ, zero, suc, String, Bool, true, false, Option, none, some, List, [], ◌∷◌, ◌==◌, string_equality,
  if◌then◌else◌, map, reverse, take,
}
use core_dashboard.Shared.Events.{AlertType}

abbrev pub poll_limit : ℕ
poll_limit = 20

pub record AlertItem : Type 0 where
  pub id : String
  pub type : AlertType

pub record AlertsPollerService : Type 0 where
  pub last_seen_id : Option String
  pub initialized : Bool

abbrev pub init : AlertsPollerService
init = record { last_seen_id = none; initialized = false }

-- `items[0]?.id ?? null`.
abbrev pub first_id : List AlertItem → Option String
first_id [] = none
first_id (item ∷ items) = some item.id

-- `item.id === this.lastSeenId`.
abbrev pub is_last : Option String → AlertItem → Bool
is_last none item = false
is_last (some id) item = item.id == id

-- `findIndex`: none is -1.
unfoldable pub find_index : Option String → List AlertItem → Option ℕ
find_index last [] = none
find_index last (item ∷ items) =
    if is_last last item
    then some 0
    else (elim (find_index last items) [ none ↦ none | some n ↦ some (suc n) ])

abbrev pub fresh_before : Option ℕ → List AlertItem → List AlertItem
fresh_before none items = items
fresh_before (some boundary) items = take boundary items

unfoldable pub fresh : Option String → List AlertItem → List AlertItem
fresh last items = fresh_before (find_index last items) items

-- The types that are published, in order.
abbrev pub publish :
    List AlertItem → Option String → AlertsPollerService → AlertsPollerService × List AlertType
publish [] first s = (s, [])
publish items first s = (record s { last_seen_id = first }, map (λ item. item.type) (reverse items))

-- The answer of the bot: none when the request failed.
unfoldable pub poll :
    Option (List AlertItem) → AlertsPollerService → AlertsPollerService × List AlertType
poll none s = (s, [])
poll (some items) s =
    if s.initialized
    then publish (fresh s.last_seen_id items) (first_id items) s
    else (record { last_seen_id = first_id items; initialized = true }, [])
