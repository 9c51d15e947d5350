-- ===== src/Alerts/Settings/Rows.antt =====
-- What a change of a setting leaves in the table, and which limits the feed is asked for.
use core_dashboard.Prelude.{
  ℕ, ◌≤◌, String, ◌≡◌, ◌≢◌, ◌↔◌, true, false, Option, some, List, arith, contains, string_equality,
  subst,
}
use core_dashboard.Shared.Auth.{AuthUser}
use core_dashboard.Shared.Values.{Number}
use core_dashboard.Shared.Maps.{lookup, insert, lookup-insert, lookup-insert_ne}
use core_dashboard.Alerts.Settings.{
  AlertSetting, UpdateAlertSettingBody, Update, updated, update, upsert, known_keys, is_empty, list,
  max_limit, default_limit, parse_non_negative_int,
}

updated-row :
    (a b : AlertSetting) (x y : List (String × AlertSetting))
    → Update.updated a x ≡ Update.updated b y
    → (a ≡ b) × (x ≡ y)
updated-row a b x y e = (ground arith, ground arith)

-- A change that is accepted is of a known key and says something; the row it returns is the one
-- in the table afterwards, marked with the user, and every other row is as it was.
pub update-updated :
    (key : String) (body : UpdateAlertSettingBody) (user : AuthUser)
    (table after : List (String × AlertSetting)) (row : AlertSetting)
    → update key body user table ≡ updated row after
    → (contains key known_keys ≡ true)
      × (is_empty body ≡ false)
      × (lookup key after ≡ some row)
      × (row.updated_by ≡ user.sub)
      × ((k : String) → key ≢ k → lookup k after ≡ lookup k table)
unfolding update
update-updated key body user table after row e =
    let new = upsert (lookup key table) key body user in
    let kept : insert key new table ≡ after = ground arith in
    let same : new ≡ row = ground arith in
    (
      ground arith,
      ground arith,
      subst (λ t. lookup key t ≡ some row) kept
          (subst (λ r. lookup key (insert key new table) ≡ some r) same
            (lookup-insert key new table)),
      subst (λ r. r.updated_by ≡ user.sub) same (ground arith),
      λ k n. subst (λ t. lookup k t ≡ lookup k table) kept (lookup-insert_ne k key new table n),
    )

-- The bot is asked exactly when both parameters, where given, are integers that are not negative
-- and the limit is from 1 to 200; a limit that is not given is 50 and an offset 0.
pub list_iff :
    (limit_raw offset_raw : Option Number) (limit offset : ℕ)
    → (list limit_raw offset_raw ≡ some (limit, offset)) ↔ (
        (parse_non_negative_int limit_raw default_limit ≡ some limit)
        × (1 ≤ limit)
        × (limit ≤ max_limit)
        × (parse_non_negative_int offset_raw 0 ≡ some offset))
unfolding list
list_iff limit_raw offset_raw limit offset = (λ e. ground arith, λ h. ground arith)
