-- ===== src/Requests/Forwarded.antt =====
-- What the api passes on of the panels' requests.
use core_dashboard.Prelude.{
  ℕ, ◌≤◌, ◌≡◌, ◌∙◌, refl, String, true, false, Option, none, some, [], ◌∷◌, ◌++◌, arith, Text,
  codes, eq_iff, ◌==◌, string_equality,
}
use core_dashboard.Shared.Events.{AlertType}
use core_dashboard.Shared.Maps.{lookup, insert, lookup-insert, lookup-insert_ne}
use core_dashboard.Shared.Values.{Number, natural}
use core_dashboard.Auth.{bearer, after, JwtLibrary, Environment, allowed, authenticate}
use core_dashboard.Routes.{guarded, security_audit}
use core_dashboard.Routes.Gates.{guarded-admin}
use core_dashboard.Shared.Fetch.{is_set}
use core_dashboard.Alerts.Settings.{list}
use core_dashboard.Audit.{page}
use core_dashboard.Shared.Auth.{AuthUser, admin, has_role}
use core_dashboard.Web.Pager.{
  page_size, AlertsFeedPanel, filters_of, SecurityAuditFilters, SecurityAuditPanel, query,
}
use core_dashboard.Web.Pager.Access.{header_of, query-sent}
use core_dashboard.Requests.{
  Params, set_if, authorized, option_codes, security_params, audit_params, on_security_audit,
  type_of, alerts_params, bot_params, on_alerts_feed,
}

-- A value that is sent: an empty text is not.
abbrev keep : Option Text → Option Text
keep none = none
keep (some []) = none
keep (some (c ∷ s)) = some (c ∷ s)

set_if-keep :
    (name : String) (value : Option Text) (p : Params)
    → set_if name (keep value) p ≡ set_if name value p
set_if-keep name none p = refl
set_if-keep name (some []) p = refl
set_if-keep name (some (c ∷ s)) p = refl

lookup-set_if :
    (name : String) (value : Option Text) (p : Params)
    → lookup name p ≡ none
    → lookup name (set_if name value p) ≡ keep value
lookup-set_if name none p h = h
lookup-set_if name (some []) p h = h
lookup-set_if name (some (c ∷ s)) p h = lookup-insert name (c ∷ s) p

lookup-set_if_ne :
    (name other : String) (value : Option Text) (p : Params)
    → (other == name) ≡ false
    → lookup name (set_if other value p) ≡ lookup name p
lookup-set_if_ne name other none p h = refl
lookup-set_if_ne name other (some []) p h = refl
lookup-set_if_ne name other (some (c ∷ s)) p h =
    lookup-insert_ne name other (c ∷ s) p (λ e. ground (arith, eq_iff other name))

page-taken :
    (take skip : ℕ)
    → 1 ≤ take
    → take ≤ 200
    → page (some (natural take)) (some (natural skip)) ≡ some (take, skip)
unfolding page
page-taken take skip h k = ground arith

list-taken :
    (limit offset : ℕ)
    → 1 ≤ limit
    → limit ≤ 200
    → list (some (natural limit)) (some (natural offset)) ≡ some (limit, offset)
unfolding list
list-taken limit offset h k = ground arith

module _ (show : ℕ → Text) (parse : Text → Number)
    (reads : (n : ℕ) → parse (show n) ≡ natural n) where
  abbrev window : ℕ → ℕ → Params
  window skip take = ("skip", show skip) ∷ ("take", show take) ∷ []

  audit_request-sent :
      (jwt : JwtLibrary) (env : Environment) (base_url : Option String) (user : AuthUser)
      (action user_id : Option Text) (skip take : ℕ) (token : Text)
      → guarded jwt env (some (bearer ++ token)) security_audit ≡ allowed user
      → is_set base_url ≡ true
      → 1 ≤ take
      → take ≤ 200
      → on_security_audit show parse jwt env base_url
          (audit_params show action user_id skip take)
          (some (bearer ++ token))
        ≡ some (record {
          path = codes "/audit";
          params = audit_params show action user_id skip take;
          headers = authorized token;
        })
  unfolding on_security_audit audit_params lookup after
  audit_request-sent jwt env base_url user action user_id skip take token g b h k =
      let acted = set_if "action" action (window skip take) in
      let base : (name : String)
          → ("userId" == name) ≡ false
          → ("action" == name) ≡ false
          → lookup name (set_if "userId" user_id acted) ≡ lookup name (window skip take) =
        λ name u a.
          lookup-set_if_ne name "userId" user_id acted u
          ∙ lookup-set_if_ne name "action" action (window skip take) a in
      rw
        (
          g,
          lookup-set_if_ne "action" "userId" user_id acted refl,
          lookup-set_if "action" action (window skip take) refl,
          lookup-set_if "userId" user_id acted
              (lookup-set_if_ne "userId" "action" action (window skip take) refl),
          base "take" refl refl,
          base "skip" refl refl,
          reads take,
          reads skip,
          page-taken take skip h k,
          b,
          set_if-keep,
          set_if-keep,
        )
        refl

  -- Whatever the security log's panel asks for with the token of its session, the api asks the
  -- authentication service for, if it reads the panel's user from that token and knows the service's
  -- URL: the same page and filters, with the same token.
  pub on_security_audit-query :
      (jwt : JwtLibrary) (env : Environment) (base_url : Option String) (user : AuthUser)
      (token : Option String) (s : SecurityAuditPanel) (f : SecurityAuditFilters) (sent : String)
      → query user token s ≡ some (f, sent)
      → authenticate jwt env (some (codes sent)) ≡ user
      → is_set base_url ≡ true
      → (has_role user admin ≡ true)
        × (token ≡ some sent)
        × (on_security_audit show parse jwt env base_url (security_params show f) (header_of sent)
            ≡ some (record {
              path = codes "/audit";
              params = security_params show f;
              headers = authorized (codes sent);
            }))
  unfolding security_params audit_params
  on_security_audit-query jwt env base_url user token s f sent e known b =
      let (allowed_role, same, size, skip) = query-sent user token s f sent e in
      (
        allowed_role,
        same,
        audit_request-sent jwt env base_url user (option_codes f.action) f.user_id f.skip f.take
            (codes sent) (guarded-admin jwt env sent user known allowed_role) b (omega arith)
            (omega arith),
      )

  abbrev feed_window : ℕ → ℕ → Params
  feed_window limit offset = ("limit", show limit) ∷ ("offset", show offset) ∷ []

  bot_request-sent :
      (type : Option Text) (limit offset : ℕ) (secret : Text)
      → 1 ≤ limit
      → limit ≤ 200
      → on_alerts_feed show parse (set_if "type" type (feed_window limit offset)) secret
        ≡ some (record {
          path = codes "/alerts";
          params = set_if "type" type (feed_window limit offset);
          headers = ("X-Webhook-Secret", secret) ∷ [];
        })
  unfolding on_alerts_feed bot_params lookup insert
  bot_request-sent type limit offset secret h k =
      rw
        (
          lookup-set_if "type" type (feed_window limit offset) refl,
          lookup-set_if_ne "limit" "type" type (feed_window limit offset) refl,
          lookup-set_if_ne "offset" "type" type (feed_window limit offset) refl,
          reads limit,
          reads offset,
          list-taken limit offset h k,
          set_if-keep,
        )
        refl

  -- Whatever the panel of the alerts asks for, the api asks the bot for: the same page and type.
  pub on_alerts_feed-filters_of :
      (type_text : AlertType → Text) (s : AlertsFeedPanel) (secret : Text)
      → on_alerts_feed show parse (alerts_params show type_text (filters_of s)) secret
        ≡ some (record {
          path = codes "/alerts";
          params = alerts_params show type_text (filters_of s);
          headers = ("X-Webhook-Secret", secret) ∷ [];
        })
  unfolding alerts_params
  on_alerts_feed-filters_of type_text s secret =
      bot_request-sent (type_of type_text s.type) page_size s.offset secret (omega arith)
        (omega arith)
