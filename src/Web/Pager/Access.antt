-- ===== src/Web/Pager/Access.antt =====
-- The security log's panel and the api's handler of its requests.
use core_dashboard.Prelude.{
  ℕ, ◌≡◌, ◌∙◌, refl, ap, String, Bool, true, false, Option, none, some, ◌++◌, arith, Text, codes,
}
use core_dashboard.Shared.Auth.{AuthUser, admin, has_role}
use core_dashboard.Shared.Values.{natural}
use core_dashboard.Auth.{bearer, after}
use core_dashboard.Audit.{page, forwarded_token, security_request}
use core_dashboard.Web.Pager.{
  SecurityAuditFilters, SecurityAuditPanel, page_size, query, query_with,
}

-- What the request of the panel carries.
abbrev pub header_of : String → Option Text
header_of token = some (bearer ++ codes token)

query_with-sent :
    (allowed : Bool) (token : Option String) (s : SecurityAuditPanel) (f : SecurityAuditFilters)
    (sent : String)
    → query_with allowed token s ≡ some (f, sent)
    → (allowed ≡ true) × (token ≡ some sent) × (f.take ≡ page_size) × (f.skip ≡ s.skip)
query_with-sent true none s f sent e = absurd (ground arith)
query_with-sent true (some token) s f sent e = (refl, ground arith, ground arith, ground arith)
query_with-sent false token s f sent e = absurd (ground arith)

-- Every query is an administrator's, with the token of the session.
pub query-sent :
    (user : AuthUser) (token : Option String) (s : SecurityAuditPanel) (f : SecurityAuditFilters)
    (sent : String)
    → query user token s ≡ some (f, sent)
    → (has_role user admin ≡ true) × (token ≡ some sent) × (f.take ≡ page_size) × (f.skip ≡ s.skip)
unfolding query
query-sent user token s f sent e = query_with-sent (has_role user admin) token s f sent e

security_request-page :
    (token : String) (skip : ℕ)
    → security_request (header_of token) (some (natural skip)) (some (natural page_size))
      ≡ some ((page_size, skip), codes token)
unfolding security_request page forwarded_token after
security_request-page token skip = refl

-- Every query of the panel is an administrator's, with the token of the session; and the api's
-- handler takes it as it is meant: it asks for the page of twenty entries that is shown and passes
-- the same token on.
pub query-security_request :
    (user : AuthUser) (token : Option String) (s : SecurityAuditPanel) (f : SecurityAuditFilters)
    (sent : String)
    → query user token s ≡ some (f, sent)
    → (has_role user admin ≡ true)
      × (token ≡ some sent)
      × (security_request (header_of sent) (some (natural f.skip)) (some (natural f.take))
          ≡ some ((page_size, s.skip), codes sent))
query-security_request user token s f sent e =
    let (allowed, same, size, skip) = query-sent user token s f sent e in
    (
      allowed,
      same,
      ap (λ n. security_request (header_of sent) (some (natural n)) (some (natural f.take))) skip
          ∙ ap (λ n. security_request (header_of sent) (some (natural s.skip)) (some (natural n)))
              size
          ∙ security_request-page sent s.skip,
    )
