-- ===== src/Auth/Guards.antt =====
-- What a request must carry to pass the guard, and what the sockets' users are.
use core_dashboard.Prelude.{
  String, ◌≡◌, ◌≢◌, refl, sym, subst, Option, none, some, [], ◌∷◌, ◌++◌, arith, Text, Option-cases,
  inl, inr, ap, ◌∙◌, ◌⊎◌, eq_cases, eq_iff, ◌≤◌,
}
use core_dashboard.Shared.Auth.{
  AuthUser, Role, viewer, operator, admin, anonymous, rank, role_from_claims, has_role,
}
use core_dashboard.Auth.{
  Claim, JwtPayload, JwtLibrary, Environment, string, claims_of, user_of, user_of_verified, verify,
  authenticate, extract_token, bearer, after, allowed, decide, can_activate, email_of,
}

-- The prefix and the rest make up the text.
after-append : (p s rest : Text) → after p s ≡ some rest → s ≡ p ++ rest
unfolding after
after-append [] s rest e = ground arith
after-append (c ∷ p) [] rest e = ground arith
after-append (c ∷ p) (d ∷ s) rest e = ground (arith, after-append p s rest)

extracted-append :
    (header : Option Text) (token : Text)
    → extract_token header ≡ some token
    → header ≡ some (bearer ++ token)
extracted-append none token e = ground arith
extracted-append (some raw) token e = ap some (after-append bearer raw token e)

-- A payload that names a user with a role.
pub record IsIdentity (p : JwtPayload) (user : AuthUser) : Type 0 where
  pub sub : String
  pub claimed : p.sub ≡ string sub
  pub named : sub ≢ ""
  pub known : user.sub ≡ some sub
  pub email : user.email ≡ email_of p.email
  pub role : user.role ≡ role_from_claims (claims_of p.roles)

-- A payload without an identity gives the anonymous user.
user_of-cases :
    (p : JwtPayload) (claim : Claim)
    → p.sub ≡ claim
    → (user_of p claim ≡ anonymous) ⊎ IsIdentity p (user_of p claim)
user_of-cases p (string sub) e = elim (eq_cases sub "") [
  | inl empty ↦ inl (ground (arith, eq_iff sub ""))
  | inr named ↦
      let user : AuthUser = record {
        sub = some sub;
        email = email_of p.email;
        role = role_from_claims (claims_of p.roles);
      } in
      let same : user ≡ user_of p (string sub) = ground (arith, eq_iff sub "") in
      inr (
        subst (IsIdentity p) same (record {
          sub = sub;
          claimed = e;
          named = named;
          known = refl;
          email = refl;
          role = refl;
        }))
]
user_of-cases p claim e = inl refl

module _ (jwt : JwtLibrary) (env : Environment) where
  -- A token that the library verified, and that names the user.
  abbrev pub IsVerified : Text → AuthUser → Type 0
  IsVerified token user = (p : JwtPayload) × (verify jwt env token ≡ some p) × IsIdentity p user

  authenticate-cases :
      (token : Text)
      → (authenticate jwt env (some token) ≡ anonymous)
        ⊎ IsVerified token (authenticate jwt env (some token))
  unfolding authenticate
  authenticate-cases [] = inl refl
  authenticate-cases (c ∷ s) = elim (Option-cases (verify jwt env (c ∷ s))) [
    | inl refused ↦ inl (ap user_of_verified refused)
    | inr (p, verified) ↦ elim (user_of-cases p p.sub refl) [
      | inl none_known ↦ inl (ap user_of_verified verified ∙ none_known)
      | inr identity ↦
          inr (p, verified, subst (λ v. IsIdentity p (user_of_verified v)) (sym verified) identity)
    ]
  ]

  allowed-rank :
      (least : Role) (user other : AuthUser)
      → decide (some least) user ≡ allowed other
      → (user ≡ other) × (rank least ≤ rank user.role)
  unfolding has_role
  allowed-rank least user other e = (ground arith, ground arith)

  rank-viewer : (role : Role) → rank role ≤ rank viewer → role ≡ viewer
  rank-viewer viewer h = refl
  rank-viewer operator h = absurd (ground arith)
  rank-viewer admin h = absurd (ground arith)

  anonymous-refused :
      (least : Role) (user : AuthUser)
      → least ≢ viewer
      → (seen : AuthUser) → seen ≡ anonymous
      → decide (some least) seen ≢ allowed user
  anonymous-refused least user n seen s e =
      let (same, high) = allowed-rank least seen user e in
      n (rank-viewer least (subst (λ role. rank least ≤ rank role) (ap (λ u. u.role) s) high))

  -- What a request that passes carries.
  abbrev IsCarried : Option Text → Role → AuthUser → Type 0
  IsCarried header least user =
      (token : Text) × (header ≡ some (bearer ++ token))
      × IsVerified token user
      × (rank least ≤ rank user.role)

  let_pass :
      (extracted : Option Text) (header : Option Text) (least : Role) (user : AuthUser)
      → least ≢ viewer
      → extract_token header ≡ extracted
      → decide (some least) (authenticate jwt env extracted) ≡ allowed user
      → IsCarried header least user
  unfolding authenticate
  let_pass none header least user n x e = absurd (anonymous-refused least user n anonymous refl e)
  let_pass (some token) header least user n x e =
      let seen = authenticate jwt env (some token) in
      let (same, high) = allowed-rank least seen user e in
      elim (authenticate-cases token) [
        | inl nobody ↦ absurd (anonymous-refused least user n seen nobody e)
        | inr verified ↦ (
          token,
          extracted-append header token x,
          subst (IsVerified token) same verified,
          subst (λ u. rank least ≤ rank u.role) same high,
        )
      ]

  -- The guard lets a request pass to a handler for operators or administrators only if its header
  -- is `Bearer ` and a token that the library verified, and the token names a user whose claims
  -- give at least that role; the handler then sees this user.
  pub can_activate-allowed :
      (header : Option Text) (least : Role) (user : AuthUser)
      → least ≢ viewer
      → can_activate jwt env header (some least) ≡ allowed user
      → (token : Text) × (header ≡ some (bearer ++ token))
        × IsVerified token user
        × (rank least ≤ rank user.role)
  unfolding can_activate
  can_activate-allowed header least user n e =
      let_pass (extract_token header) header least user n refl e
