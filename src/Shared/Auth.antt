-- ===== src/Shared/Auth.antt =====
-- packages/shared/src/auth.ts: roles, users and the role test.
use core_dashboard.Prelude.{
  ℕ, String, Bool, Option, none, List, leb, if◌then◌else◌, contains, string_equality,
}

pub data Role : Type 0 where
  viewer operator admin : Role

pub record AuthUser : Type 0 where
  pub sub : Option String
  pub email : Option String
  pub role : Role

abbrev pub anonymous : AuthUser
anonymous = record { sub = none; email = none; role = viewer }

unfoldable pub role_from_claims : List String → Role
role_from_claims claims =
    if contains "ADMIN" claims
    then admin
    else if contains "OPERATOR" claims
    then operator
    else viewer

-- `ROLES.indexOf`.
abbrev pub rank : Role → ℕ
rank viewer = 0
rank operator = 1
rank admin = 2

unfoldable pub has_role : AuthUser → Role → Bool
has_role user least = leb (rank least) (rank user.role)
