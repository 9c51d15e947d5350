-- ===== src/Routes.antt =====
-- apps/api/src: the controllers with the role that their decorators require (roles.decorator.ts),
-- behind the guard of auth/auth.guard.ts.
pub mod Gates
mod Tests
use core_dashboard.Prelude.{Option, none, some, Text}
use core_dashboard.Shared.Auth.{Role, operator, admin}
use core_dashboard.Auth.{JwtLibrary, Environment, Decision, can_activate}

pub data Controller : Type 0 where
  health metrics auth alerts_feed alerts_settings audit_log actions_containers jobs security_audit
        taskforge_status :
      Controller

-- The decorator of the class; no handler has one of its own.
abbrev pub class_role : Controller → Option Role
class_role health = none
class_role metrics = none
class_role auth = none
class_role alerts_feed = none
class_role alerts_settings = some admin
class_role audit_log = some admin
class_role actions_containers = some operator
class_role jobs = some operator
class_role security_audit = some admin
class_role taskforge_status = some operator

-- `getAllAndOverride`: the handler's, or else the class's.
abbrev pub min_role_of : Option Role → Option Role → Option Role
min_role_of (some role) class = some role
min_role_of none class = class

unfoldable pub guarded : JwtLibrary → Environment → Option Text → Controller → Decision
guarded jwt env header controller =
    can_activate jwt env header (min_role_of none (class_role controller))
