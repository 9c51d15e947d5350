-- ===== src/Web/Session/Tests.antt =====
-- The theorems on the browser's session, at a concrete page.
use core_dashboard.Prelude.{◌≡◌, refl, true, none, some, List, [], ◌∷◌}
use core_dashboard.Shared.Auth.{AuthUser, anonymous, operator}
use core_dashboard.Web.Session.{
  Session, Task, asked, reading, restore, renew, pair, TokenPair, blank, mount, replied, read_user,
  tick, apply_session,
}
use core_dashboard.Web.Session.Steps.{Step, Reach, Pending, here, next, answered, read, ticked}
use core_dashboard.Web.Session.Invariant.{IsCoherent, Reach-IsCoherent}
use core_dashboard.Web.Session.Races.{logout_undone}

abbrev first : TokenPair
first = record { access_token = "a1"; refresh_token = "r1" }

abbrev second : TokenPair
second = record { access_token = "a2"; refresh_token = "r2" }

abbrev user : AuthUser
user = record { sub = some "u1"; email = none; role = operator }

-- The page while it waits for a renewal, and without the waiting task.
abbrev settled : List Task → Session
settled tasks = record {
  user = user;
  access_token = some "a1";
  ready = true;
  refresh_token = some "r1";
  stored = some "r1";
  tasks = tasks;
}

abbrev alone :
    (task : Task) (s : Session)
    → Pending task (record s { tasks = task ∷ [] }) (record s { tasks = [] })
alone task s = record { before = []; after = []; waits = refl; left = refl }

-- The page is opened with a stored token, restores its session, and begins to renew it.
page : Reach true (some "r0") (settled (asked renew ∷ []))
unfolding mount replied apply_session read_user tick
page =
    next
      (next
        (next here (
          answered restore _ (pair first) (first, refl) (alone (asked restore) (blank (some "r0")))
            refl))
        (read restore _ (some user)
          (alone (reading restore)
            (record (blank (some "r1")) { access_token = some "a1"; refresh_token = some "r1" }))
          refl))
      (ticked "a1" refl refl)

Reach-IsCoherent_example : IsCoherent true 0 (settled (asked renew ∷ []))
Reach-IsCoherent_example = Reach-IsCoherent true (some "r0") page

logout_undone_example :
    (out back : Session) × Step true (settled (asked renew ∷ [])) out
    × (out.access_token ≡ none)
    × (out.user ≡ anonymous)
    × Step true out back
    × Reach true (some "r0") back
    × (back.access_token ≡ some "a2")
    × (back.refresh_token ≡ some "r2")
logout_undone_example =
    logout_undone true (some "r0") (settled (asked renew ∷ [])) (settled []) second page
      (alone (asked renew) (settled []))
