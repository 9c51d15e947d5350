-- ===== src/Web/Session/Races.antt =====
-- What a logout leaves, and what a call that was under way when it came brings back.
use core_dashboard.Prelude.{String, ◌≡◌, refl, ap, Bool, Option, none, some}
use core_dashboard.Shared.Auth.{anonymous}
use core_dashboard.Web.Session.{
  Session, Task, asked, renew, pair, TokenPair, logout, clear_session, replied, apply_session,
}
use core_dashboard.Web.Session.Steps.{Step, Reach, Pending, logged_out, answered, next}

module _ (available : Bool) where
  -- The task that waits before a logout waits after it.
  logout-Pending :
      (task : Task) (s without : Session)
      → Pending task s without
      → Pending task (logout available s) (record (logout available s) { tasks = without.tasks })
  unfolding logout clear_session
  logout-Pending task s without p = record {
    before = p.before;
    after = p.after;
    waits = p.waits;
    left = ap (λ (u : Session). record (logout available s) { tasks = u.tasks }) p.left;
  }

  -- A logout while a renewal waits for its answer is undone by the answer: in the state that
  -- follows the page has an access token again, without a login.
  pub logout_undone :
      (stored : Option String) (s without : Session) (tokens : TokenPair)
      → Reach available stored s
      → Pending (asked renew) s without
      → (out back : Session) × Step available s out
        × (out.access_token ≡ none)
        × (out.user ≡ anonymous)
        × Step available out back
        × Reach available stored back
        × (back.access_token ≡ some tokens.access_token)
        × (back.refresh_token ≡ some tokens.refresh_token)
  unfolding logout clear_session replied apply_session
  logout_undone stored s without tokens r p =
      let out = logout available s in
      let rest = record out { tasks = without.tasks } in
      let left : Step available s out = logged_out refl in
      let return : Step available out (replied available renew (some (pair tokens)) rest) =
        answered renew rest (pair tokens) (tokens, refl) (logout-Pending (asked renew) s without p)
          refl in
      (
        out,
        replied available renew (some (pair tokens)) rest,
        left,
        refl,
        refl,
        return,
        next (next r left) return,
        refl,
        refl,
      )
