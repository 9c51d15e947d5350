-- ===== src/Web/AlertsFeed/Tests.antt =====
-- Summaries and pages at concrete payloads.
use core_dashboard.Prelude.{
  ◌≡◌, refl, inl, inr, arith, false, none, some, [], ◌∷◌, codes, ◌==◌, string_equality,
  if◌then◌else◌,
}
use core_dashboard.Shared.Events.{deploy, container_down}
use core_dashboard.Web.View.{words, label, message}
use core_dashboard.Web.View.Offers.{Offers}
use core_dashboard.Web.Query.{Query, body_view, pages_view}
use core_dashboard.Web.Pager.{AlertsFeedPanel}
use core_dashboard.Web.AlertsFeed.{
  nothing, words_value, number_value, Payload, AlertsPage, summary_of, moment_of, to_next, act,
  view,
}
use core_dashboard.Web.AlertsFeed.Pages.{Step, uses, here, next, IsOnPage, Reach-IsOnPage}

abbrev crash : Payload
crash key =
    if key == "container"
    then words_value "api"
    else if key == "exitCode"
    then number_value "137"
    else nothing

crash_summary :
    summary_of container_down crash
    ≡ message "alertsFeed.summary.containerDown"
        (("container", words "api") ∷ ("exitCode", words " (exit 137)") ∷ [])
unfolding summary_of
crash_summary = refl

-- A payload with nothing in it.
empty_deploy :
    summary_of deploy (λ key. nothing)
    ≡ message "alertsFeed.summary.deploy" (
        ("service", words "?")
        ∷ ("status", label "alertsFeed.summary.deployFailed")
        ∷ ("version", words "")
        ∷ [])
unfolding summary_of
empty_deploy = refl

moment_example : moment_of (codes "2026-07-19T14:05:09.123Z") ≡ codes "2026-07-19 14:05:09"
unfolding moment_of
moment_example = refl

abbrev many : Query AlertsPage
many = record {
  content = some (record { total = 45; items = [] });
  error = none;
  is_loading = false;
}

abbrev first_page : AlertsFeedPanel
first_page = record { type = none; offset = 0 }

abbrev second_page : AlertsFeedPanel
second_page = record { type = none; offset = 20 }

-- The button of the first page.
next_offered : Offers to_next (view many first_page)
unfolding view body_view pages_view
next_offered = inr (inr (inr (inr (inr (inl (refl, refl))))))

to_second : Step (λ type. 45) first_page second_page
unfolding act
to_second = uses many to_next (omega arith) next_offered refl

Reach-IsOnPage_example : IsOnPage (λ type. 45) second_page
Reach-IsOnPage_example =
    Reach-IsOnPage (λ type. 45) (record { whole = refl; shown = inl refl }) (next here to_second)
