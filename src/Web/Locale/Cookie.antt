-- ===== src/Web/Locale/Cookie.antt =====
-- The language of the requests after it was chosen, and after other cookies were set.
use core_dashboard.Prelude.{String, ◌≡◌, ◌≢◌, ◌∙◌, refl, ap, some}
use core_dashboard.Shared.Maps.{insert, lookup-insert, lookup-insert_ne}
use core_dashboard.Web.Locale.{
  Locale, es, en, locale_cookie, resolve_locale, name_of, Cookies, set_locale, request_locale,
}

resolve_locale-name_of : (locale : Locale) → resolve_locale (some (name_of locale)) ≡ locale
unfolding resolve_locale
resolve_locale-name_of es = refl
resolve_locale-name_of en = refl

-- The language that was chosen is that of the requests that follow, whatever other cookies are set
-- meanwhile.
pub request_locale-set_locale :
    (locale : Locale) (name value : String) (cookies : Cookies)
    → name ≢ locale_cookie
    → request_locale (insert name value (set_locale locale cookies)) ≡ locale
unfolding request_locale set_locale
request_locale-set_locale locale name value cookies other =
    ap resolve_locale (
      lookup-insert_ne locale_cookie name value (insert locale_cookie (name_of locale) cookies)
        other
      ∙ lookup-insert locale_cookie (name_of locale) cookies)
    ∙ resolve_locale-name_of locale
