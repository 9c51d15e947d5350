-- ===== src/Web/Locale/Tests.antt =====
-- The language, on concrete cookies.
use core_dashboard.Prelude.{◌≡◌, ◌≢◌, refl, some, [], ◌∷◌, arith, eq_iff}
use core_dashboard.Shared.Maps.{insert}
use core_dashboard.Web.Locale.{
  es, en, locale_cookie, resolve_locale, Cookies, set_locale, request_locale,
}
use core_dashboard.Web.Locale.Cookie.{request_locale-set_locale}

resolve_locale-unknown : resolve_locale (some "fr") ≡ es
unfolding resolve_locale
resolve_locale-unknown = refl

abbrev cookies : Cookies
cookies = ("locale", "es") ∷ []

theme_ne : "theme" ≢ locale_cookie
theme_ne e = ground (arith, eq_iff "theme" locale_cookie)

request_locale-set_locale_case : request_locale (insert "theme" "dark" (set_locale en cookies)) ≡ en
request_locale-set_locale_case = request_locale-set_locale en "theme" "dark" cookies theme_ne
