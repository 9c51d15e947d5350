-- ===== src/Web/Locale.antt =====
-- apps/web/src/i18n: the language of a request (locale.ts, request.ts) and the cookie that keeps it
-- (actions.ts).
pub mod Cookie
mod Tests
use core_dashboard.Prelude.{
  ℕ, ◌*◌, String, Option, none, some, List, ◌==◌, string_equality, if◌then◌else◌,
}
use core_dashboard.Shared.Maps.{lookup, insert}

pub data Locale : Type 0 where
  es en : Locale

abbrev pub default_locale : Locale
default_locale = es

abbrev pub locale_cookie : String
locale_cookie = "locale"

abbrev pub one_year_sec : ℕ
one_year_sec = 60 * 60 * 24 * 365

-- `isLocale`, with the locale that the value then is.
abbrev pub is_locale : Option String → Option Locale
is_locale none = none
is_locale (some value) = if value == "es" then some es else if value == "en" then some en else none

abbrev pub or_default : Option Locale → Locale
or_default none = default_locale
or_default (some locale) = locale

unfoldable pub resolve_locale : Option String → Locale
resolve_locale raw = or_default (is_locale raw)

abbrev pub name_of : Locale → String
name_of es = "es"
name_of en = "en"

-- The cookies of a browser by their names.
abbrev pub Cookies : Type 0
Cookies = List (String × String)

unfoldable pub set_locale : Locale → Cookies → Cookies
set_locale locale cookies = insert locale_cookie (name_of locale) cookies

unfoldable pub request_locale : Cookies → Locale
request_locale cookies = resolve_locale (lookup locale_cookie cookies)
