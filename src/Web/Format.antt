-- ===== src/Web/Format.antt =====
-- apps/web/src/lib/metrics/format.ts, on whole numbers of bytes. What a `Date` says of a moment in
-- the browser's time zone and how a number is written are arguments.
pub mod Bytes
mod Tests
use core_dashboard.Prelude.{ℕ, ◌+◌, ◌*◌, ◌/◌, ◌%◌, String, List, [], ◌∷◌, leb, if◌then◌else◌}
use Prim.Native.String

pub data Unit1024 : Type 0 where
  kib mib gib : Unit1024

abbrev pub bytes_of : Unit1024 → ℕ
bytes_of kib = 1024
bytes_of mib = 1048576
bytes_of gib = 1073741824

-- What is shown: whole bytes, or tenths of a unit.
pub data Size : Type 0 where
  bytes : ℕ → Size
  tenths : ℕ → Unit1024 → Size

-- `(value / unit).toFixed(1)`: the nearest tenth, the larger of two that are as near. The division
-- by a power of two is exact.
unfoldable pub to_fixed : ℕ → Unit1024 → ℕ
to_fixed value unit = (value * 20 + bytes_of unit) / (2 * bytes_of unit)

unfoldable pub format_bytes : ℕ → Size
unfolding to_fixed
format_bytes value =
    if leb 1073741824 value
    then tenths (to_fixed value gib) gib
    else if leb 1048576 value
    then tenths (to_fixed value mib) mib
    else if leb 1024 value
    then tenths (to_fixed value kib) kib
    else bytes value

abbrev pub unit_name : Unit1024 → String
unit_name kib = " KiB"
unit_name mib = " MiB"
unit_name gib = " GiB"

-- The parts of a `Date` in local time; the month is counted from 0.
pub record LocalTime : Type 0 where
  pub hours : ℕ
  pub minutes : ℕ
  pub date : ℕ
  pub month : ℕ

module _ (show : ℕ → String) where
  unfoldable pub size_text : Size → String
  size_text (bytes n) = String.◌++◌ (show n) " B"
  size_text (tenths n unit) =
      String.◌++◌ (show (n / 10)) (String.◌++◌ "." (String.◌++◌ (show (n % 10)) (unit_name unit)))

  unfoldable pub format_rate : ℕ → String
  format_rate value = String.◌++◌ (size_text (format_bytes value)) "/s"

  -- `padStart(2, "0")` of a number that is not negative.
  unfoldable pub two_digits : ℕ → String
  two_digits n = if leb n 9 then String.◌++◌ "0" (show n) else show n

  unfoldable pub format_tick : LocalTime → ℕ → String
  format_tick time range_hours =
      if leb range_hours 24
      then String.◌++◌ (two_digits time.hours) (String.◌++◌ ":" (two_digits time.minutes))
      else String.◌++◌ (show time.date) (
          String.◌++◌ "/" (
            String.◌++◌ (show (time.month + 1))
              (String.◌++◌ " " (String.◌++◌ (two_digits time.hours) "h"))))
