-- ===== src/Web/Format/Tests.antt =====
-- The sizes and times of the source's own tests, and sizes at the edge of a unit.

use core_dashboard.Prelude.{
  ℕ, ◌+◌, ◌*◌, ◌≤◌, ◌≡◌, refl, arith, String, ◌==◌, number_equality, if◌then◌else◌,
}
use core_dashboard.Web.Format.{
  kib, mib, gib, bytes, tenths, to_fixed, format_bytes, two_digits, format_tick,
}
use core_dashboard.Web.Format.Bytes.{tenfold, unit_size, format_bytes-near, format_bytes_mono}

sizes :
    (format_bytes 512 ≡ bytes 512)
    × (format_bytes 2048 ≡ tenths 20 kib)
    × (format_bytes 29360128 ≡ tenths 280 mib)
    × (format_bytes 3221225472 ≡ tenths 30 gib)
    × (format_bytes 1048575 ≡ tenths 10240 kib)
unfolding format_bytes to_fixed
sizes = (refl, refl, refl, refl, refl)

-- Enough numbers for the tests.
abbrev show : ℕ → String
show n =
    if n == 14
    then "14"
    else if n == 5
    then "5"
    else if n == 19
    then "19"
    else if n == 7
    then "7"
    else "?"

ticks :
    (format_tick show (record { hours = 14; minutes = 5; date = 19; month = 6 }) 24 ≡ "14:05")
    × (format_tick show (record { hours = 14; minutes = 5; date = 19; month = 6 }) 168 ≡ "19/7 14h")
unfolding format_tick two_digits
ticks = (refl, refl)

format_bytes-near_example :
    (2 * tenfold (format_bytes 1536) ≤ 20 * 1536 + unit_size (format_bytes 1536))
    × (20 * 1536 ≤ 2 * tenfold (format_bytes 1536) + unit_size (format_bytes 1536))
format_bytes-near_example = format_bytes-near 1536

format_bytes_mono_example : tenfold (format_bytes 1048575) ≤ tenfold (format_bytes 1048576)
format_bytes_mono_example = format_bytes_mono 1048575 1048576 (omega arith)
