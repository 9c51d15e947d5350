-- ===== src/Web/Format/Bytes.antt =====
-- How near a size that is shown is to the bytes, and the order of the sizes.
use core_dashboard.Prelude.{ℕ, ◌+◌, ◌*◌, ◌≤◌, arith}
use core_dashboard.Web.Format.{bytes_of, Size, bytes, tenths, to_fixed, format_bytes}

-- The bytes that a size stands for, ten times.
abbrev pub tenfold : Size → ℕ
tenfold (bytes n) = n * 10
tenfold (tenths n unit) = n * bytes_of unit

abbrev pub unit_size : Size → ℕ
unit_size (bytes n) = 1
unit_size (tenths n unit) = bytes_of unit

-- The size that is shown differs from the bytes by a twentieth of its unit at most.
pub format_bytes-near :
    (value : ℕ)
    → (2 * tenfold (format_bytes value) ≤ 20 * value + unit_size (format_bytes value))
      × (20 * value ≤ 2 * tenfold (format_bytes value) + unit_size (format_bytes value))
unfolding format_bytes to_fixed
format_bytes-near value = ground arith

-- More bytes are never shown as a smaller size, also where the unit changes.
pub format_bytes_mono : (m n : ℕ) → m ≤ n → tenfold (format_bytes m) ≤ tenfold (format_bytes n)
unfolding format_bytes to_fixed
format_bytes_mono m n h = ground arith
