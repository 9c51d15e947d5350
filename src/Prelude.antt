-- ===== src/Prelude.antt =====
-- Names that the other modules share: the libraries' names passed on, and the helpers of the
-- modules below. A JavaScript string is a native `String` where the code only compares or joins
-- it, and a list of UTF-16 code units (`Text`) where the code walks it.
mod Tests
mod Lists
mod Texts
mod Subsequence
pub use Tests.*
pub use Lists.*
unfoldable pub use Texts.*
pub use Subsequence.*
pub use Prim.Native.Nat.{ℕ, zero, suc, ◌+◌, ◌-◌, ◌*◌, ◌/◌, ◌%◌, ◌^◌, ◌≤◌, ◌<◌, min, max}
pub use Prim.Native.String.{String}
pub use mathlib.Core.Path.{◌≡◌, refl, sym, ap, ◌∙◌, subst}
pub use mathlib.Core.Logic.{◌≢◌, ◌↔◌, ◌⊎◌, inl, inr}
pub use mathlib.Core.Bool.{Bool, true, false, not, ◌&&◌, ◌||◌}
pub use mathlib.Core.Option.{Option, none, some}
pub use mathlib.Core.List.{List, [], ◌∷◌, ◌++◌, map, reverse, append_assoc, append-nil, map-append}
unfoldable pub use mathlib.Core.List.{flatten}
pub use native.Mathlib.Omega.{arith}
pub use text.Mathlib.TextEquality.{eq_iff}
