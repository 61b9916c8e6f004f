-- ===== src/Base.antt =====
-- Names that the other modules share: the libraries', passed on, and those of the children below.
-- No code of the program is modelled here, except `fail` of app/security.py (in Base/Errors).
mod Tests
mod Lists
mod Equality
mod Text
pub mod Json
mod Errors
pub use Tests.*
pub use Lists.*
pub use Equality.*
pub use Text.{◌+s◌, len-keep_last}
unfoldable pub use Text.{len, keep_last, take_chars, show, read_nat, text_leb}
pub use Errors.*
pub use Prim.Native.Nat.{ℕ, zero, suc, ◌+◌, ◌-◌, ◌*◌, ◌/◌, ◌%◌, ◌^◌, ◌≤◌, ◌<◌}
pub use Prim.Native.String.{String}
pub use mathlib.Core.Path.{◌≡◌, refl, sym, ap, ◌∙◌}
pub use mathlib.Core.Logic.{◌≢◌, ◌↔◌, ◌⊎◌, inl, inr}
pub use mathlib.Core.Bool.{Bool, true, false, ◌&&◌, ◌||◌, not}
pub use mathlib.Core.Option.{Option, none, some}
pub use mathlib.Core.List.{List, [], ◌∷◌, ◌++◌, map}
pub use native.Mathlib.Omega.{arith}
pub use text.Mathlib.TextEquality.{eq_iff}
