-- ===== src/Prelude.antt =====
-- Names that all modules share: the library's, passed on, and those of the children below.
mod Tests
mod Lists
mod Keyed
mod Updates
mod Texts
mod Effects
mod Values
pub use Tests.*
pub use Lists.*
pub use Keyed.*
pub use Updates.*
unfoldable pub use Texts.{
  has_underscore, after_prefix, after_prefix_of_append, has_pipe, split_pipe, strip,
}
pub use Texts.*
pub use Effects.*
unfoldable pub use Values.{overflows, to_float, times, to_int_raises, as_utc}
pub use Values.*
pub use Prim.Native.Nat.{ℕ, zero, suc, ◌+◌, ◌-◌, ◌*◌, ◌/◌, ◌%◌, ◌^◌, ◌≤◌, ◌<◌, min}
pub use Prim.Native.Char.{Char, code}
pub use Prim.Native.String.{String}
pub use mathlib.Core.Path.{◌≡◌, refl, sym, ap, ◌∙◌, fun_ext, subst}
pub use mathlib.Core.Logic.{◌≢◌, ◌↔◌, ◌⊎◌, inl, inr}
pub use mathlib.Core.Bool.{Bool, true, false, not, ◌&&◌, ◌||◌}
pub use mathlib.Core.Option.{Option, none, some}
pub use mathlib.Core.List.{List, [], ◌∷◌, ◌++◌, map, append-nil, append_assoc}
pub use native.Mathlib.Omega.{arith}
