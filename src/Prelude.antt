-- ===== src/Prelude.antt =====
-- The names that the other modules share: the libraries', passed on, and those of six children.
mod Tests
mod Lists
mod Texts
mod Results
mod Space
mod Maps
pub use Tests.*
pub use Lists.*
pub use Texts.*
unfoldable pub use Texts.{contains}
pub use Space.{is_space, trim_space_idem}
unfoldable pub use Space.{trim_space, byte_len}
pub use Results.*
pub use Maps.{lookup-insert, lookup-delete}
unfoldable pub use Maps.{lookup, insert, delete}
pub use Prim.Native.Nat.{ℕ, zero, suc, ◌+◌, ◌-◌, ◌*◌, ◌/◌, ◌%◌, ◌^◌, ◌≤◌, ◌<◌}
pub use Prim.Native.String.{String, len}
pub use mathlib.Core.Path.{◌≡◌, refl, sym, ap, subst, ◌∙◌}
pub use mathlib.Core.Logic.{◌≢◌, ◌↔◌, ◌⊎◌, inl, inr}
pub use mathlib.Core.Bool.{Bool, true, false, not, ◌&&◌, ◌||◌}
pub use mathlib.Core.Option.{Option, none, some}
pub use mathlib.Core.List.{List, [], ◌∷◌, ◌++◌, map}
pub use native.Mathlib.Omega.{arith}
pub use text.Mathlib.TextEquality.{eq_iff}
