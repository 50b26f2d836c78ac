-- ===== src/Base.antt =====
-- The names that the other modules share: the libraries' numbers, lists and options passed on, the
-- Boolean tests, measured lists and fixed-width integers.
mod Tests
mod Lists
mod Bytes
pub use Tests.*
pub use Lists.*
unfoldable pub use Bytes.{to_le, from_le, to_be32, from_be32}
pub use Bytes.{IsByte, IsU32, IsU64}
pub use Bytes.{length-to_le, from_le-to_le, from_be32-take, length-to_be32-append}
pub use Prim.Native.Nat.{ℕ, zero, suc, ◌+◌, ◌-◌, ◌*◌, ◌/◌, ◌%◌, ◌^◌, ◌≤◌, ◌<◌, min}
pub use mathlib.Core.Path.{◌≡◌, refl, sym, ap, ◌∙◌, fun_ext, subst}
pub use mathlib.Core.Logic.{◌≢◌, ◌↔◌, ◌⊎◌, inl, inr}
pub use mathlib.Core.Bool.{Bool, true, false, not, ◌&&◌, ◌||◌}
pub use mathlib.Core.Option.{Option, none, some}
pub use mathlib.Core.List.{List, [], ◌∷◌, ◌++◌, map, append-nil, append_assoc}
pub use native.Mathlib.Omega.{arith}
