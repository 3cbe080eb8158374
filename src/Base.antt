-- ===== src/Base.antt =====
-- The names that the other modules share: library names passed on, Boolean tests, lists with
-- native lengths, faults, bytes in network order and C strings.
mod Tests
mod Lists
mod Faults
mod Bits
mod Buffers
pub use Tests.*
pub use Lists.*
pub use Faults.*
pub use Bits.*
unfoldable pub use Buffers.*
pub use Prim.Native.Nat.{
  ℕ, zero, suc, ◌+◌, ◌-◌, ◌*◌, ◌/◌, ◌%◌, ◌^◌, ◌≤◌, ◌<◌, min, max, bit_and, bit_or,
}
pub use mathlib.Core.Path.{◌≡◌, refl, sym, ap, ◌∙◌, subst}
pub use mathlib.Core.Logic.{◌≢◌, ◌↔◌, ◌⊎◌, inl, inr}
pub use mathlib.Core.Bool.{Bool, true, false, not, ◌&&◌, ◌||◌}
pub use mathlib.Core.Option.{Option, none, some}
pub use mathlib.Core.List.{List, [], ◌∷◌, ◌++◌, append-nil, append_assoc}
pub use native.Mathlib.Omega.{arith}
