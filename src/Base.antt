-- ===== src/Base.antt =====
-- Names and lemmas that every component shares: the libraries' names, passed on, the Boolean
-- tests of the source, lists under native numbers, raw memory, machine words and bits.
mod Tests
mod Lists
mod Bytes
mod Memory
mod Words
mod Bits
mod Xor
pub use Tests.*
pub use Lists.*
pub use Bytes.*
unfoldable pub use Memory.*
pub use Xor.*
pub use Words.*
unfoldable pub use Bits.*
pub use Prim.Native.Nat.{ℕ, zero, suc, ◌+◌, ◌-◌, ◌*◌, ◌/◌, ◌%◌, ◌^◌, ◌≤◌, ◌<◌, min, max}
pub use Prim.Native.Nat.{bit_and, bit_or, bit_xor}
pub use mathlib.Core.Path.{◌≡◌, refl, sym, ap, ◌∙◌}
pub use mathlib.Core.Logic.{◌≢◌, ◌↔◌, ◌⊎◌, inl, inr}
pub use mathlib.Core.Bool.{Bool, true, false, not, ◌&&◌, ◌||◌}
pub use mathlib.Core.Option.{Option, none, some}
pub use mathlib.Core.List.{List, [], ◌∷◌, ◌++◌, map, foldl, append_assoc, append-nil}
pub use native.Mathlib.Omega.{arith}
