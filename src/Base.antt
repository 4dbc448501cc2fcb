-- ===== src/Base.antt =====
-- The names that the other modules share: the libraries', passed on, and those of the children.
pub mod Tests
pub mod Lists
pub mod Panics
pub mod Int
pub mod Pow
pub mod Bits
pub mod And
pub mod Below
pub mod Text
pub use Tests.{ltb, leb, ◌==◌, if◌then◌else◌, ltb→lt, lt→ltb, not_lt→ltb, ==_iff, Bool-cases}
pub use Tests.{&&-true, tests}
pub use Lists.{length, get_elem?, set, replicate, drop, All, All-append, all→All}
unfoldable pub use Lists.{all}
pub use Panics.{Panic, message, index_out_of_range, type_assertion}
pub use Panics.{Outcome, ok, panic, ◌>>=◌, Returns, Outcome-cases, Option-cases}
pub use Int.{ℤ, pos, negsuc}
pub use Prim.Native.Nat.{ℕ, zero, suc, ◌+◌, ◌-◌, ◌*◌, ◌/◌, ◌%◌, ◌^◌, ◌≤◌, ◌<◌, bit_and, bit_or}
pub use mathlib.Core.Path.{◌≡◌, refl, sym, ap, ◌∙◌}
pub use mathlib.Core.Logic.{◌≢◌, ◌↔◌, ◌⊎◌, inl, inr}
pub use mathlib.Core.Bool.{Bool, true, false, ◌&&◌, ◌||◌, not}
pub use mathlib.Core.Option.{Option, none, some}
pub use mathlib.Core.List.{List, [], ◌∷◌, ◌++◌, map}
pub use native.Mathlib.Omega.{arith}
pub use Text.{Bytes, codes}
