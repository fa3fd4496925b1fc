-- ===== src/Common.antt =====
-- The names that the other modules share: the libraries' names passed on, the Boolean tests, the
-- lists over native numbers, texts as bytes, integers, and the errors the code throws.
mod Tests
mod Lists
mod Errors
mod Int
pub mod OrdMap
pub use Tests.*
pub use Lists.*
pub use Errors.*
pub use Int.*
unfoldable pub use Tests.{text_eq, text_lt}
pub use Prim.Native.Nat.{ℕ, zero, suc, ◌+◌, ◌-◌, ◌*◌, ◌/◌, ◌%◌, ◌^◌, ◌≤◌, ◌<◌, min, max}
pub use mathlib.Core.Path.{◌≡◌, refl, sym, ap, ◌∙◌, ◌≡⟨◌⟩◌, ◌∎}
pub use mathlib.Core.Logic.{◌≢◌, ◌↔◌, ◌⊎◌, inl, inr}
pub use mathlib.Core.Bool.{Bool, true, false, not, ◌&&◌, ◌||◌}
pub use mathlib.Core.Option.{Option, none, some}
pub use mathlib.Core.List.{List, [], ◌∷◌, ◌++◌, map, append-nil, append_assoc}
pub use native.Mathlib.Omega.{arith}
