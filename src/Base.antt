-- ===== src/Base.antt =====
-- Shared names: the libraries' data types and tactics, passed on, and five children: Boolean tests,
-- lists indexed by native numbers, `size_t` arithmetic, byte strings with the functions of
-- `std::string` that the server uses, and maps keyed by byte strings.
pub mod Tests
pub mod Lists
pub mod Words
pub mod Bytes
pub mod Dict
pub mod Tables
pub use Tests.*
pub use Lists.*
pub use Words.*
pub use Prim.Native.Nat.{ℕ, zero, suc, ◌+◌, ◌-◌, ◌*◌, ◌/◌, ◌%◌, ◌^◌, ◌≤◌, ◌<◌, min}
pub use mathlib.Core.Path.{◌≡◌, refl, sym, ap, ap₂, subst, ◌∙◌, ◌≡⟨◌⟩◌, ◌∎}
pub use mathlib.Core.Logic.{◌≢◌, ◌↔◌, ◌⊎◌, inl, inr}
pub use mathlib.Core.Bool.{Bool, true, false, not, ◌&&◌, ◌||◌}
pub use mathlib.Core.Option.{Option, none, some}
pub use mathlib.Core.List.{List, [], ◌∷◌, ◌++◌, map, append-nil, append_assoc}
pub use native.Mathlib.Omega.{arith}
