-- ===== src/Base.antt =====
-- The names that the other modules share: the libraries', passed on, and those of the children.
mod Tests
mod Lists
mod Texts
pub mod TextLaws
pub mod Int
pub mod Maps
pub mod Floats
pub mod Errors
pub mod Go
pub mod Sort
pub mod Query
pub mod Base64
pub use Tests.*
pub use Lists.{length, length-append, take, any, keep-append, any-concat, All, All-append, All-keep}
pub use Texts.{Text, codes, Lacks}
unfoldable pub use Texts.{◌=ᵗ◌, contains, join, split, has_prefix}
unfoldable pub use Lists.{keep}
pub use Texts.{=ᵗ_iff, =ᵗ_refl}
pub use Prim.Native.Nat.{ℕ, zero, suc, ◌+◌, ◌-◌, ◌*◌, ◌/◌, ◌%◌, ◌^◌, ◌≤◌, ◌<◌}
pub use Prim.Native.String.{String}
pub use mathlib.Core.Path.{◌≡◌, refl, sym, ap, subst₃, ◌∙◌, fun_ext}
pub use mathlib.Core.Logic.{◌≢◌, ◌↔◌, ◌⊎◌, inl, inr}
pub use mathlib.Core.Bool.{Bool, true, false, not, ◌&&◌, ◌||◌}
pub use mathlib.Core.Option.{Option, none, some}
pub use mathlib.Core.List.{List, [], ◌∷◌, ◌++◌, map, append_assoc, append-nil}
pub use native.Mathlib.Omega.{arith}
