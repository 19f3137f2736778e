-- ===== src/Base.antt =====
-- The names that the other modules share: the libraries', passed on, and those of the children.
mod Tests
mod Lists
mod Maps
mod Assoc
mod Text
mod Netip
pub mod Trim
pub use Tests.*
pub use Lists.*
pub use Maps.*
pub use Assoc.*
unfoldable pub use Text.{Str, bytes, Str-discrete, trim_left, trim_right, trim_space}
pub use Text.{has_prefix, drop_prefix, trim_prefix, contains_byte, cut, is_space}
unfoldable pub use Netip.{Addr-discrete, contains}
pub use Netip.{Addr, invalid, v4, v6, AddrPort, Prefix, is4, is6, is_valid, is4in6}
pub use Prim.Native.Nat.{ℕ, zero, suc, ◌+◌, ◌-◌, ◌*◌, ◌/◌, ◌%◌, ◌^◌, ◌≤◌, ◌<◌}
pub use mathlib.Core.Path.{◌≡◌, refl, sym, ap, ap₂, subst, ◌∙◌, fun_ext}
pub use mathlib.Core.Logic.{◌≢◌, ◌↔◌, ◌⊎◌, inl, inr, ite, if_pos, if_neg}
pub use mathlib.Core.Bool.{Bool, true, false, not, ◌&&◌, ◌||◌}
pub use mathlib.Core.Option.{Option, none, some}
pub use mathlib.Core.List.{List, [], ◌∷◌, ◌++◌, map}
pub use native.Mathlib.Omega.{arith}
unfoldable pub use native.Mathlib.Decide.{dec_lt, dec_le, ℕ_discrete}
