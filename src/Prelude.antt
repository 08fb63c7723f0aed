-- ===== src/Prelude.antt =====
-- The names that the other modules share: the libraries', passed on, and those of the children.
mod Tests
mod Lists
mod Maps
pub use Tests.{ltb, leb, nat_eq, if◌then◌else◌, ◌==◌, ==_iff, ==_refl, Bool-cases, Option-cases}
pub use Lists.{
  Member, All, length, take, drop, length-append, length-take-le, length-drop-le, take-append-drop,
  Member-append_left, Member-append_right, Member-append, Member-keep, exists-Member, All-Member,
  All-each, All-members, All-map, contains_iff, contains-map-keep, Member-map, Distinct,
  contains-append, contains-map, Member-map_on, Member-of-contains, Distinct-append_one,
}
pub use Maps.{Dict, lookup-insert, lookup-erase}
unfoldable pub use Maps.{lookup, insert, erase}
unfoldable pub use Lists.{keep, exists, find, contains}
unfoldable pub use Tests.{String_discrete}
pub use Prim.Native.Nat.{ℕ, zero, suc, ◌+◌, ◌-◌, ◌*◌, ◌≤◌, ◌<◌}
pub use Prim.Native.String.{String}
pub use mathlib.Core.Path.{◌≡◌, refl, sym, ap, ◌∙◌}
pub use mathlib.Core.Logic.{◌≢◌, ◌↔◌, ◌⊎◌, inl, inr}
pub use mathlib.Core.Bool.{Bool, true, false, not, ◌&&◌, ◌||◌}
pub use mathlib.Core.Option.{Option, none, some}
pub use mathlib.Core.List.{List, [], ◌∷◌, ◌++◌, map, reverse, append-nil, append_assoc}
pub use native.Mathlib.Omega.{arith}
