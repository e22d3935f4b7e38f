-- ===== src/Common.antt =====
-- Names that every other module shares: the libraries', passed on, and those of the children:
-- tests on native numbers, lists measured by them, Go's `int` as an integer, texts as bytes.
mod Tests
mod Lists
pub mod Int
mod Outcomes
pub mod IntMap
pub use Tests.*
pub use Lists.*
pub use Int.{
  ℤ, pos, negsuc, pos_part, neg_part, ltb_ℤ, leb_ℤ, eqb_ℤ, eqb_ℤ_iff, to_word, wrap64, max_int,
  *ℤ_pos, +ℤ_pos, wrap64_pos,
}
unfoldable pub use Int.{◌+ℤ◌, ◌*ℤ◌}
pub use Outcomes.{
  Outcome, returned, exited, ◌>>=◌, Result, ok, err, Result-cases, bind-returned,
  returned_injective,
}
pub use Prim.Native.Nat.{ℕ, zero, suc, ◌+◌, ◌-◌, ◌*◌, ◌/◌, ◌%◌, ◌^◌, ◌≤◌, ◌<◌}
pub use Prim.Native.String.{String}
pub use mathlib.Core.Path.{◌≡◌, refl, sym, ap, ◌∙◌}
pub use mathlib.Core.Logic.{◌≢◌, ◌↔◌, ◌⊎◌, inl, inr}
pub use mathlib.Core.Bool.{Bool, true, false, not, ◌&&◌, ◌||◌}
pub use mathlib.Core.Option.{Option, none, some}
pub use mathlib.Core.List.{List, [], ◌∷◌, ◌++◌, map, append-nil, append_assoc}
pub use native.Mathlib.Omega.{arith}
