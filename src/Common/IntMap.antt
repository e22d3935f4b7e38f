-- ===== src/Common/IntMap.antt =====
-- Go's `map[int]V` as an association list. The order of the entries is the order of a `range` loop,
-- which Go leaves open: statements hold for every list.
use mathlib.Core.Path.{◌≡◌, refl}
use mathlib.Core.Bool.{true}
use mathlib.Core.List.{List, [], ◌∷◌}
use mathlib.Core.Option.{Option, none, some}
use native.Mathlib.Omega.{arith}
use package.zygote.Common.Tests.{if◌then◌else◌}
use package.zygote.Common.Int.{ℤ, eqb_ℤ, eqb_ℤ_iff}

abbrev pub IntMap {ℓ} : Type ℓ → Type ℓ
IntMap V = List (ℤ × V)

module _ {ℓ} {V : Type ℓ} where
  unfoldable pub lookup : ℤ → IntMap V → Option V
  lookup k [] = none
  lookup k ((j, v) ∷ m) = if eqb_ℤ j k then some v else lookup k m

  unfoldable pub insert : ℤ → V → IntMap V → IntMap V
  insert k v [] = (k, v) ∷ []
  insert k v ((j, w) ∷ m) = if eqb_ℤ j k then (k, v) ∷ m else (j, w) ∷ insert k v m

  -- `delete(m, k)`.
  unfoldable pub delete : ℤ → IntMap V → IntMap V
  delete k [] = []
  delete k ((j, w) ∷ m) = let rest = delete k m in if eqb_ℤ j k then rest else (j, w) ∷ rest

  pub lookup-insert :
      (k j : ℤ) (v : V) (m : IntMap V)
      → lookup j (insert k v m) ≡ (if eqb_ℤ k j then some v else lookup j m)
  unfolding lookup insert
  lookup-insert k j v [] = refl
  lookup-insert k j v ((i, w) ∷ m) =
      ground (arith, eqb_ℤ_iff k j, eqb_ℤ_iff i k, eqb_ℤ_iff i j, lookup-insert k j v m)

  pub lookup-delete :
      (k j : ℤ) (m : IntMap V) → lookup j (delete k m) ≡ (if eqb_ℤ k j then none else lookup j m)
  unfolding lookup delete
  lookup-delete k j [] = ground arith
  lookup-delete k j ((i, w) ∷ m) =
      ground (arith, eqb_ℤ_iff k j, eqb_ℤ_iff i k, eqb_ℤ_iff i j, lookup-delete k j m)

pub eqb_ℤ_refl : (k : ℤ) → eqb_ℤ k k ≡ true
eqb_ℤ_refl k = ground arith
