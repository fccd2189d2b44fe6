-- ===== src/Base/Maps.antt =====
-- Go maps with string keys, as association lists. A missing key reads as `none`.
use if_sos_beacon.Base.Tests.{if◌then◌else◌}
use if_sos_beacon.Base.Texts.{Text, ◌=ᵗ◌, =ᵗ_iff, =ᵗ_refl}
use mathlib.Core.Path.{◌≡◌, refl}
use mathlib.Core.Bool.{Bool, false}
use mathlib.Core.Option.{Option, none, some}
use mathlib.Core.List.{List, [], ◌∷◌}
use native.Mathlib.Omega.{arith}

abbrev pub Map {ℓ} : Type ℓ → Type ℓ
Map V = List (Text × V)

module _ {ℓ} {V : Type ℓ} where
  -- m[k], with the second result of the two-value form
  unfoldable pub lookup : Text → Map V → Option V
  lookup k [] = none
  lookup k ((j, v) ∷ m) = if j =ᵗ k then some v else lookup k m

  -- m[k] = v
  unfoldable pub insert : Text → V → Map V → Map V
  insert k v [] = (k, v) ∷ []
  insert k v ((j, w) ∷ m) = let rest = insert k v m in if j =ᵗ k then (k, v) ∷ m else (j, w) ∷ rest

  pub lookup-insert :
      (k j : Text) (v : V) (m : Map V)
      → lookup j (insert k v m) ≡ (if k =ᵗ j then some v else lookup j m)
  unfolding lookup insert
  lookup-insert k j v [] = refl
  lookup-insert k j v ((i, w) ∷ m) =
      ground (arith, =ᵗ_iff k j, =ᵗ_iff i k, =ᵗ_iff i j, lookup-insert k j v m)

  pub lookup-insert_self : (k : Text) (v : V) (m : Map V) → lookup k (insert k v m) ≡ some v
  lookup-insert_self k v m = simp (lookup-insert, =ᵗ_refl)

-- m[k] of a map to Booleans: a missing key reads as false.
abbrev pub holds : Map Bool → Text → Bool
holds m k = elim (lookup k m) [ none ↦ false | some b ↦ b ]
