-- ===== src/Common/Map/Keys.antt =====
-- Association lists in which each key stands once, as in a Go map.
use Prim.Native.String.{String}
use mathlib.Core.Path.{◌≡◌, refl}
use mathlib.Core.Logic.{inl, inr}
use mathlib.Core.List.{[], ◌∷◌}
use mathlib.Core.Option.{none}
use native.Mathlib.Omega.{arith}
use text.Mathlib.Text.{◌==◌}
use text.Mathlib.TextEquality.{eq_iff}
use vulos_mail.Common.Tests.{Bool-cases}
use vulos_mail.Common.Map.{
  Map, lookup, insert, erase, map_values, lookup-insert, lookup-erase, lookup-map_values,
}

module _ {ℓ} {V : Type ℓ} where
  abbrev pub Once : Map V → Type ℓ
  Once [] = Unit
  Once ((k, v) ∷ m) = (lookup k m ≡ none) × Once m

  pub Once-insert : (k : String) (v : V) (m : Map V) → Once m → Once (insert k v m)
  unfolding insert lookup
  Once-insert k v [] o = (refl, tt)
  Once-insert k v ((j, w) ∷ m) o = elim (Bool-cases (j == k)) [
    | inl here ↦ rw here (ground (arith, here, eq_iff j k, o.0), o.1)
    | inr there ↦ rw there (
      ground (arith, there, eq_iff j k, eq_iff k j, o.0, lookup-insert k j v m),
      Once-insert k v m o.1,
    )
  ]

  pub Once-erase : (k : String) (m : Map V) → Once m → Once (erase k m)
  unfolding erase
  Once-erase k [] o = tt
  Once-erase k ((j, w) ∷ m) o = elim (Bool-cases (j == k)) [
    | inl here ↦ rw here (Once-erase k m o.1)
    | inr there ↦ rw there (ground (arith, o.0, lookup-erase k j m), Once-erase k m o.1)
  ]

  pub Once-map_values : (f : V → V) (m : Map V) → Once m → Once (map_values f m)
  unfolding map_values
  Once-map_values f [] o = tt
  Once-map_values f ((j, w) ∷ m) o =
      (ground (arith, o.0, lookup-map_values f j m), Once-map_values f m o.1)
