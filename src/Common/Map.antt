-- ===== src/Common/Map.antt =====
-- Go's maps with string keys, as association lists. A write to a key that is present stays at its
-- place; a new key goes to the end. Code that ranges over a map goes through the list in order.
pub mod Keys
use vulos_mail.Common.Tests.{if◌then◌else◌}
use Prim.Native.String.{String}
use mathlib.Core.Bool.{Bool, true, false}
use mathlib.Core.Path.{◌≡◌, refl}
use mathlib.Core.List.{List, [], ◌∷◌}
use mathlib.Core.Option
use mathlib.Core.Option.{Option, none, some}
use native.Mathlib.Omega.{arith}
use text.Mathlib.Text.{◌==◌}
use text.Mathlib.TextEquality.{eq_iff}

abbrev pub Map {ℓ} : Type ℓ → Type ℓ
Map V = List (String × V)

abbrev pub is_some {ℓ} : {A : Type ℓ} → Option A → Bool
is_some none = false
is_some (some a) = true

module _ {ℓ} {V : Type ℓ} where
  unfoldable pub lookup : String → Map V → Option V
  lookup k [] = none
  lookup k ((j, v) ∷ m) = if j == k then some v else lookup k m

  -- m[k] = v
  unfoldable pub insert : String → V → Map V → Map V
  insert key v [] = (key, v) ∷ []
  insert key v ((other, old) ∷ rest) =
      if other == key then (key, v) ∷ rest else (other, old) ∷ insert key v rest

  -- delete(m, k)
  unfoldable pub erase : String → Map V → Map V
  erase k [] = []
  erase k ((j, w) ∷ m) = let rest = erase k m in if j == k then rest else (j, w) ∷ rest

  -- a loop over the entries that writes each value in its place
  unfoldable pub map_values : (V → V) → Map V → Map V
  map_values f [] = []
  map_values f ((j, w) ∷ m) = (j, f w) ∷ map_values f m

  -- a loop over the entries that rewrites a value in its place or deletes its key
  unfoldable pub filter_values : (V → Option V) → Map V → Map V
  unfolding erase
  filter_values f [] = []
  filter_values f ((j, w) ∷ m) =
      let rest = filter_values f m in elim (f w) [ none ↦ erase j rest | some w' ↦ (j, w') ∷ rest ]

  pub lookup-insert :
      (key asked : String) (v : V) (entries : Map V)
      → lookup asked (insert key v entries)
        ≡ (if key == asked then some v else lookup asked entries)
  unfolding lookup insert
  lookup-insert key asked v [] = refl
  lookup-insert key asked v ((other, old) ∷ rest) = ground (
    arith,
    lookup-insert key asked v rest,
    eq_iff other key,
    eq_iff key asked,
    eq_iff other asked,
  )

  pub lookup-erase :
      (k j : String) (m : Map V) → lookup j (erase k m) ≡ (if k == j then none else lookup j m)
  unfolding lookup erase
  lookup-erase k j [] = ground arith
  lookup-erase k j ((i, w) ∷ m) =
      ground (arith, eq_iff k j, eq_iff i k, eq_iff i j, lookup-erase k j m)

  pub lookup-map_values :
      (f : V → V) (j : String) (m : Map V) → lookup j (map_values f m) ≡ Option.map f (lookup j m)
  unfolding lookup map_values
  lookup-map_values f j [] = refl
  lookup-map_values f j ((i, w) ∷ m) = ground (arith, lookup-map_values f j m)

  pub lookup-filter_values :
      (f : V → Option V) (j : String) (m : Map V)
      → lookup j (filter_values f m) ≡ Option.bind (lookup j m) f
  unfolding lookup filter_values Option.bind
  lookup-filter_values f j [] = refl
  lookup-filter_values f j ((i, w) ∷ m) =
      ground (arith, lookup-filter_values f j m, lookup-erase i j (filter_values f m), eq_iff i j)

pub ruleset map_laws = (lookup-insert, lookup-erase, lookup-map_values, lookup-filter_values)
