-- ===== src/Prelude/Map.antt =====
-- Python's dict and `immutables.Map`: an association list with one entry for each key. A write to
-- a key that is there replaces its value in place, a write to a new key goes to the end.
pub mod Laws
pub mod Sum
pub mod Except
use mathlib.Core.Path.{◌≡◌}
use mathlib.Core.Bool.{Bool, true, false}
use mathlib.Core.Option.{Option, none, some}
use mathlib.Core.List.{List, [], ◌∷◌}
use skepticoin.Prelude.Tests.{if◌then◌else◌}
use skepticoin.Prelude.Eq.{Eq, ◌≟◌}
use skepticoin.Prelude.Result.{Result, ok, err, key_error, or_raise}

abbrev pub Map {ℓ} : Type ℓ → Type ℓ → Type ℓ
Map K V = List (K × V)

module _ {ℓ} {K V : Type ℓ} ⦃e : Eq K⦄ where
  -- `m.get(k)`
  unfoldable pub lookup : K → Map K V → Option V
  lookup k [] = none
  lookup k ((j, v) ∷ m) = if j ≟ k then some v else lookup k m

  -- `k in m`
  unfoldable pub contains : K → Map K V → Bool
  contains k m = elim (lookup k m) [ none ↦ false | some _ ↦ true ]

  -- `m[k]`
  unfoldable pub get_item : K → Map K V → Result V
  get_item k m = or_raise (lookup k m) key_error

  -- `m.set(k, v)`, and `m[k] = v`
  unfoldable pub insert : K → V → Map K V → Map K V
  insert k v [] = (k, v) ∷ []
  insert k v ((j, w) ∷ m) = if j ≟ k then (k, v) ∷ m else (j, w) ∷ insert k v m

  unfoldable pub erase : K → Map K V → Map K V
  erase k [] = []
  erase k ((j, w) ∷ m) = if j ≟ k then m else (j, w) ∷ erase k m

  -- `del m[k]`
  unfoldable pub del_item : K → Map K V → Result (Map K V)
  del_item k m = elim (lookup k m) [ none ↦ err key_error | some _ ↦ ok (erase k m) ]

  -- No key is there twice.
  abbrev pub IsUnique : Map K V → Type ℓ
  IsUnique [] = Unit
  IsUnique ((k, v) ∷ m) = (lookup k m ≡ none) × IsUnique m
