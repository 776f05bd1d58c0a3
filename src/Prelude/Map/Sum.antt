-- ===== src/Prelude/Map/Sum.antt =====
-- The sum of an integer measure over the entries of a map, under each update.
use mathlib.Core.Path.{◌≡◌}
use mathlib.Core.Option.{none, some}
use mathlib.Core.List.{[], ◌∷◌}
use native.Mathlib.Omega.{arith}
use skepticoin.Prelude.Eq.{Eq}
use skepticoin.Prelude.Int.{ℤ, pos, ◌+ℤ◌, ◌≤ℤ◌, int_laws}
use skepticoin.Prelude.Map.{Map, lookup, insert, erase}

module _ {ℓ} {K V : Type ℓ} (f : V → ℤ) where
  abbrev pub sum_values : Map K V → ℤ
  sum_values [] = pos 0
  sum_values ((k, v) ∷ m) = f v +ℤ sum_values m

  abbrev pub AllNonneg : Map K V → Type 0
  AllNonneg [] = Unit
  AllNonneg ((k, v) ∷ m) = (pos 0 ≤ℤ f v) × AllNonneg m

module _ {ℓ} {K V : Type ℓ} ⦃e : Eq K⦄ (f : V → ℤ) where
  pub sum_values-erase :
      (k : K) (m : Map K V) {v : V}
      → lookup k m ≡ some v
      → sum_values f (erase k m) +ℤ f v ≡ sum_values f m
  unfolding lookup erase
  sum_values-erase k [] h = cc
  sum_values-erase k ((i, w) ∷ m) h = grind (int_laws, sum_values-erase k m)

  pub sum_values-insert_new :
      (k : K) (v : V) (m : Map K V)
      → lookup k m ≡ none
      → sum_values f (insert k v m) ≡ sum_values f m +ℤ f v
  unfolding lookup insert
  sum_values-insert_new k v [] h = omega int_laws
  sum_values-insert_new k v ((i, w) ∷ m) h = grind (int_laws, sum_values-insert_new k v m)

  -- A write that replaces an entry loses the old value.
  pub sum_values-insert_le :
      (k : K) (v : V) (m : Map K V)
      → AllNonneg f m
      → sum_values f (insert k v m) ≤ℤ sum_values f m +ℤ f v
  unfolding insert
  sum_values-insert_le k v [] h = omega int_laws
  sum_values-insert_le k v ((i, w) ∷ m) h = grind (int_laws, sum_values-insert_le k v m h.1)

  pub AllNonneg-erase : (k : K) (m : Map K V) → AllNonneg f m → AllNonneg f (erase k m)
  unfolding erase
  AllNonneg-erase k [] h = tt
  AllNonneg-erase k ((i, w) ∷ m) h = ground (arith, AllNonneg-erase k m h.1)

  pub AllNonneg-insert :
      (k : K) (v : V) (m : Map K V) → AllNonneg f m → pos 0 ≤ℤ f v → AllNonneg f (insert k v m)
  unfolding insert
  AllNonneg-insert k v [] h p = (p, tt)
  AllNonneg-insert k v ((i, w) ∷ m) h p = ground (arith, AllNonneg-insert k v m h.1 p)
