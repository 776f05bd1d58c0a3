-- ===== src/Prelude/Map/Laws.antt =====
-- The laws of the map operations, in the form that rewrites.
use mathlib.Core.Path.{◌≡◌, refl}
use mathlib.Core.Logic.{◌≢◌}
use mathlib.Core.Bool.{true, false}
use mathlib.Core.Option.{none, some}
use mathlib.Core.List.{[], ◌∷◌}
use native.Mathlib.Omega.{arith}
use skepticoin.Prelude.Tests.{if◌then◌else◌}
use skepticoin.Prelude.Eq.{Eq, ◌≟◌, ≟_iff}
use skepticoin.Prelude.Result.{ok}
use skepticoin.Prelude.Map.{Map, lookup, contains, get_item, insert, erase, del_item, IsUnique}

module _ {ℓ} {K V : Type ℓ} ⦃e : Eq K⦄ where
  pub lookup-insert :
      (k j : K) (v : V) (m : Map K V)
      → lookup j (insert k v m) ≡ (if k ≟ j then some v else lookup j m)
  unfolding lookup insert
  lookup-insert k j v [] = refl
  lookup-insert k j v ((i, w) ∷ m) =
      ground (arith, ≟_iff k j, ≟_iff i k, ≟_iff i j, lookup-insert k j v m)

  pub lookup-insert_self : (k : K) (v : V) (m : Map K V) → lookup k (insert k v m) ≡ some v
  lookup-insert_self k v m = ground (arith, lookup-insert k k v m, ≟_iff k k)

  pub lookup-insert_ne :
      (k j : K) (v : V) (m : Map K V) → j ≢ k → lookup j (insert k v m) ≡ lookup j m
  lookup-insert_ne k j v m h = ground (arith, lookup-insert k j v m, ≟_iff k j)

  pub lookup-erase_ne : (k j : K) (m : Map K V) → j ≢ k → lookup j (erase k m) ≡ lookup j m
  unfolding lookup erase
  lookup-erase_ne k j [] h = refl
  lookup-erase_ne k j ((i, w) ∷ m) h = ground (arith, ≟_iff i k, ≟_iff i j, lookup-erase_ne k j m h)

  pub lookup-erase_self : (k : K) (m : Map K V) → IsUnique m → lookup k (erase k m) ≡ none
  unfolding lookup erase
  lookup-erase_self k [] u = refl
  lookup-erase_self k ((i, w) ∷ m) u = ground (arith, ≟_iff i k, lookup-erase_self k m u.1)

  pub insert-IsUnique : (k : K) (v : V) (m : Map K V) → IsUnique m → IsUnique (insert k v m)
  unfolding lookup insert
  insert-IsUnique k v [] u = (refl, tt)
  insert-IsUnique k v ((i, w) ∷ m) u =
      ground (arith, ≟_iff i k, ≟_iff k i, lookup-insert k i v m, insert-IsUnique k v m u.1)

  pub lookup-erase-none : (k j : K) (m : Map K V) → lookup j m ≡ none → lookup j (erase k m) ≡ none
  unfolding lookup erase
  lookup-erase-none k j [] h = refl
  lookup-erase-none k j ((i, w) ∷ m) h = ground (arith, lookup-erase-none k j m)

  pub erase-IsUnique : (k : K) (m : Map K V) → IsUnique m → IsUnique (erase k m)
  unfolding erase
  erase-IsUnique k [] u = tt
  erase-IsUnique k ((i, w) ∷ m) u = ground (arith, lookup-erase-none k i m, erase-IsUnique k m u.1)

  pub get_item-eq_ok : (k : K) (m : Map K V) {v : V} → get_item k m ≡ ok v → lookup k m ≡ some v
  unfolding get_item
  get_item-eq_ok k m h = ground arith

  pub get_item_ok : (k : K) (m : Map K V) {v : V} → lookup k m ≡ some v → get_item k m ≡ ok v
  unfolding get_item
  get_item_ok k m h = ground arith

  pub contains-eq_true :
      (k : K) (m : Map K V) → contains k m ≡ true → (v : V) × (lookup k m ≡ some v)
  unfolding contains
  contains-eq_true k m h = ground arith

  pub contains-eq_false : (k : K) (m : Map K V) → contains k m ≡ false → lookup k m ≡ none
  unfolding contains
  contains-eq_false k m h = ground arith

  pub contains-none : (k : K) (m : Map K V) → lookup k m ≡ none → contains k m ≡ false
  unfolding contains
  contains-none k m h = ground arith

  pub contains-some : (k : K) (m : Map K V) {v : V} → lookup k m ≡ some v → contains k m ≡ true
  unfolding contains
  contains-some k m h = ground arith

  -- A deletion that succeeds found the key, and gives the map without it.
  pub del_item-eq_ok :
      (k : K) (m : Map K V) {r : Map K V}
      → del_item k m ≡ ok r
      → (v : V) × (lookup k m ≡ some v) × (r ≡ erase k m)
  unfolding del_item
  del_item-eq_ok k m h = ground arith

  pub del_item_ok :
      (k : K) (m : Map K V) {v : V} → lookup k m ≡ some v → del_item k m ≡ ok (erase k m)
  unfolding del_item
  del_item_ok k m h = ground arith

  -- What is found after a write is what was written, or was there before.
  pub insert_here :
      (j k : K) (v : V) (m : Map K V) {w : V}
      → (k ≟ j) ≡ true
      → lookup j (insert k v m) ≡ some w
      → v ≡ w
  insert_here j k v m e h = ground (arith, lookup-insert k j v m)

  pub insert_there :
      (j k : K) (v : V) (m : Map K V) {w : V}
      → (k ≟ j) ≡ false
      → lookup j (insert k v m) ≡ some w
      → lookup j m ≡ some w
  insert_there j k v m e h = ground (arith, lookup-insert k j v m)
