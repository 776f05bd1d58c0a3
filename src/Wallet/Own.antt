-- ===== src/Wallet/Own.antt =====
-- The keys that a wallet of skepticoin/wallet.py counts as its own, over its life.
use skepticoin.Prelude.{
  All, All-map, Bytes, List, [], ◌∷◌, ◌++◌, ◌≡◌, some, ℕ, refl, arith, true, map,
}
use skepticoin.Prelude.Eq.{list_eq, nat_eq, ≟_iff}
use skepticoin.Prelude.Map.{Map, contains, del_item, erase, insert, lookup}
use skepticoin.Prelude.Map.Laws.{contains-some, del_item-eq_ok, lookup-insert}
use skepticoin.Prelude.Result.{ok, ok-injective, >>=-eq_ok}
use skepticoin.Wallet.Keys.{
  annotated_from, empty_wallet, generate_key, get_annotated_public_key, own_keys, pop_last,
  restore_annotated_public_key,
}
use skepticoin.Wallet.Spend.{Wallet}
use Prim.Native.String.{String}
use mathlib.Core.Path.{subst}
use skepticoin.Prelude.Map.Laws.{lookup-insert_self}

-- The wallet has the private key.
abbrev Held : Map Bytes Bytes → Bytes → Type 0
Held keypairs k = contains k keypairs ≡ true

module _ (P : Bytes → Type 0) where
  All-append : (xs ys : List Bytes) → All P xs → All P ys → All P (xs ++ ys)
  All-append [] ys h g = g
  All-append (x ∷ xs) ys h g = (h.0, All-append xs ys h.1 g)

  All-append_left : (xs ys : List Bytes) → All P (xs ++ ys) → All P xs
  All-append_left [] ys h = tt
  All-append_left (x ∷ xs) ys h = (h.0, All-append_left xs ys h.1)

  All-append_right : (xs ys : List Bytes) → All P (xs ++ ys) → All P ys
  All-append_right [] ys h = h
  All-append_right (x ∷ xs) ys h = All-append_right xs ys h.1

  All-pop_last :
      (k : Bytes) (ks : List Bytes) → All P (k ∷ ks) → P (pop_last k ks).0 × All P (pop_last k ks).1
  unfolding pop_last
  All-pop_last k [] h = h
  All-pop_last k (j ∷ ks) h = let r = All-pop_last j ks h.1 in (r.0, (h.0, r.1))

  All-insert :
      (k : Bytes) (v : String) (m : Map Bytes String)
      → P k
      → All P (map (λ e. e.0) m)
      → All P (map (λ e. e.0) (insert k v m))
  unfolding insert
  All-insert k v [] p h = (p, tt)
  All-insert k v ((j, w) ∷ m) p h = ground (arith, All-insert k v m p h.1)

  All-erase :
      (k : Bytes) (m : Map Bytes String)
      → All P (map (λ e. e.0) m)
      → All P (map (λ e. e.0) (erase k m))
  unfolding erase
  All-erase k [] h = tt
  All-erase k ((j, w) ∷ m) h = ground (arith, All-erase k m h.1)

  carried : (j k : Bytes) → P j → j ≡ k → P k
  carried j k p e = subst P e p

  All-lookup :
      (k : Bytes) (m : Map Bytes String) {v : String}
      → lookup k m ≡ some v
      → All P (map (λ e. e.0) m)
      → P k
  unfolding lookup
  All-lookup k [] found h = ground arith
  All-lookup k ((j, w) ∷ m) {v = v} found h =
      ground (arith, ≟_iff j k, carried j k h.0, All-lookup k m {v = v})

-- A wallet that starts without keys, and the calls that change its keys, of
-- `restore_annotated_public_key` those that return.
pub data Reachable : Wallet → Type 0 where
  without_keys : Reachable empty_wallet
  after_generate :
      {w : Wallet} (pair : Bytes × Bytes) → Reachable w → Reachable (generate_key pair w)
  after_get :
      {w : Wallet} (k : ℕ) (annotation : String)
      → Reachable w
      → Reachable (get_annotated_public_key k annotation w).1
  after_restore :
      {w w' : Wallet} (key : Bytes)
      → Reachable w
      → restore_annotated_public_key key w ≡ ok w'
      → Reachable w'

abbrev AllHeld : Wallet → Type 0
AllHeld w = All (Held w.keypairs) (own_keys w)

insert-Held :
    (key : Bytes) (secret : Bytes) (m : Map Bytes Bytes) (k : Bytes)
    → Held m k
    → Held (insert key secret m) k
unfolding contains
insert-Held key secret m k h = ground (arith, lookup-insert key k secret m)

insert-Held_self :
    (key : Bytes) (secret : Bytes) (m : Map Bytes Bytes) → Held (insert key secret m) key
insert-Held_self key secret m = contains-some key _ (lookup-insert_self key secret m)

generate_key-AllHeld :
    (pair : Bytes × Bytes) (w : Wallet) → AllHeld w → AllHeld (generate_key pair w)
unfolding generate_key
generate_key-AllHeld (key, secret) w h =
    let given = map (λ e. e.0) w.public_key_annotations in
    let keeps =
      All-map _ (Held (insert key secret w.keypairs)) (insert-Held key secret w.keypairs)
        (own_keys w) h in
    All-append _ given _ (All-append_left _ given _ keeps) (
      All-append _ w.unused_public_keys _ (All-append_right _ given _ keeps)
        (insert-Held_self key secret w.keypairs, tt))

annotated_from-AllHeld :
    (k : ℕ) (annotation : String) (w : Wallet) (unused : List Bytes)
    → w.unused_public_keys ≡ unused
    → AllHeld w
    → AllHeld (annotated_from k annotation w unused).1
unfolding annotated_from
annotated_from-AllHeld k annotation w [] e h = h
annotated_from-AllHeld k annotation w (x ∷ xs) e h =
    let given = map (λ e. e.0) w.public_key_annotations in
    let popped = All-pop_last (Held w.keypairs) x xs (rw e at (All-append_right _ given _ h)) in
    All-append _ _ _
      (All-insert _ (pop_last x xs).0 annotation w.public_key_annotations popped.0
        (All-append_left _ given _ h))
      popped.1

restore-AllHeld :
    (key : Bytes) (w w' : Wallet)
    → restore_annotated_public_key key w ≡ ok w'
    → AllHeld w
    → AllHeld w'
unfolding restore_annotated_public_key
restore-AllHeld key w w' e h =
    let given = map (λ e. e.0) w.public_key_annotations in
    let (m, deleted, same) = >>=-eq_ok (del_item key w.public_key_annotations) _ e in
    let (v, found, erased) = del_item-eq_ok key w.public_key_annotations deleted in
    let before = All-append_left (Held w.keypairs) given _ h in
    subst AllHeld (ok-injective same) (
      All-append _ (map (λ e. e.0) m) _
        (rw erased (All-erase _ key w.public_key_annotations before))
        (All-append _ w.unused_public_keys _ (All-append_right _ given _ h)
          (All-lookup _ key w.public_key_annotations found before, tt)))

-- Whatever keys are made, given away and taken back, from a wallet without keys: the wallet has the
-- private key of every public key that it counts as its own.
pub own_keys-Held :
    {w : Wallet} → Reachable w → All (λ k. contains k w.keypairs ≡ true) (own_keys w)
unfolding get_annotated_public_key
own_keys-Held without_keys = tt
own_keys-Held (after_generate {w} pair r) = generate_key-AllHeld pair w (own_keys-Held r)
own_keys-Held (after_get {w} k annotation r) =
    annotated_from-AllHeld k annotation w w.unused_public_keys refl (own_keys-Held r)
own_keys-Held (after_restore {w} {w'} key r e) = restore-AllHeld key w w' e (own_keys-Held r)
