-- ===== src/Wallet/Restore.antt =====
-- A key that is given away and taken back (skepticoin/wallet.py).
use skepticoin.Prelude.{Bytes, List, [], ◌∷◌, ◌++◌, ◌≡◌, none, ℕ, refl, arith, ap, sym}
use skepticoin.Prelude.Eq.{list_eq, nat_eq, ≟_refl}
use skepticoin.Prelude.Map.{Map, erase, insert, lookup}
use skepticoin.Prelude.Map.Laws.{del_item_ok, lookup-insert_self}
use skepticoin.Prelude.Result.{Result, ok}
use skepticoin.Wallet.Keys.{
  annotated_from, get_annotated_public_key, pop_last, restore_annotated_public_key,
}
use skepticoin.Wallet.Spend.{Wallet}
use Prim.Native.String.{String}
use skepticoin.Prelude.Result.{ok-injective}

pop_last_lem :
    (k : Bytes) (ks : List Bytes) → (pop_last k ks).1 ++ ((pop_last k ks).0 ∷ []) ≡ k ∷ ks
unfolding pop_last
pop_last_lem k [] = refl
pop_last_lem k (j ∷ ks) = ap (λ l. k ∷ l) (pop_last_lem j ks)

erase-insert :
    (k : Bytes) (v : String) (m : Map Bytes String) → lookup k m ≡ none → erase k (insert k v m) ≡ m
unfolding erase insert lookup
erase-insert k v [] h = ground (arith, ≟_refl k)
erase-insert k v ((j, w) ∷ m) h = ground (arith, ≟_refl k, erase-insert k v m)

restored :
    (annotation : String) (w : Wallet) (x : Bytes) (xs : List Bytes)
    → w.unused_public_keys ≡ x ∷ xs
    → lookup (pop_last x xs).0 w.public_key_annotations ≡ none
    → restore_annotated_public_key (pop_last x xs).0 (record w {
      unused_public_keys = (pop_last x xs).1;
      public_key_annotations = insert (pop_last x xs).0 annotation w.public_key_annotations;
    })
      ≡ ok w
unfolding restore_annotated_public_key
restored annotation w x xs e free =
    rw
      (
        del_item_ok (pop_last x xs).0 (insert (pop_last x xs).0 annotation w.public_key_annotations)
            (lookup-insert_self (pop_last x xs).0 annotation w.public_key_annotations),
        erase-insert (pop_last x xs).0 annotation w.public_key_annotations free,
        pop_last_lem x xs,
        sym e,
      )
      refl

same_key :
    {p key : Bytes} {w w' w1 : Wallet}
    → Path (Result Bytes × Wallet) (ok p, w') (ok key, w1)
    → (lookup p w.public_key_annotations ≡ none → restore_annotated_public_key p w' ≡ ok w)
    → lookup key w.public_key_annotations ≡ none
    → restore_annotated_public_key key w1 ≡ ok w
same_key {p} {key} {w} {w'} {w1} given restores free =
    let same = ok-injective (ap (λ r. r.0) given) in
    rw (sym same, sym (ap (λ r. r.1) given)) (restores (rw same free))

-- A key that has no annotation yet, given away by a wallet that has an unused key and taken back,
-- leaves the wallet exactly as it was, also in the order of its unused keys.
pub restore_annotated_public_key_lem :
    (k : ℕ) (annotation : String) (w w1 : Wallet) (key x : Bytes) (xs : List Bytes)
    → w.unused_public_keys ≡ x ∷ xs
    → get_annotated_public_key k annotation w ≡ (ok key, w1)
    → lookup key w.public_key_annotations ≡ none
    → restore_annotated_public_key key w1 ≡ ok w
unfolding get_annotated_public_key annotated_from
restore_annotated_public_key_lem k annotation w w1 key x xs e given free =
    same_key (rw e at given) (restored annotation w x xs e) free
