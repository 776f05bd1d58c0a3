-- ===== src/Wallet/Keys.antt =====
-- The keys of skepticoin/wallet.py: making them, giving them away, and what they own. A key pair that
-- ecdsa makes is an argument, as is the number by which `random.choice` picks.
use skepticoin.Crypto.{Crypto}
use skepticoin.Balances.{Balances, PkBalance}
use skepticoin.Balances.Chain.{public_key_balances_by_hash}
use skepticoin.CoinState.{CoinState}
use skepticoin.Prelude.{
  Bytes, List, Option, none, some, [], ◌∷◌, ◌++◌, ℕ, zero, suc, map, length, ◌%◌,
}
use skepticoin.Prelude.Eq.{list_eq, nat_eq}
use skepticoin.Prelude.Int.{ℤ, pos, ◌+ℤ◌}
use skepticoin.Prelude.Map.{del_item, insert, lookup}
use skepticoin.Prelude.Result.{Result, err, ok, index_error, ◌>>=◌}
use skepticoin.Signing.{new_public_key, public_key_eq}
use skepticoin.Wallet.Spend.{Wallet}
use Prim.Native.String.{String}

abbrev pub empty_wallet : Wallet
empty_wallet = record {
  keypairs = [];
  unused_public_keys = [];
  public_key_annotations = [];
  spent_transaction_outputs = [];
}

-- `list.pop()`
unfoldable pub pop_last : Bytes → List Bytes → Bytes × List Bytes
pop_last k [] = (k, [])
pop_last k (j ∷ ks) = let r = pop_last j ks in (r.0, k ∷ r.1)

-- `random.choice`: the key at the number, modulo the length.
unfoldable pub choose_key : ℕ → List Bytes → Result Bytes
choose_key k [] = err index_error
choose_key zero (x ∷ xs) = ok x
choose_key (suc k) (x ∷ xs) = choose_key k xs

unfoldable pub annotated_from : ℕ → String → Wallet → List Bytes → Result Bytes × Wallet
annotated_from k annotation w [] =
    (choose_key (k % length w.keypairs) (map (λ e. e.0) w.keypairs), w)
annotated_from k annotation w (x ∷ xs) =
    let r = pop_last x xs in
    (
      ok r.0,
      record w {
        unused_public_keys = r.1;
        public_key_annotations = insert r.0 annotation w.public_key_annotations;
      },
    )

unfoldable pub get_annotated_public_key : ℕ → String → Wallet → Result Bytes × Wallet
get_annotated_public_key k annotation w = annotated_from k annotation w w.unused_public_keys

unfoldable pub restore_annotated_public_key : Bytes → Wallet → Result Wallet
restore_annotated_public_key key w = do
  annotations ← del_item key w.public_key_annotations
  ok (record w {
    public_key_annotations = annotations;
    unused_public_keys = w.unused_public_keys ++ (key ∷ []);
  })

-- With the public and the private key of a new pair.
unfoldable pub generate_key : Bytes × Bytes → Wallet → Wallet
generate_key (public, private) w = record w {
  keypairs = insert public private w.keypairs;
  unused_public_keys = w.unused_public_keys ++ (public ∷ []);
}

unfoldable pub generate_keys : List (Bytes × Bytes) → Wallet → Wallet
generate_keys [] w = w
generate_keys (pair ∷ pairs) w = generate_keys pairs (generate_key pair w)

unfoldable pub balance_value : Option PkBalance → ℤ
balance_value none = pos 0
balance_value (some b) = b.value

-- The keys that were given away, and the others.
abbrev pub own_keys : Wallet → List Bytes
own_keys w = map (λ e. e.0) w.public_key_annotations ++ w.unused_public_keys

unfoldable pub sum_balances : Balances → List Bytes → Result ℤ
sum_balances balances [] = ok (pos 0)
sum_balances balances (k ∷ ks) = do
  key ← new_public_key k
  rest ← sum_balances balances ks
  ok (balance_value (lookup key balances) +ℤ rest)

-- `public_key_balances_by_hash[current_chain_hash]`, without the cache, which holds the same.
unfoldable pub current_balances : ⦃c : Crypto⦄ → CoinState → Result Balances
current_balances s =
    public_key_balances_by_hash s.public_key_balances_by_hash.block_by_hash s.current_chain_hash

unfoldable pub balance_over : Result Balances → List Bytes → Result ℤ
balance_over balances [] = ok (pos 0)
balance_over balances (k ∷ ks) = do b ← balances; sum_balances b (k ∷ ks)

unfoldable pub get_balance : ⦃c : Crypto⦄ → Wallet → CoinState → Result ℤ
get_balance w s = balance_over (current_balances s) (own_keys w)
