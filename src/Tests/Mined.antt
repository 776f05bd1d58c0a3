-- ===== src/Tests/Mined.antt =====
-- Mining and the keys of the wallet at concrete inputs.
use skepticoin.Mining.{MinerWatcher, handle_received_message, request_scrypt_input, scrypt_output}
use skepticoin.Mining.Found.{found_block_forgotten}
use skepticoin.Prelude.{[], ◌∷◌, ◌≡◌, ◌⊎◌, refl, replicate}
use skepticoin.Prelude.Result.{ok}
use skepticoin.Tests.Chain.{chain_state, new_block}
use skepticoin.Tests.Network.{toy_node, toy_os}
use skepticoin.Tests.Toy.{hash_of, toy}
use skepticoin.Wallet.Spend.{Wallet}
use skepticoin.Prelude.Eq.{list_eq, nat_eq}
use skepticoin.Prelude.Map.{insert, lookup}
use skepticoin.Wallet.Keys.{
  annotated_from, get_annotated_public_key, pop_last, restore_annotated_public_key,
}
use skepticoin.Wallet.Restore.{restore_annotated_public_key_lem}
use skepticoin.Prelude.{All, true}
use skepticoin.Prelude.Map.{contains}
use skepticoin.Wallet.Keys.{generate_key}
use skepticoin.Wallet.Own.{after_generate, after_get, own_keys-Held}
use skepticoin.Wallet.Own.{without_keys}

abbrev keys_wallet : Wallet
keys_wallet = record {
  keypairs = (hash_of 1, hash_of 2) ∷ [];
  unused_public_keys = hash_of 3 ∷ hash_of 1 ∷ [];
  public_key_annotations = [];
  spent_transaction_outputs = [];
}

abbrev watcher : MinerWatcher
watcher = record {
  wallet = keys_wallet;
  coinstate = chain_state;
  node = toy_node;
  mining_args =
      (
        0,
        record {
          summary = new_block.header.summary;
          current_height = 163001;
          transactions = new_block.transactions;
        },
      )
      ∷ [];
  public_key = replicate 64 7;
  sent = [];
}

found_block_forgotten_example :
    ((handle_received_message 0
        (request_scrypt_input 8)
        (handle_received_message 0 (scrypt_output (hash_of 7)) watcher).1).1.coinstate
      ≡ chain_state)
    ⊎ ((handle_received_message 0
          (request_scrypt_input 8)
          (handle_received_message 0 (scrypt_output (hash_of 7)) watcher).1).1.coinstate
        ≡ chain_state)
unfolding skepticoin.Network.Node.new_node
found_block_forgotten_example = found_block_forgotten 0 0 8 (hash_of 7) watcher

given : get_annotated_public_key 0 "change" keys_wallet ≡ (
  ok (hash_of 1),
  record keys_wallet {
    unused_public_keys = hash_of 3 ∷ [];
    public_key_annotations = (hash_of 1, "change") ∷ [];
  },
)
unfolding get_annotated_public_key annotated_from pop_last insert
given = refl

restore_annotated_public_key_lem_example :
    restore_annotated_public_key (hash_of 1) (record keys_wallet {
      unused_public_keys = hash_of 3 ∷ [];
      public_key_annotations = (hash_of 1, "change") ∷ [];
    })
    ≡ ok keys_wallet
unfolding lookup
restore_annotated_public_key_lem_example =
    restore_annotated_public_key_lem 0 "change" keys_wallet
      (record keys_wallet {
        unused_public_keys = hash_of 3 ∷ [];
        public_key_annotations = (hash_of 1, "change") ∷ [];
      })
      (hash_of 1) (hash_of 3) (hash_of 1 ∷ []) refl given refl

own_keys-Held_example :
    All
      (λ k. contains k ((hash_of 1, hash_of 2) ∷ (hash_of 3, hash_of 4) ∷ []) ≡ true)
      (hash_of 1 ∷ hash_of 3 ∷ [])
unfolding get_annotated_public_key annotated_from pop_last insert generate_key
own_keys-Held_example = own_keys-Held (
    after_generate (hash_of 3, hash_of 4)
      (after_get 0 "change" (after_generate (hash_of 1, hash_of 2) without_keys)))
