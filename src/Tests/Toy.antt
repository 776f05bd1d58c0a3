-- ===== src/Tests/Toy.antt =====
-- Concrete functions for the libraries that the program calls, and a small block.
use skepticoin.Crypto.{Crypto, Verdict, bad_signature, verified}
use skepticoin.Prelude.{Bytes, if◌then◌else◌, some, ◌*◌, ◌++◌}
use skepticoin.Prelude.Eq.{list_eq, nat_eq, ◌≟◌}
use skepticoin.Serialization.Pack.{from_be, to_be}
use skepticoin.Datatypes.{Block, Transaction, thin_air_hash}
use skepticoin.Prelude.{[], none, replicate, ℕ, ◌∷◌}
use skepticoin.Prelude.Int.{pos}
use skepticoin.Signing.{PublicKey, coinbase_data, secp256k1}

-- The low 32 bytes of the input read as a number, shifted by one: a hash that runs in a test.
abbrev pub toy_hash : Bytes → Bytes
toy_hash b = to_be 32 (from_be 1 b * 257)

-- A signature is valid if it is the key itself.
abbrev toy_verify : Bytes → Bytes → Bytes → Verdict
toy_verify key signature message = if key ≟ signature then verified else bad_signature

instance abbrev pub toy : Crypto
toy = record {
  sha256 = toy_hash;
  blake2b = λ b n. toy_hash b;
  scrypt_hash = λ p s n r q l. toy_hash (p ++ s);
  verify = toy_verify;
  sign = λ k m. some k;
  py_hash = from_be 0;
}

abbrev pub alice : PublicKey
alice = record { public_key = replicate 64 7 }

abbrev pub bob : PublicKey
bob = record { public_key = replicate 64 9 }

abbrev pub hash_of : ℕ → Bytes
hash_of n = replicate 31 0 ++ (n ∷ [])

abbrev pub reward : ℕ → PublicKey → Transaction
reward height key = record {
  inputs =
      record {
        output_reference = record { hash = thin_air_hash; index = 0 };
        signature = some (coinbase_data height (1 ∷ 2 ∷ []));
      }
      ∷ [];
  outputs = record { value = pos 1000000000; public_key = key } ∷ [];
  cached_hash = none;
}

abbrev pub payment : Transaction
payment = record {
  inputs =
      record {
        output_reference = record { hash = hash_of 5; index = 0 };
        signature = some (secp256k1 (replicate 64 7));
      }
      ∷ [];
  outputs =
      record { value = pos 30; public_key = bob }
      ∷ record { value = pos 65; public_key = alice }
      ∷ [];
  cached_hash = none;
}

abbrev pub small_block : Block
small_block = record {
  header = record {
    summary = record {
      height = 163001;
      previous_block_hash = hash_of 1;
      merkle_root_hash = hash_of 2;
      timestamp = 1700000000;
      target = replicate 32 255;
      nonce = 42;
    };
    pow_evidence = record {
      summary_hash = hash_of 3;
      chain_sample = replicate 32 1;
      block_hash = hash_of 4;
    };
  };
  transactions = reward 163001 bob ∷ payment ∷ [];
  cached_hash = none;
}
