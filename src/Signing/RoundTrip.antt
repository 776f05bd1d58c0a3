-- ===== src/Signing/RoundTrip.antt =====
-- Keys and signatures of skepticoin/signing.py, written and read back.
use skepticoin.Serialization.Stream.{pure, safe_read}
use mathlib.Core.Path.{subst}
use skepticoin.Prelude.{arith, length, refl, ℕ, ◌++◌, ◌<◌, ◌^◌, ◌≡◌}
use skepticoin.Serialization.Pack.{from_be, read_be, to_be}
use skepticoin.Serialization.PackLaws.{from_be-to_be, length-to_be}
use skepticoin.Serialization.RoundTrip.{
  Reads, Reads-bind, Reads-last, Reads-lift, Reads-safe_read, Reads-safe_read_of, RoundTrips,
}
use skepticoin.Signing.{
  PublicKey, Signature, coinbase_data, new_public_key, secp256k1, signable_equivalent,
}
use skepticoin.Signing.Wire.{
  deserialize_public_key, read_public_key, serialize_public_key, type_secp256k1,
}
use skepticoin.Prelude.{Bytes, []}
use skepticoin.Prelude.Result.{err, ok, struct_error}
use skepticoin.Serialization.ListLaws.{then_write_ok}
use skepticoin.Serialization.Pack.{pack}
use skepticoin.Serialization.PackLaws.{pack_ok}
use skepticoin.Signing.{new_coinbase_data, new_secp256k1_signature}
use skepticoin.Signing.Wire.{
  deserialize_signature, read_coinbase_data, read_signature, serialize_signature,
  type_coinbase_data, type_signable_equivalent,
}

abbrev pub PublicKeyFits : PublicKey → Type 0
PublicKeyFits pk = length pk.public_key ≡ 64

-- What `CoinbaseData` and `SECP256k1Signature` accept and `struct.pack` can write.
abbrev pub SignatureFits : Signature → Type 0
SignatureFits signable_equivalent = Unit
SignatureFits (coinbase_data height signature) = (height < 2 ^ 32) × (length signature < 256)
SignatureFits (secp256k1 b) = length b ≡ 64

pub read_be-Reads : (w n : ℕ) → n < 256 ^ w → Reads (read_be w) (to_be w n) n
unfolding read_be
read_be-Reads w n h =
    subst (λ v. Reads (read_be w) (to_be w n) v) (from_be-to_be w n h)
      (Reads-last (safe_read w) (from_be 0) (Reads-safe_read_of w (to_be w n) (length-to_be w n)))

new_public_key_ok : (pk : PublicKey) → PublicKeyFits pk → new_public_key pk.public_key ≡ ok pk
unfolding new_public_key
new_public_key_ok pk h = ground arith

new_secp256k1_signature_ok :
    (b : Bytes) → length b ≡ 64 → new_secp256k1_signature b ≡ ok (secp256k1 b)
unfolding new_secp256k1_signature
new_secp256k1_signature_ok b h = ground arith

new_coinbase_data_ok :
    (height : ℕ) (b : Bytes)
    → height < 2 ^ 32
    → length b < 256
    → new_coinbase_data height b ≡ ok (coinbase_data height b)
unfolding new_coinbase_data
new_coinbase_data_ok height b h k = ground arith

pub public_key-RoundTrips :
    (pk : PublicKey)
    → PublicKeyFits pk
    → RoundTrips (serialize_public_key pk) deserialize_public_key pk
unfolding serialize_public_key deserialize_public_key read_public_key
public_key-RoundTrips pk h = record {
  bytes = type_secp256k1 ++ pk.public_key;
  writes = refl;
  reads = Reads-bind (safe_read 1) read_public_key (Reads-safe_read type_secp256k1) (
      Reads-lift (safe_read 64) new_public_key (Reads-safe_read_of 64 pk.public_key h)
        (new_public_key_ok pk h));
}

coinbase_data-Reads :
    (height : ℕ) (b : Bytes)
    → height < 2 ^ 32
    → length b < 256
    → Reads read_coinbase_data
        (to_be 4 height ++ (to_be 1 (length b) ++ b))
        (coinbase_data height b)
unfolding read_coinbase_data
coinbase_data-Reads height b h k = Reads-bind (read_be 4) _ (read_be-Reads 4 height h) (
    Reads-bind (read_be 1) _ (read_be-Reads 1 (length b) k) (
      Reads-lift (safe_read (length b)) (new_coinbase_data height) (Reads-safe_read b)
        (new_coinbase_data_ok height b h k)))

pub signature-RoundTrips :
    (s : Signature) → SignatureFits s → RoundTrips (serialize_signature s) deserialize_signature s
unfolding serialize_signature deserialize_signature read_signature
signature-RoundTrips signable_equivalent h = record {
  bytes = type_signable_equivalent ++ [];
  writes = refl;
  reads =
      Reads-bind (safe_read 1) read_signature (Reads-safe_read type_signable_equivalent)
        (record { at = λ rest. unfold pure in refl });
}
signature-RoundTrips (coinbase_data height b) h = record {
  bytes = type_coinbase_data ++ (to_be 4 height ++ (to_be 1 (length b) ++ b));
  writes =
      then_write_ok {a = type_coinbase_data} refl
        (then_write_ok (pack_ok 4 height h.0) (then_write_ok (pack_ok 1 (length b) h.1) refl));
  reads =
      Reads-bind (safe_read 1) read_signature (Reads-safe_read type_coinbase_data)
        (coinbase_data-Reads height b h.0 h.1);
}
signature-RoundTrips (secp256k1 b) h = record {
  bytes = type_secp256k1 ++ b;
  writes = refl;
  reads = Reads-bind (safe_read 1) read_signature (Reads-safe_read type_secp256k1) (
      Reads-lift (safe_read 64) new_secp256k1_signature (Reads-safe_read_of 64 b h)
        (new_secp256k1_signature_ok b h));
}

-- `CoinbaseData` accepts 256 bytes with any height below 2 ^ 32, and to write such a value is an
-- error of `struct.pack`: the length has no byte.
pub coinbase_data_256 :
    (height : ℕ) (b : Bytes)
    → height < 2 ^ 32
    → length b ≡ 256
    → (new_coinbase_data height b ≡ ok (coinbase_data height b))
      × (serialize_signature (coinbase_data height b) ≡ err struct_error)
unfolding new_coinbase_data serialize_signature pack
coinbase_data_256 height b h e = ground arith
