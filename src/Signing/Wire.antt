-- ===== src/Signing/Wire.antt =====
-- The byte form of public keys and signatures (skepticoin/signing.py): a type byte, then the
-- fields of the class that it names.
use skepticoin.Serialization.Stream.{◌>>=◌, Reader, pure, raise, lift, safe_read}
use skepticoin.Serialization.{Serializable}
use skepticoin.Prelude.{Bytes, [], if◌then◌else◌, length, ◌∷◌}
use skepticoin.Prelude.Eq.{◌≟◌}
use skepticoin.Prelude.Result.{Result, deserialization, ok, ◌then_write◌}
use skepticoin.Serialization.Pack.{pack, read_be}
use skepticoin.Signing.{
  PublicKey, Signature, coinbase_data, new_coinbase_data, new_public_key, new_secp256k1_signature,
  secp256k1, signable_equivalent,
}
use skepticoin.Prelude.Eq.{list_eq, nat_eq}

abbrev pub type_signable_equivalent : Bytes
type_signable_equivalent = 0 ∷ []

abbrev pub type_coinbase_data : Bytes
type_coinbase_data = 1 ∷ []

abbrev pub type_secp256k1 : Bytes
type_secp256k1 = 2 ∷ []

unfoldable pub serialize_public_key : PublicKey → Result Bytes
serialize_public_key pk = ok type_secp256k1 then_write ok pk.public_key

unfoldable pub read_public_key : Bytes → Reader PublicKey
read_public_key indicator =
    if indicator ≟ type_secp256k1
    then (do b ← safe_read 64; lift (new_public_key b))
    else raise deserialization

unfoldable pub deserialize_public_key : Reader PublicKey
deserialize_public_key = do t ← safe_read 1; read_public_key t

unfoldable pub serialize_signature : Signature → Result Bytes
serialize_signature signable_equivalent = ok type_signable_equivalent
serialize_signature (coinbase_data height signature) =
    ok type_coinbase_data
    then_write pack 4 height
    then_write pack 1 (length signature)
    then_write ok signature
serialize_signature (secp256k1 b) = ok type_secp256k1 then_write ok b

-- `CoinbaseData.stream_deserialize`
unfoldable pub read_coinbase_data : Reader Signature
read_coinbase_data = do
  height ← read_be 4
  n ← read_be 1
  signature ← safe_read n
  lift (new_coinbase_data height signature)

unfoldable pub read_signature : Bytes → Reader Signature
read_signature indicator =
    if indicator ≟ type_signable_equivalent
    then pure signable_equivalent
    else if indicator ≟ type_coinbase_data
    then read_coinbase_data
    else if indicator ≟ type_secp256k1
    then (do b ← safe_read 64; lift (new_secp256k1_signature b))
    else raise deserialization

unfoldable pub deserialize_signature : Reader Signature
deserialize_signature = do t ← safe_read 1; read_signature t

instance abbrev pub public_key_wire : Serializable PublicKey
public_key_wire = record {
  stream_serialize = serialize_public_key;
  stream_deserialize = deserialize_public_key;
}

instance abbrev pub signature_wire : Serializable Signature
signature_wire = record {
  stream_serialize = serialize_signature;
  stream_deserialize = deserialize_signature;
}
