-- ===== src/Signing.antt =====
-- skepticoin/signing.py: public keys and signatures, as they stand in outputs and inputs.
pub mod Wire
pub mod RoundTrip
use skepticoin.Crypto
use skepticoin.Crypto.{Crypto, bad_signature, malformed, verified}
use skepticoin.Prelude.{
  Bool, Bytes, arith, false, if◌then◌else◌, leb, length, ltb, not, true, ℕ, ◌==◌, ◌↔◌, ◌≡◌,
}
use skepticoin.Prelude.Eq.{Eq, ≟_iff, ◌≟◌}
use skepticoin.Prelude.Result.{Result, err, not_implemented, ok, signing_error, value_error}
use skepticoin.Prelude.Eq.{list_eq, nat_eq}

-- `class PublicKey` with its one subclass in use, `SECP256k1PublicKey`.
pub record PublicKey : Type 0 where
  pub public_key : Bytes

-- `SECP256k1PublicKey.__init__`
unfoldable pub new_public_key : Bytes → Result PublicKey
new_public_key b = if not (length b == 64) then err value_error else ok (record { public_key = b })

-- `class Signature` and its subclasses.
pub data Signature : Type 0 where
  signable_equivalent : Signature
  coinbase_data : ℕ → Bytes → Signature
  secp256k1 : Bytes → Signature

-- `CoinbaseData.__init__`; a height is never negative here.
unfoldable pub new_coinbase_data : ℕ → Bytes → Result Signature
new_coinbase_data height signature =
    if not (leb height 0xffffffff)
    then err value_error
    else if ltb 256 (length signature)
    then err value_error
    else ok (coinbase_data height signature)

-- `SECP256k1Signature.__init__`
unfoldable pub new_secp256k1_signature : Bytes → Result Signature
new_secp256k1_signature b = if not (length b == 64) then err value_error else ok (secp256k1 b)

unfoldable pub is_not_signature : Signature → Bool
is_not_signature (secp256k1 b) = false
is_not_signature _ = true

-- `__eq__` of each subclass. That of `CoinbaseData` leaves the height out.
unfoldable pub signature_eq : Signature → Signature → Bool
signature_eq signable_equivalent signable_equivalent = true
signature_eq (coinbase_data h s) (coinbase_data h' s') = s ≟ s'
signature_eq (secp256k1 s) (secp256k1 s') = s ≟ s'
signature_eq _ _ = false

unfoldable pub public_key_beq : PublicKey → PublicKey → Bool
public_key_beq a b = a.public_key ≟ b.public_key

pub public_key_beq_iff : (a b : PublicKey) → (public_key_beq a b ≡ true) ↔ (a ≡ b)
unfolding public_key_beq
public_key_beq_iff a b = ground (arith, ≟_iff a.public_key b.public_key)

-- `SECP256k1PublicKey.__eq__`
instance abbrev pub public_key_eq : Eq PublicKey
public_key_eq = record { test = public_key_beq; exact = public_key_beq_iff }

module _ ⦃c : Crypto⦄ where
  -- `SECP256k1PublicKey.validate`, on a signature of that class
  unfoldable pub validate_public_key : PublicKey → Signature → Bytes → Result Bool
  validate_public_key pk (secp256k1 s) message = elim (c.verify pk.public_key s message) [
    | verified ↦ ok true
    | bad_signature ↦ ok false
    | malformed ↦ err signing_error
  ]
  validate_public_key pk _ message = ok false

  -- `Signature.validate` and `SECP256k1Signature.validate`
  unfoldable pub validate_signature : Signature → PublicKey → Bytes → Result Bool
  validate_signature (secp256k1 s) pk message = validate_public_key pk (secp256k1 s) message
  validate_signature _ pk message = err not_implemented
