-- ===== src/Crypto.antt =====
-- skepticoin/hash.py over the hashing, key and set functions of Python's and third-party libraries,
-- which are not part of the program: hashlib, scrypt, ecdsa and the built-in `hash` are fields.
use skepticoin.Prelude.{Bytes, Option, ℕ, ◌^◌}

-- The answer of `VerifyingKey.from_string(key).verify(signature, message)`: True, BadSignatureError,
-- or an exception that the program does not catch (such as a key that is no point of the curve).
pub data Verdict : Type 0 where
  verified bad_signature malformed : Verdict

pub record Crypto : Type 0 where
  -- `hashlib.sha256(b).digest()`, `hashlib.blake2b(b, digest_size=n).digest()`
  pub sha256 : Bytes → Bytes
  pub blake2b : Bytes → ℕ → Bytes
  -- `scrypt.hash(password, salt, N, r, p, buflen)`
  pub scrypt_hash : Bytes → Bytes → ℕ → ℕ → ℕ → ℕ → Bytes
  -- key, signature, message
  pub verify : Bytes → Bytes → Bytes → Verdict
  -- `SigningKey.from_string(private_key).sign(message)`; `none` for a string that is no key
  pub sign : Bytes → Bytes → Option Bytes
  -- Python's `hash` of a byte string, by which sets and dicts find their buckets
  pub py_hash : Bytes → ℕ

module _ ⦃c : Crypto⦄ where
  unfoldable pub sha256d : Bytes → Bytes
  sha256d b = c.sha256 (c.sha256 b)

  unfoldable pub scrypt : Bytes → Bytes → Bytes
  scrypt password salt = c.scrypt_hash password salt (2 ^ 15) 8 1 32

  unfoldable pub blake2 : Bytes → Bytes
  blake2 b = c.blake2b b 32
