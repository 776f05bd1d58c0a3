-- ===== src/Datatypes.antt =====
-- skepticoin/datatypes.py: references, transactions, block summaries, headers and blocks.
pub mod Wire
pub mod Hash
pub mod RoundTrip
pub mod HashLaws
use skepticoin.Signing.{Signature, PublicKey, public_key_eq, signature_eq}
use skepticoin.Prelude.{
  Bool, Bytes, List, Option, [], arith, false, if◌then◌else◌, leb, length, map, none, not,
  replicate, some, true, ℕ, ◌&&◌, ◌==◌, ◌↔◌, ◌∷◌, ◌≡◌,
}
use skepticoin.Prelude.Eq.{Eq, list_eq, nat_eq, ≟_iff, ◌≟◌}
use skepticoin.Prelude.Int.{int_beq, ℤ}
use skepticoin.Prelude.Result.{Result, err, ok, value_error}
use skepticoin.Prelude.Int.{pos, ◌+ℤ◌}

pub record OutputReference : Type 0 where
  pub hash : Bytes
  pub index : ℕ

pub record Input : Type 0 where
  pub output_reference : OutputReference
  pub signature : Option Signature

-- A value is any Python int: the code computes some by subtraction.
pub record Output : Type 0 where
  pub value : ℤ
  pub public_key : PublicKey

-- `version` is always 0.
pub record Transaction : Type 0 where
  pub inputs : List Input
  pub outputs : List Output
  pub cached_hash : Option Bytes

pub record PowEvidence : Type 0 where
  pub summary_hash : Bytes
  pub chain_sample : Bytes
  pub block_hash : Bytes

pub record BlockSummary : Type 0 where
  pub height : ℕ
  pub previous_block_hash : Bytes
  pub merkle_root_hash : Bytes
  pub timestamp : ℕ
  pub target : Bytes
  pub nonce : ℕ

pub record BlockHeader : Type 0 where
  pub summary : BlockSummary
  pub pow_evidence : PowEvidence

-- `__getattr__` makes the fields of the header and of its summary fields of the block.
pub record Block : Type 0 where
  pub header : BlockHeader
  pub open header use {
    summary,
    pow_evidence,
    summary.{height, previous_block_hash, merkle_root_hash, timestamp, target, nonce},
  }
  pub transactions : List Transaction
  pub cached_hash : Option Bytes

-- `OutputReference.__init__`
unfoldable pub new_output_reference : Bytes → ℕ → Result OutputReference
new_output_reference hash index =
    if not (length hash == 32)
    then err value_error
    else if not (leb index 0xffffffff)
    then err value_error
    else ok (record { hash = hash; index = index })

-- `b'\x00' * 32`
abbrev pub thin_air_hash : Bytes
thin_air_hash = replicate 32 0

unfoldable pub references_thin_air : OutputReference → Bool
references_thin_air r = (r.hash ≟ thin_air_hash) && (r.index == 0)

-- `OutputReference.__eq__`
unfoldable pub output_reference_beq : OutputReference → OutputReference → Bool
output_reference_beq a b = (a.hash ≟ b.hash) && (a.index == b.index)

pub output_reference_beq_iff : (a b : OutputReference) → (output_reference_beq a b ≡ true) ↔ (a ≡ b)
unfolding output_reference_beq
output_reference_beq_iff a b = ground (arith, ≟_iff a.hash b.hash)

instance abbrev pub output_reference_eq : Eq OutputReference
output_reference_eq = record { test = output_reference_beq; exact = output_reference_beq_iff }

-- The `__eq__` methods that are used: they need not decide equality of all fields.
unfoldable pub output_eq : Output → Output → Bool
output_eq a b = int_beq a.value b.value && (a.public_key ≟ b.public_key)

unfoldable pub optional_signature_eq : Option Signature → Option Signature → Bool
optional_signature_eq none none = true
optional_signature_eq (some s) (some t) = signature_eq s t
optional_signature_eq _ _ = false

unfoldable pub input_eq : Input → Input → Bool
input_eq a b =
    (a.output_reference ≟ b.output_reference) && optional_signature_eq a.signature b.signature

-- Python's `==` of two lists.
unfoldable pub all_eq : {A : Type 0} → (A → A → Bool) → List A → List A → Bool
all_eq eq [] [] = true
all_eq eq (x ∷ xs) (y ∷ ys) = eq x y && all_eq eq xs ys
all_eq eq _ _ = false

unfoldable pub transaction_eq : Transaction → Transaction → Bool
transaction_eq a b = all_eq input_eq a.inputs b.inputs && all_eq output_eq a.outputs b.outputs

unfoldable pub pow_evidence_eq : PowEvidence → PowEvidence → Bool
pow_evidence_eq a b =
    (a.summary_hash ≟ b.summary_hash)
    && (a.chain_sample ≟ b.chain_sample)
    && (a.block_hash ≟ b.block_hash)

-- The height is not compared.
unfoldable pub block_summary_eq : BlockSummary → BlockSummary → Bool
block_summary_eq a b =
    (a.previous_block_hash ≟ b.previous_block_hash)
    && (a.merkle_root_hash ≟ b.merkle_root_hash)
    && (a.timestamp == b.timestamp)
    && (a.target ≟ b.target)
    && (a.nonce == b.nonce)

unfoldable pub block_header_eq : BlockHeader → BlockHeader → Bool
block_header_eq a b =
    block_summary_eq a.summary b.summary && pow_evidence_eq a.pow_evidence b.pow_evidence

unfoldable pub block_eq : Block → Block → Bool
block_eq a b =
    block_header_eq a.header b.header && all_eq transaction_eq a.transactions b.transactions

unfoldable pub input_signable_equivalent : Input → Input
input_signable_equivalent i = record i { signature = some Signature.signable_equivalent }

-- A new `Transaction`, with no hash in its cache.
unfoldable pub transaction_signable_equivalent : Transaction → Transaction
transaction_signable_equivalent t = record {
  inputs = map input_signable_equivalent t.inputs;
  outputs = t.outputs;
  cached_hash = none;
}

-- `Block.get_total_work`
unfoldable pub get_total_work : Block → ℕ
get_total_work b = b.height

-- `sum(output.value for output in outputs)`
abbrev pub sum_outputs : List Output → ℤ
sum_outputs [] = pos 0
sum_outputs (o ∷ os) = o.value +ℤ sum_outputs os
