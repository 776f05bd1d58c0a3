-- ===== src/Datatypes/Wire.antt =====
-- The byte form of each class of skepticoin/datatypes.py.
use skepticoin.Serialization.Stream.{
  ◌>>=◌, ◌>>◌, Reader, pure, raise, lift, with_consumed, safe_read,
}
use skepticoin.Serialization.{Serializable}
use skepticoin.Crypto.{Crypto, sha256d}
use skepticoin.Datatypes.{
  Block, BlockHeader, BlockSummary, Input, Output, OutputReference, PowEvidence, Transaction,
  new_output_reference,
}
use skepticoin.Prelude.{Bytes, List, Option, [], if◌then◌else◌, none, some, ◌∷◌}
use skepticoin.Prelude.Eq.{list_eq, nat_eq, ◌≟◌}
use skepticoin.Prelude.Int.{pos}
use skepticoin.Prelude.Result.{Result, assertion_error, err, ok, value_error, ◌then_write◌}
use skepticoin.Serialization.{stream_deserialize_list, stream_serialize_list}
use skepticoin.Serialization.Pack.{pack, pack_ℤ, read_be}
use skepticoin.Serialization.Vlq.{stream_deserialize_vlq, stream_serialize_vlq}
use skepticoin.Signing.{Signature}
use skepticoin.Signing.Wire.{
  deserialize_public_key, deserialize_signature, serialize_public_key, serialize_signature,
}
use skepticoin.Params.{chain_sample_total_size}

unfoldable pub serialize_output_reference : OutputReference → Result Bytes
serialize_output_reference r = ok r.hash then_write pack 4 r.index

unfoldable pub deserialize_output_reference : Reader OutputReference
deserialize_output_reference = do
  hash ← safe_read 32
  index ← read_be 4
  lift (new_output_reference hash index)

-- `assert self.signature`
unfoldable pub serialize_optional_signature : Option Signature → Result Bytes
serialize_optional_signature none = err assertion_error
serialize_optional_signature (some s) = serialize_signature s

unfoldable pub serialize_input : Input → Result Bytes
serialize_input i =
    serialize_output_reference i.output_reference
    then_write serialize_optional_signature i.signature

unfoldable pub deserialize_input : Reader Input
deserialize_input = do
  r ← deserialize_output_reference
  s ← deserialize_signature
  pure (record { output_reference = r; signature = some s })

unfoldable pub serialize_output : Output → Result Bytes
serialize_output o = pack_ℤ 8 o.value then_write serialize_public_key o.public_key

unfoldable pub deserialize_output : Reader Output
deserialize_output = do
  v ← read_be 8
  k ← deserialize_public_key
  pure (record { value = pos v; public_key = k })

instance abbrev pub output_reference_wire : Serializable OutputReference
output_reference_wire = record {
  stream_serialize = serialize_output_reference;
  stream_deserialize = deserialize_output_reference;
}

instance abbrev pub input_wire : Serializable Input
input_wire = record { stream_serialize = serialize_input; stream_deserialize = deserialize_input }

instance abbrev pub output_wire : Serializable Output
output_wire = record {
  stream_serialize = serialize_output;
  stream_deserialize = deserialize_output;
}

-- The version byte; another one is a ValueError.
unfoldable pub read_version : Reader (Unit {0})
read_version = do v ← safe_read 1; if v ≟ (0 ∷ []) then pure tt else raise value_error

unfoldable pub serialize_transaction : Transaction → Result Bytes
serialize_transaction t =
    pack 1 0 then_write stream_serialize_list t.inputs then_write stream_serialize_list t.outputs

unfoldable pub read_transaction : Reader (List Input × List Output)
read_transaction = do
  read_version
  inputs ← stream_deserialize_list
  outputs ← stream_deserialize_list
  pure (inputs, outputs)

unfoldable pub serialize_pow_evidence : PowEvidence → Result Bytes
serialize_pow_evidence e = ok e.summary_hash then_write ok e.chain_sample then_write ok e.block_hash

unfoldable pub deserialize_pow_evidence : Reader PowEvidence
deserialize_pow_evidence = do
  s ← safe_read 32
  c ← safe_read chain_sample_total_size
  b ← safe_read 32
  pure (record { summary_hash = s; chain_sample = c; block_hash = b })

unfoldable pub serialize_block_summary : BlockSummary → Result Bytes
serialize_block_summary s =
    stream_serialize_vlq s.height
    then_write ok s.previous_block_hash
    then_write ok s.merkle_root_hash
    then_write pack 4 s.timestamp
    then_write ok s.target
    then_write pack 4 s.nonce

unfoldable pub deserialize_block_summary : Reader BlockSummary
deserialize_block_summary = do
  height ← stream_deserialize_vlq
  previous ← safe_read 32
  merkle_root ← safe_read 32
  timestamp ← read_be 4
  target ← safe_read 32
  nonce ← read_be 4
  pure (record {
    height = height;
    previous_block_hash = previous;
    merkle_root_hash = merkle_root;
    timestamp = timestamp;
    target = target;
    nonce = nonce;
  })

unfoldable pub serialize_block_header : BlockHeader → Result Bytes
serialize_block_header h =
    pack 1 0
    then_write serialize_block_summary h.summary
    then_write serialize_pow_evidence h.pow_evidence

unfoldable pub deserialize_block_header : Reader BlockHeader
deserialize_block_header = do
  read_version
  s ← deserialize_block_summary
  e ← deserialize_pow_evidence
  pure (record { summary = s; pow_evidence = e })

module _ ⦃c : Crypto⦄ where
  -- The hash is computed from the bytes that were read.
  unfoldable pub deserialize_transaction : Reader Transaction
  deserialize_transaction = do
    r ← with_consumed read_transaction
    pure (record { inputs = r.0.0; outputs = r.0.1; cached_hash = some (sha256d r.1) })

  instance abbrev pub transaction_wire : Serializable Transaction
  transaction_wire = record {
    stream_serialize = serialize_transaction;
    stream_deserialize = deserialize_transaction;
  }

  unfoldable pub serialize_block : Block → Result Bytes
  serialize_block b =
      serialize_block_header b.header then_write stream_serialize_list b.transactions

  unfoldable pub deserialize_block : Reader Block
  deserialize_block = do
    h ← with_consumed deserialize_block_header
    transactions ← stream_deserialize_list
    pure (record { header = h.0; transactions = transactions; cached_hash = some (sha256d h.1) })
