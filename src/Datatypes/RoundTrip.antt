-- ===== src/Datatypes/RoundTrip.antt =====
-- The byte forms of skepticoin/datatypes.py, written and read back.
use skepticoin.Serialization.Stream.{◌>>=◌, pure, with_consumed, safe_read}
use skepticoin.Serialization.{Serializable}
use mathlib.Core.List.{map-id}
use skepticoin.Datatypes.Wire.{input_wire, output_wire, transaction_wire}
use skepticoin.Datatypes.{
  Block, BlockHeader, BlockSummary, Input, Output, OutputReference, PowEvidence, Transaction,
  new_output_reference,
}
use skepticoin.Datatypes.Wire.{
  deserialize_input, deserialize_output, deserialize_output_reference, serialize_input,
  serialize_optional_signature, serialize_output, serialize_output_reference,
}
use skepticoin.Prelude.{All, ap, arith, length, refl, some, ℕ, ◌++◌, ◌<◌, ◌^◌, ◌∙◌, ◌≡◌}
use skepticoin.Prelude.Int.{pos}
use skepticoin.Prelude.Result.{ok}
use skepticoin.Serialization.ListLaws.{then_write_ok}
use skepticoin.Serialization.Pack.{pack_ℤ, read_be, to_be}
use skepticoin.Serialization.PackLaws.{pack_ok}
use skepticoin.Serialization.RoundTrip.{Reads-bind, Reads-lift, Reads-safe_read_of, RoundTrips}
use skepticoin.Signing.{Signature}
use skepticoin.Signing.RoundTrip.{PublicKeyFits, SignatureFits, read_be-Reads, signature-RoundTrips}
use skepticoin.Crypto.{Crypto, sha256d}
use skepticoin.Datatypes.Wire.{
  deserialize_block, deserialize_block_header, deserialize_block_summary, deserialize_pow_evidence,
  deserialize_transaction, read_transaction, read_version, serialize_block, serialize_block_header,
  serialize_block_summary, serialize_pow_evidence, serialize_transaction,
}
use skepticoin.Prelude.{All-map, Bytes, List, [], map, ◌∷◌}
use skepticoin.Prelude.Result.{Result, err}
use skepticoin.Serialization.{stream_deserialize_list, stream_serialize_list}
use skepticoin.Serialization.ListLaws.{Reloads, list-RoundTrips}
use skepticoin.Serialization.Pack.{pack}
use skepticoin.Serialization.RoundTrip.{Reads, Reads-eq, Reads-last, Reads-with_consumed}
use skepticoin.Serialization.Vlq.{stream_deserialize_vlq}
use skepticoin.Serialization.VlqLaws.{vlq-RoundTrips}
use skepticoin.Signing.RoundTrip.{public_key-RoundTrips}
use skepticoin.Signing.Wire.{deserialize_public_key, deserialize_signature}
use skepticoin.Params.{chain_sample_total_size}

abbrev pub OutputReferenceFits : OutputReference → Type 0
OutputReferenceFits r = (length r.hash ≡ 32) × (r.index < 2 ^ 32)

abbrev pub InputFits : Input → Type 0
InputFits i =
    OutputReferenceFits i.output_reference
    × (s : Signature) × (i.signature ≡ some s)
    × SignatureFits s

abbrev pub OutputFits : Output → Type 0
OutputFits o = ((v : ℕ) × (o.value ≡ pos v) × (v < 2 ^ 64)) × PublicKeyFits o.public_key

abbrev pub TransactionFits : Transaction → Type 0
TransactionFits t = All InputFits t.inputs × All OutputFits t.outputs

pub record BlockSummaryFits (s : BlockSummary) : Type 0 where
  pub previous : length s.previous_block_hash ≡ 32
  pub merkle_root : length s.merkle_root_hash ≡ 32
  pub timestamp : s.timestamp < 2 ^ 32
  pub target : length s.target ≡ 32
  pub nonce : s.nonce < 2 ^ 32

pub record PowEvidenceFits (e : PowEvidence) : Type 0 where
  pub summary_hash : length e.summary_hash ≡ 32
  pub chain_sample : length e.chain_sample ≡ chain_sample_total_size
  pub block_hash : length e.block_hash ≡ 32

abbrev pub BlockHeaderFits : BlockHeader → Type 0
BlockHeaderFits h = BlockSummaryFits h.summary × PowEvidenceFits h.pow_evidence

abbrev pub BlockFits : Block → Type 0
BlockFits b = BlockHeaderFits b.header × All TransactionFits b.transactions

new_output_reference_ok :
    (r : OutputReference) → OutputReferenceFits r → new_output_reference r.hash r.index ≡ ok r
unfolding new_output_reference
new_output_reference_ok r h = ground arith

pub output_reference-RoundTrips :
    (r : OutputReference)
    → OutputReferenceFits r
    → RoundTrips (serialize_output_reference r) deserialize_output_reference r
unfolding serialize_output_reference deserialize_output_reference
output_reference-RoundTrips r h = record {
  bytes = r.hash ++ to_be 4 r.index;
  writes = then_write_ok {a = r.hash} refl (pack_ok 4 r.index h.1);
  reads = Reads-bind (safe_read 32) _ (Reads-safe_read_of 32 r.hash h.0) (
      Reads-lift (read_be 4) (new_output_reference r.hash) (read_be-Reads 4 r.index h.1)
        (new_output_reference_ok r h));
}

pub input-RoundTrips :
    (i : Input) → InputFits i → RoundTrips (serialize_input i) deserialize_input i
unfolding serialize_input deserialize_input serialize_optional_signature
input-RoundTrips i h =
    let r = output_reference-RoundTrips i.output_reference h.0 in
    let s = signature-RoundTrips h.1 h.3 in
    record {
      bytes = r.bytes ++ s.bytes;
      writes = then_write_ok r.writes (ap serialize_optional_signature h.2 ∙ s.writes);
      reads =
          Reads-eq
            (Reads-bind deserialize_output_reference _ r.reads (
              Reads-last deserialize_signature
                (λ t. record { output_reference = i.output_reference; signature = some t })
                s.reads))
            (ground arith);
    }

pub output-RoundTrips :
    (o : Output) → OutputFits o → RoundTrips (serialize_output o) deserialize_output o
unfolding serialize_output deserialize_output pack_ℤ
output-RoundTrips o h =
    let k = public_key-RoundTrips o.public_key h.1 in
    record {
      bytes = to_be 8 h.0.0 ++ k.bytes;
      writes = then_write_ok (ap (pack_ℤ 8) h.0.1 ∙ pack_ok 8 h.0.0 h.0.2) k.writes;
      reads =
          Reads-eq
            (Reads-bind (read_be 8) _ (read_be-Reads 8 h.0.0 h.0.2) (
              Reads-last deserialize_public_key (λ t. record { value = pos h.0.0; public_key = t })
                k.reads))
            (ground arith);
    }

list_of :
    {A : Type 0} ⦃s : Serializable A⦄ (Fits : A → Type 0)
    → ((x : A) → Fits x → RoundTrips (s.stream_serialize x) s.stream_deserialize x)
    → (xs : List A) → All Fits xs
    → RoundTrips (stream_serialize_list xs) stream_deserialize_list xs
list_of Fits f xs h =
    rw (map-id xs) at (list-RoundTrips (λ x. x) xs (All-map Fits (Reloads (λ x. x)) f xs h))

version-Reads : Reads read_version (0 ∷ []) tt
unfolding read_version
version-Reads = record { at = λ rest. unfold ◌>>=◌ safe_read pure in refl }

pack_version : pack 1 0 ≡ ok (0 ∷ [])
unfolding pack to_be
pack_version = refl

read_transaction-RoundTrips :
    (t : Transaction)
    → TransactionFits t
    → RoundTrips (serialize_transaction t) read_transaction (t.inputs, t.outputs)
unfolding serialize_transaction read_transaction
read_transaction-RoundTrips t h =
    let i = list_of InputFits input-RoundTrips t.inputs h.0 in
    let o = list_of OutputFits output-RoundTrips t.outputs h.1 in
    record {
      bytes = (0 ∷ []) ++ (i.bytes ++ o.bytes);
      writes = then_write_ok pack_version (then_write_ok i.writes o.writes);
      reads = Reads-bind read_version _ version-Reads (
          Reads-bind stream_deserialize_list _ i.reads
            (Reads-last stream_deserialize_list (λ r. (t.inputs, r)) o.reads));
    }

-- The bytes of a value that is written without an error.
abbrev pub written : Result Bytes → Bytes
written (ok b) = b
written (err e) = []

pub pow_evidence-RoundTrips :
    (e : PowEvidence)
    → PowEvidenceFits e
    → RoundTrips (serialize_pow_evidence e) deserialize_pow_evidence e
unfolding serialize_pow_evidence deserialize_pow_evidence
pow_evidence-RoundTrips e h = record {
  bytes = e.summary_hash ++ (e.chain_sample ++ e.block_hash);
  writes = refl;
  reads = Reads-bind (safe_read 32) _ (Reads-safe_read_of 32 e.summary_hash h.summary_hash) (
      Reads-bind (safe_read chain_sample_total_size) _
        (Reads-safe_read_of 32 e.chain_sample h.chain_sample)
        (Reads-last (safe_read 32) _ (Reads-safe_read_of 32 e.block_hash h.block_hash)));
}

pub block_summary-RoundTrips :
    (s : BlockSummary)
    → BlockSummaryFits s
    → RoundTrips (serialize_block_summary s) deserialize_block_summary s
unfolding serialize_block_summary deserialize_block_summary
block_summary-RoundTrips s h =
    let v = vlq-RoundTrips s.height in
    record {
      bytes =
          v.bytes
          ++ (s.previous_block_hash
              ++ (s.merkle_root_hash ++ (to_be 4 s.timestamp ++ (s.target ++ to_be 4 s.nonce))));
      writes =
          then_write_ok v.writes
            (rw (pack_ok 4 s.timestamp h.timestamp, pack_ok 4 s.nonce h.nonce) refl);
      reads = Reads-bind stream_deserialize_vlq _ v.reads (
          Reads-bind (safe_read 32) _ (Reads-safe_read_of 32 s.previous_block_hash h.previous) (
            Reads-bind (safe_read 32) _ (Reads-safe_read_of 32 s.merkle_root_hash h.merkle_root) (
              Reads-bind (read_be 4) _ (read_be-Reads 4 s.timestamp h.timestamp) (
                Reads-bind (safe_read 32) _ (Reads-safe_read_of 32 s.target h.target)
                  (Reads-last (read_be 4) _ (read_be-Reads 4 s.nonce h.nonce))))));
    }

pub block_header-RoundTrips :
    (b : BlockHeader)
    → BlockHeaderFits b
    → RoundTrips (serialize_block_header b) deserialize_block_header b
unfolding serialize_block_header deserialize_block_header
block_header-RoundTrips b h =
    let s = block_summary-RoundTrips b.summary h.0 in
    let e = pow_evidence-RoundTrips b.pow_evidence h.1 in
    record {
      bytes = (0 ∷ []) ++ (s.bytes ++ e.bytes);
      writes = then_write_ok pack_version (then_write_ok s.writes e.writes);
      reads = Reads-bind read_version _ version-Reads (
          Reads-bind deserialize_block_summary _ s.reads
            (Reads-last deserialize_pow_evidence _ e.reads));
    }

module _ ⦃c : Crypto⦄ where
  -- What is read back carries the hash of the bytes, whatever the cache held before.
  unfoldable pub reload_transaction : Transaction → Transaction
  reload_transaction t = record t {
    cached_hash = some (sha256d (written (serialize_transaction t)));
  }

  unfoldable pub reload_block : Block → Block
  reload_block b = record b {
    transactions = map reload_transaction b.transactions;
    cached_hash = some (sha256d (written (serialize_block_header b.header)));
  }

  pub transaction-RoundTrips :
      (t : Transaction)
      → TransactionFits t
      → RoundTrips (serialize_transaction t) deserialize_transaction (reload_transaction t)
  unfolding deserialize_transaction reload_transaction
  transaction-RoundTrips t h =
      let r = read_transaction-RoundTrips t h in
      record {
        bytes = r.bytes;
        writes = r.writes;
        reads =
            Reads-eq
              (Reads-last (with_consumed read_transaction) _
                (Reads-with_consumed read_transaction r.reads))
              (rw r.writes refl);
      }

  -- A block whose fields have the sizes of the byte form is written without an error, and its bytes,
  -- followed by anything, are read back as that block with the hashes of the bytes in its caches,
  -- and what follows is left.
  pub block-RoundTrips :
      (b : Block) → BlockFits b → RoundTrips (serialize_block b) deserialize_block (reload_block b)
  unfolding serialize_block deserialize_block reload_block
  block-RoundTrips b h =
      let r = block_header-RoundTrips b.header h.0 in
      let t = list-RoundTrips reload_transaction b.transactions (
        All-map TransactionFits (Reloads reload_transaction) transaction-RoundTrips b.transactions
          h.1) in
      record {
        bytes = r.bytes ++ t.bytes;
        writes = then_write_ok r.writes t.writes;
        reads =
            Reads-eq
              (Reads-bind (with_consumed deserialize_block_header) _
                (Reads-with_consumed deserialize_block_header r.reads)
                (Reads-last stream_deserialize_list _ t.reads))
              (rw r.writes refl);
      }
