-- ===== src/Datatypes/HashLaws.antt =====
-- The hashes of skepticoin/datatypes.py for objects that were read from their bytes.
use skepticoin.Datatypes.Wire.{transaction_wire}
use skepticoin.Crypto.{Crypto, sha256d}
use skepticoin.Datatypes.{Block, Transaction}
use skepticoin.Datatypes.Hash.{block_hash, block_header_hash, or_cached, transaction_hash}
use skepticoin.Datatypes.RoundTrip.{
  BlockFits, TransactionFits, block_header-RoundTrips, reload_block, reload_transaction,
  transaction-RoundTrips,
}
use skepticoin.Prelude.{Bytes, [], none, refl, some, ◌∷◌, ◌≡◌}
use skepticoin.Prelude.Result.{ok}
use skepticoin.Datatypes.Wire.{serialize_transaction}
use skepticoin.Datatypes.RoundTrip.{block-RoundTrips}
use skepticoin.Datatypes.Wire.{deserialize_block, deserialize_transaction, serialize_block}
use skepticoin.Prelude.{◌++◌}

or_cached_same : (h : Bytes) → or_cached (some h) (ok h) ≡ ok h
unfolding or_cached
or_cached_same [] = refl
or_cached_same (b ∷ bs) = refl

module _ ⦃c : Crypto⦄ where
  reload-transaction_hash :
      (t : Transaction)
      → TransactionFits t
      → t.cached_hash ≡ none
      → transaction_hash (reload_transaction t) ≡ transaction_hash t
  unfolding transaction_hash reload_transaction serialize_transaction or_cached
  reload-transaction_hash t h e =
      let r = transaction-RoundTrips t h in rw e (rw (r.writes) (or_cached_same (sha256d r.bytes)))

  reload-block_hash :
      (b : Block) → BlockFits b → b.cached_hash ≡ none → block_hash (reload_block b) ≡ block_hash b
  unfolding block_hash reload_block block_header_hash or_cached
  reload-block_hash b h e =
      let r = block_header-RoundTrips b.header h.0 in
      rw (e, r.writes) (or_cached_same (sha256d r.bytes))

  -- A transaction with no hash in its cache, whose fields have the sizes of the byte form, is written,
  -- and `deserialize` reads its bytes back, whatever follows them, as a transaction with the same hash.
  pub transaction_hash-reload :
      (t : Transaction) (rest : Bytes)
      → TransactionFits t
      → t.cached_hash ≡ none
      → (bytes : Bytes) × (t' : Transaction) × (serialize_transaction t ≡ ok bytes)
        × (deserialize_transaction (bytes ++ rest) ≡ ok (t', rest))
        × (transaction_hash t' ≡ transaction_hash t)
  transaction_hash-reload t rest h e =
      let r = transaction-RoundTrips t h in
      (r.bytes, reload_transaction t, r.writes, r.reads.at rest, reload-transaction_hash t h e)

  -- A block with no hash in its cache, whose fields have the sizes of the byte form, is written, and
  -- `deserialize` reads its bytes back, whatever follows them, as a block with the same hash.
  pub block_hash-reload :
      (b : Block) (rest : Bytes)
      → BlockFits b
      → b.cached_hash ≡ none
      → (bytes : Bytes) × (b' : Block) × (serialize_block b ≡ ok bytes)
        × (deserialize_block (bytes ++ rest) ≡ ok (b', rest))
        × (block_hash b' ≡ block_hash b)
  block_hash-reload b rest h e =
      let r = block-RoundTrips b h in
      (r.bytes, reload_block b, r.writes, r.reads.at rest, reload-block_hash b h e)
