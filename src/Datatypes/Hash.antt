-- ===== src/Datatypes/Hash.antt =====
-- The hashes of transactions, summaries, headers and blocks (skepticoin/datatypes.py). An object
-- that was read from bytes carries its hash; any other is serialized and hashed.
use skepticoin.Crypto.{Crypto, sha256d}
use skepticoin.Datatypes.{Block, BlockHeader, BlockSummary, Transaction}
use skepticoin.Datatypes.Wire.{
  serialize_block_header, serialize_block_summary, serialize_transaction,
}
use skepticoin.Prelude.{Bytes, Option, [], none, some, ◌∷◌}
use skepticoin.Prelude.Result.{Result, ok, ◌>>=◌}

-- `self.cached_hash or ...`: an empty byte string counts as absent.
unfoldable pub or_cached : Option Bytes → Result Bytes → Result Bytes
or_cached none m = m
or_cached (some []) m = m
or_cached (some (b ∷ bs)) m = ok (b ∷ bs)

module _ ⦃c : Crypto⦄ where
  unfoldable pub transaction_hash : Transaction → Result Bytes
  transaction_hash t = or_cached t.cached_hash (do b ← serialize_transaction t; ok (sha256d b))

  unfoldable pub block_summary_hash : BlockSummary → Result Bytes
  block_summary_hash s = do b ← serialize_block_summary s; ok (sha256d b)

  unfoldable pub block_header_hash : BlockHeader → Result Bytes
  block_header_hash h = do b ← serialize_block_header h; ok (sha256d b)

  unfoldable pub block_hash : Block → Result Bytes
  block_hash b = or_cached b.cached_hash (block_header_hash b.header)
