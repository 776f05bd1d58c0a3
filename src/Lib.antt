-- ===== src/Lib.antt =====
-- Verification of Skepticoin: the data that the nodes exchange and store, the state of the chain, and
-- the consensus rules by which a node accepts a block, and the network by which nodes exchange them.
--
-- The program. A node keeps a `CoinState` (skepticoin/coinstate.py): all blocks it knows, as a tree,
-- the unspent outputs at each of them, the blocks by height at each of them, the blocks without
-- children, and the head of the current chain. `CoinState.add_block` validates a block by itself and
-- in the state (skepticoin/consensus.py) and makes the next state. Blocks, transactions, inputs and
-- outputs (skepticoin/datatypes.py) hold public keys and signatures (skepticoin/signing.py), and have a
-- byte form (skepticoin/serialization.py), whose hash (skepticoin/hash.py) names them; a block holds the
-- Merkle root (skepticoin/merkletree.py) of its transactions and the evidence of its work, which has
-- samples of older blocks (skepticoin/pow.py). In skepticoin/networking/ a `LocalPeer` hands the events
-- of its sockets to its `ConnectedRemotePeer`s, which take messages out of the bytes, answer them, and
-- tell the `NetworkManager` of peers and the `ChainManager` of blocks and transactions.
--
-- Prelude: lists and tests on the native numbers, signed integers, `Result` for code that may raise,
--   with the class of the exception, and maps as association lists.
-- Crypto: skepticoin/hash.py. The libraries hashlib, scrypt and ecdsa, and Python's `hash`, are the
--   fields of the record `Crypto`, an instance argument; no theorem assumes anything of them.
-- Serialization: skepticoin/serialization.py. A stream that is read is the bytes that are left; one
--   that is written is the bytes written. Child modules: the reader monad (Stream), `struct` (Pack) and
--   variable-length quantities (Vlq).
-- Signing, Datatypes: skepticoin/signing.py and skepticoin/datatypes.py, the classes as records and sum
--   types, a constructor's checks as `new_...`, the methods as functions; the byte forms are in the Wire
--   modules and the hashes, with the hash that an object keeps, in Datatypes/Hash.
-- Merkle, Params, Humans, Cheating: skepticoin/merkletree.py, params.py, humans.py and cheating.py, the
--   last with the whole table of checkpoints.
-- Balances: skepticoin/balances.py; `PublicKeyBalances`, with its cache, is in Balances/Chain.
-- Pow: skepticoin/pow.py.
-- CoinState: skepticoin/coinstate.py, the state as a record and `add_block_no_validation` in its steps;
--   `add_block` calls the validation and so is in Consensus/Validate. `zero`, whose argument is the bytes of
--   skepticoin/genesis.py, and `forks` are in CoinState/Forks.
-- Consensus: skepticoin/consensus.py, the construction of blocks in Consensus, the validation in
--   Consensus/Validate.
-- Wallet: the addresses of skepticoin/wallet.py; Wallet/Spend has the choice of the outputs to spend
--   and the signing, which return the wallet as they leave it; Wallet/Keys has the making of keys, of
--   pairs that are given, their annotation and the balance; Wallet/Restore and Wallet/Own are on the keys.
-- Mining: the `MinerWatcher` of skepticoin/mining.py, what it does on the messages of its miners; its
--   state holds the node whose managers it calls. Mining/Found is on the blocks that it finds.
-- Network: skepticoin/networking/. Messages (with their byte form in Wire) is messages.py, Params
--   is params.py, Receiver is the `MessageReceiver` of remote_peer.py over any handling of
--   messages, which may raise (with the node's own handlers it is `receive_from` of Node). Os is
--   what the code calls of Python and the operating system: the selector, sockets, the clock,
--   random numbers and the texts of addresses are the fields of a record, an instance argument, of
--   which theorems assume only what their hypotheses say; an answer that may differ from call to
--   call is a function of the number of calls so far. State has the objects, and `Node`, which is a
--   `LocalPeer` with its managers; a connected peer lives in a store under the number of its
--   socket, since several places refer to it. Method is a call on a node, which returns or raises
--   and leaves the node as it was written until then. Pool is the `ChainManager` of manager.py,
--   Manager the `NetworkManager` with the connections of local_peer.py. The handlers of
--   remote_peer.py are in Sending, Inventory (with Exchange), Blocks and Peers, and Node puts them
--   together: the events, the steps of the managers, and the run of them. Keeps and Sane carry
--   invariants through all methods.
-- Tests: a toy instance of `Crypto`, a toy operating system, a block with a payment which `add_block`
--   accepts, and the theorems at these inputs.
--
-- Bounds and fuel. Integers are unbounded, as in Python; `struct.pack` and `to_bytes` raise on what
-- does not fit. The recursion over a Merkle level has as much fuel as there are hashes, since each level
-- but the last is shorter than the one below it; a slice has as many rounds as bytes, since each
-- round adds one at least; the walk back along a chain has as much fuel as there are blocks. The VLQ
-- reader reads at most as many groups as there are bytes. The receiver of messages has as many rounds
-- as there are bytes, and nine: each round but the last takes at least the magic and a length, four
-- bytes each, or what is left of them.
--
-- Not modelled: the files of the wallet, the block store (skepticoin/blockstore.py) and what the
-- disk interface writes, whose calls are recorded, threads and locks, the processes and queues of the
-- miners with the start-up and the statistics of skepticoin/mining.py, the explorer and the scripts, and
-- `dump` of the coin state. The
-- messages of exceptions, the log, the statistics and `__repr__` are left out. A value of another class
-- than the annotations say does not arise.
pub mod Prelude
pub mod Crypto
pub mod Serialization
pub mod Signing
pub mod Datatypes
pub mod Merkle
pub mod Params
pub mod Humans
pub mod Cheating
pub mod Balances
pub mod Pow
pub mod CoinState
pub mod Consensus
pub mod Wallet
pub mod Network
pub mod Mining
mod Tests
