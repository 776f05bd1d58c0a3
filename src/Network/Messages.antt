-- ===== src/Network/Messages.antt =====
-- skepticoin/networking/messages.py: the classes of messages. The field `version`, which the
-- constructors set to 0, is left out. An `IPv6Address` is its 16 bytes, `packed`.
pub mod Wire
pub mod Fits
pub mod RoundTrip
use skepticoin.Datatypes.{Block, BlockHeader, Transaction}
use skepticoin.Prelude.{Bool, Bytes, List, [], false, replicate, ℕ, ◌∷◌}

pub record MessageHeader : Type 0 where
  pub timestamp : ℕ
  pub id : ℕ
  pub in_response_to : ℕ
  pub context : ℕ

pub record SupportedVersion : Type 0 where
  pub version : ℕ

pub record HelloMessage : Type 0 where
  pub supported_versions : List SupportedVersion
  pub your_ip_address : Bytes
  pub your_port : ℕ
  pub my_ip_address : Bytes
  pub my_port : ℕ
  pub nonce : ℕ
  pub user_agent : Bytes

pub record GetBlocksMessage : Type 0 where
  pub potential_start_hashes : List Bytes
  pub stop_hash : Bytes

pub record InventoryItem : Type 0 where
  pub data_type : Bytes
  pub hash : Bytes
  pub block_requested : Bool

-- `InventoryItem.__init__`
abbrev pub new_inventory_item : Bytes → Bytes → InventoryItem
new_inventory_item data_type hash = record {
  data_type = data_type;
  hash = hash;
  block_requested = false;
}

pub record GetDataMessage : Type 0 where
  pub data_type : Bytes
  pub hash : Bytes

-- The values of the classes in DATATYPES.
pub data Body : Type 0 where
  block_body : Block → Body
  header_body : BlockHeader → Body
  transaction_body : Transaction → Body

pub record DataMessage : Type 0 where
  pub data_type : Bytes
  pub body : Body

pub record Peer : Type 0 where
  pub last_seen_at : ℕ
  pub ip_address : Bytes
  pub port : ℕ

-- `class Message` and its subclasses.
pub data Message : Type 0 where
  hello : HelloMessage → Message
  get_blocks : GetBlocksMessage → Message
  inventory : List InventoryItem → Message
  get_data : GetDataMessage → Message
  data_message : DataMessage → Message
  get_peers : Message
  peers : List Peer → Message

abbrev pub msg_hello : Bytes
msg_hello = 0 ∷ 0 ∷ []

abbrev pub msg_get_blocks : Bytes
msg_get_blocks = 0 ∷ 1 ∷ []

abbrev pub msg_inventory : Bytes
msg_inventory = 0 ∷ 2 ∷ []

abbrev pub msg_get_data : Bytes
msg_get_data = 0 ∷ 3 ∷ []

abbrev pub msg_data : Bytes
msg_data = 0 ∷ 4 ∷ []

abbrev pub msg_get_peers : Bytes
msg_get_peers = 0 ∷ 5 ∷ []

abbrev pub msg_peers : Bytes
msg_peers = 0 ∷ 6 ∷ []

abbrev pub data_block : Bytes
data_block = 0 ∷ 0 ∷ []

abbrev pub data_header : Bytes
data_header = 0 ∷ 1 ∷ []

abbrev pub data_transaction : Bytes
data_transaction = 0 ∷ 2 ∷ []

-- `stop_hash=b"\x00" * 32`
abbrev pub new_get_blocks : List Bytes → Message
new_get_blocks hashes =
    get_blocks (record { potential_start_hashes = hashes; stop_hash = replicate 32 0 })
