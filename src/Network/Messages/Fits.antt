-- ===== src/Network/Messages/Fits.antt =====
-- The messages of skepticoin/networking/messages.py whose fields have the sizes of the byte form, and
-- what is read back in their place.
use skepticoin.Crypto.{Crypto}
use skepticoin.Network.Messages.{
  MessageHeader, SupportedVersion, HelloMessage, GetBlocksMessage, InventoryItem, GetDataMessage,
  Peer, Message,
}
use skepticoin.Prelude.{◌<◌, ◌≡◌}
use skepticoin.Datatypes.RoundTrip.{
  BlockFits, BlockHeaderFits, TransactionFits, reload_block, reload_transaction,
}
use skepticoin.Network.Messages.{
  Body, block_body, data_block, data_header, data_message, data_transaction, get_blocks, get_data,
  get_peers, header_body, hello, inventory, new_inventory_item, peers, transaction_body,
}
use skepticoin.Prelude.{All, Bytes, length, map, ◌^◌}

abbrev pub MessageHeaderFits : MessageHeader → Type 0
MessageHeaderFits h =
    (h.timestamp < 2 ^ 32) × (h.id < 2 ^ 32) × (h.in_response_to < 2 ^ 32) × (h.context < 2 ^ 64)

abbrev pub SupportedVersionFits : SupportedVersion → Type 0
SupportedVersionFits v = v.version < 256

pub record HelloFits (m : HelloMessage) : Type 0 where
  pub versions : All SupportedVersionFits m.supported_versions
  pub your_ip_address : length m.your_ip_address ≡ 16
  pub your_port : m.your_port < 2 ^ 16
  pub my_ip_address : length m.my_ip_address ≡ 16
  pub my_port : m.my_port < 2 ^ 16
  pub nonce : m.nonce < 2 ^ 32
  pub user_agent : length m.user_agent < 256

abbrev pub HashFits : Bytes → Type 0
HashFits h = length h ≡ 32

abbrev pub GetBlocksFits : GetBlocksMessage → Type 0
GetBlocksFits m = All HashFits m.potential_start_hashes × HashFits m.stop_hash

abbrev pub InventoryItemFits : InventoryItem → Type 0
InventoryItemFits i = (length i.data_type ≡ 2) × HashFits i.hash

abbrev pub GetDataFits : GetDataMessage → Type 0
GetDataFits m = (length m.data_type ≡ 2) × HashFits m.hash

abbrev pub PeerFits : Peer → Type 0
PeerFits p = (p.last_seen_at < 2 ^ 32) × (length p.ip_address ≡ 16) × (p.port < 2 ^ 16)

-- The body is of the class that the data type names.
abbrev pub BodyFits : Bytes → Body → Type 0
BodyFits t (block_body b) = (t ≡ data_block) × BlockFits b
BodyFits t (header_body h) = (t ≡ data_header) × BlockHeaderFits h
BodyFits t (transaction_body x) = (t ≡ data_transaction) × TransactionFits x

abbrev pub MessageFits : Message → Type 0
MessageFits (hello m) = HelloFits m
MessageFits (get_blocks m) = GetBlocksFits m
MessageFits (inventory items) = All InventoryItemFits items
MessageFits (get_data m) = GetDataFits m
MessageFits (data_message m) = BodyFits m.data_type m.body
MessageFits get_peers = Unit
MessageFits (peers ps) = All PeerFits ps

-- A new item is not marked as requested.
abbrev pub reload_inventory_item : InventoryItem → InventoryItem
reload_inventory_item i = new_inventory_item i.data_type i.hash

module _ ⦃c : Crypto⦄ where
  abbrev pub reload_body : Body → Body
  reload_body (block_body b) = block_body (reload_block b)
  reload_body (header_body h) = header_body h
  reload_body (transaction_body t) = transaction_body (reload_transaction t)

  abbrev pub reload_message : Message → Message
  reload_message (hello m) = hello m
  reload_message (get_blocks m) = get_blocks m
  reload_message (inventory items) = inventory (map reload_inventory_item items)
  reload_message (get_data m) = get_data m
  reload_message (data_message m) =
      data_message (record { data_type = m.data_type; body = reload_body m.body })
  reload_message get_peers = get_peers
  reload_message (peers ps) = peers ps
