-- ===== src/Network/Messages/Wire.antt =====
-- The byte form of each class of skepticoin/networking/messages.py.
use skepticoin.Crypto.{Crypto}
use skepticoin.Datatypes.Wire.{transaction_wire}
use skepticoin.Network.Messages.{
  MessageHeader, SupportedVersion, HelloMessage, GetBlocksMessage, InventoryItem, GetDataMessage,
  DataMessage, Peer, Message,
}
use skepticoin.Serialization.Stream.{Reader, ◌>>=◌, ◌>>◌, pure, raise}
use skepticoin.Serialization.{Serializable}
use skepticoin.Datatypes.Wire.{
  deserialize_block, deserialize_block_header, deserialize_transaction, serialize_block,
  serialize_block_header, serialize_transaction,
}
use skepticoin.Network.Messages.{
  Body, block_body, data_block, data_header, data_message, data_transaction, get_blocks, get_data,
  get_peers, header_body, hello, inventory, msg_data, msg_get_blocks, msg_get_data, msg_get_peers,
  msg_hello, msg_inventory, msg_peers, new_inventory_item, peers, transaction_body,
}
use skepticoin.Prelude.{Bytes, List, [], if◌then◌else◌, length, replicate, ◌∷◌}
use skepticoin.Prelude.Eq.{list_eq, nat_eq, ◌≟◌}
use skepticoin.Prelude.Result.{Result, deserialization, key_error, ok, value_error, ◌then_write◌}
use skepticoin.Serialization.{stream_deserialize_list, stream_serialize_list}
use skepticoin.Serialization.Pack.{pack, read_be}
use skepticoin.Serialization.Stream.{safe_read}

unfoldable pub serialize_message_header : MessageHeader → Result Bytes
serialize_message_header h =
    pack 1 0
    then_write pack 4 h.timestamp
    then_write pack 4 h.id
    then_write pack 4 h.in_response_to
    then_write pack 8 h.context
    then_write ok (replicate 32 0)

-- The version and the reserved bytes are read and ignored.
unfoldable pub deserialize_message_header : Reader MessageHeader
deserialize_message_header = do
  version ← read_be 1
  timestamp ← read_be 4
  id ← read_be 4
  in_response_to ← read_be 4
  context ← read_be 8
  reserved ← safe_read 32
  pure (record {
    timestamp = timestamp;
    id = id;
    in_response_to = in_response_to;
    context = context;
  })

unfoldable pub serialize_supported_version : SupportedVersion → Result Bytes
serialize_supported_version v = pack 1 v.version

unfoldable pub deserialize_supported_version : Reader SupportedVersion
deserialize_supported_version = do v ← read_be 1; pure (record { version = v })

instance abbrev pub supported_version_wire : Serializable SupportedVersion
supported_version_wire = record {
  stream_serialize = serialize_supported_version;
  stream_deserialize = deserialize_supported_version;
}

unfoldable pub serialize_hello : HelloMessage → Result Bytes
serialize_hello m =
    ok msg_hello
    then_write pack 1 0
    then_write ok m.your_ip_address
    then_write pack 2 m.your_port
    then_write ok m.my_ip_address
    then_write pack 2 m.my_port
    then_write pack 4 m.nonce
    then_write pack 1 (length m.user_agent)
    then_write ok m.user_agent
    then_write stream_serialize_list m.supported_versions
    then_write ok (replicate 256 0)

unfoldable pub deserialize_hello : Reader HelloMessage
deserialize_hello = do
  version ← read_be 1
  your_ip_address ← safe_read 16
  your_port ← read_be 2
  my_ip_address ← safe_read 16
  my_port ← read_be 2
  nonce ← read_be 4
  ua_length ← read_be 1
  user_agent ← safe_read ua_length
  supported_versions ← stream_deserialize_list
  reserved ← safe_read 256
  pure (record {
    supported_versions = supported_versions;
    your_ip_address = your_ip_address;
    your_port = your_port;
    my_ip_address = my_ip_address;
    my_port = my_port;
    nonce = nonce;
    user_agent = user_agent;
  })

-- `if safe_read(f, 1) != b'\x00': raise ValueError(...)`
unfoldable pub check_version : Bytes → Reader (Unit {0})
check_version b = if b ≟ (0 ∷ []) then pure tt else raise value_error

unfoldable pub read_version_0 : Reader (Unit {0})
read_version_0 = do b ← safe_read 1; check_version b

-- A hash among the potential start hashes, of which 32 bytes are read whatever was written.
unfoldable pub write_hash : Bytes → Result Bytes
write_hash h = ok h

instance abbrev pub hash_wire : Serializable Bytes
hash_wire = record { stream_serialize = write_hash; stream_deserialize = safe_read 32 }

unfoldable pub serialize_get_blocks : GetBlocksMessage → Result Bytes
serialize_get_blocks m =
    ok msg_get_blocks
    then_write pack 1 0
    then_write stream_serialize_list m.potential_start_hashes
    then_write ok m.stop_hash

unfoldable pub deserialize_get_blocks : Reader GetBlocksMessage
deserialize_get_blocks = do
  read_version_0
  hashes ← stream_deserialize_list
  stop_hash ← safe_read 32
  pure (record { potential_start_hashes = hashes; stop_hash = stop_hash })

unfoldable pub serialize_inventory_item : InventoryItem → Result Bytes
serialize_inventory_item i = ok i.data_type then_write ok i.hash

unfoldable pub deserialize_inventory_item : Reader InventoryItem
deserialize_inventory_item = do
  data_type ← safe_read 2
  hash ← safe_read 32
  pure (new_inventory_item data_type hash)

instance abbrev pub inventory_item_wire : Serializable InventoryItem
inventory_item_wire = record {
  stream_serialize = serialize_inventory_item;
  stream_deserialize = deserialize_inventory_item;
}

unfoldable pub serialize_inventory : List InventoryItem → Result Bytes
serialize_inventory items =
    ok msg_inventory then_write pack 1 0 then_write stream_serialize_list items

unfoldable pub deserialize_inventory : Reader (List InventoryItem)
deserialize_inventory = do read_version_0; stream_deserialize_list

unfoldable pub serialize_get_data : GetDataMessage → Result Bytes
serialize_get_data m =
    ok msg_get_data then_write pack 1 0 then_write ok m.data_type then_write ok m.hash

unfoldable pub deserialize_get_data : Reader GetDataMessage
deserialize_get_data = do
  read_version_0
  data_type ← safe_read 2
  hash ← safe_read 32
  pure (record { data_type = data_type; hash = hash })

unfoldable pub serialize_peer : Peer → Result Bytes
serialize_peer p = pack 4 p.last_seen_at then_write ok p.ip_address then_write pack 2 p.port

unfoldable pub deserialize_peer : Reader Peer
deserialize_peer = do
  last_seen_at ← read_be 4
  ip_address ← safe_read 16
  port ← read_be 2
  pure (record { last_seen_at = last_seen_at; ip_address = ip_address; port = port })

instance abbrev pub peer_wire : Serializable Peer
peer_wire = record { stream_serialize = serialize_peer; stream_deserialize = deserialize_peer }

unfoldable pub serialize_get_peers : Result Bytes
serialize_get_peers = ok msg_get_peers then_write pack 1 0

unfoldable pub serialize_peers : List Peer → Result Bytes
serialize_peers ps = ok msg_peers then_write pack 1 0 then_write stream_serialize_list ps

unfoldable pub deserialize_peers : Reader (List Peer)
deserialize_peers = do read_version_0; stream_deserialize_list

module _ ⦃c : Crypto⦄ where
  unfoldable pub serialize_body : Body → Result Bytes
  serialize_body (block_body b) = serialize_block b
  serialize_body (header_body h) = serialize_block_header h
  serialize_body (transaction_body t) = serialize_transaction t

  -- `DATATYPES[data_type].stream_deserialize(f)`: another type is a KeyError.
  unfoldable pub deserialize_body : Bytes → Reader Body
  deserialize_body data_type =
      if data_type ≟ data_block
      then (do b ← deserialize_block; pure (block_body b))
      else if data_type ≟ data_header
      then (do h ← deserialize_block_header; pure (header_body h))
      else if data_type ≟ data_transaction
      then (do t ← deserialize_transaction; pure (transaction_body t))
      else raise key_error

  unfoldable pub serialize_data : DataMessage → Result Bytes
  serialize_data m =
      ok msg_data then_write pack 1 0 then_write ok m.data_type then_write serialize_body m.body

  unfoldable pub deserialize_data : Reader DataMessage
  deserialize_data = do
    read_version_0
    data_type ← safe_read 2
    body ← deserialize_body data_type
    pure (record { data_type = data_type; body = body })

  unfoldable pub serialize_message : Message → Result Bytes
  serialize_message (hello m) = serialize_hello m
  serialize_message (get_blocks m) = serialize_get_blocks m
  serialize_message (inventory items) = serialize_inventory items
  serialize_message (get_data m) = serialize_get_data m
  serialize_message (data_message m) = serialize_data m
  serialize_message get_peers = serialize_get_peers
  serialize_message (peers ps) = serialize_peers ps

  unfoldable pub read_message : Bytes → Reader Message
  read_message type_indicator =
      if type_indicator ≟ msg_hello
      then (do m ← deserialize_hello; pure (hello m))
      else if type_indicator ≟ msg_get_blocks
      then (do m ← deserialize_get_blocks; pure (get_blocks m))
      else if type_indicator ≟ msg_inventory
      then (do m ← deserialize_inventory; pure (inventory m))
      else if type_indicator ≟ msg_get_data
      then (do m ← deserialize_get_data; pure (get_data m))
      else if type_indicator ≟ msg_data
      then (do m ← deserialize_data; pure (data_message m))
      else if type_indicator ≟ msg_get_peers
      then (do read_version_0; pure get_peers)
      else if type_indicator ≟ msg_peers
      then (do m ← deserialize_peers; pure (peers m))
      else raise deserialization

  -- `Message.stream_deserialize`
  unfoldable pub deserialize_message : Reader Message
  deserialize_message = do type_indicator ← safe_read 2; read_message type_indicator
