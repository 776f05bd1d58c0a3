-- ===== src/Network/Messages/RoundTrip.antt =====
-- The messages of skepticoin/networking/messages.py, written and read back.
use skepticoin.Crypto.{Crypto}
use skepticoin.Network.Messages.{
  MessageHeader, SupportedVersion, HelloMessage, GetBlocksMessage, InventoryItem, GetDataMessage,
  DataMessage, Peer, Message,
}
use skepticoin.Network.Messages.Wire.{
  supported_version_wire, hash_wire, inventory_item_wire, peer_wire,
}
use skepticoin.Datatypes.Wire.{transaction_wire}
use skepticoin.Serialization.Stream.{pure, safe_read}
use mathlib.Core.List.{map-id}
use skepticoin.Network.Messages.{new_inventory_item}
use skepticoin.Network.Messages.Fits.{
  HashFits, InventoryItemFits, MessageHeaderFits, PeerFits, SupportedVersionFits,
  reload_inventory_item,
}
use skepticoin.Network.Messages.Wire.{
  deserialize_inventory_item, deserialize_message_header, deserialize_peer,
  deserialize_supported_version, serialize_inventory_item, serialize_message_header, serialize_peer,
  serialize_supported_version, write_hash,
}
use skepticoin.Prelude.{Bytes, arith, refl, replicate, ◌++◌}
use skepticoin.Serialization.ListLaws.{then_write_ok}
use skepticoin.Serialization.Pack.{read_be, to_be}
use skepticoin.Serialization.PackLaws.{pack_ok}
use skepticoin.Serialization.RoundTrip.{
  Reads-bind, Reads-last, Reads-safe_read, Reads-safe_read_of, RoundTrips,
}
use skepticoin.Signing.RoundTrip.{read_be-Reads}
use mathlib.Core.Path.{subst}
use skepticoin.Network.Messages.{
  Body, block_body, get_blocks, get_data, get_peers, header_body, hello, inventory, msg_get_blocks,
  msg_get_data, msg_get_peers, msg_hello, msg_inventory, msg_peers, peers, transaction_body,
}
use skepticoin.Network.Messages.Fits.{BodyFits, GetBlocksFits, GetDataFits, HelloFits, reload_body}
use skepticoin.Network.Messages.Wire.{
  check_version, deserialize_body, deserialize_get_blocks, deserialize_get_data, deserialize_hello,
  deserialize_inventory, deserialize_message, deserialize_peers, read_message, read_version_0,
  serialize_body, serialize_get_blocks, serialize_get_data, serialize_get_peers, serialize_hello,
  serialize_inventory, serialize_peers,
}
use skepticoin.Prelude.{All, All-map, List, [], length, map, ◌∷◌, ◌≡◌}
use skepticoin.Serialization.{Serializable, stream_deserialize_list, stream_serialize_list}
use skepticoin.Serialization.ListLaws.{list-RoundTrips}
use skepticoin.Serialization.RoundTrip.{Reads}
use skepticoin.Datatypes.RoundTrip.{
  block-RoundTrips, block_header-RoundTrips, transaction-RoundTrips,
}
use skepticoin.Datatypes.Wire.{deserialize_block, deserialize_block_header, deserialize_transaction}
use skepticoin.Network.Messages.{data_message, msg_data}
use skepticoin.Network.Messages.Fits.{MessageFits, reload_message}
use skepticoin.Network.Messages.Wire.{deserialize_data, serialize_data, serialize_message}
use skepticoin.Prelude.{sym}

-- A header whose numbers fit the widths of the byte form is written without an error, and its
-- bytes, followed by anything, are read back as that header, and what follows is left.
pub message_header-RoundTrips :
    (h : MessageHeader)
    → MessageHeaderFits h
    → RoundTrips (serialize_message_header h) deserialize_message_header h
unfolding serialize_message_header deserialize_message_header
message_header-RoundTrips h (t, i, r, x) = record {
  bytes =
      to_be 1 0
      ++ (to_be 4 h.timestamp
          ++ (to_be 4 h.id ++ (to_be 4 h.in_response_to ++ (to_be 8 h.context ++ replicate 32 0))));
  writes = then_write_ok (pack_ok 1 0 (omega arith)) (
      then_write_ok (pack_ok 4 h.timestamp t) (
        then_write_ok (pack_ok 4 h.id i) (
          then_write_ok (pack_ok 4 h.in_response_to r)
            (then_write_ok (pack_ok 8 h.context x) refl))));
  reads = Reads-bind (read_be 1) _ (read_be-Reads 1 0 (omega arith)) (
      Reads-bind (read_be 4) _ (read_be-Reads 4 h.timestamp t) (
        Reads-bind (read_be 4) _ (read_be-Reads 4 h.id i) (
          Reads-bind (read_be 4) _ (read_be-Reads 4 h.in_response_to r) (
            Reads-bind (read_be 8) _ (read_be-Reads 8 h.context x)
              (Reads-last (safe_read 32) (λ reserved. h) (Reads-safe_read (replicate 32 0)))))));
}

supported_version-RoundTrips :
    (v : SupportedVersion)
    → SupportedVersionFits v
    → RoundTrips (serialize_supported_version v) deserialize_supported_version v
unfolding serialize_supported_version deserialize_supported_version
supported_version-RoundTrips v h = record {
  bytes = to_be 1 v.version;
  writes = pack_ok 1 v.version h;
  reads = Reads-last (read_be 1) (λ n. record { version = n }) (read_be-Reads 1 v.version h);
}

hash-RoundTrips : (h : Bytes) → HashFits h → RoundTrips (write_hash h) (safe_read 32) h
unfolding write_hash
hash-RoundTrips h e = record { bytes = h; writes = refl; reads = Reads-safe_read_of 32 h e }

inventory_item-RoundTrips :
    (i : InventoryItem)
    → InventoryItemFits i
    → RoundTrips (serialize_inventory_item i) deserialize_inventory_item (reload_inventory_item i)
unfolding serialize_inventory_item deserialize_inventory_item
inventory_item-RoundTrips i (t, e) = record {
  bytes = i.data_type ++ i.hash;
  writes = then_write_ok {a = i.data_type} refl refl;
  reads =
      Reads-bind (safe_read 2) _ (Reads-safe_read_of 2 i.data_type t) (
        Reads-last (safe_read 32) (new_inventory_item i.data_type)
          (Reads-safe_read_of 32 i.hash e));
}

peer-RoundTrips : (p : Peer) → PeerFits p → RoundTrips (serialize_peer p) deserialize_peer p
unfolding serialize_peer deserialize_peer
peer-RoundTrips p (t, a, n) = record {
  bytes = to_be 4 p.last_seen_at ++ (p.ip_address ++ to_be 2 p.port);
  writes =
      then_write_ok (pack_ok 4 p.last_seen_at t)
        (then_write_ok {a = p.ip_address} refl (pack_ok 2 p.port n));
  reads = Reads-bind (read_be 4) _ (read_be-Reads 4 p.last_seen_at t) (
      Reads-bind (safe_read 16) _ (Reads-safe_read_of 16 p.ip_address a) (
        Reads-last (read_be 2)
          (λ k. record { last_seen_at = p.last_seen_at; ip_address = p.ip_address; port = k })
          (read_be-Reads 2 p.port n)));
}

version_0 : Bytes
version_0 = to_be 1 0

read_version_0-Reads : Reads read_version_0 version_0 tt
unfolding read_version_0 check_version version_0 to_be pure
read_version_0-Reads =
    Reads-bind (safe_read 1) check_version (Reads-safe_read (0 ∷ [])) (record { at = λ rest. refl })

-- Elements that are read back as they were make a list that is.
same-RoundTrips :
    {A : Type 0} ⦃s : Serializable A⦄ (xs : List A)
    → All (λ x. RoundTrips (s.stream_serialize x) s.stream_deserialize x) xs
    → RoundTrips (stream_serialize_list xs) stream_deserialize_list xs
same-RoundTrips {A} xs h =
    subst (λ ys. RoundTrips (stream_serialize_list xs) stream_deserialize_list ys) (map-id xs)
      (list-RoundTrips (λ (x : A). x) xs h)

module _ ⦃c : Crypto⦄ where
  hello-RoundTrips :
      (m : HelloMessage)
      → HelloFits m
      → RoundTrips (serialize_hello m) deserialize_message (hello m)
  unfolding serialize_hello deserialize_hello deserialize_message read_message
  hello-RoundTrips m f =
      let v = same-RoundTrips m.supported_versions (
        All-map SupportedVersionFits _ supported_version-RoundTrips m.supported_versions
          f.versions) in
      record {
        bytes =
            msg_hello
            ++ (to_be 1 0
                ++ (m.your_ip_address
                    ++ (to_be 2 m.your_port
                        ++ (m.my_ip_address
                            ++ (to_be 2 m.my_port
                                ++ (to_be 4 m.nonce
                                    ++ (to_be 1 (length m.user_agent)
                                        ++ (m.user_agent ++ (v.bytes ++ replicate 256 0)))))))));
        writes = then_write_ok {a = msg_hello} refl (
            then_write_ok (pack_ok 1 0 (omega arith)) (
              then_write_ok {a = m.your_ip_address} refl (
                then_write_ok (pack_ok 2 m.your_port f.your_port) (
                  then_write_ok {a = m.my_ip_address} refl (
                    then_write_ok (pack_ok 2 m.my_port f.my_port) (
                      then_write_ok (pack_ok 4 m.nonce f.nonce) (
                        then_write_ok (pack_ok 1 (length m.user_agent) f.user_agent) (
                          then_write_ok {a = m.user_agent} refl
                            (then_write_ok v.writes refl)))))))));
        reads = Reads-bind (safe_read 2) read_message (Reads-safe_read msg_hello) (
            Reads-last deserialize_hello hello (
              Reads-bind (read_be 1) _ (read_be-Reads 1 0 (omega arith)) (
                Reads-bind (safe_read 16) _
                  (Reads-safe_read_of 16 m.your_ip_address f.your_ip_address)
                  (Reads-bind (read_be 2) _ (read_be-Reads 2 m.your_port f.your_port) (
                    Reads-bind (safe_read 16) _
                      (Reads-safe_read_of 16 m.my_ip_address f.my_ip_address)
                      (Reads-bind (read_be 2) _ (read_be-Reads 2 m.my_port f.my_port) (
                        Reads-bind (read_be 4) _ (read_be-Reads 4 m.nonce f.nonce) (
                          Reads-bind (read_be 1) _
                            (read_be-Reads 1 (length m.user_agent) f.user_agent)
                            (Reads-bind (safe_read (length m.user_agent)) _
                              (Reads-safe_read m.user_agent)
                              (Reads-bind stream_deserialize_list _ v.reads (
                                Reads-last (safe_read 256) (λ reserved. m)
                                  (Reads-safe_read (replicate 256 0)))))))))))));
      }

  get_blocks-RoundTrips :
      (m : GetBlocksMessage)
      → GetBlocksFits m
      → RoundTrips (serialize_get_blocks m) deserialize_message (get_blocks m)
  unfolding serialize_get_blocks deserialize_get_blocks deserialize_message read_message version_0
  get_blocks-RoundTrips m f =
      let v =
        same-RoundTrips m.potential_start_hashes
          (All-map HashFits _ hash-RoundTrips m.potential_start_hashes f.0) in
      record {
        bytes = msg_get_blocks ++ (version_0 ++ (v.bytes ++ m.stop_hash));
        writes =
            then_write_ok {a = msg_get_blocks} refl
              (then_write_ok (pack_ok 1 0 (omega arith)) (then_write_ok v.writes refl));
        reads = Reads-bind (safe_read 2) read_message (Reads-safe_read msg_get_blocks) (
            Reads-last deserialize_get_blocks get_blocks (
              Reads-bind read_version_0 _ read_version_0-Reads (
                Reads-bind stream_deserialize_list _ v.reads (
                  Reads-last (safe_read 32)
                    (λ h. record {
                      potential_start_hashes = m.potential_start_hashes;
                      stop_hash = h;
                    })
                    (Reads-safe_read_of 32 m.stop_hash f.1)))));
      }

  inventory-RoundTrips :
      (items : List InventoryItem)
      → All InventoryItemFits items
      → RoundTrips
          (serialize_inventory items)
          deserialize_message
          (inventory (map reload_inventory_item items))
  unfolding serialize_inventory deserialize_inventory deserialize_message read_message version_0
  inventory-RoundTrips items f =
      let v =
        list-RoundTrips reload_inventory_item items
          (All-map InventoryItemFits _ inventory_item-RoundTrips items f) in
      record {
        bytes = msg_inventory ++ (version_0 ++ v.bytes);
        writes =
            then_write_ok {a = msg_inventory} refl
              (then_write_ok (pack_ok 1 0 (omega arith)) v.writes);
        reads = Reads-bind (safe_read 2) read_message (Reads-safe_read msg_inventory) (
            Reads-last deserialize_inventory inventory
              (Reads-bind read_version_0 _ read_version_0-Reads v.reads));
      }

  peers-RoundTrips :
      (ps : List Peer)
      → All PeerFits ps
      → RoundTrips (serialize_peers ps) deserialize_message (peers ps)
  unfolding serialize_peers deserialize_peers deserialize_message read_message version_0
  peers-RoundTrips ps f =
      let v = same-RoundTrips ps (All-map PeerFits _ peer-RoundTrips ps f) in
      record {
        bytes = msg_peers ++ (version_0 ++ v.bytes);
        writes =
            then_write_ok {a = msg_peers} refl (then_write_ok (pack_ok 1 0 (omega arith)) v.writes);
        reads = Reads-bind (safe_read 2) read_message (Reads-safe_read msg_peers) (
            Reads-last deserialize_peers peers
              (Reads-bind read_version_0 _ read_version_0-Reads v.reads));
      }

  get_data-RoundTrips :
      (m : GetDataMessage)
      → GetDataFits m
      → RoundTrips (serialize_get_data m) deserialize_message (get_data m)
  unfolding serialize_get_data deserialize_get_data deserialize_message read_message version_0
  get_data-RoundTrips m f = record {
    bytes = msg_get_data ++ (version_0 ++ (m.data_type ++ m.hash));
    writes =
        then_write_ok {a = msg_get_data} refl
          (then_write_ok (pack_ok 1 0 (omega arith)) (then_write_ok {a = m.data_type} refl refl));
    reads = Reads-bind (safe_read 2) read_message (Reads-safe_read msg_get_data) (
        Reads-last deserialize_get_data get_data (
          Reads-bind read_version_0 _ read_version_0-Reads (
            Reads-bind (safe_read 2) _ (Reads-safe_read_of 2 m.data_type f.0) (
              Reads-last (safe_read 32) (λ h. record { data_type = m.data_type; hash = h })
                (Reads-safe_read_of 32 m.hash f.1)))));
  }

  get_peers-RoundTrips : RoundTrips serialize_get_peers deserialize_message get_peers
  unfolding serialize_get_peers deserialize_message read_message version_0
  get_peers-RoundTrips = record {
    bytes = msg_get_peers ++ version_0;
    writes = then_write_ok {a = msg_get_peers} refl (pack_ok 1 0 (omega arith));
    reads =
        Reads-bind (safe_read 2) read_message (Reads-safe_read msg_get_peers)
          (Reads-last read_version_0 (λ nothing. get_peers) read_version_0-Reads);
  }

  data_of : Bytes → Body → DataMessage
  data_of t b = record { data_type = t; body = b }

  -- The body is read by the class that its data type names.
  abbrev BodyReloads : Body → Bytes → Type 0
  BodyReloads b t =
      (length t ≡ 2) × RoundTrips (serialize_body b) (deserialize_body t) (reload_body b)

  body-RoundTrips : (t : Bytes) (b : Body) → BodyFits t b → BodyReloads b t
  unfolding serialize_body deserialize_body
  body-RoundTrips t (block_body b) (e, f) =
      let r = block-RoundTrips b f in
      subst (BodyReloads (block_body b)) (sym e) (
        refl,
        record {
          bytes = r.bytes;
          writes = r.writes;
          reads = Reads-last deserialize_block block_body r.reads;
        },
      )
  body-RoundTrips t (header_body h) (e, f) =
      let r = block_header-RoundTrips h f in
      subst (BodyReloads (header_body h)) (sym e) (
        refl,
        record {
          bytes = r.bytes;
          writes = r.writes;
          reads = Reads-last deserialize_block_header header_body r.reads;
        },
      )
  body-RoundTrips t (transaction_body x) (e, f) =
      let r = transaction-RoundTrips x f in
      subst (BodyReloads (transaction_body x)) (sym e) (
        refl,
        record {
          bytes = r.bytes;
          writes = r.writes;
          reads = Reads-last deserialize_transaction transaction_body r.reads;
        },
      )

  data-RoundTrips :
      (m : DataMessage)
      → BodyFits m.data_type m.body
      → RoundTrips (serialize_data m) deserialize_message (reload_message (data_message m))
  unfolding serialize_data deserialize_data deserialize_message read_message version_0
  data-RoundTrips m f =
      let (size, r) = body-RoundTrips m.data_type m.body f in
      record {
        bytes = msg_data ++ (version_0 ++ (m.data_type ++ r.bytes));
        writes = then_write_ok {a = msg_data} refl (
            then_write_ok (pack_ok 1 0 (omega arith))
              (then_write_ok {a = m.data_type} refl r.writes));
        reads = Reads-bind (safe_read 2) read_message (Reads-safe_read msg_data) (
            Reads-last deserialize_data data_message (
              Reads-bind read_version_0 _ read_version_0-Reads (
                Reads-bind (safe_read 2) _ (Reads-safe_read_of 2 m.data_type size) (
                  Reads-last (deserialize_body m.data_type)
                    (λ b. record { data_type = m.data_type; body = b }) r.reads))));
      }

  -- A message of any class whose fields have the sizes of the byte form, and whose data is of the
  -- class that its data type names, is written without an error. Its bytes, followed by anything,
  -- are read back as that message, with the hashes of the bytes in the caches of its data and no
  -- item marked as requested, and what follows is left.
  pub message-RoundTrips :
      (m : Message)
      → MessageFits m
      → RoundTrips (serialize_message m) deserialize_message (reload_message m)
  unfolding serialize_message
  message-RoundTrips (hello m) f = hello-RoundTrips m f
  message-RoundTrips (get_blocks m) f = get_blocks-RoundTrips m f
  message-RoundTrips (inventory items) f = inventory-RoundTrips items f
  message-RoundTrips (get_data m) f = get_data-RoundTrips m f
  message-RoundTrips (data_message m) f = data-RoundTrips m f
  message-RoundTrips get_peers f = get_peers-RoundTrips
  message-RoundTrips (peers ps) f = peers-RoundTrips ps f
