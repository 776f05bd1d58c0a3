-- ===== src/Tests/Network.antt =====
-- The networking of a node at concrete inputs, over a toy operating system.
use skepticoin.Network.Blocks.{handle_block_received}
use skepticoin.Network.Blocks.Received.{Settled, handle_block_received-Settled}
use skepticoin.Network.Manager.{connect_all, max_selector_map_size, mem_address}
use skepticoin.Network.Manager.Retry.{connect_all_again}
use skepticoin.Network.Messages.{Message, MessageHeader, data_block, get_data}
use skepticoin.Network.Messages.Fits.{reload_message}
use skepticoin.Network.Messages.RoundTrip.{message-RoundTrips, message_header-RoundTrips}
use skepticoin.Network.Messages.Wire.{
  deserialize_message, deserialize_message_header, serialize_message, serialize_message_header,
}
use skepticoin.Network.Node.{Event, connection, managers_step, node_after, socket_event, new_node}
use skepticoin.Network.Os.{Host, Os}
use skepticoin.Network.Peers.{handle_peers}
use skepticoin.Network.Peers.Scores.{handle_peers-lookup}
use skepticoin.Network.Pool.{new_chain_manager}
use skepticoin.Network.Receiver.{new_receiver, receive, receive_all, joined}
use skepticoin.Network.Receiver.Frames.{receive_all-frames}
use skepticoin.Network.Receiver.Pieces.{receive_all_pieces}
use skepticoin.Network.Sane.{IsSane}
use skepticoin.Network.Sane.Run.{IsClean, run-IsClean, run-IsSane}
use skepticoin.Network.State.{DisconnectedPeer, Node, PeerKey, peer_key_eq, outgoing}
use skepticoin.Prelude.{
  Bytes, List, some, [], ◌∷◌, ◌++◌, ◌≡◌, ◌&&◌, ℕ, arith, refl, true, false, length, replicate,
}
use skepticoin.Prelude.Map.{contains, lookup}
use skepticoin.Prelude.Result.{ok}
use skepticoin.Serialization.RoundTrip.{RoundTrips}
use skepticoin.Tests.Chain.{low, chain_state, new_block}
use skepticoin.Tests.Toy.{hash_of}
use skepticoin.Network.Manager.{sanity_check}
use skepticoin.Network.Receiver.Frames.{frame, frames}
use skepticoin.Network.State.{direction_beq, peer_key_beq}
use skepticoin.Prelude.{drop, ◌+◌, ◌-◌}
use skepticoin.Prelude.Eq.{list_eq, nat_eq}
use skepticoin.Serialization.Pack.{pack, to_be}
use skepticoin.Network.Receiver.{stopped}
use skepticoin.Network.Receiver.Frames.{handle_all}
use skepticoin.Prelude.{if◌then◌else◌, leb}
use skepticoin.Prelude.Result.{Result, err, struct_error}
use skepticoin.Network.State.{new_connected_peer}
use skepticoin.Prelude.{none}

-- A selector that takes everything, and sockets that send all of a buffer.
instance abbrev pub toy_os : Os
toy_os = record {
  Selector = ℕ;
  register = λ i s. ok (s + 1);
  unregister = λ i s. ok (s - 1);
  modify = λ i w s. ok s;
  map_size = λ s. s;
  send = λ k i b. ok (length b);
  clock = λ k. 1_700_000_000;
  random_context = λ k. k;
  choice = λ k n. 0;
  ipv6_mapped = λ h. ok (replicate 12 0 ++ h);
  ipv4_mapped = λ b. some (drop 12 b);
  platform = [];
  version = [];
}

abbrev host : Host
host = 10 ∷ 0 ∷ 0 ∷ 1 ∷ []

abbrev header : MessageHeader
header = record { timestamp = 1_700_000_000; id = 1; in_response_to = 0; context = 9 }

message_header-RoundTrips_example :
    RoundTrips (serialize_message_header header) deserialize_message_header header
message_header-RoundTrips_example =
    message_header-RoundTrips header (omega arith, omega arith, omega arith, omega arith)

abbrev asking : Message
asking = get_data (record { data_type = data_block; hash = hash_of 5 })

message-RoundTrips_example :
    RoundTrips (serialize_message asking) deserialize_message (reload_message asking)
message-RoundTrips_example = message-RoundTrips asking (refl, refl)

-- A frame of two bytes, cut in its length.
abbrev first_piece : Bytes
first_piece = b'M' ∷ b'A' ∷ b'J' ∷ b'I' ∷ 0 ∷ 0 ∷ []

abbrev second_piece : Bytes
second_piece = 0 ∷ 2 ∷ 7 ∷ 8 ∷ []

-- The handling of data that is kept, and raises at data that is too short for a header.
unfoldable pub keep : Bytes → List Bytes → Result (Unit {0}) × List Bytes
keep d ds = if leb 53 (length d) then (ok tt, ds ++ (d ∷ [])) else (err struct_error, ds)

receive_all_pieces_example :
    receive_all keep new_receiver (first_piece ∷ second_piece ∷ []) []
    ≡ receive keep new_receiver (first_piece ++ second_piece) []
receive_all_pieces_example =
    receive_all_pieces keep new_receiver first_piece (second_piece ∷ []) [] (λ e. refl)

frames_run : frames ((7 ∷ 8 ∷ []) ∷ []) ≡ ok (first_piece ++ joined (second_piece ∷ []))
unfolding frames frame pack to_be
frames_run = refl

receive_all-frames_example :
    receive_all keep new_receiver (first_piece ∷ second_piece ∷ []) [] ≡ (stopped struct_error, [])
unfolding keep handle_all
receive_all-frames_example =
    receive_all-frames keep ((7 ∷ 8 ∷ []) ∷ []) first_piece (second_piece ∷ []) [] (omega arith, tt)
      frames_run

abbrev key_out : PeerKey
key_out = record { host = host; port = 2412; direction = outgoing }

abbrev events : List Event
events =
    connection host 5000
    ∷ socket_event 0 (some (ok (first_piece ++ second_piece))) true
    ∷ managers_step 1_700_000_000
    ∷ []

run-IsSane_example :
    ((contains key_out
          (node_after (some 2412) 7 0 (key_out ∷ []) chain_state 9 events).disconnected_peers
        && contains key_out
            (node_after (some 2412) 7 0 (key_out ∷ []) chain_state 9 events).connected_peers)
      ≡ false)
    × ((sanity_check (node_after (some 2412) 7 0 (key_out ∷ []) chain_state 9 events)).0 ≡ ok tt)
run-IsSane_example = run-IsSane (some 2412) 7 0 (key_out ∷ []) chain_state 9 events key_out

run-IsClean_example :
    IsClean (node_after (some 2412) 7 0 (key_out ∷ []) chain_state 9 events).chain_manager
run-IsClean_example = run-IsClean (some 2412) 7 0 (key_out ∷ []) chain_state 9 events

abbrev pub toy_node : Node
toy_node = new_node (some 2412) 7 0 (key_out ∷ []) (new_chain_manager chain_state 9)

handle_block_received-Settled_example :
    Settled
      (new_chain_manager chain_state 9)
      new_block
      1_700_000_000
      (handle_block_received 0 header new_block toy_node).1.chain_manager.coinstate
unfolding new_node
handle_block_received-Settled_example =
    handle_block_received-Settled 0 header new_block toy_node refl

abbrev failed : DisconnectedPeer
failed = record { key = key_out; last_connection_attempt = some 1000; ban_score = 12 }

abbrev failed_node : Node
failed_node = record toy_node { disconnected_peers = (key_out, failed) ∷ [] }

failed_run : lookup key_out failed_node.disconnected_peers ≡ some failed
unfolding lookup peer_key_beq direction_beq
failed_run = refl

failed_node-IsSane : IsSane failed_node.connected_peers failed_node.disconnected_peers
unfolding lookup new_node
failed_node-IsSane = record {
  connected_unique = tt;
  disconnected_unique = (refl, tt);
  apart = λ k h. refl;
}

connect_all_again_example :
    (n : Node) × (connect_all 2800 (failed ∷ []) failed_node ≡ connect_all 2800 [] n)
    × (lookup key_out n.connected_peers ≡ some 0)
    × (lookup key_out n.disconnected_peers ≡ none)
    × (n.peer_objects 0 ≡ new_connected_peer key_out (some 2800) 12)
unfolding lookup new_node mem_address max_selector_map_size
connect_all_again_example =
    connect_all_again failed [] 1000 2800 failed_node 1 refl refl refl (omega arith) (omega arith)
      (omega arith) refl refl failed_node-IsSane

handle_peers-lookup_example :
    lookup key_out
      (handle_peers 0
        (record { last_seen_at = 0; ip_address = replicate 12 0 ++ host; port = 2412 } ∷ [])
        failed_node).1.disconnected_peers
    ≡ some failed
handle_peers-lookup_example =
    handle_peers-lookup key_out failed 0
      (record { last_seen_at = 0; ip_address = replicate 12 0 ++ host; port = 2412 } ∷ [])
      failed_node failed_run
