-- ===== src/Network/Params.antt =====
-- skepticoin/networking/params.py.
use skepticoin.Prelude.{ℕ, ◌*◌, ◌/◌}

abbrev pub default_port : ℕ
default_port = 2412

abbrev pub time_to_second_connection_attempt : ℕ
time_to_second_connection_attempt = 10

abbrev pub max_time_between_connection_attempts : ℕ
max_time_between_connection_attempts = 60 * 30

abbrev pub max_connection_attempts : ℕ
max_connection_attempts = 60 * 60 * 24 * 60 / max_time_between_connection_attempts

abbrev pub get_peers_interval : ℕ
get_peers_interval = 60 * 30

abbrev pub max_message_size : ℕ
max_message_size = 32 * 1024 * 1024

abbrev pub max_ibd_peers : ℕ
max_ibd_peers = 1

abbrev pub ibd_peer_timeout : ℕ
ibd_peer_timeout = 60

abbrev pub ibd_validation_skip : ℕ
ibd_validation_skip = 10000

abbrev pub get_blocks_inventory_size : ℕ
get_blocks_inventory_size = 500

abbrev pub switch_to_active_mode_timeout : ℕ
switch_to_active_mode_timeout = 5 * 60

abbrev pub empty_inventory_backoff : ℕ
empty_inventory_backoff = 60
