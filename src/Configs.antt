-- ===== src/Configs.antt =====
-- configs/net.go, configs/switch.go and configs/log.go: the constants, and the settings that main.go
-- writes once before it starts the services. `int` values are integers of 64 bits.
use localsend_switchboard.Prelude.{ℕ, ◌+◌, ◌-◌, ◌*◌, if◌then◌else◌, Bytes, [], codes}
use localsend_switchboard.Prelude.Int.{ℤ, pos, negsuc, ltb_ℤ}

abbrev pub local_send_default_multicast_ipv4 : Bytes
local_send_default_multicast_ipv4 = codes "224.0.0.167"

abbrev pub local_send_default_port : Bytes
local_send_default_port = codes "53317"

abbrev pub multicast_chan_size : ℕ
multicast_chan_size = 128

abbrev pub max_tcp_connections : ℕ
max_tcp_connections = 255 * 10

abbrev pub tcp_socket_read_buffer_size : ℕ
tcp_socket_read_buffer_size = 1024 * 1024

abbrev pub switch_data_receive_chan_size : ℕ
switch_data_receive_chan_size = 128

abbrev pub max_discovery_message_ttl : ℕ
max_discovery_message_ttl = 255

abbrev pub tcp_socket_send_chan_size : ℕ
tcp_socket_send_chan_size = 32

abbrev pub http_response_body_max_size : ℕ
http_response_body_max_size = 1 * 1024 * 1024

-- Seconds.
abbrev pub switch_id_cache_lifetime : ℕ
switch_id_cache_lifetime = 300

abbrev pub switch_id_cache_max_entries : ℕ
switch_id_cache_max_entries = 65536

abbrev pub switch_lounge_size : ℕ
switch_lounge_size = 255 * 255

-- The package's variables.
pub record Settings : Type 0 where
  pub switch_peer_connect_max_retries : ℤ
  pub local_client_broadcast_interval : ℤ
  pub local_client_alive_check_interval : ℤ
  pub local_client_info_cache_lifetime : ℤ
  pub switch_data_secret : Bytes
  pub log_file_path : Bytes
  pub log_max_size_bytes : ℤ
  pub log_max_historical_files : ℤ

abbrev pub defaults : Settings
defaults = record {
  switch_peer_connect_max_retries = pos 10;
  local_client_broadcast_interval = pos 15;
  local_client_alive_check_interval = pos 10;
  local_client_info_cache_lifetime = pos 60;
  switch_data_secret = [];
  log_file_path = codes "localsend-switch-logs/latest.log";
  log_max_size_bytes = pos (5 * 1024 * 1024);
  log_max_historical_files = pos 5;
}

-- `seconds+10`; the caller has parsed `seconds` into 32 bits, so the sum does not wrap.
abbrev pub plus_ten : ℤ → ℤ
plus_ten (pos n) = pos (n + 10)
plus_ten (negsuc n) = if ltb_ℤ (negsuc n) (negsuc 9) then negsuc (n - 10) else pos (9 - n)

abbrev pub max_ℤ : ℤ → ℤ → ℤ
max_ℤ a b = if ltb_ℤ a b then b else a

unfoldable pub set_switch_peer_connect_max_retries : ℤ → Settings → Settings
set_switch_peer_connect_max_retries retries s = record s {
  switch_peer_connect_max_retries = retries;
}

unfoldable pub set_local_client_broadcast_interval : ℤ → Settings → Settings
set_local_client_broadcast_interval seconds s = record s {
  local_client_broadcast_interval = seconds;
}

-- The cache outlives a check by ten seconds at least.
unfoldable pub set_local_client_alive_check_interval : ℤ → Settings → Settings
set_local_client_alive_check_interval seconds s = record s {
  local_client_alive_check_interval = seconds;
  local_client_info_cache_lifetime = max_ℤ s.local_client_info_cache_lifetime (plus_ten seconds);
}

unfoldable pub set_switch_data_secret : Bytes → Settings → Settings
set_switch_data_secret secret s = record s { switch_data_secret = secret }

unfoldable pub set_log_file_path : Bytes → Settings → Settings
set_log_file_path path s = record s { log_file_path = path }

unfoldable pub set_log_max_size_bytes : ℤ → Settings → Settings
set_log_max_size_bytes size s = record s { log_max_size_bytes = size }

unfoldable pub set_log_max_historical_files : ℤ → Settings → Settings
set_log_max_historical_files count s = record s { log_max_historical_files = count }
