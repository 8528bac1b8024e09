-- ===== src/Config/Defaults.antt =====
-- src/config.rs: the settings of the reassembler with their validation, and the values of the settings that a
-- configuration leaves out. The address that the reassembler listens on, and the target, are the splitter's
-- kind of address.
use round_robin.Common.{
  arith, ℕ, ◌*◌, ◌≡◌, refl, ◌||◌, List, [], ◌∷◌, ltb, Result, ok, bail_if, ◌>>◌,
}
use round_robin.Frame.{min_chunk, max_chunk}
use round_robin.Config.{
  SocketAddr, SplitterConfig, ConfigError, bad_chunk_size, zero_data_send_timeout, zero_heartbeat,
  validate_secs, validate_reorder_window, validate,
}
use round_robin.Config.Ports.{Ports, range, parse_ports}

pub record ReassemblerConfig : Type 0 where
  pub listen : List ℕ
  pub listen_ports : Ports
  pub local_target : SocketAddr
  pub chunk_size : ℕ
  pub data_send_timeout_secs : ℕ
  pub heartbeat_secs : ℕ
  pub reorder_window_bytes : ℕ

abbrev pub default_data_send_timeout : ℕ
default_data_send_timeout = 30

abbrev pub default_heartbeat : ℕ
default_heartbeat = 60

abbrev pub default_reorder_window : ℕ
default_reorder_window = 64 * 1024 * 1024

abbrev pub default_chunk : ℕ
default_chunk = 65535

abbrev pub default_listen_ip : List ℕ
default_listen_ip = 127 ∷ 0 ∷ 0 ∷ 1 ∷ []

abbrev pub default_splitter_listen : SocketAddr
default_splitter_listen = record { ip = default_listen_ip; port = 52310 }

abbrev pub default_local_target : SocketAddr
default_local_target = record { ip = default_listen_ip; port = 52310 }

-- "52311-52319"
abbrev pub default_reassembler_ports : Ports
default_reassembler_ports = range (53 ∷ 50 ∷ 51 ∷ 49 ∷ 49 ∷ 45 ∷ 53 ∷ 50 ∷ 51 ∷ 49 ∷ 57 ∷ [])

unfoldable pub validate_reassembler : ReassemblerConfig → Result ConfigError (Unit {0})
unfolding validate_secs validate_reorder_window
validate_reassembler c = do
  bail_if (ltb c.chunk_size min_chunk || ltb max_chunk c.chunk_size) bad_chunk_size
  validate_secs zero_data_send_timeout c.data_send_timeout_secs
  validate_secs zero_heartbeat c.heartbeat_secs
  validate_reorder_window c.reorder_window_bytes c.chunk_size
  ok tt

-- A configuration that leaves out all settings of the reassembler.
abbrev pub default_reassembler : ReassemblerConfig
default_reassembler = record {
  listen = default_listen_ip;
  listen_ports = default_reassembler_ports;
  local_target = default_local_target;
  chunk_size = default_chunk;
  data_send_timeout_secs = default_data_send_timeout;
  heartbeat_secs = default_heartbeat;
  reorder_window_bytes = default_reorder_window;
}

-- The defaults of the reassembler are valid, and name nine ports.
pub default_reassembler_lem :
    (validate_reassembler default_reassembler ≡ ok tt)
    × (parse_ports default_reassembler.listen_ports
        ≡ ok (52311 ∷ 52312 ∷ 52313 ∷ 52314 ∷ 52315 ∷ 52316 ∷ 52317 ∷ 52318 ∷ 52319 ∷ []))
unfolding validate_reassembler parse_ports
default_reassembler_lem = (refl, refl)

-- The settings that the two sides share.
abbrev pub shared_settings : ReassemblerConfig → SplitterConfig
shared_settings c = record {
  listen = c.local_target;
  chunk_size = c.chunk_size;
  tunnel = [];
  data_send_timeout_secs = c.data_send_timeout_secs;
  heartbeat_secs = c.heartbeat_secs;
  reorder_window_bytes = c.reorder_window_bytes;
}

-- The reassembler accepts just the shared settings that the splitter accepts.
pub validate_reassembler_lem :
    (c : ReassemblerConfig) → validate_reassembler c ≡ validate (shared_settings c)
unfolding validate_reassembler validate
validate_reassembler_lem c = ground arith
