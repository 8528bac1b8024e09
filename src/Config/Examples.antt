-- ===== src/Config/Examples.antt =====
-- A configuration of the splitter, and the theorems at concrete inputs.
use round_robin.Common.{ℕ, ◌*◌, ◌≡◌, ◌↔◌, refl, false, List, [], ◌∷◌, arith, ok, err}
use round_robin.Reorder.{with_limit, push}
use round_robin.Reorder.Order.{push_all}
use round_robin.Reorder.Skew.{InSpan}
use round_robin.Config.Ports.{Ports, range, ports, parse_ports, port_zero}
use round_robin.Config.Ports.Outcome.{ParsesAs, parse_ports-ParsesAs}
use round_robin.Config.{
  SocketAddr, Tunnel, SplitterConfig, validate, zero_heartbeat, zero_tunnel_port, IsValidConfig,
  validate_lem, validate_fits,
}

abbrev addr : SocketAddr
addr = record { ip = 127 ∷ 0 ∷ 0 ∷ 1 ∷ []; port = 1080 }

abbrev tunnel : Tunnel
tunnel = record { proxy = addr; target = 97 ∷ []; port = 52311 }

abbrev config : SplitterConfig
config = record {
  listen = addr;
  chunk_size = 1024;
  tunnel = tunnel ∷ [];
  data_send_timeout_secs = 30;
  heartbeat_secs = 60;
  reorder_window_bytes = 131072;
}

config_passes : validate config ≡ ok tt
unfolding validate
config_passes = refl

heartbeat_needed : validate (record config { heartbeat_secs = 0 }) ≡ err zero_heartbeat
unfolding validate
heartbeat_needed = refl

port_needed :
    validate (record config { tunnel = record tunnel { port = 0 } ∷ [] }) ≡ err zero_tunnel_port
unfolding validate
port_needed = refl

abbrev src : ℕ → List ℕ
src k = k ∷ k ∷ []

abbrev arrivals : List ℕ
arrivals = 3 ∷ 1 ∷ 3 ∷ 2 ∷ []

arrivals-InSpan : InSpan src (1 * 128) (with_limit 131072) arrivals
unfolding push with_limit
arrivals-InSpan = omega arith

validate_lem_example : (validate config ≡ ok tt) ↔ IsValidConfig config
validate_lem_example = validate_lem config

validate_fits_example : (push_all (with_limit 131072) src arrivals).2 ≡ false
validate_fits_example =
    validate_fits config 1 src arrivals config_passes (omega arith) (omega arith) (λ k. omega arith)
      (omega arith) arrivals-InSpan

-- " 8000 -8002"
abbrev three_ports : Ports
three_ports = range (32 ∷ 56 ∷ 48 ∷ 48 ∷ 48 ∷ 32 ∷ 45 ∷ 56 ∷ 48 ∷ 48 ∷ 50 ∷ [])

three_parsed : parse_ports three_ports ≡ ok (8000 ∷ 8001 ∷ 8002 ∷ [])
unfolding parse_ports
three_parsed = refl

no_duplicate : parse_ports (ports (80 ∷ 81 ∷ 80 ∷ [])) ≡ ok (80 ∷ 81 ∷ [])
unfolding parse_ports
no_duplicate = refl

zero_refused : parse_ports (ports (80 ∷ 0 ∷ [])) ≡ err port_zero
unfolding parse_ports
zero_refused = refl

parse_ports-ParsesAs_example : ParsesAs three_ports (parse_ports three_ports)
parse_ports-ParsesAs_example = parse_ports-ParsesAs three_ports
