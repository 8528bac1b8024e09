-- ===== src/Config.antt =====
-- src/config.rs: the settings of the splitter and their validation at the start. Ports are numbers, and
-- an address of the network is the list of its bytes.
pub mod Ports
pub mod Defaults
mod Examples
use round_robin.Common.{
  ◌↔◌, ℕ, ◌*◌, ◌^◌, ◌≤◌, ◌<◌, ◌≡◌, ◌≢◌, refl, Bool, true, false, ◌||◌, List, [], ◌∷◌, length, max,
  ltb, ◌==◌, ==→eq, arith, Result, ok, err, bail_if, ◌>>◌, ◌>>=◌, All, Bool-cases, if◌then◌else◌,
}
use round_robin.Frame.{min_chunk, max_chunk}
use round_robin.Reorder.{with_limit}
use round_robin.Reorder.Order.{push_all}
use round_robin.Reorder.Stream.{Arrives}
use round_robin.Reorder.Skew.{InSpan, with_limit_fits}

pub record SocketAddr : Type 0 where
  pub ip : List ℕ
  pub port : ℕ

pub record Tunnel : Type 0 where
  pub proxy : SocketAddr
  pub target : List ℕ
  pub port : ℕ

pub record SplitterConfig : Type 0 where
  pub listen : SocketAddr
  pub chunk_size : ℕ
  pub tunnel : List Tunnel
  pub data_send_timeout_secs : ℕ
  pub heartbeat_secs : ℕ
  pub reorder_window_bytes : ℕ

-- The `bail!`s of the validation.
pub data ConfigError : Type 0 where
  bad_chunk_size zero_data_send_timeout zero_heartbeat : ConfigError
  window_below_chunk window_too_large : ConfigError
  zero_tunnel_port zero_proxy_port : ConfigError

-- The error names the setting.
unfoldable pub validate_secs : ConfigError → ℕ → Result ConfigError (Unit {0})
validate_secs name secs = bail_if (secs == 0) name

unfoldable pub validate_reorder_window : ℕ → ℕ → Result ConfigError (Unit {0})
validate_reorder_window bytes chunk_size = do
  bail_if (ltb bytes chunk_size) window_below_chunk
  bail_if (ltb (1024 * 1024 * 1024) bytes) window_too_large
  ok tt

abbrev pub any {ℓ} : {A : Type ℓ} → (A → Bool) → List A → Bool
any p [] = false
any p (x ∷ xs) = p x || any p xs

unfoldable pub validate : SplitterConfig → Result ConfigError (Unit {0})
unfolding validate_secs validate_reorder_window
validate c = do
  bail_if (ltb c.chunk_size min_chunk || ltb max_chunk c.chunk_size) bad_chunk_size
  validate_secs zero_data_send_timeout c.data_send_timeout_secs
  validate_secs zero_heartbeat c.heartbeat_secs
  validate_reorder_window c.reorder_window_bytes c.chunk_size
  bail_if (any (λ (t : Tunnel). t.port == 0) c.tunnel) zero_tunnel_port
  bail_if (any (λ (t : Tunnel). t.proxy.port == 0) c.tunnel) zero_proxy_port
  ok tt

-- What a valid configuration is.
pub record IsValidConfig (c : SplitterConfig) : Type 0 where
  pub chunk_lower : 512 ≤ c.chunk_size
  pub chunk_upper : c.chunk_size ≤ 65535
  pub timeout_positive : 1 ≤ c.data_send_timeout_secs
  pub heartbeat_positive : 1 ≤ c.heartbeat_secs
  pub window_lower : c.chunk_size ≤ c.reorder_window_bytes
  pub window_upper : c.reorder_window_bytes ≤ 2 ^ 30
  pub ports_set : All (λ (t : Tunnel). 1 ≤ t.port) c.tunnel
  pub proxies_set : All (λ (t : Tunnel). 1 ≤ t.proxy.port) c.tunnel

-- The seven checks, by the outcome of their tests.
abbrev checks : Bool → Bool → Bool → Bool → Bool → Bool → Bool → Result ConfigError (Unit {0})
checks size timeout heartbeat below large port proxy = do
  bail_if size bad_chunk_size
  bail_if timeout zero_data_send_timeout
  bail_if heartbeat zero_heartbeat
  (do bail_if below window_below_chunk; bail_if large window_too_large; ok tt)
  bail_if port zero_tunnel_port
  bail_if proxy zero_proxy_port
  ok tt

checks_pass :
    (a b c d e f g : Bool)
    → checks a b c d e f g ≡ ok tt
    → (a ≡ false)
      × (b ≡ false)
      × (c ≡ false)
      × (d ≡ false)
      × (e ≡ false)
      × (f ≡ false)
      × (g ≡ false)
checks_pass true b c d e f g h = cc
checks_pass false true c d e f g h = cc
checks_pass false false true d e f g h = cc
checks_pass false false false true e f g h = cc
checks_pass false false false false true f g h = cc
checks_pass false false false false false true g h = cc
checks_pass false false false false false false true h = cc
checks_pass false false false false false false false h = (refl, refl, refl, refl, refl, refl, refl)

none_is_zero :
    {A : Type 0} (port : A → ℕ) (xs : List A)
    → any (λ x. port x == 0) xs ≡ false
    → All (λ x. 1 ≤ port x) xs
none_is_zero port [] h = tt
none_is_zero port (x ∷ xs) h = (ground arith, none_is_zero port xs (ground arith))

none_zero_port :
    {A : Type 0} (port : A → ℕ) (xs : List A)
    → All (λ x. 1 ≤ port x) xs
    → any (λ x. port x == 0) xs ≡ false
none_zero_port port [] h = refl
none_zero_port port (x ∷ xs) (pos, more) = ground (arith, none_zero_port port xs more)

validate-IsValidConfig : (c : SplitterConfig) → validate c ≡ ok tt → IsValidConfig c
unfolding validate validate_secs validate_reorder_window
validate-IsValidConfig c h =
    let (size, timeout, heartbeat, below, large, port, proxy) =
      checks_pass (ltb c.chunk_size min_chunk || ltb max_chunk c.chunk_size)
        (c.data_send_timeout_secs == 0) (c.heartbeat_secs == 0)
        (ltb c.reorder_window_bytes c.chunk_size) (ltb (1024 * 1024 * 1024) c.reorder_window_bytes)
        (any (λ (t : Tunnel). t.port == 0) c.tunnel)
        (any (λ (t : Tunnel). t.proxy.port == 0) c.tunnel) h in
    record {
      chunk_lower = ground arith;
      chunk_upper = ground arith;
      timeout_positive = ground arith;
      heartbeat_positive = ground arith;
      window_lower = ground arith;
      window_upper = ground arith;
      ports_set = none_is_zero (λ (t : Tunnel). t.port) c.tunnel port;
      proxies_set = none_is_zero (λ (t : Tunnel). t.proxy.port) c.tunnel proxy;
    }

IsValidConfig-validate : (c : SplitterConfig) → IsValidConfig c → validate c ≡ ok tt
unfolding validate validate_secs validate_reorder_window
IsValidConfig-validate c v =
    let size : (ltb c.chunk_size min_chunk || ltb max_chunk c.chunk_size) ≡ false =
      ground (arith, v.chunk_lower, v.chunk_upper) in
    let timeout : (c.data_send_timeout_secs == 0) ≡ false = ground (arith, v.timeout_positive) in
    let heartbeat : (c.heartbeat_secs == 0) ≡ false = ground (arith, v.heartbeat_positive) in
    let below : ltb c.reorder_window_bytes c.chunk_size ≡ false = ground (arith, v.window_lower) in
    let large : ltb (1024 * 1024 * 1024) c.reorder_window_bytes ≡ false =
      ground (arith, v.window_upper) in
    λ i.
      checks (size i) (timeout i) (heartbeat i) (below i) (large i)
        (none_zero_port (λ (t : Tunnel). t.port) c.tunnel v.ports_set i)
        (none_zero_port (λ (t : Tunnel). t.proxy.port) c.tunnel v.proxies_set i)

-- A configuration passes the validation just if it is valid.
pub validate_lem : (c : SplitterConfig) → (validate c ≡ ok tt) ↔ IsValidConfig c
validate_lem c = (validate-IsValidConfig c, IsValidConfig-validate c)

-- With a valid configuration and up to four tunnels, a reorder window whose budget covers 128 chunks
-- for each of them never overflows while every frame holds at most a chunk and arrives less than
-- that many numbers ahead of the expected one.
pub validate_fits :
    (c : SplitterConfig) (tunnels : ℕ) (src : ℕ → List ℕ) (ss : List ℕ)
    → validate c ≡ ok tt
    → tunnels ≤ 4
    → tunnels * 128 * c.chunk_size ≤ c.reorder_window_bytes
    → ((k : ℕ) → length (src k) ≤ c.chunk_size)
    → Arrives src ss
    → InSpan src (tunnels * 128) (with_limit c.reorder_window_bytes) ss
    → (push_all (with_limit c.reorder_window_bytes) src ss).2 ≡ false
unfolding with_limit
validate_fits c tunnels src ss h few bytes small a n =
    let v = validate-IsValidConfig c h in
    let upper = v.window_upper in
    with_limit_fits src c.chunk_size (tunnels * 128) small c.reorder_window_bytes ss (omega arith)
      (omega arith) bytes a n
