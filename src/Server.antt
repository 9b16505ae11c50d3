-- ===== src/Server.antt =====
-- pkg/server.go: the server that the options ask for, with the defaults of what they leave open.
pub mod Defaults
pub mod Sessions
pub mod Proxies
mod Tests
use coinsurf_proxy.Base.{
  ℕ, ◌+◌, ◌-◌, ◌*◌, ◌%◌, ◌^◌, Bool, true, false, not, Option, none, some, is_some, is_none, List,
  [], ◌∷◌, ◌++◌, Bytes, codes, is_empty, ◌==◌, slt64, if◌then◌else◌,
}
use coinsurf_proxy.Options.{Ref, Options, no_options, WithOption, set_options}
use coinsurf_proxy.Router.{itoa}
use coinsurf_proxy.Username.{LocationLookup, UsernameParser, second}

abbrev pub http_proxy_addr : Bytes
http_proxy_addr = codes "0.0.0.0:9091"

abbrev pub quic_multiaddr : Bytes
quic_multiaddr = codes "/ip4/0.0.0.0/udp/4242/quic"

abbrev pub tcp_multiaddr : Bytes
tcp_multiaddr = codes "/ip4/0.0.0.0/tcp/4242"

abbrev pub default_buffer_size_tcp : ℕ
default_buffer_size_tcp = 4 * 1024

abbrev pub default_buffer_size_udp : ℕ
default_buffer_size_udp = 65535

abbrev pub default_timeout_udp : ℕ
default_timeout_udp = second * 15

abbrev pub default_session_duration : ℕ
default_session_duration = second * 60 * 10

abbrev pub default_session_duration_max : ℕ
default_session_duration_max = second * 60 * 30

abbrev pub default_dial_timeout : ℕ
default_dial_timeout = second * 5

-- `if v > 0`, and else the default.
abbrev pub positive_or : ℕ → ℕ → ℕ
positive_or v default = if slt64 0 v then v else default

-- `strconv.Itoa`.
abbrev pub itoa64 : ℕ → Bytes
itoa64 n = if slt64 n 0 then b'-' ∷ itoa ((2 ^ 64 - n) % 2 ^ 64) else itoa n

abbrev pub port_or : ℕ → Bytes → Bytes
port_or port default = if not (port == 0) then b':' ∷ itoa64 port else default

infixl 5 ◌>>=◌
abbrev pub ◌>>=◌ {ℓ κ} : {A : Type ℓ} {B : Type κ} → Option A → (A → Option B) → Option B
none >>= f = none
some a >>= f = f a

-- What `libp2p.New` is given.
pub record HostConfig : Type 0 where
  pub addrs : List Bytes
  pub identity : Option Ref
  pub conn_manager : Option Ref
  pub resource_manager : Option Ref
  pub peerstore : Option Ref

-- The functions of other packages that `NewServer` calls; `none` is an error.
pub record Packages : Type 0 where
  pub production_logger : Option Ref
  pub new_conn_manager : Option Ref
  pub new_resource_manager : Option Ref
  pub new_peerstore : Option Ref
  pub new_host : HostConfig → Option Ref

-- `Server`, less the four objects that `NewServer` is given and stores.
pub record Server : Type 0 where
  pub proxy_addr_http : Bytes
  pub proxy_addr_socks5 : Bytes
  pub ip : Bytes
  pub buffer_size_tcp : ℕ
  pub buffer_size_udp : ℕ
  pub timeout_udp : ℕ
  pub timeout_tcp : ℕ
  pub dial_timeout : ℕ
  pub development_ip : Bytes
  pub host : Ref
  pub resolver : Option Ref
  pub session_duration : ℕ
  pub session_duration_max : ℕ
  pub location : Option LocationLookup
  pub logger : Option Ref

-- The object that an option gives, or one that is made.
abbrev pub given_or : Option Ref → Option Ref → Option Ref
given_or (some r) made = some r
given_or none made = made

unfoldable pub server_of : Packages → Options → Ref → Server
server_of p o host = record {
  proxy_addr_http = port_or o.proxy_port_http http_proxy_addr;
  proxy_addr_socks5 = port_or o.proxy_port_socks5 [];
  ip = o.ip;
  buffer_size_tcp = positive_or o.buffer_size_tcp default_buffer_size_tcp;
  buffer_size_udp = positive_or o.buffer_size_udp default_buffer_size_udp;
  timeout_udp = positive_or o.timeout_udp default_timeout_udp;
  timeout_tcp = positive_or o.timeout_tcp 0;
  dial_timeout = positive_or o.dial_timeout default_dial_timeout;
  development_ip = o.development_ip;
  host = host;
  resolver = o.resolver;
  session_duration = positive_or o.session_duration default_session_duration;
  session_duration_max = positive_or o.session_duration_max default_session_duration_max;
  location = o.location_lookup;
  logger = given_or o.logger p.production_logger;
}

-- The peer store of the host: a new one is made where an option gives one.
abbrev pub with_peers : Packages → Options → Option (Option Ref)
with_peers p o = elim o.peerstore [
  | none ↦ some none
  | some given ↦ elim p.new_peerstore [ none ↦ none | some made ↦ some (some made) ]
]

unfoldable pub host_config : Packages → Options → Option HostConfig
host_config p o = do
  conn_manager ← given_or o.conn_manager p.new_conn_manager
  resource_manager ← given_or o.resource_manager p.new_resource_manager
  peers ← with_peers p o
  some (record {
    addrs = if is_empty o.multi_addrs then quic_multiaddr ∷ tcp_multiaddr ∷ [] else o.multi_addrs;
    identity = o.priv_key;
    conn_manager = some conn_manager;
    resource_manager = some resource_manager;
    peerstore = peers;
  })

abbrev pub hosted : Packages → Options → Option HostConfig → Option Server
hosted p o none = none
hosted p o (some config) = elim (p.new_host config) [
  | none ↦ none
  | some host ↦ some (server_of p o host)
]

-- `NewServer`; `none` is an error.
unfoldable pub new_server : Packages → List WithOption → Option Server
unfolding set_options server_of host_config
new_server p options =
    let o = set_options options no_options in
    if is_empty options then none else hosted p o (host_config p o)

-- What `Listen` does; a service that it serves runs on in a goroutine.
pub data ListenEffect : Type 0 where
  serve_auth : ListenEffect
  serve_http serve_socks5 : Bytes → ListenEffect
  wait_done close_host : ListenEffect

-- `Listen`, by whether the SOCKS5 service can be made; the Boolean is whether it returns no error.
unfoldable pub listen : Server → Bool → List ListenEffect × Bool
listen s socks5_made =
    if not socks5_made then (serve_auth ∷ serve_http s.proxy_addr_http ∷ [], false) else (
      serve_auth
          ∷ serve_http s.proxy_addr_http
          ∷ serve_socks5 s.proxy_addr_socks5
          ∷ wait_done
          ∷ close_host
          ∷ [],
      true,
    )
