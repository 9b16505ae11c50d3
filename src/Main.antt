-- ===== src/Main.antt =====
-- cmd/main.go: the options, the addresses and the discovery keys that the configuration asks for.
-- The key pair's id, the multiaddress parser and the objects of other packages are given.
pub mod Wiring
mod Tests
use coinsurf_proxy.Base.{
  ℕ, ◌+◌, Bool, true, false, not, Option, none, some, List, [], ◌∷◌, ◌++◌, Bytes, codes, is_empty,
  slt64, if◌then◌else◌,
}
use coinsurf_proxy.Username.{LocationLookup}
use coinsurf_proxy.Options.{
  Ref, WithOption, with_development_ip, with_ip, with_timeout_tcp, with_timeout_udp,
  with_session_duration, with_session_duration_max, with_dial_timeout, with_proxy_port_http,
  with_proxy_port_socks5, with_priv_key, with_buffer_size_tcp, with_buffer_size_udp, with_addrs,
  with_logger, with_location_lookup, with_ip_resolver, with_peerstore,
}
use coinsurf_proxy.Server.{itoa64}

-- What `main` reads of `config` for the server and discovery.
pub record Config : Type 0 where
  pub ip : Bytes
  pub development_ip : Bytes
  pub quic_relay : ℕ
  pub tcp_relay : ℕ
  pub proxy_http : ℕ
  pub proxy_socks5 : ℕ
  pub session_duration : ℕ
  pub session_duration_max : ℕ
  pub discovery_db : Bytes
  pub discovery_expiration : ℕ
  pub buffer_size_tcp : ℕ
  pub buffer_size_udp : ℕ
  pub timeout_tcp : ℕ
  pub timeout_udp : ℕ
  pub dial_timeout : ℕ

-- The objects that `main` makes for the options.
pub record Objects : Type 0 where
  pub priv_key : Ref
  pub peers : Ref
  pub logger : Ref
  pub location_lookup : LocationLookup
  pub ip_resolver : Ref

-- One of the two relays: its discovery key and its address, if its port is positive. `valid` is
-- whether `multiaddr.NewMultiaddr` accepts an address; where it does not, `main` panics.
abbrev pub relay :
    (Bytes → Bool) → ℕ → Bytes → Bytes → List Bytes × List Bytes → Option (List Bytes × List Bytes)
relay valid port key host (addrs, keys) =
    if not (slt64 0 port)
    then some (addrs, keys)
    else if not (valid host)
    then none
    else some (addrs ++ (host ∷ []), keys ++ (key ∷ []))

abbrev pub redis_key : Config → Bytes → ℕ → Bytes → Bytes → Bytes
redis_key conf transport port suffix id =
    codes ":"
    ++ (conf.discovery_db
        ++ (codes ":/ip4/"
            ++ (conf.ip ++ (transport ++ (itoa64 port ++ (suffix ++ (codes "/p2p/" ++ id)))))))

abbrev pub quic_relay : (Bytes → Bool) → Config → Bytes → Option (List Bytes × List Bytes)
quic_relay valid conf id =
    relay valid conf.quic_relay (redis_key conf (codes "/udp/") conf.quic_relay (codes "/quic") id)
      (codes "/ip4/0.0.0.0/udp/" ++ (itoa64 conf.quic_relay ++ codes "/quic")) ([], [])

abbrev pub tcp_relay :
    (Bytes → Bool)
    → Config
    → Bytes
    → Option (List Bytes × List Bytes)
    → Option (List Bytes × List Bytes)
tcp_relay valid conf id none = none
tcp_relay valid conf id (some found) =
    relay valid conf.tcp_relay (redis_key conf (codes "/tcp/") conf.tcp_relay [] id)
      (codes "/ip4/0.0.0.0/tcp/" ++ itoa64 conf.tcp_relay) found

-- `addrs` and `discoveryKeys`.
unfoldable pub relays : (Bytes → Bool) → Config → Bytes → Option (List Bytes × List Bytes)
relays valid conf id = tcp_relay valid conf id (quic_relay valid conf id)

-- `options`.
unfoldable pub server_options : Config → Objects → List Bytes → List WithOption
server_options conf o addrs =
    with_priv_key (some o.priv_key)
    ∷ with_peerstore (some o.peers)
    ∷ with_proxy_port_http conf.proxy_http
    ∷ with_proxy_port_socks5 conf.proxy_socks5
    ∷ with_ip conf.ip
    ∷ with_buffer_size_tcp conf.buffer_size_tcp
    ∷ with_buffer_size_udp conf.buffer_size_udp
    ∷ with_timeout_tcp conf.timeout_tcp
    ∷ with_timeout_udp conf.timeout_udp
    ∷ with_session_duration conf.session_duration
    ∷ with_session_duration_max conf.session_duration_max
    ∷ with_dial_timeout conf.dial_timeout
    ∷ with_logger (some o.logger)
    ∷ with_addrs addrs
    ∷ with_location_lookup (some o.location_lookup)
    ∷ with_ip_resolver (some o.ip_resolver)
    ∷ (if not (is_empty conf.development_ip)
        then with_development_ip conf.development_ip ∷ []
        else [])
