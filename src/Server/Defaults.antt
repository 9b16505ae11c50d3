-- ===== src/Server/Defaults.antt =====
-- pkg/server.go, NewServer: what the fields of a new server are.
use coinsurf_proxy.Base.{
  ℕ, ◌≡◌, refl, sym, ap, ◌∙◌, subst, true, Option, none, some, List, is_empty, slt64, inl, inr,
  Bool-cases, Option-cases, some_inj, arith,
}
use coinsurf_proxy.Options.{Ref, Options, no_options, WithOption, set_options}
use coinsurf_proxy.Server.{
  positive_or, Packages, HostConfig, Server, server_of, host_config, hosted, new_server,
  default_buffer_size_tcp, default_buffer_size_udp, default_timeout_udp, default_dial_timeout,
  default_session_duration, default_session_duration_max,
}

-- A server stands on a host that libp2p made for the configuration.
pub record IsBuilt (p : Packages) (o : Options) (s : Server) : Type 0 where
  pub config : HostConfig
  pub configured : host_config p o ≡ some config
  pub made : p.new_host config ≡ some s.host
  pub same : server_of p o s.host ≡ s

module _ (p : Packages) where
  hosted-IsBuilt :
      (o : Options) (c : Option HostConfig) (s : Server)
      → host_config p o ≡ c
      → hosted p o c ≡ some s
      → IsBuilt p o s
  unfolding server_of
  hosted-IsBuilt o none s e h = cc
  hosted-IsBuilt o (some config) s e h = elim (Option-cases (p.new_host config)) [
    | inl failed ↦ absurd (ground (arith, h, failed))
    | inr (host, made) ↦
        let same : server_of p o host ≡ s = some_inj (rw (made, hosted) at h) in
        let hosts : host ≡ s.host = ap (λ (x : Server). x.host) same in
        record {
          config = config;
          configured = e;
          made = made ∙ ap some hosts;
          same = ap (server_of p o) (sym hosts) ∙ same;
        }
  ]

  pub new_server-IsBuilt :
      (options : List WithOption) (s : Server)
      → new_server p options ≡ some s
      → IsBuilt p (set_options options no_options) s
  unfolding new_server
  new_server-IsBuilt options s h = elim (Bool-cases (is_empty options)) [
    | inl empty ↦ absurd (ground (arith, h, empty))
    | inr some_given ↦
        hosted-IsBuilt (set_options options no_options) _ s refl (rw (some_given, new_server) at h)
  ]

-- The sizes and times of a new server that must be positive.
abbrev pub IsPositive : Server → Type 0
IsPositive s =
    (slt64 0 s.buffer_size_tcp ≡ true)
    × (slt64 0 s.buffer_size_udp ≡ true)
    × (slt64 0 s.timeout_udp ≡ true)
    × (slt64 0 s.dial_timeout ≡ true)
    × (slt64 0 s.session_duration ≡ true)
    × (slt64 0 s.session_duration_max ≡ true)

positive_or-positive :
    (v default : ℕ) → slt64 0 default ≡ true → slt64 0 (positive_or v default) ≡ true
positive_or-positive v default h = elim (Bool-cases (slt64 0 v)) [
  | inl positive ↦ rw positive positive
  | inr other ↦ rw other h
]

server_of-IsPositive : (p : Packages) (o : Options) (host : Ref) → IsPositive (server_of p o host)
unfolding server_of
server_of-IsPositive p o host = (
  positive_or-positive o.buffer_size_tcp default_buffer_size_tcp refl,
  positive_or-positive o.buffer_size_udp default_buffer_size_udp refl,
  positive_or-positive o.timeout_udp default_timeout_udp refl,
  positive_or-positive o.dial_timeout default_dial_timeout refl,
  positive_or-positive o.session_duration default_session_duration refl,
  positive_or-positive o.session_duration_max default_session_duration_max refl,
)

-- Whatever the options are, the buffers, the UDP and dial timeouts and the two session durations of
-- a new server are positive.
pub new_server-IsPositive :
    (p : Packages) (options : List WithOption) (s : Server)
    → new_server p options ≡ some s
    → IsPositive s
new_server-IsPositive p options s h =
    let b = new_server-IsBuilt p options s h in
    subst IsPositive b.same (server_of-IsPositive p (set_options options no_options) s.host)

config-peerstore :
    (p : Packages) (o : Options) (config : HostConfig) (given : Ref)
    → o.peerstore ≡ some given
    → host_config p o ≡ some config
    → config.peerstore ≡ p.new_peerstore
unfolding host_config
config-peerstore p o config given e h = ground (arith, e, h)

-- A peer store that an option gives is never used: the host gets a new one in its place.
pub new_server-peerstore :
    (p : Packages) (options : List WithOption) (s : Server) (given : Ref)
    → (set_options options no_options).peerstore ≡ some given
    → new_server p options ≡ some s
    → (config : HostConfig) × (p.new_host config ≡ some s.host)
      × (config.peerstore ≡ p.new_peerstore)
new_server-peerstore p options s given e h =
    let b = new_server-IsBuilt p options s h in
    (
      b.config,
      b.made,
      config-peerstore p (set_options options no_options) b.config given e b.configured,
    )
