-- ===== src/Main/Wiring.antt =====
-- cmd/main.go with pkg/server.go, pkg/username.go and pkg/discovery/redis.go: what a server is that
-- main starts.
use coinsurf_proxy.Base.{
  ℕ, ◌≡◌, refl, sym, ap, ◌∙◌, subst, Bool, true, false, Option, none, some, List, [], ◌∷◌, Bytes,
  length, length-append, is_empty, slt64, sle64, inl, inr, Bool-cases, arith,
}
use coinsurf_proxy.Auth.{ok}
use coinsurf_proxy.Request.{Request}
use coinsurf_proxy.Username.{Parsing, parse}
use coinsurf_proxy.Username.Inversion.{parsed}
use coinsurf_proxy.Username.Session.{HasSession, parse-session_duration}
use coinsurf_proxy.Options.{no_options, Options, set_option, set_options}
use coinsurf_proxy.Options.Last.{session, session_max, last, set_options-number}
use coinsurf_proxy.Server.{
  Packages, HostConfig, Server, server_of, host_config, new_server, positive_or,
  default_session_duration, default_session_duration_max,
}
use coinsurf_proxy.Server.Defaults.{new_server-IsBuilt}
use coinsurf_proxy.Server.Sessions.{new_username_parser}
use coinsurf_proxy.Discovery.{Discovery, new_redis}
use coinsurf_proxy.Main.{Config, Objects, relay, quic_relay, tcp_relay, relays, server_options}

module _ (conf : Config) (o : Objects) (addrs : List Bytes) where
  server_options-session : last session (server_options conf o addrs) 0 ≡ conf.session_duration
  unfolding server_options
  server_options-session = ground arith

  server_options-session_max :
      last session_max (server_options conf o addrs) 0 ≡ conf.session_duration_max
  unfolding server_options
  server_options-session_max = ground arith

  server_options-addrs : (set_options (server_options conf o addrs) no_options).multi_addrs ≡ addrs
  unfolding server_options set_options set_option
  server_options-addrs = elim (Bool-cases (is_empty conf.development_ip)) [
    | inl empty ↦ simp empty refl
    | inr given ↦ simp given refl
  ]

-- The session durations of a new server, where the options ask for positive ones.
module _ (p : Packages) (conf : Config) (o : Objects) (addrs : List Bytes) (s : Server) where
  server-sessions :
      new_server p (server_options conf o addrs) ≡ some s
      → slt64 0 conf.session_duration ≡ true
      → slt64 0 conf.session_duration_max ≡ true
      → (s.session_duration ≡ conf.session_duration)
        × (s.session_duration_max ≡ conf.session_duration_max)
  unfolding server_of
  server-sessions built positive positive_max =
      let b = new_server-IsBuilt p (server_options conf o addrs) s built in
      (
        ap (λ (x : Server). x.session_duration) (sym b.same)
            ∙ (ap (λ d. positive_or d default_session_duration)
                  (set_options-number session (server_options conf o addrs) no_options
                    ∙ server_options-session conf o addrs)
                ∙ rw positive refl),
        ap (λ (x : Server). x.session_duration_max) (sym b.same)
            ∙ (ap (λ d. positive_or d default_session_duration_max)
                  (set_options-number session_max (server_options conf o addrs) no_options
                    ∙ server_options-session_max conf o addrs)
                ∙ rw positive_max refl),
      )

  -- On a server that main starts with a positive session duration that is at most the maximum, every
  -- accepted user name with a session gives it a positive lifetime of at most that maximum.
  pub main-session_duration :
      (sum64 : Bytes → ℕ) (username : Bytes) (req r : Request) (st : Parsing)
      → new_server p (server_options conf o addrs) ≡ some s
      → slt64 0 conf.session_duration ≡ true
      → slt64 0 conf.session_duration_max ≡ true
      → sle64 conf.session_duration conf.session_duration_max ≡ true
      → parsed req username ≡ ok st
      → parse sum64 (new_username_parser s o.location_lookup) username req ≡ ok r
      → HasSession st.session_id
      → (slt64 0 r.session_duration ≡ true)
        × (sle64 r.session_duration conf.session_duration_max ≡ true)
  main-session_duration sum64 username req r st built positive positive_max le loop accepted given =
      let (duration, most) = server-sessions built positive positive_max in
      let (lower, upper) =
        parse-session_duration sum64 (new_username_parser s o.location_lookup) username req r st
          loop accepted given (ap (slt64 0) duration ∙ positive)
          (ap (λ d. sle64 d s.session_duration_max) duration
            ∙ (ap (sle64 conf.session_duration) most ∙ le)) in
      (lower, ap (sle64 r.session_duration) (sym most) ∙ upper)

-- One address for each key.
abbrev IsPaired : Option (List Bytes × List Bytes) → Type 0
IsPaired none = Unit
IsPaired (some (addrs, keys)) = length addrs ≡ length keys

relay-IsPaired :
    (valid : Bytes → Bool) (port : ℕ) (key host : Bytes) (addrs keys : List Bytes)
    → length addrs ≡ length keys
    → IsPaired (relay valid port key host (addrs, keys))
relay-IsPaired valid port key host addrs keys h = elim (Bool-cases (slt64 0 port)) [
  | inr off ↦ rw off h
  | inl on ↦ elim (Bool-cases (valid host)) [
    | inr bad ↦ rw (on, bad) tt
    | inl good ↦
        rw (on, good)
          (omega (arith, h, length-append addrs (host ∷ []), length-append keys (key ∷ [])))
  ]
]

tcp_relay-IsPaired :
    (valid : Bytes → Bool) (conf : Config) (id : Bytes) (found : Option (List Bytes × List Bytes))
    → IsPaired found
    → IsPaired (tcp_relay valid conf id found)
tcp_relay-IsPaired valid conf id none h = tt
tcp_relay-IsPaired valid conf id (some (addrs, keys)) h =
    relay-IsPaired valid conf.tcp_relay _ _ addrs keys h

relays-IsPaired :
    (valid : Bytes → Bool) (conf : Config) (id : Bytes) → IsPaired (relays valid conf id)
unfolding relays
relays-IsPaired valid conf id =
    tcp_relay-IsPaired valid conf id (quic_relay valid conf id)
      (relay-IsPaired valid conf.quic_relay _ _ [] [] refl)

config-addrs :
    (p : Packages) (o : Options) (config : HostConfig)
    → is_empty o.multi_addrs ≡ false
    → host_config p o ≡ some config
    → config.addrs ≡ o.multi_addrs
unfolding host_config
config-addrs p o config given h = ground (arith, h, given)

-- Where main can announce its keys, there is one key for each address, and the host of the server
-- that it has started listens at these addresses and not at the default ones.
pub main-addrs :
    (p : Packages) (valid : Bytes → Bool) (conf : Config) (o : Objects) (id : Bytes)
    (addrs keys : List Bytes) (d : Discovery) (s : Server)
    → relays valid conf id ≡ some (addrs, keys)
    → new_server p (server_options conf o addrs) ≡ some s
    → new_redis conf.discovery_expiration keys ≡ some d
    → (length addrs ≡ length keys)
      × ((config : HostConfig) × (p.new_host config ≡ some s.host) × (config.addrs ≡ addrs))
unfolding new_redis
main-addrs p valid conf o id addrs keys d s found built announced =
    let b = new_server-IsBuilt p (server_options conf o addrs) s built in
    let paired : length addrs ≡ length keys =
      subst IsPaired found (relays-IsPaired valid conf id) in
    let given : is_empty addrs ≡ false = not_empty addrs keys paired announced in
    (
      paired,
      (
        b.config,
        b.made,
        config-addrs p (set_options (server_options conf o addrs) no_options) b.config
              (ap is_empty (server_options-addrs conf o addrs) ∙ given) b.configured
            ∙ server_options-addrs conf o addrs,
      ),
    )
  where
    not_empty :
        (xs ks : List Bytes)
        → length xs ≡ length ks
        → new_redis conf.discovery_expiration ks ≡ some d
        → is_empty xs ≡ false
    not_empty [] [] e h = cc
    not_empty [] (k ∷ ks) e h = cc
    not_empty (a ∷ xs) ks e h = refl
