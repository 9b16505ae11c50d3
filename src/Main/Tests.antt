-- ===== src/Main/Tests.antt =====
-- cmd/main.go at its default configuration, and the theorems about it there.
use coinsurf_proxy.Base.{
  ◌*◌, ◌≡◌, refl, true, some, List, [], ◌∷◌, Bytes, codes, length, split, slt64, sle64, arith,
}
use coinsurf_proxy.Auth.{ok}
use coinsurf_proxy.Request.{Request, new_request}
use coinsurf_proxy.Router.{itoa, itoa_from}
use coinsurf_proxy.Username.{
  Parsing, second, strip_prefix, take_fold, equal_fold, digits, unsigned, keyword, atoi, param_at,
  assign, parse_param, parse_params, check_targeting, check_location, with_session, add_session,
  parse,
}
use coinsurf_proxy.Username.Inversion.{parsed}
use coinsurf_proxy.Options.{set_option, set_options}
use coinsurf_proxy.Server.{HostConfig, Packages, Server, server_of, host_config, new_server}
use coinsurf_proxy.Server.Sessions.{new_username_parser}
use coinsurf_proxy.Discovery.{Discovery, new_redis}
use coinsurf_proxy.Main.{Config, Objects, relays, server_options}
use coinsurf_proxy.Main.Wiring.{main-session_duration, main-addrs}

abbrev packages : Packages
packages = record {
  production_logger = some 1;
  new_conn_manager = some 2;
  new_resource_manager = some 3;
  new_peerstore = some 4;
  new_host = λ config. some 5;
}

abbrev defaults : Config
defaults = record {
  ip = codes "9.9.9.9";
  development_ip = [];
  quic_relay = 4242;
  tcp_relay = 4242;
  proxy_http = 9091;
  proxy_socks5 = 1080;
  session_duration = 600 * second;
  session_duration_max = 3600 * second;
  discovery_db = codes "3";
  discovery_expiration = 5 * second;
  buffer_size_tcp = 4096;
  buffer_size_udp = 65507;
  timeout_tcp = 30 * second;
  timeout_udp = 15 * second;
  dial_timeout = 5 * second;
}

abbrev objects : Objects
objects = record {
  priv_key = 6;
  peers = 7;
  logger = 8;
  location_lookup = record {
    find_country = λ c. true;
    find_region = λ c r. true;
    find_city = λ c t. true;
  };
  ip_resolver = 9;
}

computes : Unit {0}
unfolding relays server_options set_option set_options server_of host_config new_server new_redis
    itoa itoa_from
computes = tt

abbrev addrs : List Bytes
addrs = codes "/ip4/0.0.0.0/udp/4242/quic" ∷ codes "/ip4/0.0.0.0/tcp/4242" ∷ []

abbrev keys : List Bytes
keys = codes ":3:/ip4/9.9.9.9/udp/4242/quic/p2p/k" ∷ codes ":3:/ip4/9.9.9.9/tcp/4242/p2p/k" ∷ []

run_relays : relays (λ host. true) defaults (codes "k") ≡ some (addrs, keys)
unfolding computes
run_relays = refl

abbrev server : Server
server = record {
  proxy_addr_http = codes ":9091";
  proxy_addr_socks5 = codes ":1080";
  ip = codes "9.9.9.9";
  buffer_size_tcp = 4096;
  buffer_size_udp = 65507;
  timeout_udp = 15 * second;
  timeout_tcp = 30 * second;
  dial_timeout = 5 * second;
  development_ip = [];
  host = 5;
  resolver = some 9;
  session_duration = 600 * second;
  session_duration_max = 3600 * second;
  location = some objects.location_lookup;
  logger = some 8;
}

run_server : new_server packages (server_options defaults objects addrs) ≡ some server
unfolding computes
run_server = refl

abbrev discovery : Discovery
discovery = record { hosts = keys; expiration = 5 * second }

run_discovery : new_redis defaults.discovery_expiration keys ≡ some discovery
unfolding computes
run_discovery = refl

main-addrs_case :
    (length addrs ≡ length keys)
    × ((config : HostConfig) × (packages.new_host config ≡ some 5) × (config.addrs ≡ addrs))
main-addrs_case =
    main-addrs packages (λ host. true) defaults objects (codes "k") addrs keys discovery server
      run_relays run_server run_discovery

-- Two hours are more than the hour of the configuration, and the session gets ten minutes.
abbrev two_hours : Bytes
two_hours = codes "ip-1.1-session-a-duration-7200"

abbrev a_parsing : Parsing
a_parsing = record {
  session_id = some (codes "a");
  req = record new_request { ip = some (codes "1.1"); session_duration = 7200 * second };
}

abbrev a_request : Request
a_request = record new_request {
  ip = some (codes "1.1");
  session_id = 1;
  session_duration = 600 * second;
}

parses : Unit {0}
unfolding strip_prefix take_fold equal_fold digits unsigned keyword atoi param_at assign parse_param
    parse_params check_targeting check_location with_session add_session parse split
parses = tt

run_loop : parsed new_request two_hours ≡ ok a_parsing
unfolding parses
run_loop = refl

run_parse :
    parse length (new_username_parser server objects.location_lookup) two_hours new_request
    ≡ ok a_request
unfolding parses
run_parse = refl

main-session_duration_example :
    (slt64 0 a_request.session_duration ≡ true)
    × (sle64 a_request.session_duration defaults.session_duration_max ≡ true)
main-session_duration_example =
    main-session_duration packages defaults objects addrs server length two_hours new_request
      a_request a_parsing run_server refl refl refl run_loop run_parse (omega arith)
