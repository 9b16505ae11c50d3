-- ===== src/Server/Tests.antt =====
-- pkg/server.go and pkg/server_options.go on short lists of options, and the theorems about them.
use coinsurf_proxy.Base.{
  ◌*◌, ◌≡◌, refl, true, false, none, some, List, [], ◌∷◌, Bytes, codes, length, split, slt64, sle64,
  arith,
}
use coinsurf_proxy.Auth.{ok}
use coinsurf_proxy.Request.{Request, new_request}
use coinsurf_proxy.Router.{itoa, itoa_from}
use coinsurf_proxy.Username.{
  LocationLookup, Parsing, second, strip_prefix, take_fold, equal_fold, digits, unsigned, keyword,
  atoi, param_at, assign, parse_param, parse_params, check_targeting, check_location, with_session,
  add_session, parse,
}
use coinsurf_proxy.Username.Inversion.{parsed}
use coinsurf_proxy.Options.{
  no_options, WithOption, with_buffer_size_tcp, with_proxy_port_http, with_peerstore, set_option,
  set_options,
}
use coinsurf_proxy.Options.Last.{buffer_tcp, number, last, set_options-number}
use coinsurf_proxy.Server.{
  HostConfig, Packages, Server, server_of, host_config, new_server, listen, serve_auth, serve_http,
  default_session_duration_max,
}
use coinsurf_proxy.Server.Defaults.{IsPositive, new_server-IsPositive, new_server-peerstore}
use coinsurf_proxy.Server.Sessions.{new_username_parser, new_server-session_duration}

abbrev packages : Packages
packages = record {
  production_logger = some 1;
  new_conn_manager = some 2;
  new_resource_manager = some 3;
  new_peerstore = some 4;
  new_host = λ config. some 5;
}

computes : Unit {0}
unfolding new_server server_of host_config set_option set_options itoa itoa_from
computes = tt

abbrev options : List WithOption
options =
    with_buffer_size_tcp 512
    ∷ with_proxy_port_http 8080
    ∷ with_peerstore (some 9)
    ∷ with_buffer_size_tcp 1024
    ∷ []

abbrev server : Server
server = record {
  proxy_addr_http = codes ":8080";
  proxy_addr_socks5 = [];
  ip = [];
  buffer_size_tcp = 1024;
  buffer_size_udp = 65535;
  timeout_udp = 15 * second;
  timeout_tcp = 0;
  dial_timeout = 5 * second;
  development_ip = [];
  host = 5;
  resolver = none;
  session_duration = 600 * second;
  session_duration_max = 1800 * second;
  location = none;
  logger = some 1;
}

run_options : new_server packages options ≡ some server
unfolding computes
run_options = refl

run_no_options : new_server packages [] ≡ none
unfolding computes
run_no_options = refl

-- The services that were started keep running where the SOCKS5 service cannot be made.
run_listen : listen server false ≡ (serve_auth ∷ serve_http (codes ":8080") ∷ [], false)
unfolding listen
run_listen = refl

set_options-number_case :
    number buffer_tcp (set_options options no_options) ≡ last buffer_tcp options 0
set_options-number_case = set_options-number buffer_tcp options no_options

new_server-IsPositive_case : IsPositive server
new_server-IsPositive_case = new_server-IsPositive packages options server run_options

given_peers : (set_options options no_options).peerstore ≡ some 9
unfolding computes
given_peers = refl

new_server-peerstore_case :
    (config : HostConfig) × (packages.new_host config ≡ some 5) × (config.peerstore ≡ some 4)
new_server-peerstore_case = new_server-peerstore packages options server 9 given_peers run_options

abbrev everywhere : LocationLookup
everywhere = record { find_country = λ c. true; find_region = λ c r. true; find_city = λ c t. true }

-- A day is more than the thirty minutes of the defaults, and the session gets ten minutes.
abbrev a_day : Bytes
a_day = codes "ip-1.1-session-a-duration-86400"

abbrev a_parsing : Parsing
a_parsing = record {
  session_id = some (codes "a");
  req = record new_request { ip = some (codes "1.1"); session_duration = 86400 * second };
}

abbrev a_request : Request
a_request = record new_request {
  ip = some (codes "1.1");
  session_id = 1;
  session_duration = 600 * second;
}

parses : Unit {0}
unfolding strip_prefix take_fold equal_fold digits unsigned keyword atoi param_at assign parse_param
    parse_params check_targeting check_location with_session add_session parse split
parses = tt

run_loop : parsed new_request a_day ≡ ok a_parsing
unfolding parses
run_loop = refl

run_parse : parse length (new_username_parser server everywhere) a_day new_request ≡ ok a_request
unfolding parses
run_parse = refl

new_server-session_duration_case :
    (slt64 0 a_request.session_duration ≡ true)
    × (sle64 a_request.session_duration default_session_duration_max ≡ true)
new_server-session_duration_case =
    new_server-session_duration packages options server everywhere length a_day new_request
      a_request a_parsing run_options
      ((refl, refl), ((refl, refl), ((refl, refl), ((refl, refl), tt)))) run_loop run_parse
      (omega arith)
