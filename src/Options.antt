-- ===== src/Options.antt =====
-- pkg/server_options.go: the options of the server. Objects of other packages (connection and
-- resource managers, keys, loggers, resolvers, peer stores) are references, which the code passes on
-- or compares with nil.
pub mod Last
use coinsurf_proxy.Base.{ℕ, Option, none, some, List, [], ◌∷◌, Bytes}
use coinsurf_proxy.Username.{LocationLookup}

-- A reference to an object of another package.
abbrev pub Ref : Type 0
Ref = ℕ

-- `Options`; nil is `none`. Numbers are 64-bit patterns.
pub record Options : Type 0 where
  pub buffer_size_tcp : ℕ
  pub buffer_size_udp : ℕ
  pub dial_timeout : ℕ
  pub session_duration : ℕ
  pub session_duration_max : ℕ
  pub timeout_tcp : ℕ
  pub timeout_udp : ℕ
  pub proxy_port_http : ℕ
  pub proxy_port_socks5 : ℕ
  pub conn_manager : Option Ref
  pub resource_manager : Option Ref
  pub ip : Bytes
  pub development_ip : Bytes
  pub priv_key : Option Ref
  pub logger : Option Ref
  pub location_lookup : Option LocationLookup
  pub resolver : Option Ref
  pub peerstore : Option Ref
  pub multi_addrs : List Bytes

-- `new(Options)`.
abbrev pub no_options : Options
no_options = record {
  buffer_size_tcp = 0;
  buffer_size_udp = 0;
  dial_timeout = 0;
  session_duration = 0;
  session_duration_max = 0;
  timeout_tcp = 0;
  timeout_udp = 0;
  proxy_port_http = 0;
  proxy_port_socks5 = 0;
  conn_manager = none;
  resource_manager = none;
  ip = [];
  development_ip = [];
  priv_key = none;
  logger = none;
  location_lookup = none;
  resolver = none;
  peerstore = none;
  multi_addrs = [];
}

-- The functions `With…`.
pub data WithOption : Type 0 where
  with_development_ip with_ip : Bytes → WithOption
  with_timeout_tcp with_timeout_udp with_session_duration with_session_duration_max : ℕ → WithOption
  with_dial_timeout with_proxy_port_http with_proxy_port_socks5 : ℕ → WithOption
  with_conn_manager with_resource_manager with_priv_key : Option Ref → WithOption
  with_buffer_size_tcp with_buffer_size_udp : ℕ → WithOption
  with_addrs : List Bytes → WithOption
  with_logger : Option Ref → WithOption
  with_location_lookup : Option LocationLookup → WithOption
  with_ip_resolver with_peerstore : Option Ref → WithOption

unfoldable pub set_option : WithOption → Options → Options
set_option (with_development_ip v) o = record o { development_ip = v }
set_option (with_ip v) o = record o { ip = v }
set_option (with_timeout_tcp t) o = record o { timeout_tcp = t }
set_option (with_timeout_udp t) o = record o { timeout_udp = t }
set_option (with_session_duration t) o = record o { session_duration = t }
set_option (with_session_duration_max t) o = record o { session_duration_max = t }
set_option (with_dial_timeout t) o = record o { dial_timeout = t }
set_option (with_proxy_port_http n) o = record o { proxy_port_http = n }
set_option (with_proxy_port_socks5 n) o = record o { proxy_port_socks5 = n }
set_option (with_conn_manager r) o = record o { conn_manager = r }
set_option (with_resource_manager r) o = record o { resource_manager = r }
set_option (with_priv_key r) o = record o { priv_key = r }
set_option (with_buffer_size_tcp n) o = record o { buffer_size_tcp = n }
set_option (with_buffer_size_udp n) o = record o { buffer_size_udp = n }
set_option (with_addrs v) o = record o { multi_addrs = v }
set_option (with_logger r) o = record o { logger = r }
set_option (with_location_lookup l) o = record o { location_lookup = l }
set_option (with_ip_resolver r) o = record o { resolver = r }
set_option (with_peerstore r) o = record o { peerstore = r }

-- `for _, o := range options { o(opt) }`.
unfoldable pub set_options : List WithOption → Options → Options
unfolding set_option
set_options [] o = o
set_options (x ∷ options) o = set_options options (set_option x o)
