-- ===== src/Socks5/Tests.antt =====
-- pkg/service_proxy_socks5.go on short connections and packets, and the theorems about it there.
use coinsurf_proxy.Base.{◌+◌, ◌≡◌, refl, true, false, some, [], ◌∷◌, codes, length, split}
use coinsurf_proxy.Auth.{ok, permission_udp}
use coinsurf_proxy.Node.{new_node}
use coinsurf_proxy.Request.{
  Request, new_request, has_permissions, all_permissions, contains_permission,
}
use coinsurf_proxy.Router.{itoa, itoa_from}
use coinsurf_proxy.Username.{
  strip_prefix, take_fold, equal_fold, keyword, atoi, param_at, assign, parse_param, parse_params,
  check_targeting, check_location, add_session, parse,
}
use coinsurf_proxy.Dialer.{NewStream, dial_stream, proxy_http_protocol}
use coinsurf_proxy.Socks5.{
  username_password, other_method, connect, udp_associate, ipv4_address, ipv6_address,
  connection_refused, SocksService, SocksConn, write_method, write_status, write_reply, dial,
  close_stream, forward_request, release_request, discard_input, transfer_both, associate,
  negotiate, offers_password, routed, reply_socks, handle_tcp, handle_udp, dispatch, join_host_port,
  has_colon, serve_conn,
}
use coinsurf_proxy.Socks5.Releases.{total, is_release, is_handover, is_crash, serve_conn-ends}
use coinsurf_proxy.Socks5.Guards.{
  streams, uses, IsGuarded, serve_conn-IsGuarded, serve_conn-protocol,
}

abbrev service : SocksService
service = record {
  sum64 = length;
  username = record {
    session_duration = 60;
    session_duration_max = 600;
    location = record {
      find_country = λ c. true;
      find_region = λ c r. true;
      find_city = λ c t. true;
    };
  };
  dial_timeout = 5;
  authenticate = λ password. ok (codes "u1", some (permission_udp ∷ []));
  route = λ r. ok (record new_node { id = codes "p1"; user_id = codes "n1" });
}

abbrev conn : SocksConn
conn = record {
  methods = some (other_method ∷ username_password ∷ []);
  refusal_written = true;
  method_written = true;
  status_written = true;
  credentials = some (codes "ip-8.8.8.8", codes "secret");
  request = some (connect, ipv4_address);
  dialed = true;
  service_set = true;
  forwarded = true;
  is_tcp = true;
  udp_port = some 53;
  remote_host = some (codes "::1");
}

abbrev stream : NewStream
stream = record { timeout = some 5; peer = codes "p1"; protocol = codes "/proxy/0.0.1" }

computes : Unit {0}
unfolding serve_conn negotiate offers_password routed reply_socks handle_tcp handle_udp dispatch
    join_host_port has_colon dial_stream itoa itoa_from has_permissions all_permissions
    contains_permission strip_prefix take_fold equal_fold keyword atoi param_at assign parse_param
    parse_params check_targeting check_location add_session parse split
computes = tt

-- A connection that carries data: its request is not released.
run_tcp :
    serve_conn service conn new_request
    ≡ write_method true
      ∷ write_status true
      ∷ dial stream
      ∷ forward_request
      ∷ transfer_both (codes "u1") (codes "n1")
      ∷ []
unfolding computes
run_tcp = refl

-- The node refuses, and the client's methods have no password: they are refused, and then accepted.
run_refused :
    serve_conn service (record conn { methods = some []; forwarded = false }) new_request
    ≡ write_method false
      ∷ write_method true
      ∷ write_status true
      ∷ dial stream
      ∷ forward_request
      ∷ close_stream
      ∷ write_reply connection_refused ipv4_address
      ∷ release_request
      ∷ []
unfolding computes
run_refused = refl

abbrev udp_request : Request
udp_request = record new_request {
  ip = some (codes "8.8.8.8");
  user_id = codes "u1";
  permissions = some (permission_udp ∷ []);
  peer_id = codes "p1";
  node_id = codes "n1";
}

run_udp :
    serve_conn service (record conn { request = some (udp_associate, ipv6_address) }) new_request
    ≡ write_method true
      ∷ write_status true
      ∷ associate (codes "[::1]:53") udp_request
      ∷ discard_input
      ∷ []
unfolding computes
run_udp = refl

serve_conn-ends_example :
    let es = serve_conn service conn new_request in
    total is_release es + (total is_handover es + total is_crash es) ≡ 1
serve_conn-ends_example = serve_conn-ends service conn new_request

serve_conn-IsGuarded_example :
    IsGuarded service conn new_request (uses (serve_conn service conn new_request))
serve_conn-IsGuarded_example = serve_conn-IsGuarded service conn new_request

run_uses : uses (serve_conn service conn new_request) ≡ streams stream ∷ []
unfolding computes
run_uses = refl

serve_conn-protocol_case : stream.protocol ≡ proxy_http_protocol
serve_conn-protocol_case = serve_conn-protocol service conn new_request stream refl run_uses
