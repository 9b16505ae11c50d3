-- ===== src/Server/Proxies/Tests.antt =====
-- pkg/server.go: a request of each proxy with one user in Redis and one node, and the theorems about
-- both there.
use coinsurf_proxy.Base.{
  ◌≡◌, refl, ◌⊎◌, true, false, Option, none, some, List, [], ◌∷◌, Bytes, codes, Assoc, lookup,
  insert, erase, split, length,
}
use coinsurf_proxy.Auth.{ok}
use coinsurf_proxy.Request.{new_request, is_random_location}
use coinsurf_proxy.Credentials.{
  parse_basic_auth, decode, decode_quanta, quantum, sextet, cut, without_newlines,
}
use coinsurf_proxy.Username.{
  strip_prefix, take_fold, equal_fold, keyword, atoi, param_at, assign, parse_param, parse_params,
  check_targeting, check_location, add_session, parse,
}
use coinsurf_proxy.RedisAuth.{Reply, found, missing, Entry, Gcache, authenticate}
use coinsurf_proxy.Router.Genji.{Value, text, text_field, document_to_node}
use coinsurf_proxy.Router.Genji.Routing.{
  route, route_new, find_session, pick, target_query, save_session,
}
use coinsurf_proxy.Router.Genji.Tests.Stores.{documents, cache, codec}
use coinsurf_proxy.Http.{
  RequestHeader, Exchange, Effect, http_proxy_handler, parse_request, authorization,
  visit_authorization, clean_request_headers, forward, dial, disconnect, respond, release_request,
}
use coinsurf_proxy.Http.Guards.{dials}
use coinsurf_proxy.Socks5.{username_password, connect, ipv4_address, SocksConn, serve_conn}
use coinsurf_proxy.Socks5.Negotiation.{IsNegotiated}
use coinsurf_proxy.Socks5.Guards.{uses, IsUsed}
use coinsurf_proxy.Server.Proxies.{
  Shared, States, http_service, socks_service, IsServed, IsDialable, http-IsServed, socks-IsServed,
}

abbrev reply : Option Entry → Reply Entry
reply none = missing
reply (some e) = found e

abbrev users : Gcache
users = record {
  Store = Assoc Entry;
  get = λ k s. reply (lookup k s);
  set_with_expire = λ k e n s. some (insert k e s);
  remove = erase;
  purge = λ s. [];
}

abbrev shared : Shared
shared = record {
  sum64 = length;
  username = record {
    session_duration = 60;
    session_duration_max = 600;
    location = record {
      find_country = λ c. true;
      find_region = λ c r. true;
      find_city = λ c t. true;
    };
  };
  dial_timeout = 5;
  users = users;
  redis = record {
    get = λ key. found (codes "record");
    ttl = λ key. found 60;
    id = λ metadata. codes "u1";
    has_udp = λ metadata. false;
    expiration = 3600;
  };
  database = documents;
  sessions = cache;
  codec = codec;
}

abbrev field : Bytes → Bytes → Bytes × Value
field name v = (name, text v)

abbrev states : States shared
states = record {
  known = [];
  nodes = record {
    db =
        (field (codes "peer_id") (codes "p1")
          ∷ field (codes "api_key") (codes "k")
          ∷ field (codes "user_id") (codes "u2")
          ∷ field (codes "country") (codes "us")
          ∷ field (codes "region") (codes "texas")
          ∷ field (codes "city") (codes "austin")
          ∷ field (codes "os") (codes "linux")
          ∷ field (codes "version") (codes "1")
          ∷ field (codes "app_version") (codes "2")
          ∷ field (codes "ipv4") (codes "1.2.3.4")
          ∷ field (codes "ipv6") []
          ∷ [])
        ∷ [];
    pools = [];
    sessions = [];
  };
}

abbrev fields : RequestHeader
fields = record {
  Header = Assoc Bytes;
  peek = lookup;
  visit_all = λ x. x;
  del = erase;
  set = insert;
  reset_connection_close = λ x. x;
}

-- "ip-1:k" in Basic credentials; the node cannot be reached.
abbrev exchange : Exchange fields
exchange = record {
  header = (codes "Proxy-Authorization", codes "Basic aXAtMTpr") ∷ [];
  body = [];
  is_connect = true;
  dialed = false;
  service_set = true;
  decremented = true;
  written = true;
  response = none;
  copied = 0;
  layers = 1;
  response_sent = true;
}

abbrev run : List (Effect fields)
run = dial (codes "p1") ∷ disconnect (codes "p1") ∷ respond 504 ∷ release_request ∷ []

run_http : http_proxy_handler (http_service shared states) exchange new_request ≡ ok run
unfolding http_proxy_handler parse_request authorization visit_authorization clean_request_headers
    forward parse_basic_auth decode decode_quanta quantum sextet cut without_newlines lookup erase
    insert strip_prefix take_fold equal_fold keyword atoi param_at assign parse_param parse_params
    check_targeting check_location add_session parse split authenticate route route_new find_session
    pick target_query save_session document_to_node text_field is_random_location
run_http = refl

http-IsServed_example :
    (dials run ≡ [])
    ⊎ ((id : Bytes) × IsDialable shared states exchange new_request id × (dials run ≡ id ∷ []))
http-IsServed_example = http-IsServed shared states exchange new_request run run_http

abbrev conn : SocksConn
conn = record {
  methods = some (username_password ∷ []);
  refusal_written = true;
  method_written = true;
  status_written = true;
  credentials = some (codes "ip-1", codes "k");
  request = some (connect, ipv4_address);
  dialed = true;
  service_set = true;
  forwarded = true;
  is_tcp = true;
  udp_port = none;
  remote_host = none;
}

socks-IsServed_example :
    let us = uses (serve_conn (socks_service shared states) conn new_request) in
    (us ≡ [])
    ⊎ ((r : _) × (n : IsNegotiated (socks_service shared states) conn new_request r) × IsServed
          shared states n.passwd n.user.0 n.targeted n.node
        × IsUsed (socks_service shared states) r us)
socks-IsServed_example = socks-IsServed shared states conn new_request
