-- ===== src/Http.antt =====
-- pkg/service_proxy_http.go, pkg/dialer.go and the helpers of pkg/utils.go: the handler of the HTTP
-- proxy. What the handler does to the world is the list of its effects, in order; what clients,
-- nodes and libp2p answer is given. The request header is fasthttp's, so its operations are
-- parameters.
pub mod Releases
pub mod Pooling
pub mod Guards
pub mod Headers
pub mod Forwarding
mod Tests
use coinsurf_proxy.Base.{
  ℕ, zero, suc, ◌+◌, Bool, true, false, not, ◌||◌, Option, none, some, List, [], ◌∷◌, ◌++◌, Bytes,
  codes, is_some, length, ◌==◌, if◌then◌else◌,
}
use coinsurf_proxy.Auth.{
  Error, invalid_auth, unauthorized, data_ran_out, blocked_domain, blocked_ip, invalid_param,
  invalid_targeting, unknown_country, unknown_region, unknown_city, other, Outcome, ok, err, panic,
}
use coinsurf_proxy.Credentials.{parse_basic_auth}
use coinsurf_proxy.Node.{Node}
use coinsurf_proxy.Request.{Request}
use coinsurf_proxy.Username.{UsernameParser, equal_fold, parse}

-- fasthttp's `RequestHeader`.
pub record RequestHeader : Type 1 where
  pub Header : Type 0
  pub peek : Bytes → Header → Option Bytes
  pub visit_all : Header → List (Bytes × Bytes)
  pub del : Bytes → Header → Header
  pub set : Bytes → Bytes → Header → Header
  pub reset_connection_close : Header → Header

-- The collaborators of the service. `sum64` is the hash that names sessions; `authenticate` and
-- `route` are those of the interfaces `Auth` and `Router`.
pub record Service : Type 0 where
  pub sum64 : Bytes → ℕ
  pub username : UsernameParser
  pub authenticate : Option Bytes → Outcome Bytes
  pub route : Request → Outcome Node

-- What the client sent, and how the rest of the exchange goes: whether the stream is opened, its
-- service is set, the accountant accepts a decrement and the request is written to the node; the
-- status of the node's response (`none` if it cannot be read); the bytes that went through the
-- counting connection; how many layers wrap the hijacked connection; whether fasthttp writes the
-- handler's response to the client and keeps the connection.
pub record Exchange (h : RequestHeader) : Type 0 where
  pub header : h.Header
  pub body : Bytes
  pub is_connect : Bool
  pub dialed : Bool
  pub service_set : Bool
  pub decremented : Bool
  pub written : Bool
  pub response : Option ℕ
  pub copied : ℕ
  pub layers : ℕ
  pub response_sent : Bool

pub data Effect (h : RequestHeader) : Type 0 where
  -- `httpError`: the status, and whether Proxy-Authenticate is set.
  http_error : ℕ → Bool → Effect h
  dial disconnect : Bytes → Effect h
  -- `skip_body` sets ImmediateHeaderFlush and SkipBody, `transfer_both` runs the two transfers.
  close_stream release_request release_reader release_count_conn transfer_both : Effect h
  decrement : Bytes → Bytes → ℕ → Effect h
  write_header write_request : h.Header → Effect h
  skip_body read_response clean_response_headers : Effect h

abbrev pub proxy_authorization : Bytes
proxy_authorization = codes "Proxy-Authorization"

abbrev pub header_ipv4 : Bytes
header_ipv4 = codes "ipv4"

abbrev pub header_ipv6 : Bytes
header_ipv6 = codes "ipv6"

-- The names that `cleanRequestHeaders` deletes, in its order.
abbrev pub cleaned_headers : List Bytes
cleaned_headers =
    codes "TLS-Browser"
    ∷ codes "TLS-OS"
    ∷ codes "Proxy-Authenticate"
    ∷ proxy_authorization
    ∷ codes "Proxy-Connection"
    ∷ codes "X-Forwarded-For"
    ∷ codes "TE"
    ∷ codes "Trailer"
    ∷ codes "Transfer-Encoding"
    ∷ codes "Upgrade"
    ∷ header_ipv4
    ∷ header_ipv6
    ∷ []

-- The status for an error of `parseRequest`.
unfoldable pub parse_status : Error → ℕ
parse_status invalid_auth = 407
parse_status unauthorized = 400
parse_status data_ran_out = 400
parse_status blocked_domain = 400
parse_status blocked_ip = 400
parse_status invalid_param = 400
parse_status invalid_targeting = 414
parse_status unknown_country = 412
parse_status unknown_region = 412
parse_status unknown_city = 412
parse_status other = 400

-- The status for an error of `Authenticate`.
unfoldable pub auth_status : Error → ℕ
auth_status invalid_auth = 500
auth_status unauthorized = 407
auth_status data_ran_out = 401
auth_status blocked_domain = 403
auth_status blocked_ip = 403
auth_status invalid_param = 500
auth_status invalid_targeting = 500
auth_status unknown_country = 500
auth_status unknown_region = 500
auth_status unknown_city = 500
auth_status other = 500

-- `UnwrapConn`: the callback runs once for each layer, and never for a bare connection.
unfoldable pub unwrap_conn {ℓ} : {A : Type ℓ} → ℕ → List A → List A
unwrap_conn zero callback = []
unwrap_conn (suc layers) callback = callback ++ unwrap_conn layers callback

-- The last header whose name folds to Proxy-Authorization.
unfoldable pub visit_authorization : List (Bytes × Bytes) → Option Bytes → Option Bytes
visit_authorization [] found = found
visit_authorization ((name, value) ∷ headers) found =
    visit_authorization headers
      (if equal_fold name (codes "proxy-authorization") then some value else found)

unfoldable pub header_size : List (Bytes × Bytes) → ℕ
header_size [] = 0
header_size ((name, value) ∷ headers) = length name + length value + 2 + header_size headers

abbrev pub with_credentials : Service → Request → Option (Bytes × Bytes) → Outcome Request
with_credentials s req none = err invalid_auth
with_credentials s req (some (username, password)) =
    parse s.sum64 s.username username (record req { password = some password })

abbrev pub with_authorization : Service → Request → Option Bytes → Outcome Request
with_authorization s req none = err invalid_auth
with_authorization s req (some auth) = with_credentials s req (parse_basic_auth auth)

module _ (h : RequestHeader) where
  unfoldable pub clean_request_headers : List Bytes → h.Header → h.Header
  clean_request_headers [] header = header
  clean_request_headers (name ∷ names) header = clean_request_headers names (h.del name header)

  unfoldable pub authorization : h.Header → Option Bytes
  unfolding visit_authorization
  authorization header = elim (h.peek proxy_authorization header) [
    | some value ↦ some value
    | none ↦ visit_authorization (h.visit_all header) none
  ]

  unfoldable pub parse_request : Service → h.Header → Request → Outcome Request
  unfolding authorization parse_basic_auth parse
  parse_request s header req = with_authorization s req (authorization header)

  -- The two `Set`s in front of the dial.
  abbrev pub set_versions : Request → h.Header → h.Header
  set_versions req header =
      let v4 = if req.ipv4 then h.set header_ipv4 (codes "1") header else header in
      if req.ipv6 then h.set header_ipv6 (codes "1") v4 else v4

module _ {h : RequestHeader} where
  abbrev pub respond : ℕ → Effect h
  respond status = http_error status (status == 407)

  abbrev pub refused : ℕ → List (Effect h)
  refused status = respond status ∷ release_request ∷ []

  abbrev pub hijacked : List (Effect h)
  hijacked = transfer_both ∷ release_request ∷ []

  -- `serveHTTPS` where the response of the node was read. fasthttp runs the hijack handler when it has
  -- written the response to the client and keeps the connection, and never otherwise.
  abbrev pub connected : Exchange h → ℕ → List (Effect h)
  connected x status =
      release_reader
      ∷ (if not (status == 200)
          then refused 410
          else clean_response_headers
            ∷ (if x.response_sent then unwrap_conn x.layers hijacked else []))

  abbrev pub answered : Exchange h → Request → Option ℕ → List (Effect h)
  answered x req none = disconnect req.peer_id ∷ respond 410 ∷ release_request ∷ release_reader ∷ []
  answered x req (some status) = connected x status

  unfoldable pub serve_https : Exchange h → Request → h.Header → List (Effect h)
  unfolding unwrap_conn header_size
  serve_https x req header =
      decrement req.user_id req.node_id (length x.body + 2 + header_size (h.visit_all header))
      ∷ (if not x.decremented
          then respond 500 ∷ close_stream ∷ release_request ∷ []
          else write_header header
            ∷ (if not x.written
                then disconnect req.peer_id ∷ respond 410 ∷ release_request ∷ []
                else skip_body ∷ read_response ∷ answered x req x.response))

  -- What `serveHTTP` defers.
  abbrev pub deferred : List (Effect h)
  deferred = release_request ∷ release_reader ∷ release_count_conn ∷ close_stream ∷ []

  abbrev pub relayed : Exchange h → Request → Option ℕ → List (Effect h)
  relayed x req none = disconnect req.peer_id ∷ respond 504 ∷ []
  relayed x req (some status) = decrement req.user_id req.node_id x.copied ∷ []

  unfoldable pub serve_http : Exchange h → Request → h.Header → List (Effect h)
  serve_http x req header =
      (write_request (h.reset_connection_close header)
        ∷ (if not x.written then respond 410 ∷ [] else read_response ∷ relayed x req x.response))
      ++ deferred

  -- The handler from `Dial` on.
  unfoldable pub forward : Exchange h → Request → h.Header → List (Effect h)
  unfolding serve_http serve_https
  forward x req header =
      dial req.peer_id
      ∷ (if not x.dialed
          then disconnect req.peer_id ∷ refused 504
          else if not x.service_set
          then close_stream ∷ refused 504
          else if x.is_connect
          then serve_https x req header
          else serve_http x req header)

  abbrev pub routed : Exchange h → Request → h.Header → Outcome Node → Outcome (List (Effect h))
  routed x req header (ok node) =
      let req' = record req { peer_id = node.id; node_id = node.user_id } in
      ok (forward x req' (set_versions h req header))
  routed x req header (err e) = ok (refused 417)
  routed x req header panic = panic

  abbrev pub authenticated :
      Service → Exchange h → Request → h.Header → Outcome Bytes → Outcome (List (Effect h))
  authenticated s x req header (ok user) =
      let req' = record req { user_id = user } in routed x req' header (s.route req')
  authenticated s x req header (err e) = ok (refused (auth_status e))
  authenticated s x req header panic = panic

  abbrev pub parsed : Service → Exchange h → Outcome Request → Outcome (List (Effect h))
  parsed s x (ok req) =
      authenticated s x req (clean_request_headers h cleaned_headers x.header)
        (s.authenticate req.password)
  parsed s x (err e) = ok (refused (parse_status e))
  parsed s x panic = panic

  -- `httpProxyHandler`. `req` is the request that the pool gives.
  unfoldable pub http_proxy_handler : Service → Exchange h → Request → Outcome (List (Effect h))
  unfolding forward parse_request clean_request_headers parse_status auth_status
  http_proxy_handler s x req = parsed s x (parse_request h s x.header req)
