-- ===== src/Http/Releases.antt =====
-- pkg/service_proxy_http.go: the release of the pooled request.
use coinsurf_proxy.Base.{
  ℕ, zero, suc, ◌+◌, ◌≡◌, ◌≢◌, refl, true, Option, none, some, List, [], ◌∷◌, Bytes, arith,
}
use coinsurf_proxy.Auth.{Outcome, ok, err, panic}
use coinsurf_proxy.Node.{Node}
use coinsurf_proxy.Request.{Request}
use coinsurf_proxy.Http.{
  RequestHeader, Service, Exchange, Effect, http_error, dial, disconnect, close_stream,
  release_request, release_reader, release_count_conn, transfer_both, decrement, write_header,
  write_request, skip_body, read_response, clean_response_headers, unwrap_conn, hijacked, connected,
  answered, serve_https, serve_http, forward, routed, authenticated, parsed, parse_request,
  clean_request_headers, cleaned_headers, http_proxy_handler,
}

module _ {h : RequestHeader} where
  abbrev pub releases_request : Effect h → ℕ
  releases_request (http_error status challenge) = 0
  releases_request (dial id) = 0
  releases_request (disconnect id) = 0
  releases_request close_stream = 0
  releases_request release_request = 1
  releases_request release_reader = 0
  releases_request release_count_conn = 0
  releases_request transfer_both = 0
  releases_request (decrement user node n) = 0
  releases_request (write_header header) = 0
  releases_request (write_request header) = 0
  releases_request skip_body = 0
  releases_request read_response = 0
  releases_request clean_response_headers = 0

  abbrev pub releases : List (Effect h) → ℕ
  releases [] = 0
  releases (e ∷ es) = releases_request e + releases es

module _ (h : RequestHeader) where
  unwrap_conn-releases : (n : ℕ) → releases {h = h} (unwrap_conn n hijacked) ≡ n
  unfolding unwrap_conn
  unwrap_conn-releases zero = refl
  unwrap_conn-releases (suc n) = omega (arith, unwrap_conn-releases n)

module _ {h : RequestHeader} where
  connected-releases :
      (x : Exchange h) (status : ℕ)
      → x.layers ≡ 1
      → x.response_sent ≡ true
      → releases (connected x status) ≡ 1
  unfolding unwrap_conn
  connected-releases x status one sent = ground (arith, sent, unwrap_conn-releases h x.layers)

  answered-releases :
      (x : Exchange h) (req : Request) (response : Option ℕ)
      → x.layers ≡ 1
      → x.response_sent ≡ true
      → releases (answered x req response) ≡ 1
  answered-releases x req none one sent = refl
  answered-releases x req (some status) one sent = connected-releases x status one sent

  serve_https-releases :
      (x : Exchange h) (req : Request) (header : h.Header)
      → x.layers ≡ 1
      → x.response_sent ≡ true
      → releases (serve_https x req header) ≡ 1
  unfolding serve_https
  serve_https-releases x req header one sent =
      ground (arith, answered-releases x req x.response one sent)

  serve_http-releases :
      (x : Exchange h) (req : Request) (header : h.Header) → releases (serve_http x req header) ≡ 1
  unfolding serve_http
  serve_http-releases x req header = ground arith

  forward-releases :
      (x : Exchange h) (req : Request) (header : h.Header)
      → x.layers ≡ 1
      → x.response_sent ≡ true
      → releases (forward x req header) ≡ 1
  unfolding forward
  forward-releases x req header one sent =
      ground (arith, serve_https-releases x req header one, serve_http-releases x req header)

  -- The outcome is a panic, or effects that release the request once.
  abbrev IsReleased : Outcome (List (Effect h)) → Type 0
  IsReleased (ok es) = releases es ≡ 1
  IsReleased (err e) = ⊥
  IsReleased panic = Unit

  released :
      (o : Outcome (List (Effect h)))
      → IsReleased o
      → o ≢ panic
      → (es : List (Effect h)) × (o ≡ ok es) × (releases es ≡ 1)
  released (ok es) once calm = (es, refl, once)
  released (err e) once calm = absurd once
  released panic once calm = absurd (calm refl)

  routed-IsReleased :
      (x : Exchange h) (req : Request) (header : h.Header) (o : Outcome Node)
      → x.layers ≡ 1
      → x.response_sent ≡ true
      → IsReleased (routed x req header o)
  routed-IsReleased x req header (ok node) one sent = forward-releases x _ _ one sent
  routed-IsReleased x req header (err e) one sent = refl
  routed-IsReleased x req header panic one sent = tt

  authenticated-IsReleased :
      (s : Service) (x : Exchange h) (req : Request) (header : h.Header) (o : Outcome Bytes)
      → x.layers ≡ 1
      → x.response_sent ≡ true
      → IsReleased (authenticated s x req header o)
  authenticated-IsReleased s x req header (ok user) one sent =
      routed-IsReleased x (record req { user_id = user }) header
        (s.route (record req { user_id = user })) one sent
  authenticated-IsReleased s x req header (err e) one sent = refl
  authenticated-IsReleased s x req header panic one sent = tt

  parsed-IsReleased :
      (s : Service) (x : Exchange h) (o : Outcome Request)
      → x.layers ≡ 1
      → x.response_sent ≡ true
      → IsReleased (parsed s x o)
  parsed-IsReleased s x (ok req) one sent =
      authenticated-IsReleased s x req (clean_request_headers h cleaned_headers x.header)
        (s.authenticate req.password) one sent
  parsed-IsReleased s x (err e) one sent = refl
  parsed-IsReleased s x panic one sent = tt

  -- Where the hijacked connection is wrapped in one layer and fasthttp writes the response to the
  -- client and keeps the connection, a run of the handler that does not panic releases the pooled
  -- request exactly once, on every branch; the handler returns no error.
  pub http_proxy_handler-releases :
      (s : Service) (x : Exchange h) (req : Request)
      → x.layers ≡ 1
      → x.response_sent ≡ true
      → http_proxy_handler s x req ≢ panic
      → (es : List (Effect h)) × (http_proxy_handler s x req ≡ ok es) × (releases es ≡ 1)
  unfolding http_proxy_handler
  http_proxy_handler-releases s x req one sent calm =
      released (http_proxy_handler s x req)
        (parsed-IsReleased s x (parse_request h s x.header req) one sent) calm
