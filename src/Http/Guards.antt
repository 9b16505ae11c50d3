-- ===== src/Http/Guards.antt =====
-- pkg/service_proxy_http.go: what stands in front of a stream to a node.
use coinsurf_proxy.Base.{
  ℕ, zero, suc, ◌≡◌, refl, subst, ◌⊎◌, inl, inr, Option, none, some, List, [], ◌∷◌, Bytes, arith,
}
use coinsurf_proxy.Auth.{Outcome, ok, err, panic}
use coinsurf_proxy.Node.{Node}
use coinsurf_proxy.Request.{Request}
use coinsurf_proxy.Http.{
  RequestHeader, Service, Exchange, Effect, http_error, dial, disconnect, close_stream,
  release_request, release_reader, release_count_conn, transfer_both, decrement, write_header,
  write_request, skip_body, read_response, clean_response_headers, unwrap_conn, hijacked, answered,
  serve_https, serve_http, forward, routed, authenticated, parsed, parse_request,
  http_proxy_handler, clean_request_headers, cleaned_headers,
}

module _ {h : RequestHeader} where
  abbrev dialed_with : Effect h → List Bytes → List Bytes
  dialed_with (http_error status challenge) ids = ids
  dialed_with (dial id) ids = id ∷ ids
  dialed_with (disconnect id) ids = ids
  dialed_with close_stream ids = ids
  dialed_with release_request ids = ids
  dialed_with release_reader ids = ids
  dialed_with release_count_conn ids = ids
  dialed_with transfer_both ids = ids
  dialed_with (decrement user node n) ids = ids
  dialed_with (write_header header) ids = ids
  dialed_with (write_request header) ids = ids
  dialed_with skip_body ids = ids
  dialed_with read_response ids = ids
  dialed_with clean_response_headers ids = ids

  -- The peers that are dialled, in order.
  abbrev pub dials : List (Effect h) → List Bytes
  dials [] = []
  dials (e ∷ es) = dialed_with e (dials es)

module _ (h : RequestHeader) where
  unwrap_conn-dials : (n : ℕ) → dials {h = h} (unwrap_conn n hijacked) ≡ []
  unfolding unwrap_conn
  unwrap_conn-dials zero = refl
  unwrap_conn-dials (suc n) = unwrap_conn-dials n

module _ {h : RequestHeader} where
  answered-dials :
      (x : Exchange h) (req : Request) (response : Option ℕ) → dials (answered x req response) ≡ []
  answered-dials x req none = refl
  answered-dials x req (some status) = ground (arith, unwrap_conn-dials h x.layers)

  forward-dials :
      (x : Exchange h) (req : Request) (header : h.Header)
      → dials (forward x req header) ≡ req.peer_id ∷ []
  unfolding forward serve_https serve_http
  forward-dials x req header = ground (arith, answered-dials x req x.response)

  -- What was checked before the effects: the client's request was parsed, its password
  -- authenticated a user, and the router chose the node for that user's request.
  abbrev pub IsAdmitted : Service → Exchange h → Request → Bytes → Type 0
  IsAdmitted s x req id =
      (r : Request) × (user : Bytes) × (node : Node) × (parse_request h s x.header req ≡ ok r)
      × (s.authenticate r.password ≡ ok user)
      × (s.route (record r { user_id = user }) ≡ ok node)
      × (node.id ≡ id)

  -- Nothing is dialled, or one peer that fulfils `P`.
  abbrev IsGuarded : (Bytes → Type 0) → List (Effect h) → Type 0
  IsGuarded P es = (dials es ≡ []) ⊎ ((id : Bytes) × P id × (dials es ≡ id ∷ []))

  abbrev AllGuarded : (Bytes → Type 0) → Outcome (List (Effect h)) → Type 0
  AllGuarded P (ok es) = IsGuarded P es
  AllGuarded P (err e) = Unit
  AllGuarded P panic = Unit

  routed_guarded :
      (P : Bytes → Type 0) (x : Exchange h) (req : Request) (header : h.Header) (o : Outcome Node)
      → ((node : Node) → o ≡ ok node → P node.id)
      → AllGuarded P (routed x req header o)
  routed_guarded P x req header (ok node) admit =
      inr (node.id, admit node refl, forward-dials x _ _)
  routed_guarded P x req header (err e) admit = inl refl
  routed_guarded P x req header panic admit = tt

  authenticated_guarded :
      (P : Bytes → Type 0) (s : Service) (x : Exchange h) (req : Request) (header : h.Header)
      (o : Outcome Bytes)
      → ((user : Bytes) (node : Node)
          → o ≡ ok user
          → s.route (record req { user_id = user }) ≡ ok node
          → P node.id)
      → AllGuarded P (authenticated s x req header o)
  authenticated_guarded P s x req header (ok user) admit =
      routed_guarded P x (record req { user_id = user }) header
        (s.route (record req { user_id = user })) (λ node chosen. admit user node refl chosen)
  authenticated_guarded P s x req header (err e) admit = inl refl
  authenticated_guarded P s x req header panic admit = tt

  parsed_guarded :
      (s : Service) (x : Exchange h) (req : Request) (o : Outcome Request)
      → parse_request h s x.header req ≡ o
      → AllGuarded (IsAdmitted s x req) (parsed s x o)
  parsed_guarded s x req (ok r) read =
      authenticated_guarded (IsAdmitted s x req) s x r
        (clean_request_headers h cleaned_headers x.header) (s.authenticate r.password)
        (λ user node known chosen. (r, user, node, read, known, chosen, refl))
  parsed_guarded s x req (err e) read = inl refl
  parsed_guarded s x req panic read = tt

  -- The handler dials at most one peer, once, and only a peer that the router chose for a request
  -- which was parsed and whose password was authenticated.
  pub http_proxy_handler-dials :
      (s : Service) (x : Exchange h) (req : Request) (es : List (Effect h))
      → http_proxy_handler s x req ≡ ok es
      → (dials es ≡ []) ⊎ ((id : Bytes) × IsAdmitted s x req id × (dials es ≡ id ∷ []))
  unfolding http_proxy_handler
  http_proxy_handler-dials s x req es e =
      subst (AllGuarded (IsAdmitted s x req)) e
        (parsed_guarded s x req (parse_request h s x.header req) refl)
