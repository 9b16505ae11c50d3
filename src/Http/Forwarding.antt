-- ===== src/Http/Forwarding.antt =====
-- pkg/service_proxy_http.go, `cleanRequestHeaders`: which headers of the client reach the node.
use mathlib.Core.List.{Memᴰ}
use mathlib.Core.List.Memᴰ.{head, tail}
use coinsurf_proxy.Base.{
  ℕ, zero, suc, ◌≡◌, ◌≢◌, refl, sym, subst, ◌⊎◌, inl, inr, Option, none, some, List, [], ◌∷◌, Bytes,
  codes, All, arith,
}
use coinsurf_proxy.Auth.{Outcome, ok, err, panic}
use coinsurf_proxy.Node.{Node}
use coinsurf_proxy.Request.{Request}
use coinsurf_proxy.Http.{
  RequestHeader, Service, Exchange, Effect, http_error, dial, disconnect, close_stream,
  release_request, release_reader, release_count_conn, transfer_both, decrement, write_header,
  write_request, skip_body, read_response, clean_response_headers, unwrap_conn, hijacked, answered,
  serve_https, serve_http, relayed, forward, routed, authenticated, parsed, parse_request,
  http_proxy_handler, clean_request_headers, cleaned_headers, set_versions, proxy_authorization,
}
use coinsurf_proxy.Http.Headers.{
  IsExact, KeepsOthers, set_versions_lem, clean_none, clean_keeps, differs, absent, version_cleaned,
}

module _ {h : RequestHeader} where
  abbrev written_with : Effect h → List h.Header → List h.Header
  written_with (http_error status challenge) hs = hs
  written_with (dial id) hs = hs
  written_with (disconnect id) hs = hs
  written_with close_stream hs = hs
  written_with release_request hs = hs
  written_with release_reader hs = hs
  written_with release_count_conn hs = hs
  written_with transfer_both hs = hs
  written_with (decrement user node n) hs = hs
  written_with (write_header header) hs = header ∷ hs
  written_with (write_request header) hs = header ∷ hs
  written_with skip_body hs = hs
  written_with read_response hs = hs
  written_with clean_response_headers hs = hs

  -- The request headers that are written to a node.
  abbrev pub written : List (Effect h) → List h.Header
  written [] = []
  written (e ∷ es) = written_with e (written es)

module _ (h : RequestHeader) where
  unwrap_conn-written : (n : ℕ) → written {h = h} (unwrap_conn n hijacked) ≡ []
  unfolding unwrap_conn
  unwrap_conn-written zero = refl
  unwrap_conn-written (suc n) = unwrap_conn-written n

module _ {h : RequestHeader} where
  answered-written :
      (x : Exchange h) (req : Request) (response : Option ℕ)
      → written (answered x req response) ≡ []
  answered-written x req none = refl
  answered-written x req (some status) = ground (arith, unwrap_conn-written h x.layers)

  relayed-written :
      (x : Exchange h) (req : Request) (response : Option ℕ) → written (relayed x req response) ≡ []
  relayed-written x req none = refl
  relayed-written x req (some status) = refl

  forward-written :
      (x : Exchange h) (req : Request) (header : h.Header)
      → (written (forward x req header) ≡ [])
        ⊎ ((written (forward x req header) ≡ header ∷ [])
            ⊎ (written (forward x req header) ≡ h.reset_connection_close header ∷ []))
  unfolding forward serve_https serve_http
  forward-written x req header =
      ground (arith, answered-written x req x.response, relayed-written x req x.response)

  abbrev AllWritten : (h.Header → Type 0) → Outcome (List (Effect h)) → Type 0
  AllWritten P (ok es) = All P (written es)
  AllWritten P (err e) = Unit
  AllWritten P panic = Unit

module _ {h : RequestHeader} (P : h.Header → Type 0)
    (sets : (req : Request) (x : h.Header) → P x → P (set_versions h req x))
    (resets : (x : h.Header) → P x → P (h.reset_connection_close x)) where
  forward_written :
      (x : Exchange h) (req : Request) (header : h.Header)
      → P header
      → All P (written (forward x req header))
  forward_written x req header p = elim (forward-written x req header) [
    | inl e ↦ subst (All P) (sym e) tt
    | inr e ↦ elim e [
      | inl e' ↦ subst (All P) (sym e') (p, tt)
      | inr e' ↦ subst (All P) (sym e') (resets header p, tt)
    ]
  ]

  routed_written :
      (x : Exchange h) (req : Request) (header : h.Header) (o : Outcome Node)
      → P header
      → AllWritten P (routed x req header o)
  routed_written x req header (ok node) p = forward_written x _ _ (sets req header p)
  routed_written x req header (err e) p = tt
  routed_written x req header panic p = tt

  authenticated_written :
      (s : Service) (x : Exchange h) (req : Request) (header : h.Header) (o : Outcome Bytes)
      → P header
      → AllWritten P (authenticated s x req header o)
  authenticated_written s x req header (ok user) p =
      routed_written x (record req { user_id = user }) header
        (s.route (record req { user_id = user })) p
  authenticated_written s x req header (err e) p = tt
  authenticated_written s x req header panic p = tt

  parsed_written :
      (s : Service) (x : Exchange h) (o : Outcome Request)
      → P (clean_request_headers h cleaned_headers x.header)
      → AllWritten P (parsed s x o)
  parsed_written s x (ok r) p =
      authenticated_written s x r (clean_request_headers h cleaned_headers x.header)
        (s.authenticate r.password) p
  parsed_written s x (err e) p = tt
  parsed_written s x panic p = tt

  -- A property that the clean-up establishes, and later writes to the header keep.
  handler_written :
      (s : Service) (x : Exchange h) (req : Request) (es : List (Effect h))
      → P (clean_request_headers h cleaned_headers x.header)
      → http_proxy_handler s x req ≡ ok es
      → All P (written es)
  unfolding http_proxy_handler
  handler_written s x req es p e =
      subst (AllWritten P) e (parsed_written s x (parse_request h s x.header req) p)

module _ {h : RequestHeader} where
  -- No request header that is written to a node has a header of the name Proxy-Authorization, as
  -- it is spelled here, where fasthttp treats the name as one of no special meaning (`IsExact h`): the client's credentials
  -- under that name stay in the proxy.
  pub http_proxy_handler-peek :
      (s : Service) (x : Exchange h) (req : Request) (es : List (Effect h))
      → IsExact h
      → http_proxy_handler s x req ≡ ok es
      → All (λ header. h.peek proxy_authorization header ≡ none) (written es)
  http_proxy_handler-peek s x req es laws e =
      handler_written (λ header. h.peek proxy_authorization header ≡ none)
        (λ r y.
          set_versions_lem h (λ header. h.peek proxy_authorization header ≡ none) r y
            (λ k z w. laws.peek_set_other k (codes "1") z (differs k w)))
        laws.peek_reset s x req es
        (clean_none cleaned_headers x.header laws (tail (tail (tail (head refl))))) e

  -- A header whose name is not one of the cleaned names, byte by byte, reaches the node with its
  -- value, if it is not Connection and fasthttp keeps headers of other names (`KeepsOthers h`). So do
  -- credentials under "proxy-authorization", which the handler reads as well.
  pub http_proxy_handler-keeps :
      (s : Service) (x : Exchange h) (req : Request) (es : List (Effect h)) (name v : Bytes)
      → KeepsOthers h
      → All (λ k. name ≢ k) (codes "Connection" ∷ cleaned_headers)
      → Memᴰ (name, v) (h.visit_all x.header)
      → http_proxy_handler s x req ≡ ok es
      → All (λ header. Memᴰ (name, v) (h.visit_all header)) (written es)
  http_proxy_handler-keeps s x req es name v laws (connection, other) m e =
      handler_written (λ header. Memᴰ (name, v) (h.visit_all header))
        (λ r y.
          set_versions_lem h (λ header. Memᴰ (name, v) (h.visit_all header)) r y
            (λ k z w.
              laws.set_other name k v (codes "1") z
                (absent k cleaned_headers other (version_cleaned k w))))
        (λ y. laws.reset_other name v y connection) s x req es
        (clean_keeps name v cleaned_headers x.header laws other m) e
