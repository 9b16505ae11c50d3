-- ===== src/Http/Tests.antt =====
-- pkg/service_proxy_http.go on short exchanges, and the theorems about it there.
use mathlib.Core.List.{Memᴰ}
use mathlib.Core.List.Memᴰ.{head, tail}
use coinsurf_proxy.Base.{
  if◌then◌else◌, ◌≡◌, ◌≢◌, refl, ap, ◌∙◌, ◌⊎◌, inl, inr, true, false, none, some, List, [], ◌∷◌,
  Bytes, codes, Assoc, lookup, insert, erase, lookup-insert, lookup-erase, bytes_eq, bytes_eq_iff,
  bytes_eq_refl, All, Bool-cases, arith, split,
}
use coinsurf_proxy.Auth.{ok}
use coinsurf_proxy.Node.{new_node}
use coinsurf_proxy.Request.{new_request, reset}
use coinsurf_proxy.Credentials.{
  parse_basic_auth, decode, decode_quanta, quantum, sextet, cut, without_newlines,
}
use coinsurf_proxy.Username.{
  strip_prefix, take_fold, equal_fold, keyword, atoi, param_at, assign, parse_param, parse_params,
  check_targeting, check_location, add_session, parse,
}
use coinsurf_proxy.Http.{
  proxy_authorization, RequestHeader, Service, Exchange, Effect, http_proxy_handler, parse_request,
  dial, decrement, write_header, skip_body, read_response, release_reader, clean_response_headers,
  transfer_both, release_request, authorization, visit_authorization, clean_request_headers,
  cleaned_headers, forward, serve_https, header_size, unwrap_conn,
}
use coinsurf_proxy.Http.Headers.{IsExact, KeepsOthers}
use coinsurf_proxy.Http.Releases.{releases, http_proxy_handler-releases}
use coinsurf_proxy.Http.Pooling.{http_proxy_handler-reset}
use coinsurf_proxy.Http.Guards.{dials, IsAdmitted, http_proxy_handler-dials}
use coinsurf_proxy.Http.Forwarding.{written, http_proxy_handler-peek, http_proxy_handler-keeps}

-- A header is a list of fields.
abbrev fields : RequestHeader
fields = record {
  Header = Assoc Bytes;
  peek = lookup;
  visit_all = λ x. x;
  del = erase;
  set = insert;
  reset_connection_close = λ x. x;
}

fields-IsExact : IsExact fields
fields-IsExact = record {
  peek_del = λ x.
      lookup-erase proxy_authorization proxy_authorization x
      ∙ ap (λ b. if b then none else lookup proxy_authorization x)
          (bytes_eq_refl proxy_authorization);
  peek_del_other = λ k x e. lookup-erase k proxy_authorization x ∙ ground (arith, e);
  peek_set_other = λ k v x o e.
      lookup-insert k proxy_authorization v x
      ∙ ground (arith, e, bytes_eq_iff k proxy_authorization, o);
  peek_reset = λ x e. e;
}

Memᴰ-erase : (j k v : Bytes) (x : Assoc Bytes) → j ≢ k → Memᴰ (j, v) x → Memᴰ (j, v) (erase k x)
unfolding erase
Memᴰ-erase j k v [] o m = elim m [ ]
Memᴰ-erase j k v ((i, w) ∷ x) o (head e) =
    let other : bytes_eq i k ≡ false =
      ground (arith, bytes_eq_iff i k, o, ap (λ (p : Bytes × Bytes). p.0) e) in
    rw other (head e)
Memᴰ-erase j k v ((i, w) ∷ x) o (tail m) = elim (Bool-cases (bytes_eq i k)) [
  | inl same ↦ rw same (Memᴰ-erase j k v x o m)
  | inr other ↦ rw other (tail (Memᴰ-erase j k v x o m))
]

Memᴰ-insert :
    (j k v w : Bytes) (x : Assoc Bytes) → j ≢ k → Memᴰ (j, v) x → Memᴰ (j, v) (insert k w x)
unfolding insert
Memᴰ-insert j k v w [] o m = elim m [ ]
Memᴰ-insert j k v w ((i, u) ∷ x) o (head e) =
    let other : bytes_eq i k ≡ false =
      ground (arith, bytes_eq_iff i k, o, ap (λ (p : Bytes × Bytes). p.0) e) in
    rw other (head e)
Memᴰ-insert j k v w ((i, u) ∷ x) o (tail m) = elim (Bool-cases (bytes_eq i k)) [
  | inl same ↦ rw same (tail m)
  | inr other ↦ rw other (tail (Memᴰ-insert j k v w x o m))
]

fields-KeepsOthers : KeepsOthers fields
fields-KeepsOthers = record {
  del_other = Memᴰ-erase;
  set_other = Memᴰ-insert;
  reset_other = λ j v x o m. m;
}

abbrev service : Service
service = record {
  sum64 = λ s. 0;
  username = record {
    session_duration = 60;
    session_duration_max = 600;
    location = record {
      find_country = λ c. true;
      find_region = λ c r. true;
      find_city = λ c t. true;
    };
  };
  authenticate = λ password. ok (codes "u1");
  route = λ r. ok (record new_node { id = codes "p1"; user_id = codes "n1" });
}

-- The client spells the name of the header in lower case.
abbrev exchange : Exchange fields
exchange = record {
  header = (codes "proxy-authorization", codes "Basic cG9vbC1nOms=") ∷ [];
  body = [];
  is_connect = true;
  dialed = true;
  service_set = true;
  decremented = true;
  written = true;
  response = some 200;
  copied = 0;
  layers = 1;
  response_sent = true;
}

-- The lower-case name is none of the names that are deleted.
lower_case : All (λ k. codes "proxy-authorization" ≢ k) (codes "Connection" ∷ cleaned_headers)
lower_case = (
  λ e. ground (arith, e),
  (
    λ e. ground (arith, e),
    (
      λ e. ground (arith, e),
      (
        λ e. ground (arith, e),
        (
          λ e. ground (arith, e),
          (
            λ e. ground (arith, e),
            (
              λ e. ground (arith, e),
              (
                λ e. ground (arith, e),
                (
                  λ e. ground (arith, e),
                  (
                    λ e. ground (arith, e),
                    (
                      λ e. ground (arith, e),
                      (λ e. ground (arith, e), (λ e. ground (arith, e), tt)),
                    ),
                  ),
                ),
              ),
            ),
          ),
        ),
      ),
    ),
  ),
)

abbrev run : List (Effect fields)
run =
    dial (codes "p1")
    ∷ decrement (codes "u1") (codes "n1") 41
    ∷ write_header exchange.header
    ∷ skip_body
    ∷ read_response
    ∷ release_reader
    ∷ clean_response_headers
    ∷ transfer_both
    ∷ release_request
    ∷ []

run_connect : http_proxy_handler service exchange new_request ≡ ok run
unfolding http_proxy_handler parse_request authorization visit_authorization clean_request_headers
    forward serve_https header_size unwrap_conn parse_basic_auth decode decode_quanta quantum sextet
    cut without_newlines lookup erase insert strip_prefix take_fold equal_fold keyword atoi param_at
    assign parse_param parse_params check_targeting check_location add_session parse split
run_connect = refl

http_proxy_handler-releases_example :
    (es : List (Effect fields)) × (http_proxy_handler service exchange new_request ≡ ok es)
    × (releases es ≡ 1)
http_proxy_handler-releases_example =
    http_proxy_handler-releases service exchange new_request refl refl
      (λ e. ground (arith, e, run_connect))

http_proxy_handler-dials_example :
    (dials run ≡ [])
    ⊎ ((id : Bytes) × IsAdmitted service exchange new_request id × (dials run ≡ id ∷ []))
http_proxy_handler-dials_example =
    http_proxy_handler-dials service exchange new_request run run_connect

http_proxy_handler-peek_example :
    All (λ header. lookup (codes "Proxy-Authorization") header ≡ none) (written run)
http_proxy_handler-peek_example =
    http_proxy_handler-peek service exchange new_request run fields-IsExact run_connect

abbrev secret : Bytes
secret = codes "Basic cG9vbC1nOms="

-- The credentials of this client are written to the node.
http_proxy_handler-keeps_case :
    All (λ header. Memᴰ (codes "proxy-authorization", secret) header) (written run)
http_proxy_handler-keeps_case =
    http_proxy_handler-keeps service exchange new_request run (codes "proxy-authorization") secret
      fields-KeepsOthers lower_case (head refl) run_connect

http_proxy_handler-reset_example :
    http_proxy_handler service exchange (reset (record new_request { password = some secret }))
    ≡ http_proxy_handler service exchange new_request
http_proxy_handler-reset_example =
    http_proxy_handler-reset service exchange (record new_request { password = some secret })
