-- ===== src/Http/Pooling.antt =====
-- pkg/service_proxy_http.go and `reset` of pkg/request.go: requests come from a pool.
use coinsurf_proxy.Base.{◌≡◌, refl, ap, Option, none, some, Bytes}
use coinsurf_proxy.Credentials.{parse_basic_auth}
use coinsurf_proxy.Request.{Request, new_request, reset}
use coinsurf_proxy.Http.{
  RequestHeader, Service, Exchange, with_credentials, with_authorization, authorization,
  parse_request, parsed, http_proxy_handler,
}

with_credentials-reset :
    (s : Service) (r : Request) (o : Option (Bytes × Bytes))
    → with_credentials s (reset r) o ≡ with_credentials s new_request o
unfolding reset
with_credentials-reset s r none = refl
with_credentials-reset s r (some (username, password)) = refl

with_authorization-reset :
    (s : Service) (r : Request) (o : Option Bytes)
    → with_authorization s (reset r) o ≡ with_authorization s new_request o
with_authorization-reset s r none = refl
with_authorization-reset s r (some auth) = with_credentials-reset s r (parse_basic_auth auth)

-- A request that another client used and the pool gives again makes no difference: the handler does
-- the same as with a new one, although the old password is still in it.
pub http_proxy_handler-reset :
    {h : RequestHeader} (s : Service) (x : Exchange h) (r : Request)
    → http_proxy_handler s x (reset r) ≡ http_proxy_handler s x new_request
unfolding http_proxy_handler parse_request
http_proxy_handler-reset {h = h} s x r =
    ap (parsed s x) (with_authorization-reset s r (authorization h x.header))
