-- ===== src/Server/Proxies.antt =====
-- pkg/server.go, Listen: both proxies on the same Redis authentication and Genji router. A handler
-- authenticates once and routes once; the states of the cache and of the router at these calls are
-- given.
mod Tests
use coinsurf_proxy.Base.{
  ℕ, ◌≡◌, refl, sym, ap, ◌∙◌, ◌⊎◌, inl, inr, Option, none, some, List, [], ◌∷◌, Bytes, arith,
}
use coinsurf_proxy.Auth.{Outcome, ok, err, panic, Permission}
use coinsurf_proxy.Node.{Node}
use coinsurf_proxy.Request.{Request}
use coinsurf_proxy.Username.{UsernameParser, written}
use coinsurf_proxy.RedisAuth.{Gcache, Redis, authenticate}
use coinsurf_proxy.RedisAuth.Provenance.{IsUserOf, authenticate-IsUserOf}
use coinsurf_proxy.Router.Genji.{Database, Cache, Codec, Genji}
use coinsurf_proxy.Router.Genji.Routing.{route}
use coinsurf_proxy.Router.Genji.Routing.Provenance.{IsListed, IsSticky, route-IsListed}
use coinsurf_proxy.Http.{
  RequestHeader, Service, Exchange, Effect, http_proxy_handler, parse_request,
}
use coinsurf_proxy.Http.Guards.{dials, IsAdmitted, http_proxy_handler-dials}
use coinsurf_proxy.Socks5.{SocksService, SocksConn, serve_conn}
use coinsurf_proxy.Socks5.Negotiation.{IsNegotiated}
use coinsurf_proxy.Socks5.Guards.{uses, IsUsed, serve_conn-IsGuarded}

-- The services that `Listen` makes share what stands here.
pub record Shared : Type 1 where
  pub sum64 : Bytes → ℕ
  pub username : UsernameParser
  pub dial_timeout : ℕ
  pub users : Gcache
  pub redis : Redis
  pub database : Database
  pub sessions : Cache
  pub codec : Codec

-- The states at the two calls.
pub record States (k : Shared) : Type 0 where
  pub known : k.users.Store
  pub nodes : Genji k.database k.sessions

abbrev pub user_of : Outcome (Bytes × List Permission) → Outcome Bytes
user_of (ok (user, permissions)) = ok user
user_of (err e) = err e
user_of panic = panic

-- The slice of the permissions is made empty, so it is never nil.
abbrev pub granted_to :
    Outcome (Bytes × List Permission) → Outcome (Bytes × Option (List Permission))
granted_to (ok (user, permissions)) = ok (user, some permissions)
granted_to (err e) = err e
granted_to panic = panic

module _ (k : Shared) (s : States k) where
  -- `NewServiceProxyHTTP` in `Listen`.
  abbrev pub http_service : Service
  http_service = record {
    sum64 = k.sum64;
    username = k.username;
    authenticate = λ password. user_of (authenticate k.users k.redis (written password) s.known).0;
    route = λ r. (route k.codec r s.nodes).0;
  }

  -- `NewServiceProxySOCKS5` in `Listen`.
  abbrev pub socks_service : SocksService
  socks_service = record {
    sum64 = k.sum64;
    username = k.username;
    dial_timeout = k.dial_timeout;
    authenticate = λ password. granted_to (authenticate k.users k.redis password s.known).0;
    route = λ r. (route k.codec r s.nodes).0;
  }

  -- The user is the one of the key, and the node is the cached one of the request's session, the first
  -- of the request's pool, or the first answer of the node database to the query of its targeting.
  pub record IsServed (key user : Bytes) (r : Request) (node : Node) : Type 0 where
    pub authenticated : IsUserOf k.users k.redis key s.known user
    pub routed : IsSticky k.codec r s.nodes node ⊎ IsListed k.codec r s.nodes node

  user_of-IsUserOf :
      (key user : Bytes)
      → user_of (authenticate k.users k.redis key s.known).0 ≡ ok user
      → IsUserOf k.users k.redis key s.known user
  user_of-IsUserOf key user h = from (authenticate k.users k.redis key s.known).0 refl h
    where
      from :
          (o : Outcome (Bytes × List Permission))
          → (authenticate k.users k.redis key s.known).0 ≡ o
          → user_of o ≡ ok user
          → IsUserOf k.users k.redis key s.known user
      from (ok (u, ps)) e h' =
          authenticate-IsUserOf k.users k.redis key s.known user ps (e ∙ ground (arith, h'))
      from (err x) e h' = cc
      from panic e h' = cc

  granted_to-IsUserOf :
      (key user : Bytes) (permissions : Option (List Permission))
      → granted_to (authenticate k.users k.redis key s.known).0 ≡ ok (user, permissions)
      → IsUserOf k.users k.redis key s.known user
  granted_to-IsUserOf key user permissions h =
      from (authenticate k.users k.redis key s.known).0 refl h
    where
      from :
          (o : Outcome (Bytes × List Permission))
          → (authenticate k.users k.redis key s.known).0 ≡ o
          → granted_to o ≡ ok (user, permissions)
          → IsUserOf k.users k.redis key s.known user
      from (ok (u, ps)) e h' =
          authenticate-IsUserOf k.users k.redis key s.known user ps (e ∙ ground (arith, h'))
      from (err x) e h' = cc
      from panic e h' = cc

  route-IsFound :
      (r : Request) (node : Node)
      → (route k.codec r s.nodes).0 ≡ ok node
      → IsSticky k.codec r s.nodes node ⊎ IsListed k.codec r s.nodes node
  route-IsFound r node h =
      route-IsListed k.codec r s.nodes (route k.codec r s.nodes).1 node
        (ap (λ o. (o, (route k.codec r s.nodes).1)) h)

  -- A peer that the HTTP proxy may dial for the exchange `x`: `r` is the request that is parsed from
  -- its header.
  abbrev pub IsDialable : {h : RequestHeader} → Exchange h → Request → Bytes → Type 0
  IsDialable {h = h} x req id =
      (r : Request) × (user : Bytes) × (node : Node) × (parse_request h http_service x.header req
        ≡ ok r)
      × IsServed (written r.password) user (record r { user_id = user }) node
      × (node.id ≡ id)

  -- The HTTP proxy over Redis and Genji dials at most one peer, once: that of a node which the cache
  -- has for the request's session, which is the first of its pool, or which the node database gives
  -- first for its targeting; that request is the one parsed from the client's header, with the user that
  -- the cache or Redis has for its password.
  pub http-IsServed :
      {h : RequestHeader} (x : Exchange h) (req : Request) (es : List (Effect h))
      → http_proxy_handler http_service x req ≡ ok es
      → (dials es ≡ []) ⊎ ((id : Bytes) × IsDialable x req id × (dials es ≡ id ∷ []))
  http-IsServed x req es e = elim (http_proxy_handler-dials http_service x req es e) [
    | inl nothing ↦ inl nothing
    | inr (id, (r, user, node, parsed, known, chosen, same), once) ↦ inr (
      id,
      (
        r,
        user,
        node,
        parsed,
        record {
          authenticated = user_of-IsUserOf (written r.password) user known;
          routed = route-IsFound (record r { user_id = user }) node chosen;
        },
        same,
      ),
      once,
    )
  ]

  -- A SOCKS5 connection over Redis and Genji uses nothing, or a request of the user that the cache or
  -- Redis has for the client's password, with a node which the cache has for the request's session,
  -- which is the first of its pool, or which the node database gives first for its targeting.
  pub socks-IsServed :
      (x : SocksConn) (req : Request)
      → let us = uses (serve_conn socks_service x req) in
        (us ≡ [])
        ⊎ ((r : Request) × (n : IsNegotiated socks_service x req r) × IsServed n.passwd n.user.0
              n.targeted n.node
            × IsUsed socks_service r us)
  socks-IsServed x req = elim (serve_conn-IsGuarded socks_service x req) [
    | inl nothing ↦ inl nothing
    | inr (r, n, used) ↦ inr (
      r,
      n,
      record {
        authenticated = granted_to-IsUserOf n.passwd n.user.0 n.user.1 n.known;
        routed = route-IsFound n.targeted n.node n.chosen;
      },
      used,
    )
  ]
