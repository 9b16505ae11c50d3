-- ===== src/Socks5/Negotiation.antt =====
-- pkg/service_proxy_socks5.go: what an accepted negotiation has checked.
use coinsurf_proxy.Base.{◌≡◌, refl, inl, inr, Option, none, some, List, Bytes, Bool-cases, arith}
use coinsurf_proxy.Auth.{Permission, Outcome, ok, err, panic}
use coinsurf_proxy.Node.{Node}
use coinsurf_proxy.Request.{Request}
use coinsurf_proxy.Username.{parse}
use coinsurf_proxy.Username.Inversion.{ok_lem}
use coinsurf_proxy.Socks5.{
  SocksService, SocksConn, routed, parsed, identified, authenticated, challenged, accepted, offered,
  offers_password, negotiate,
}

-- The request with the node that was chosen for it.
abbrev pub with_node : Request → Node → Request
with_node req node = record req { peer_id = node.id; node_id = node.user_id }

-- The negotiation's result: the client's password authenticated a user, its user name was parsed
-- into the request of that user, and the router chose the node for that request.
pub record IsNegotiated (s : SocksService) (x : SocksConn) (req r : Request) : Type 0 where
  pub uname : Bytes
  pub passwd : Bytes
  pub user : Bytes × Option (List Permission)
  pub targeted : Request
  pub node : Node
  pub given : x.credentials ≡ some (uname, passwd)
  pub known : s.authenticate passwd ≡ ok user
  pub read : parse s.sum64 s.username uname (identified req user) ≡ ok targeted
  pub chosen : s.route targeted ≡ ok node
  pub result : with_node targeted node ≡ r

routed-eq-ok :
    (req r : Request) (o : Outcome Node)
    → routed req o ≡ ok r
    → (node : Node) × (o ≡ ok node) × (with_node req node ≡ r)
unfolding routed
routed-eq-ok req r (ok node) h = (node, refl, ok_lem _ r h)
routed-eq-ok req r (err e) h = cc
routed-eq-ok req r panic h = cc

module _ (s : SocksService) (x : SocksConn) where
  parsed-eq-ok :
      (r : Request) (o : Outcome Request)
      → (parsed s x o).1 ≡ ok r
      → (q : Request) × (node : Node) × (o ≡ ok q) × (s.route q ≡ ok node) × (with_node q node ≡ r)
  parsed-eq-ok r (ok q) h = elim (Bool-cases x.status_written) [
    | inl w ↦
        let (node, chosen, result) = routed-eq-ok q r (s.route q) (rw w at h) in
        (q, node, refl, chosen, result)
    | inr w ↦ absurd (ground (arith, h, w))
  ]
  parsed-eq-ok r (err e) h = cc
  parsed-eq-ok r panic h = cc

  challenged-IsNegotiated :
      (req r : Request) (c : Option (Bytes × Bytes))
      → x.credentials ≡ c
      → (challenged s x req c).1 ≡ ok r
      → IsNegotiated s x req r
  challenged-IsNegotiated req r none e h = cc
  challenged-IsNegotiated req r (some (uname, passwd)) e h =
      authenticated-IsNegotiated (s.authenticate passwd) refl h
    where
      authenticated-IsNegotiated :
          (o : Outcome (Bytes × Option (List Permission)))
          → s.authenticate passwd ≡ o
          → (authenticated s x uname req o).1 ≡ ok r
          → IsNegotiated s x req r
      authenticated-IsNegotiated (ok user) known h' =
          let (q, node, read, chosen, result) = parsed-eq-ok r _ h' in
          record {
            uname = uname;
            passwd = passwd;
            user = user;
            targeted = q;
            node = node;
            given = e;
            known = known;
            read = read;
            chosen = chosen;
            result = result;
          }
      authenticated-IsNegotiated (err x') known h' = cc
      authenticated-IsNegotiated panic known h' = cc

  accepted-IsNegotiated : (req r : Request) → (accepted s x req).1 ≡ ok r → IsNegotiated s x req r
  accepted-IsNegotiated req r h = elim (Bool-cases x.method_written) [
    | inl w ↦ challenged-IsNegotiated req r x.credentials refl (rw w at h)
    | inr w ↦ absurd (ground (arith, h, w))
  ]

  offered-IsNegotiated :
      (req r : Request) (methods : Option _)
      → (offered s x req methods).1 ≡ ok r
      → IsNegotiated s x req r
  offered-IsNegotiated req r none h = cc
  offered-IsNegotiated req r (some methods) h = elim (Bool-cases (offers_password methods)) [
    | inl found ↦ accepted-IsNegotiated req r (rw found at h)
    | inr missing ↦ elim (Bool-cases x.refusal_written) [
      | inl w ↦ accepted-IsNegotiated req r (rw (missing, w) at h)
      | inr w ↦ absurd (ground (arith, h, missing, w))
    ]
  ]

  pub negotiate-IsNegotiated :
      (req r : Request) → (negotiate s x req).1 ≡ ok r → IsNegotiated s x req r
  unfolding negotiate
  negotiate-IsNegotiated req r h = offered-IsNegotiated req r x.methods h
