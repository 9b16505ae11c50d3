-- ===== src/Socks5/Releases.antt =====
-- pkg/service_proxy_socks5.go: what becomes of the pooled request of a connection.
use coinsurf_proxy.Base.{
  ℕ, ◌+◌, ◌≡◌, refl, Option, none, some, List, [], ◌∷◌, ◌++◌, Bytes, All, arith,
}
use coinsurf_proxy.Auth.{Permission, Outcome, ok, err, panic}
use coinsurf_proxy.Request.{Request}
use coinsurf_proxy.Username.{parse}
use coinsurf_proxy.Socks5.{
  Command, connect, udp_associate, other_command, AddressType, ipv4_address, domain_address,
  ipv6_address, Rep, SocksService, SocksConn, SocksEffect, write_method, write_status, write_reply,
  dial, close_stream, forward_request, release_request, discard_input, crash, transfer_both,
  associate, reply_socks, parsed, identified, authenticated, challenged, accepted, negotiate,
  handle_tcp, associated, handle_udp, settle, dispatch, requested, negotiated, serve_conn,
}

-- The replies of the negotiation.
abbrev pub IsWrite : SocksEffect → Type 0
IsWrite (write_method b) = Unit
IsWrite (write_status b) = Unit
IsWrite _ = ⊥

module _ (s : SocksService) (x : SocksConn) where
  parsed-IsWrite : (o : Outcome Request) → All IsWrite (parsed s x o).0
  parsed-IsWrite (ok r) = (tt, tt)
  parsed-IsWrite (err e) = (tt, tt)
  parsed-IsWrite panic = tt

  authenticated-IsWrite :
      (uname : Bytes) (req : Request) (o : Outcome (Bytes × Option (List Permission)))
      → All IsWrite (authenticated s x uname req o).0
  authenticated-IsWrite uname req (ok user) =
      parsed-IsWrite (parse s.sum64 s.username uname (identified req user))
  authenticated-IsWrite uname req (err e) = (tt, tt)
  authenticated-IsWrite uname req panic = tt

  challenged-IsWrite :
      (req : Request) (c : Option (Bytes × Bytes)) → All IsWrite (challenged s x req c).0
  challenged-IsWrite req none = tt
  challenged-IsWrite req (some (uname, passwd)) =
      authenticated-IsWrite uname req (s.authenticate passwd)

  accepted-IsWrite : (req : Request) → All IsWrite (accepted s x req).0
  accepted-IsWrite req = ground (arith, challenged-IsWrite req x.credentials)

  pub negotiate-IsWrite : (req : Request) → All IsWrite (negotiate s x req).0
  unfolding negotiate
  negotiate-IsWrite req = ground (arith, accepted-IsWrite req)

abbrev pub total : (SocksEffect → ℕ) → List SocksEffect → ℕ
total f [] = 0
total f (e ∷ es) = f e + total f es

total-append :
    (f : SocksEffect → ℕ) (es fs : List SocksEffect) → total f (es ++ fs) ≡ total f es + total f fs
total-append f [] fs = omega arith
total-append f (e ∷ es) fs = omega (arith, total-append f es fs)

abbrev pub is_release : SocksEffect → ℕ
is_release release_request = 1
is_release _ = 0

-- The request is handed to the transfers or to the table of UDP associations.
abbrev pub is_handover : SocksEffect → ℕ
is_handover (transfer_both user node) = 1
is_handover (associate key req) = 1
is_handover _ = 0

abbrev pub is_crash : SocksEffect → ℕ
is_crash crash = 1
is_crash _ = 0

-- The three ways in which a connection is done with its request.
abbrev pub is_end : SocksEffect → ℕ
is_end e = is_release e + (is_handover e + is_crash e)

IsWrite-ends : (es : List SocksEffect) → All IsWrite es → total is_end es ≡ 0
IsWrite-ends [] w = refl
IsWrite-ends (write_method b ∷ es) w = omega (arith, IsWrite-ends es w.1)
IsWrite-ends (write_status b ∷ es) w = omega (arith, IsWrite-ends es w.1)
IsWrite-ends (write_reply rep atyp ∷ es) w = absurd w.0
IsWrite-ends (dial n ∷ es) w = absurd w.0
IsWrite-ends (close_stream ∷ es) w = absurd w.0
IsWrite-ends (forward_request ∷ es) w = absurd w.0
IsWrite-ends (release_request ∷ es) w = absurd w.0
IsWrite-ends (discard_input ∷ es) w = absurd w.0
IsWrite-ends (crash ∷ es) w = absurd w.0
IsWrite-ends (transfer_both user node ∷ es) w = absurd w.0
IsWrite-ends (associate key req ∷ es) w = absurd w.0

reply_socks-ends : (atyp : AddressType) (rep : Rep) → is_end (reply_socks atyp rep) ≡ 0
unfolding reply_socks
reply_socks-ends ipv4_address rep = refl
reply_socks-ends domain_address rep = refl
reply_socks-ends ipv6_address rep = refl

module _ (s : SocksService) (x : SocksConn) where
  handle_tcp-ends :
      (atyp : AddressType) (req : Request) → total is_end (settle (handle_tcp s x atyp req)) ≡ 1
  unfolding handle_tcp
  handle_tcp-ends atyp req = ground (arith, reply_socks-ends atyp)

  associated-ends :
      (req : Request) (port : Option ℕ) (host : Option Bytes)
      → total is_end (settle (associated req port host)) ≡ 1
  associated-ends req none host = refl
  associated-ends req (some port) none = refl
  associated-ends req (some port) (some host) = refl

  handle_udp-ends : (req : Request) → total is_end (settle (handle_udp x req)) ≡ 1
  unfolding handle_udp
  handle_udp-ends req = ground (arith, associated-ends req x.udp_port x.remote_host)

  dispatch-ends :
      (req : Request) (r : Command × AddressType) → total is_end (dispatch s x req r) ≡ 1
  unfolding dispatch
  dispatch-ends req (connect, atyp) = handle_tcp-ends atyp req
  dispatch-ends req (udp_associate, atyp) =
      ground (arith, handle_udp-ends req, reply_socks-ends atyp)
  dispatch-ends req (other_command, atyp) = ground (arith, reply_socks-ends atyp)

  requested-ends :
      (req : Request) (r : Option (Command × AddressType)) → total is_end (requested s x req r) ≡ 1
  requested-ends req none = refl
  requested-ends req (some r) = dispatch-ends req r

  negotiated-ends :
      (es : List SocksEffect) (o : Outcome Request)
      → All IsWrite es
      → total is_end (negotiated s x (es, o)) ≡ 1
  negotiated-ends es (ok req) w = omega (
    arith,
    total-append is_end es (requested s x req x.request),
    IsWrite-ends es w,
    requested-ends req x.request,
  )
  negotiated-ends es (err e) w =
      omega (arith, total-append is_end es (release_request ∷ []), IsWrite-ends es w)
  negotiated-ends es panic w = omega (arith, total-append is_end es (crash ∷ []), IsWrite-ends es w)

total-sum :
    (es : List SocksEffect)
    → total is_end es ≡ total is_release es + (total is_handover es + total is_crash es)
total-sum [] = refl
total-sum (e ∷ es) = omega (arith, total-sum es)

-- A connection is done with its pooled request in exactly one way, once: it releases the request,
-- or hands it to the transfers or the UDP associations, which do not release it here, or it crashes.
pub serve_conn-ends :
    (s : SocksService) (x : SocksConn) (req : Request)
    → let es = serve_conn s x req in
      total is_release es + (total is_handover es + total is_crash es) ≡ 1
unfolding serve_conn
serve_conn-ends s x req = omega (
  arith,
  total-sum (serve_conn s x req),
  negotiated-ends s x (negotiate s x req).0 (negotiate s x req).1 (negotiate-IsWrite s x req),
)
