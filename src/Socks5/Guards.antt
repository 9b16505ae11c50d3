-- ===== src/Socks5/Guards.antt =====
-- pkg/service_proxy_socks5.go: what stands in front of a stream to a node, and of an association.
use coinsurf_proxy.Base.{
  ℕ, ◌≡◌, refl, sym, ap, ◌∙◌, subst, ◌⊎◌, inl, inr, true, false, Option, none, some, List, [], ◌∷◌,
  ◌++◌, Bytes, All, Bool-cases, arith,
}
use coinsurf_proxy.Auth.{Outcome, ok, err, panic, permission_udp}
use coinsurf_proxy.Request.{Request, has_permissions}
use coinsurf_proxy.Username.Keeps.{Identity, parse-identity}
use coinsurf_proxy.Dialer.{NewStream, dial_stream, proxy_http_protocol}
use coinsurf_proxy.Socks5.{
  Command, connect, udp_associate, other_command, AddressType, ipv4_address, domain_address,
  ipv6_address, Rep, command_not_supported, SocksService, SocksConn, SocksEffect, write_method,
  write_status, write_reply, dial, close_stream, forward_request, release_request, discard_input,
  crash, transfer_both, associate, reply_socks, identified, negotiate, handle_tcp, join_host_port,
  associated, handle_udp, settle, dispatch, requested, negotiated, serve_conn,
}
use coinsurf_proxy.Socks5.Releases.{IsWrite, negotiate-IsWrite}
use coinsurf_proxy.Socks5.Negotiation.{IsNegotiated, negotiate-IsNegotiated}

-- What an effect does with a request: a stream that is opened, or an association.
pub data Use : Type 0 where
  streams : NewStream → Use
  associates : Bytes → Request → Use

abbrev used : SocksEffect → List Use → List Use
used (dial n) us = streams n ∷ us
used (associate key req) us = associates key req ∷ us
used _ us = us

abbrev pub uses : List SocksEffect → List Use
uses [] = []
uses (e ∷ es) = used e (uses es)

IsWrite-uses : (es fs : List SocksEffect) → All IsWrite es → uses (es ++ fs) ≡ uses fs
IsWrite-uses [] fs w = refl
IsWrite-uses (write_method b ∷ es) fs w = IsWrite-uses es fs w.1
IsWrite-uses (write_status b ∷ es) fs w = IsWrite-uses es fs w.1
IsWrite-uses (write_reply rep atyp ∷ es) fs w = absurd w.0
IsWrite-uses (dial n ∷ es) fs w = absurd w.0
IsWrite-uses (close_stream ∷ es) fs w = absurd w.0
IsWrite-uses (forward_request ∷ es) fs w = absurd w.0
IsWrite-uses (release_request ∷ es) fs w = absurd w.0
IsWrite-uses (discard_input ∷ es) fs w = absurd w.0
IsWrite-uses (crash ∷ es) fs w = absurd w.0
IsWrite-uses (transfer_both user node ∷ es) fs w = absurd w.0
IsWrite-uses (associate key req ∷ es) fs w = absurd w.0

reply_socks-uses : (atyp : AddressType) (rep : Rep) → uses (reply_socks atyp rep ∷ []) ≡ []
unfolding reply_socks
reply_socks-uses ipv4_address rep = refl
reply_socks-uses domain_address rep = refl
reply_socks-uses ipv6_address rep = refl

-- A request is used for nothing, for one stream to its peer, or for one association if it has the
-- permission for UDP.
pub data IsUsed (s : SocksService) (r : Request) : List Use → Type 0 where
  unused : IsUsed s r []
  streamed : IsUsed s r (streams (dial_stream s.dial_timeout r) ∷ [])
  associated_once :
      (key : Bytes)
      → has_permissions r (permission_udp ∷ []) ≡ true
      → IsUsed s r (associates key r ∷ [])

module _ (s : SocksService) (x : SocksConn) where
  handle_tcp-uses :
      (atyp : AddressType) (req : Request)
      → uses (settle (handle_tcp s x atyp req)) ≡ streams (dial_stream s.dial_timeout req) ∷ []
  unfolding handle_tcp
  handle_tcp-uses atyp req = ground (arith, reply_socks-uses atyp)

  associated-IsUsed :
      (req : Request) (port : Option ℕ) (host : Option Bytes)
      → has_permissions req (permission_udp ∷ []) ≡ true
      → IsUsed s req (uses (settle (associated req port host)))
  associated-IsUsed req none host allowed = unused
  associated-IsUsed req (some port) none allowed = unused
  associated-IsUsed req (some port) (some host) allowed =
      associated_once (join_host_port host port) allowed

  handle_udp-IsUsed :
      (req : Request)
      → has_permissions req (permission_udp ∷ []) ≡ true
      → IsUsed s req (uses (settle (handle_udp x req)))
  unfolding handle_udp
  handle_udp-IsUsed req allowed = elim (Bool-cases x.is_tcp) [
    | inl tcp ↦ rw tcp (associated-IsUsed req x.udp_port x.remote_host allowed)
    | inr no_tcp ↦ rw no_tcp unused
  ]

  dispatch-IsUsed :
      (req : Request) (r : Command × AddressType) → IsUsed s req (uses (dispatch s x req r))
  unfolding dispatch
  dispatch-IsUsed req (connect, atyp) =
      subst (IsUsed s req) (sym (handle_tcp-uses atyp req)) streamed
  dispatch-IsUsed req (udp_associate, atyp) =
      elim (Bool-cases (has_permissions req (permission_udp ∷ []))) [
        | inl allowed ↦ rw allowed (handle_udp-IsUsed req allowed)
        | inr denied ↦
            rw denied
              (subst (IsUsed s req) (sym (reply_socks-uses atyp command_not_supported)) unused)
      ]
  dispatch-IsUsed req (other_command, atyp) =
      subst (IsUsed s req) (sym (reply_socks-uses atyp command_not_supported)) unused

  requested-IsUsed :
      (req : Request) (r : Option (Command × AddressType))
      → IsUsed s req (uses (requested s x req r))
  requested-IsUsed req none = unused
  requested-IsUsed req (some r) = dispatch-IsUsed req r

  -- Nothing was used, or a request that a negotiation has fulfilled, as it allows.
  abbrev pub IsGuarded : Request → List Use → Type 0
  IsGuarded req us = (us ≡ []) ⊎ ((r : Request) × IsNegotiated s x req r × IsUsed s r us)

  negotiated-IsGuarded :
      (req : Request) (es : List SocksEffect) (o : Outcome Request)
      → All IsWrite es
      → ((r : Request) → o ≡ ok r → IsNegotiated s x req r)
      → IsGuarded req (uses (negotiated s x (es, o)))
  negotiated-IsGuarded req es (ok r) w admit = inr (
    r,
    admit r refl,
    subst (IsUsed s r) (sym (IsWrite-uses es (requested s x r x.request) w))
        (requested-IsUsed r x.request),
  )
  negotiated-IsGuarded req es (err e) w admit = inl (IsWrite-uses es (release_request ∷ []) w)
  negotiated-IsGuarded req es panic w admit = inl (IsWrite-uses es (crash ∷ []) w)

  -- A connection opens no stream and makes no association, or does one of the two once, for the
  -- request that the negotiation made: its password authenticated a user, its user name was parsed
  -- for that user and the router chose the node. An association has the permission for UDP.
  pub serve_conn-IsGuarded : (req : Request) → IsGuarded req (uses (serve_conn s x req))
  unfolding serve_conn
  serve_conn-IsGuarded req =
      negotiated-IsGuarded req (negotiate s x req).0 (negotiate s x req).1
        (negotiate-IsWrite s x req) (negotiate-IsNegotiated s x req)

  IsNegotiated-socks5 : (req r : Request) → IsNegotiated s x req r → r.socks5 ≡ req.socks5
  IsNegotiated-socks5 req r n =
      ap (λ (q : Request). q.socks5) (sym n.result)
      ∙ ap (λ (i : Identity). i.socks5)
          (parse-identity s.sum64 s.username n.uname (identified req n.user) n.targeted n.read)

  IsUsed-protocol :
      (r : Request) (us : List Use) (n : NewStream)
      → IsUsed s r us
      → r.socks5 ≡ false
      → us ≡ streams n ∷ []
      → n.protocol ≡ proxy_http_protocol
  unfolding dial_stream
  IsUsed-protocol r us n unused plain e = cc
  IsUsed-protocol r us n streamed plain e = ground (arith, e, plain)
  IsUsed-protocol r us n (associated_once key allowed) plain e = cc

  -- The pool's requests are not marked as SOCKS5 requests and no step marks them, so the stream that
  -- a SOCKS5 connection opens speaks the protocol of the HTTP proxy.
  pub serve_conn-protocol :
      (req : Request) (n : NewStream)
      → req.socks5 ≡ false
      → uses (serve_conn s x req) ≡ streams n ∷ []
      → n.protocol ≡ proxy_http_protocol
  serve_conn-protocol req n plain e = elim (serve_conn-IsGuarded req) [
    | inl none_used ↦ absurd (ground (arith, none_used, e))
    | inr (r, negotiated_for, used_so) ↦
        IsUsed-protocol r _ n used_so (IsNegotiated-socks5 req r negotiated_for ∙ plain) e
  ]
