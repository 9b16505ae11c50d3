-- ===== src/Socks5.antt =====
-- pkg/service_proxy_socks5.go: the SOCKS5 proxy. This file has the handling of one TCP connection,
-- as the list of its effects in order; the packets of UDP associations are in Socks5/Udp. What the
-- socks5 package reads off the wire is given, as the cases that the code tells apart.
pub mod Releases
pub mod Negotiation
pub mod Guards
pub mod Udp
mod Tests
use coinsurf_proxy.Base.{
  ℕ, ◌+◌, ◌≡◌, refl, Bool, true, false, not, Option, none, some, List, [], ◌∷◌, ◌++◌, Bytes, codes,
  ◌==◌, if◌then◌else◌,
}
use coinsurf_proxy.Auth.{Error, other, Outcome, ok, err, panic, Permission, permission_udp}
use coinsurf_proxy.Node.{Node}
use coinsurf_proxy.Request.{Request, has_permissions}
use coinsurf_proxy.Router.{itoa}
use coinsurf_proxy.Username.{UsernameParser, parse}
use coinsurf_proxy.Dialer.{NewStream, dial_stream}

pub data Method : Type 0 where
  username_password other_method : Method

pub data Command : Type 0 where
  connect udp_associate other_command : Command

pub data AddressType : Type 0 where
  ipv4_address domain_address ipv6_address : AddressType

pub data Rep : Type 0 where
  server_failure connection_refused command_not_supported : Rep

-- The collaborators of the service. `authenticate` returns the user and the permissions.
pub record SocksService : Type 0 where
  pub sum64 : Bytes → ℕ
  pub username : UsernameParser
  pub dial_timeout : ℕ
  pub authenticate : Bytes → Outcome (Bytes × Option (List Permission))
  pub route : Request → Outcome Node

-- What the client sends (`none` where it cannot be read), and how the rest of the connection goes:
-- which replies can be written, and whether the stream is opened, its service set and the request
-- written to it. `udp_port` is the port that `Request.UDP` returns, `remote_host` the host of the
-- client's address.
pub record SocksConn : Type 0 where
  pub methods : Option (List Method)
  pub refusal_written : Bool
  pub method_written : Bool
  pub status_written : Bool
  pub credentials : Option (Bytes × Bytes)
  pub request : Option (Command × AddressType)
  pub dialed : Bool
  pub service_set : Bool
  pub forwarded : Bool
  pub is_tcp : Bool
  pub udp_port : Option ℕ
  pub remote_host : Option Bytes

pub data SocksEffect : Type 0 where
  -- `write_method true` offers user name and password, `false` says that no method is supported.
  write_method write_status : Bool → SocksEffect
  write_reply : Rep → AddressType → SocksEffect
  dial : NewStream → SocksEffect
  -- `forward_request` writes the client's request to the stream; `discard_input` is `io.Copy` to
  -- nowhere; `crash` is a panic, which the goroutine does not recover.
  close_stream forward_request release_request discard_input crash : SocksEffect
  -- Both transfers, for the user and the node that they are accounted to.
  transfer_both : Bytes → Bytes → SocksEffect
  associate : Bytes → Request → SocksEffect

-- `replySocks`: the address of a reply is a zero one.
unfoldable pub reply_socks : AddressType → Rep → SocksEffect
reply_socks ipv4_address rep = write_reply rep ipv4_address
reply_socks domain_address rep = write_reply rep ipv4_address
reply_socks ipv6_address rep = write_reply rep ipv6_address

abbrev pub emit {ℓ} : {A : Type ℓ} → SocksEffect → List SocksEffect × A → List SocksEffect × A
emit e (es, a) = (e ∷ es, a)

-- The loop over the methods.
unfoldable pub offers_password : List Method → Bool
offers_password [] = false
offers_password (username_password ∷ methods) = true
offers_password (other_method ∷ methods) = offers_password methods

unfoldable pub routed : Request → Outcome Node → Outcome Request
routed req (ok node) = ok (record req { peer_id = node.id; node_id = node.user_id })
routed req (err e) = err e
routed req panic = panic

abbrev pub parsed : SocksService → SocksConn → Outcome Request → List SocksEffect × Outcome Request
parsed s x (ok req) =
    (write_status true ∷ [], if not x.status_written then err other else routed req (s.route req))
parsed s x (err e) = (write_status false ∷ [], err e)
parsed s x panic = ([], panic)

-- What `Authenticate` found is written to the request before `Parse`.
abbrev pub identified : Request → Bytes × Option (List Permission) → Request
identified req (user, permissions) = record req { user_id = user; permissions = permissions }

abbrev pub authenticated :
    SocksService
    → SocksConn
    → Bytes
    → Request
    → Outcome (Bytes × Option (List Permission))
    → List SocksEffect × Outcome Request
authenticated s x uname req (ok user) =
    parsed s x (parse s.sum64 s.username uname (identified req user))
authenticated s x uname req (err e) = (write_status false ∷ [], err e)
authenticated s x uname req panic = ([], panic)

abbrev pub challenged :
    SocksService → SocksConn → Request → Option (Bytes × Bytes) → List SocksEffect × Outcome Request
challenged s x req none = ([], err other)
challenged s x req (some (uname, passwd)) = authenticated s x uname req (s.authenticate passwd)

abbrev pub accepted : SocksService → SocksConn → Request → List SocksEffect × Outcome Request
accepted s x req =
    emit (write_method true)
      (if not x.method_written then ([], err other) else challenged s x req x.credentials)

abbrev pub offered :
    SocksService → SocksConn → Request → Option (List Method) → List SocksEffect × Outcome Request
offered s x req none = ([], err other)
offered s x req (some methods) =
    if offers_password methods
    then accepted s x req
    else emit (write_method false)
        (if not x.refusal_written then ([], err other) else accepted s x req)

unfoldable pub negotiate : SocksService → SocksConn → Request → List SocksEffect × Outcome Request
unfolding offers_password routed parse
negotiate s x req = offered s x req x.methods

-- `handleTCP`; the Boolean is whether it returns no error.
unfoldable pub handle_tcp :
    SocksService → SocksConn → AddressType → Request → List SocksEffect × Bool
unfolding reply_socks dial_stream
handle_tcp s x atyp req = emit (dial (dial_stream s.dial_timeout req)) (
    if not x.dialed
    then ([], false)
    else if not x.service_set
    then (close_stream ∷ reply_socks atyp server_failure ∷ [], false)
    else emit forward_request (
        if not x.forwarded
        then (close_stream ∷ reply_socks atyp connection_refused ∷ [], false)
        else (transfer_both req.user_id req.node_id ∷ [], true)))

unfoldable pub has_colon : Bytes → Bool
has_colon [] = false
has_colon (c ∷ s) = if c == b':' then true else has_colon s

-- `net.JoinHostPort(h, strconv.Itoa(port))`.
unfoldable pub join_host_port : Bytes → ℕ → Bytes
unfolding has_colon itoa
join_host_port host port =
    if has_colon host
    then (b'[' ∷ host) ++ (b']' ∷ b':' ∷ itoa port)
    else host ++ (b':' ∷ itoa port)

abbrev pub associated : Request → Option ℕ → Option Bytes → List SocksEffect × Bool
associated req none host = ([], false)
associated req (some port) none = ([], false)
associated req (some port) (some host) =
    (associate (join_host_port host port) req ∷ discard_input ∷ [], true)

unfoldable pub handle_udp : SocksConn → Request → List SocksEffect × Bool
unfolding join_host_port
handle_udp x req = if not x.is_tcp then ([], false) else associated req x.udp_port x.remote_host

abbrev pub settle : List SocksEffect × Bool → List SocksEffect
settle (es, true) = es
settle (es, false) = es ++ (release_request ∷ [])

abbrev pub refused : AddressType → List SocksEffect
refused atyp = release_request ∷ reply_socks atyp command_not_supported ∷ []

-- The switch on the command.
unfoldable pub dispatch :
    SocksService → SocksConn → Request → Command × AddressType → List SocksEffect
unfolding handle_tcp handle_udp has_permissions reply_socks
dispatch s x req (connect, atyp) = settle (handle_tcp s x atyp req)
dispatch s x req (udp_associate, atyp) =
    if has_permissions req (permission_udp ∷ []) then settle (handle_udp x req) else refused atyp
dispatch s x req (other_command, atyp) = refused atyp

abbrev pub requested :
    SocksService → SocksConn → Request → Option (Command × AddressType) → List SocksEffect
requested s x req none = release_request ∷ []
requested s x req (some r) = dispatch s x req r

abbrev pub negotiated :
    SocksService → SocksConn → List SocksEffect × Outcome Request → List SocksEffect
negotiated s x (es, ok req) = es ++ requested s x req x.request
negotiated s x (es, err e) = es ++ (release_request ∷ [])
negotiated s x (es, panic) = es ++ (crash ∷ [])

-- The goroutine of `Serve` for a connection. `req` is the request that the pool gives.
unfoldable pub serve_conn : SocksService → SocksConn → Request → List SocksEffect
unfolding negotiate dispatch
serve_conn s x req = negotiated s x (negotiate s x req)
