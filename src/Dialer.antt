-- ===== src/Dialer.antt =====
-- pkg/dialer.go and pkg/protocol.go: the streams to nodes. libp2p's host is given the calls below.
use coinsurf_proxy.Base.{ℕ, Option, none, some, List, [], ◌∷◌, Bytes, codes, slt64, if◌then◌else◌}
use coinsurf_proxy.Request.{Request}

abbrev pub proxy_http_protocol : Bytes
proxy_http_protocol = codes "/proxy/0.0.1"

abbrev pub proxy_socks5_protocol : Bytes
proxy_socks5_protocol = codes "/proxy-socks5/0.0.1"

-- The arguments of `host.NewStream`; no timeout is the background context.
pub record NewStream : Type 0 where
  pub timeout : Option ℕ
  pub peer : Bytes
  pub protocol : Bytes

-- `Dial`, for the `dialTimeout` of the dialer.
unfoldable pub dial_stream : ℕ → Request → NewStream
dial_stream dial_timeout req = record {
  timeout = if slt64 0 dial_timeout then some dial_timeout else none;
  peer = req.peer_id;
  protocol = if req.socks5 then proxy_socks5_protocol else proxy_http_protocol;
}

pub data HostCall : Type 0 where
  close_peer remove_peer : Bytes → HostCall

-- `Disconnect`: the errors of the host are dropped, that of the router is returned.
unfoldable pub disconnect {ℓ} : {A : Type ℓ} → (Bytes → A) → Bytes → List HostCall × A
disconnect remove id = (close_peer id ∷ remove_peer id ∷ [], remove id)
