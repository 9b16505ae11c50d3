-- ===== src/ServiceAuth.antt =====
-- pkg/service_auth.go and pkg/server_auth.go: exit nodes that connect and disconnect. What a handler
-- does is the list of its effects; what libp2p, the router, the authentication and the resolver
-- answer is given.
pub mod Admission
pub mod Additions
mod Tests
use coinsurf_proxy.Base.{
  ℕ, Bool, true, false, not, ◌&&◌, ◌||◌, Option, none, some, List, [], ◌∷◌, ◌++◌, Bytes, codes,
  is_empty, split, if◌then◌else◌,
}
use coinsurf_proxy.Node.{Node, new_node}
use coinsurf_proxy.Router.{is_prefix}

pub record AuthMessage : Type 0 where
  pub api_key : Bytes
  pub user_agent : Bytes

-- `addresses` are the IPv4 and IPv6 address of the first connection to the peer, empty where there
-- is none, and `none` where there is no connection. `get_by_ip` is the router's, `remove_ok` and
-- `add_ok` whether its other operations succeed, `message` what is read from the stream.
pub record Peer : Type 0 where
  pub development_ip : Bytes
  pub addresses : Option (Bytes × Bytes)
  pub get_by_ip : Bytes → Option Node
  pub remove_ok : Bool
  pub stream_ok : Bool
  pub service_ok : Bool
  pub message : Option Bytes
  pub unmarshal : Bytes → Option AuthMessage
  pub is_uuid : Bytes → Bool
  pub authenticate : Bytes → Option Bytes
  pub write_ok : Bool
  pub close_ok : Bool
  pub lookup_ip : Bytes → Option (Bytes × Bytes × Bytes)
  pub add_ok : Bool

pub data Effect : Type 0 where
  disconnect remove new_stream : Bytes → Effect
  write_ok write_failed close_stream : Effect
  add : Node → Effect
  register : Bytes → Bytes → Node → Effect

-- `unauthorized` and `disconnect`.
abbrev pub refuse : Bytes → List Effect
refuse pid = write_failed ∷ close_stream ∷ disconnect pid ∷ []

-- The address that is looked up, and the node's IPv4 address.
unfoldable pub node_address : Peer → Bytes → Bytes → Bytes × Bytes
unfolding is_prefix
node_address e ipv4 ipv6 =
    let ip = if not (is_empty ipv6) then ipv6 else ipv4 in
    if not (is_empty e.development_ip)
      && (is_prefix (codes "192.168.0.") ip || is_prefix (codes "127.0.0.") ip)
    then (e.development_ip, e.development_ip)
    else (ip, ipv4)

abbrev pub agent_parts : List Bytes → Option (Bytes × Bytes × Bytes)
agent_parts [] = none
agent_parts (a ∷ []) = none
agent_parts (a ∷ b ∷ []) = none
agent_parts (a ∷ b ∷ c ∷ []) = some (a, b, c)
agent_parts (a ∷ b ∷ c ∷ d ∷ parts) = none

abbrev pub node_for :
    Bytes
    → Bytes
    → Bytes
    → AuthMessage
    → Bytes × Bytes × Bytes
    → Bytes
    → Bytes × Bytes × Bytes
    → Node
node_for pid ipv4 ipv6 msg agent user location = record new_node {
  id = pid;
  user_id = user;
  api_key = msg.api_key;
  os = agent.0;
  version = agent.1;
  app_version = agent.2;
  country = location.0;
  region = location.1;
  city = location.2;
  ipv4 = ipv4;
  ipv6 = ipv6;
}

module _ (e : Peer) (pid ip ipv4 ipv6 : Bytes) where
  -- From `router.Add` on.
  abbrev pub added : Bytes → Node → List Effect
  added user node = add node ∷ (if e.add_ok then register user ip node ∷ [] else [])

  abbrev pub resolved :
      AuthMessage → Bytes × Bytes × Bytes → Bytes → Option (Bytes × Bytes × Bytes) → List Effect
  resolved msg agent user none = []
  resolved msg agent user (some location) =
      added user (node_for pid ipv4 ipv6 msg agent user location)

  abbrev pub authorized : AuthMessage → Bytes × Bytes × Bytes → Option Bytes → List Effect
  authorized msg agent none = refuse pid
  authorized msg agent (some user) =
      write_ok
      ∷ (if not e.write_ok
          then refuse pid
          else close_stream
            ∷ (if not e.close_ok then [] else resolved msg agent user (e.lookup_ip ip)))

  abbrev pub with_agent : AuthMessage → Option (Bytes × Bytes × Bytes) → List Effect
  with_agent msg none = refuse pid
  with_agent msg (some agent) =
      if not (e.is_uuid msg.api_key)
      then refuse pid
      else authorized msg agent (e.authenticate msg.api_key)

  abbrev pub with_message : Option AuthMessage → List Effect
  with_message none = refuse pid
  with_message (some msg) =
      if is_empty msg.user_agent
      then refuse pid
      else with_agent msg (agent_parts (split b'#' msg.user_agent))

  abbrev pub read_message : Option Bytes → List Effect
  read_message none = refuse pid
  read_message (some bytes) = with_message (e.unmarshal bytes)

  -- From `NewStream` on.
  unfoldable pub authorize : List Effect
  unfolding split
  authorize =
      new_stream pid
      ∷ (if not e.stream_ok
          then disconnect pid ∷ []
          else if not e.service_ok
          then refuse pid
          else read_message e.message)

  -- A node with the same address gives way.
  abbrev pub replaced : Option Node → List Effect
  replaced none = authorize
  replaced (some node) =
      disconnect node.id ∷ remove node.id ∷ (if e.remove_ok then authorize else [])

abbrev pub connected : Peer → Bytes → Option (Bytes × Bytes) → List Effect
connected e pid none = disconnect pid ∷ []
connected e pid (some addresses) =
    let address = node_address e addresses.0 addresses.1 in
    if is_empty addresses.0 && is_empty addresses.1
    then disconnect pid ∷ []
    else replaced e pid address.0 address.1 addresses.1 (e.get_by_ip address.0)

unfoldable pub on_connect : Peer → Bytes → List Effect
unfolding node_address authorize
on_connect e pid = connected e pid e.addresses

-- An error is only logged.
unfoldable pub on_disconnect : Bytes → List Effect
on_disconnect pid = remove pid ∷ []
