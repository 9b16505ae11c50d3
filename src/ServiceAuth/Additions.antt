-- ===== src/ServiceAuth/Additions.antt =====
-- pkg/service_auth.go, `OnConnect`: what stands in front of `router.Add`.
use coinsurf_proxy.Base.{
  ◌≡◌, refl, sym, ap, ◌∙◌, ◌⊎◌, inl, inr, Bool, true, false, not, ◌&&◌, Option, none, some,
  some_inj, List, [], ◌∷◌, Bytes, is_empty, split, if◌then◌else◌, Bool-cases, arith,
}
use coinsurf_proxy.Node.{Node}
use coinsurf_proxy.ServiceAuth.{
  AuthMessage, Peer, Effect, disconnect, remove, new_stream, write_ok, write_failed, close_stream,
  add, register, refuse, node_for, agent_parts, node_address, resolved, authorized, with_agent,
  with_message, read_message, authorize, replaced, connected, on_connect,
}

abbrev adds_with : Effect → List Node → List Node
adds_with (disconnect id) nodes = nodes
adds_with (remove id) nodes = nodes
adds_with (new_stream id) nodes = nodes
adds_with write_ok nodes = nodes
adds_with write_failed nodes = nodes
adds_with close_stream nodes = nodes
adds_with (add node) nodes = node ∷ nodes
adds_with (register user ip node) nodes = nodes

-- The nodes that are added, in order.
abbrev pub adds : List Effect → List Node
adds [] = []
adds (x ∷ xs) = adds_with x (adds xs)

-- The node is the peer, under the user that its key authenticates and with the parts of the user
-- agent that it sent.
abbrev pub IsAdmitted : Peer → Bytes → Node → Type 0
IsAdmitted e pid node =
    (bytes : Bytes) × (msg : AuthMessage) × (e.message ≡ some bytes)
    × (e.unmarshal bytes ≡ some msg)
    × (split b'#' msg.user_agent ≡ node.os ∷ node.version ∷ node.app_version ∷ [])
    × (e.is_uuid msg.api_key ≡ true)
    × (e.authenticate msg.api_key ≡ some node.user_id)
    × (node.api_key ≡ msg.api_key)
    × (node.id ≡ pid)

-- The node that is made of a message.
abbrev IsMade : Bytes → AuthMessage → Bytes × Bytes × Bytes → Bytes → Node → Type 0
IsMade pid msg agent user node =
    (node.id ≡ pid)
    × (node.user_id ≡ user)
    × (node.api_key ≡ msg.api_key)
    × (agent ≡ (node.os, node.version, node.app_version))

-- Nothing is added, or one node that fulfils `Q`.
abbrev AddsOnly : (Node → Type 0) → List Effect → Type 0
AddsOnly Q es = (adds es ≡ []) ⊎ ((node : Node) × Q node × (adds es ≡ node ∷ []))

module _ (Q : Node → Type 0) where
  if-AddsOnly :
      (b : Bool) (xs ys : List Effect)
      → AddsOnly Q xs
      → (b ≡ false → AddsOnly Q ys)
      → AddsOnly Q (if b then xs else ys)
  if-AddsOnly true xs ys hx hy = hx
  if-AddsOnly false xs ys hx hy = hy refl

  module _ (e : Peer) (pid ip ipv4 ipv6 : Bytes) where
    added-adds :
        (user : Bytes) (node : Node) (ok : Bool)
        → adds (if ok then register user ip node ∷ [] else []) ≡ []
    added-adds user node true = refl
    added-adds user node false = refl

    resolved-AddsOnly :
        (msg : AuthMessage) (agent : Bytes × Bytes × Bytes) (user : Bytes)
        (o : Option (Bytes × Bytes × Bytes))
        → ((node : Node) → IsMade pid msg agent user node → Q node)
        → AddsOnly Q (resolved e pid ip ipv4 ipv6 msg agent user o)
    resolved-AddsOnly msg agent user none admit = inl refl
    resolved-AddsOnly msg agent user (some location) admit =
        let node = node_for pid ipv4 ipv6 msg agent user location in
        inr (
          node,
          admit node (refl, refl, refl, refl),
          ap (λ (ns : List Node). node ∷ ns) (added-adds user node e.add_ok),
        )

    authorized-AddsOnly :
        (msg : AuthMessage) (agent : Bytes × Bytes × Bytes) (o : Option Bytes)
        → ((user : Bytes) (node : Node) → o ≡ some user → IsMade pid msg agent user node → Q node)
        → AddsOnly Q (authorized e pid ip ipv4 ipv6 msg agent o)
    authorized-AddsOnly msg agent none admit = inl refl
    authorized-AddsOnly msg agent (some user) admit =
        if-AddsOnly (not e.write_ok) (refuse pid) _ (inl refl) (λ _.
          if-AddsOnly (not e.close_ok) [] _ (inl refl)
            (λ _. resolved-AddsOnly msg agent user (e.lookup_ip ip) (λ node. admit user node refl)))

    with_agent-AddsOnly :
        (msg : AuthMessage) (o : Option (Bytes × Bytes × Bytes))
        → ((agent : Bytes × Bytes × Bytes) (user : Bytes) (node : Node)
            → o ≡ some agent
            → e.is_uuid msg.api_key ≡ true
            → e.authenticate msg.api_key ≡ some user
            → IsMade pid msg agent user node
            → Q node)
        → AddsOnly Q (with_agent e pid ip ipv4 ipv6 msg o)
    with_agent-AddsOnly msg none admit = inl refl
    with_agent-AddsOnly msg (some agent) admit =
        if-AddsOnly (not (e.is_uuid msg.api_key)) (refuse pid) _ (inl refl) (λ uuid.
          authorized-AddsOnly msg agent (e.authenticate msg.api_key)
            (λ user node. admit agent user node refl (ground (arith, uuid))))

agent_parts-eq-some :
    (parts : List Bytes) (agent : Bytes × Bytes × Bytes)
    → agent_parts parts ≡ some agent
    → parts ≡ agent.0 ∷ agent.1 ∷ agent.2 ∷ []
agent_parts-eq-some [] agent h = cc
agent_parts-eq-some (a ∷ []) agent h = cc
agent_parts-eq-some (a ∷ b ∷ []) agent h = cc
agent_parts-eq-some (a ∷ b ∷ c ∷ []) agent h =
    ap (λ (x : Bytes × Bytes × Bytes). x.0 ∷ x.1 ∷ x.2 ∷ []) (some_inj h)
agent_parts-eq-some (a ∷ b ∷ c ∷ d ∷ parts) agent h = cc

module _ (e : Peer) (pid ip ipv4 ipv6 : Bytes) where
  with_message-AddsOnly :
      (bytes : Bytes) (o : Option AuthMessage)
      → e.message ≡ some bytes
      → e.unmarshal bytes ≡ o
      → AddsOnly (IsAdmitted e pid) (with_message e pid ip ipv4 ipv6 o)
  with_message-AddsOnly bytes none read h = inl refl
  with_message-AddsOnly bytes (some msg) read h =
      if-AddsOnly (IsAdmitted e pid) (is_empty msg.user_agent) (refuse pid) _ (inl refl) (λ _.
        with_agent-AddsOnly (IsAdmitted e pid) e pid ip ipv4 ipv6 msg
          (agent_parts (split b'#' msg.user_agent))
          (λ agent user node parts uuid known (id, by, key, made). (
            bytes,
            msg,
            read,
            h,
            agent_parts-eq-some _ agent parts
                ∙ ap (λ (x : Bytes × Bytes × Bytes). x.0 ∷ x.1 ∷ x.2 ∷ []) made,
            uuid,
            known ∙ ap some (sym by),
            key,
            id,
          )))

  read_message-AddsOnly :
      (o : Option Bytes)
      → e.message ≡ o
      → AddsOnly (IsAdmitted e pid) (read_message e pid ip ipv4 ipv6 o)
  read_message-AddsOnly none read = inl refl
  read_message-AddsOnly (some bytes) read =
      with_message-AddsOnly bytes (e.unmarshal bytes) read refl

  authorize-AddsOnly : AddsOnly (IsAdmitted e pid) (authorize e pid ip ipv4 ipv6)
  unfolding authorize
  authorize-AddsOnly =
      if-AddsOnly (IsAdmitted e pid) (not e.stream_ok) (disconnect pid ∷ []) _ (inl refl) (λ _.
        if-AddsOnly (IsAdmitted e pid) (not e.service_ok) (refuse pid) _ (inl refl)
          (λ _. read_message-AddsOnly e.message refl))

  replaced-AddsOnly :
      (o : Option Node) → AddsOnly (IsAdmitted e pid) (replaced e pid ip ipv4 ipv6 o)
  unfolding authorize
  replaced-AddsOnly none = authorize-AddsOnly
  replaced-AddsOnly (some node) = elim (Bool-cases e.remove_ok) [
    | inl removed ↦ rw removed authorize-AddsOnly
    | inr refused ↦ rw refused (inl refl)
  ]

connected-AddsOnly :
    (e : Peer) (pid : Bytes) (addresses : Option (Bytes × Bytes))
    → AddsOnly (IsAdmitted e pid) (connected e pid addresses)
connected-AddsOnly e pid none = inl refl
connected-AddsOnly e pid (some (ipv4, ipv6)) =
    let address = node_address e ipv4 ipv6 in
    if-AddsOnly (IsAdmitted e pid) (is_empty ipv4 && is_empty ipv6) (disconnect pid ∷ []) _
      (inl refl) (λ _. replaced-AddsOnly e pid address.0 address.1 ipv6 (e.get_by_ip address.0))

-- `OnConnect` adds at most one node. It is the peer that connected, which sent a user agent of three
-- parts and a key that is a UUID; it stands under the user that this key authenticates.
pub on_connect-adds :
    (e : Peer) (pid : Bytes)
    → (adds (on_connect e pid) ≡ [])
      ⊎ ((node : Node) × IsAdmitted e pid node × (adds (on_connect e pid) ≡ node ∷ []))
unfolding on_connect
on_connect-adds e pid = connected-AddsOnly e pid e.addresses
