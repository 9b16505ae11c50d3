-- ===== src/Socks5/Udp/Requests.antt =====
-- pkg/service_proxy_socks5.go: the requests of UDP associations, and their way back to the pool.
use coinsurf_proxy.Base.{
  ◌++◌, ℕ, ◌≡◌, refl, ◌⊎◌, inl, inr, Option, none, some, is_some, List, [], ◌∷◌, Bytes, Assoc,
  lookup, erase, lookup-insert, lookup-erase, bytes_eq, bytes_eq_iff, Bool-cases, arith,
}
use coinsurf_proxy.Socks5.Udp.{
  Udp, Bind, bound, in_use, bind_failed, Packet, UdpEffect, dial, exchange_key, associate,
  on_return, start, bind_remote, exchange, handled, udp_handle, serve_packet, end_exchange, Busy,
  idle, looked, look, settle, Step, associated, accepts, looks, settles, ended, Reach, here, next,
}

-- Packets only take entries out of the table of requests, all those of one key at a time.
abbrev Shrinks : Bytes → Udp → Udp → Type 0
Shrinks client u u' = (u'.requests ≡ u.requests) ⊎ (u'.requests ≡ erase client u.requests)

module _ (x : Packet) (p : ℕ) where
  start-Shrinks : (u : Udp) → Shrinks x.client u (start x p u).1
  unfolding start on_return
  start-Shrinks u = elim (Bool-cases x.sent) [
    | inl sent ↦ rw sent (inl refl)
    | inr failed ↦ rw failed (inr refl)
  ]

  bind_remote-Shrinks : (b : Bind) (u : Udp) → Shrinks x.client u (bind_remote x p b u).1
  unfolding bind_remote on_return
  bind_remote-Shrinks (bound local) u =
      elim (Bool-cases (is_some (lookup (exchange_key x.client x.destination) u.sources))) [
        | inl known ↦ rw known (start-Shrinks u)
        | inr unknown ↦ rw unknown (start-Shrinks _)
      ]
  bind_remote-Shrinks (in_use (some local)) u = start-Shrinks _
  bind_remote-Shrinks (in_use none) u = inr refl
  bind_remote-Shrinks bind_failed u = inr refl

  exchange-Shrinks : (o : Option Bytes) (u : Udp) → Shrinks x.client u (exchange x p o u).1
  unfolding exchange on_return
  exchange-Shrinks (some client) u = inl refl
  exchange-Shrinks none u = elim (Bool-cases x.resolved) [
    | inl resolved ↦ rw resolved (bind_remote-Shrinks x.bind u)
    | inr failed ↦ rw failed (inr refl)
  ]

looked-requests :
    (x : Packet) (p : ℕ) (rest : List (Packet × ℕ)) (b : Busy) (o : Option Bytes)
    → (looked x p rest b o).udp.requests ≡ b.udp.requests
looked-requests x p rest b none = refl
looked-requests x p rest b (some client) = refl

module _ (Allowed : Bytes → ℕ → Type 0) where
  abbrev AllAllowed : Udp → Type 0
  AllAllowed u = (k : Bytes) (p : ℕ) → lookup k u.requests ≡ some p → Allowed k p

  erase-allowed :
      (m : Assoc ℕ) (key : Bytes)
      → ((k : Bytes) (p : ℕ) → lookup k m ≡ some p → Allowed k p)
      → (k : Bytes) (p : ℕ) → lookup k (erase key m) ≡ some p
      → Allowed k p
  erase-allowed m key h k p e = elim (Bool-cases (bytes_eq key k)) [
    | inl same ↦ absurd (ground (arith, lookup-erase key k m, same, e))
    | inr other ↦ h k p (ground (arith, lookup-erase key k m, other, e))
  ]

  shrink-AllAllowed :
      (client : Bytes) (u u' : Udp) → Shrinks client u u' → AllAllowed u → AllAllowed u'
  shrink-AllAllowed client u u' (inl same) h k p e = h k p (rw same at e)
  shrink-AllAllowed client u u' (inr gone) h k p e =
      erase-allowed u.requests client h k p (rw gone at e)

  associate-AllAllowed :
      (key : Bytes) (p : ℕ) (u : Udp)
      → Allowed key p
      → AllAllowed u
      → AllAllowed (associate key p u)
  unfolding associate
  associate-AllAllowed key p u allowed h k q e = elim (Bool-cases (bytes_eq key k)) [
    | inl same ↦
        let found : q ≡ p = ground (arith, lookup-insert key k p u.requests, same, e) in
        rw (found, ← (bytes_eq_iff key k).0 same) allowed
    | inr other ↦ h k q (ground (arith, lookup-insert key k p u.requests, other, e))
  ]

  module _ {Admits : List (Packet × ℕ) → Bytes → Type 0} where
    Step-AllAllowed :
        {b b' : Busy} → Step Allowed Admits b b' → AllAllowed b.udp → AllAllowed b'.udp
    unfolding end_exchange on_return look settle
    Step-AllAllowed {b = b} (associated key p allowed) h =
        associate-AllAllowed key p b.udp allowed h
    Step-AllAllowed (accepts x p accepted) h = h
    Step-AllAllowed {b = b} (looks before x p after split admitted) h =
        shrink-AllAllowed x.client b.udp (look x p (before ++ after) b).udp
          (inl (
            looked-requests x p (before ++ after) b
              (lookup (exchange_key x.client x.destination) b.udp.exchanges)))
          h
    Step-AllAllowed {b = b} (settles before x p after split) h =
        shrink-AllAllowed x.client b.udp (exchange x p none b.udp).1
          (exchange-Shrinks x p none b.udp) h
    Step-AllAllowed {b = b} (ended before e after split) h = erase-allowed b.udp.requests e.client h

    Reach-AllAllowed : {b : Busy} → Reach Allowed Admits idle b → AllAllowed b.udp
    unfolding lookup
    Reach-AllAllowed here k p e = cc
    Reach-AllAllowed (next r st) k p e = Step-AllAllowed st (Reach-AllAllowed r) k p e

-- The requests that effects open a stream for.
abbrev dialed_for : UdpEffect → List ℕ → List ℕ
dialed_for (dial p opened) ps = p ∷ ps
dialed_for _ ps = ps

abbrev pub dials : List UdpEffect → List ℕ
dials [] = []
dials (e ∷ es) = dialed_for e (dials es)

module _ (x : Packet) (p : ℕ) where
  start-dials : (u : Udp) → dials (start x p u).0 ≡ []
  unfolding start on_return
  start-dials u = ground arith

  bind_remote-dials : (b : Bind) (u : Udp) → dials (bind_remote x p b u).0 ≡ []
  unfolding bind_remote on_return
  bind_remote-dials (bound local) u = start-dials _
  bind_remote-dials (in_use (some local)) u = start-dials _
  bind_remote-dials (in_use none) u = refl
  bind_remote-dials bind_failed u = refl

  exchange-dials : (o : Option Bytes) (u : Udp) → dials (exchange x p o u).0 ≡ []
  unfolding exchange on_return
  exchange-dials (some client) u = refl
  exchange-dials none u = ground (arith, bind_remote-dials x.bind u)

module _ (x : Packet) (u : Udp) where
  abbrev DialsFor : List ℕ → Type 0
  DialsFor ps = (ps ≡ []) ⊎ ((p : ℕ) × (lookup x.client u.requests ≡ some p) × (ps ≡ p ∷ []))

  handled-dials :
      (o : Option ℕ) → lookup x.client u.requests ≡ o → DialsFor (dials (handled x o u).0)
  handled-dials none e = inl refl
  handled-dials (some p) e = inr (
    p,
    e,
    ground (arith, exchange-dials x p (lookup (exchange_key x.client x.destination) u.exchanges) u),
  )

  serve_packet-DialsFor : DialsFor (dials (serve_packet x u).0)
  unfolding serve_packet udp_handle
  serve_packet-DialsFor = elim (Bool-cases x.parsed) [
    | inr failed ↦ rw failed (inl refl)
    | inl parsed ↦ elim (Bool-cases x.frag) [
      | inl fragment ↦ simp (parsed, fragment) (inl refl)
      | inr whole ↦ simp (parsed, whole) (handled-dials (lookup x.client u.requests) refl)
    ]
  ]

-- In every state that associations, ends of exchanges and the goroutines of packets reach, in any
-- order, a packet opens no stream, or one, for a request that was entered under the packet's own
-- address.
pub serve_packet-dials :
    (Allowed : Bytes → ℕ → Type 0) (Admits : List (Packet × ℕ) → Bytes → Type 0) (x : Packet)
    (b : Busy)
    → Reach Allowed Admits idle b
    → let ps = dials (serve_packet x b.udp).0 in
      (ps ≡ []) ⊎ ((p : ℕ) × Allowed x.client p × (ps ≡ p ∷ []))
serve_packet-dials Allowed Admits x b r = elim (serve_packet-DialsFor x b.udp) [
  | inl nothing ↦ inl nothing
  | inr (p, found, once) ↦ inr (p, Reach-AllAllowed Allowed r x.client p found, once)
]
