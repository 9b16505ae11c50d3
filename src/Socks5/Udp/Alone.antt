-- ===== src/Socks5/Udp/Alone.antt =====
-- pkg/service_proxy_socks5.go, `UDPHandle`: the goroutine of a packet that is not interrupted takes the
-- steps of the goroutines that are.
use coinsurf_proxy.Base.{
  ◌≡◌, ◌∙◌, ap, sym, ℕ, Option, none, some, [], ◌∷◌, lookup, inl, inr, Bool-cases, arith,
}
use coinsurf_proxy.Socks5.Udp.{
  Udp, Packet, exchange_key, exchange, handled, udp_handle, serve_packet, accepted_for, accepted,
  Busy, look, settle,
}
use coinsurf_proxy.Socks5.Udp.Exchanges.{looked-udp}

-- A packet whose goroutine has just dialled.
abbrev dialed_alone : Packet → ℕ → Udp → Busy
dialed_alone x p u = record { udp = u; dialed = (x, p) ∷ []; missed = [] }

module _ (x : Packet) (u : Udp) where
  handled-accepted :
      (o : Option ℕ) (p : ℕ)
      → accepted_for x o ≡ some p
      → (handled x o u).1
        ≡ (exchange x p (lookup (exchange_key x.client x.destination) u.exchanges) u).1
  handled-accepted none p e = cc
  handled-accepted (some q) p e = elim (Bool-cases x.dialed) [
    | inr failed ↦ absurd (ground (arith, failed, e))
    | inl dialed ↦ elim (Bool-cases x.service_set) [
      | inr failed ↦ absurd (ground (arith, failed, e))
      | inl set ↦ ground (arith, dialed, set, e)
    ]
  ]

  serve_packet-accepted :
      (p : ℕ)
      → accepted x u ≡ some p
      → (serve_packet x u).1
        ≡ (exchange x p (lookup (exchange_key x.client x.destination) u.exchanges) u).1
  unfolding serve_packet udp_handle accepted
  serve_packet-accepted p e = elim (Bool-cases x.parsed) [
    | inr failed ↦ absurd (ground (arith, failed, e))
    | inl parsed ↦ elim (Bool-cases x.frag) [
      | inl fragment ↦ absurd (ground (arith, fragment, e))
      | inr whole ↦
          simp (parsed, whole)
            (handled-accepted (lookup x.client u.requests) p (rw (parsed, whole) at e))
    ]
  ]

  -- Where an accepted packet finds no exchange and no other goroutine takes a turn, `serve_packet` and
  -- the two steps leave the same tables.
  serve_packet-alone :
      (p : ℕ)
      → accepted x u ≡ some p
      → lookup (exchange_key x.client x.destination) u.exchanges ≡ none
      → (serve_packet x u).1 ≡ (settle x p [] (look x p [] (dialed_alone x p u))).udp
  unfolding look settle
  serve_packet-alone p e missed =
      let start = dialed_alone x p u in
      let kept =
        looked-udp x p [] start (lookup (exchange_key x.client x.destination) u.exchanges) in
      serve_packet-accepted p e
      ∙ (ap (λ o. (exchange x p o u).1) missed
          ∙ ap (λ (v : Udp). (exchange x p none v).1) (sym kept))
