-- ===== src/Socks5/Udp/Streams.antt =====
-- pkg/service_proxy_socks5.go: the streams that packets open, and how often a request goes back to
-- the pool.
use coinsurf_proxy.Base.{
  ℕ, ◌+◌, ◌≡◌, refl, inl, inr, Bool, true, not, ◌&&◌, Option, none, some, is_some, List, [], ◌∷◌,
  Bytes, lookup, length, Bool-cases, if◌then◌else◌, ◌==◌, arith,
}
use coinsurf_proxy.Socks5.Udp.{
  Exchange, Udp, Bind, bound, in_use, bind_failed, Packet, UdpEffect, dial, close_stream,
  exchange_key, on_return, start, bind_remote, exchange, handled, udp_handle, serve_packet,
  end_exchange,
}

abbrev is_opened : UdpEffect → ℕ
is_opened (dial p true) = 1
is_opened _ = 0

abbrev pub opened : List UdpEffect → ℕ
opened [] = 0
opened (e ∷ es) = is_opened e + opened es

abbrev is_closed : UdpEffect → ℕ
is_closed close_stream = 1
is_closed _ = 0

abbrev pub closed : List UdpEffect → ℕ
closed [] = 0
closed (e ∷ es) = is_closed e + closed es

module _ (x : Packet) (p : ℕ) where
  -- A stream that is open when the handling goes on is closed, or an exchange runs that closes it.
  abbrev Settled : Udp → List UdpEffect × Udp → Type 0
  Settled u (es, u') = (1 + length u.running ≡ closed es + length u'.running) × (opened es ≡ 0)

  start-Settled : (u : Udp) → Settled u (start x p u)
  unfolding start on_return
  start-Settled u = ground arith

  bind_remote-Settled : (b : Bind) (u : Udp) → Settled u (bind_remote x p b u)
  unfolding bind_remote on_return
  bind_remote-Settled (bound local) u =
      elim (Bool-cases (is_some (lookup (exchange_key x.client x.destination) u.sources))) [
        | inl known ↦ rw known (start-Settled u)
        | inr unknown ↦ rw unknown (start-Settled _)
      ]
  bind_remote-Settled (in_use (some local)) u = start-Settled _
  bind_remote-Settled (in_use none) u = ground arith
  bind_remote-Settled bind_failed u = ground arith

  exchange-Settled : (u : Udp) → Settled u (exchange x p none u)
  unfolding exchange on_return
  exchange-Settled u = elim (Bool-cases x.resolved) [
    | inl resolved ↦ rw resolved (bind_remote-Settled x.bind u)
    | inr failed ↦ rw failed (ground arith)
  ]

-- The packet belongs to an exchange that is listed, and a stream is opened for it.
abbrev pub repeats : Packet → Udp → Bool
repeats x u =
    x.parsed
    && (not x.frag
        && (is_some (lookup x.client u.requests)
            && (x.dialed
                && (x.service_set
                    && is_some (lookup (exchange_key x.client x.destination) u.exchanges)))))

module _ (x : Packet) (u : Udp) where
  -- The streams of a step, where `stray` are neither closed nor left to an exchange.
  abbrev Balanced : ℕ → List UdpEffect × Udp → Type 0
  Balanced stray (es, u') = opened es + length u.running ≡ closed es + (length u'.running + stray)

  exchange-Balanced :
      (p : ℕ) (o : Option Bytes)
      → 1 + length u.running
        ≡ closed (exchange x p o u).0
          + (length (exchange x p o u).1.running + (if is_some o then 1 else 0))
  unfolding exchange
  exchange-Balanced p none = omega (arith, (exchange-Settled x p u).0)
  exchange-Balanced p (some client) = omega arith

  exchange-opens : (p : ℕ) (o : Option Bytes) → opened (exchange x p o u).0 ≡ 0
  unfolding exchange
  exchange-opens p none = (exchange-Settled x p u).1
  exchange-opens p (some client) = refl

  handled-Balanced :
      (o : Option ℕ)
      → Balanced
          (if is_some o
              && (x.dialed
                  && (x.service_set
                      && is_some (lookup (exchange_key x.client x.destination) u.exchanges)))
            then 1
            else 0)
          (handled x o u)
  handled-Balanced none = omega arith
  handled-Balanced (some p) = ground (
    arith,
    exchange-Balanced p (lookup (exchange_key x.client x.destination) u.exchanges),
    exchange-opens p (lookup (exchange_key x.client x.destination) u.exchanges),
  )

  -- Of the streams that a packet opens, one is neither closed nor left to the exchange that closes
  -- it just where the packet belongs to an exchange that is listed.
  pub serve_packet-opened :
      opened (serve_packet x u).0 + length u.running
      ≡ closed (serve_packet x u).0
        + (length (serve_packet x u).1.running + (if repeats x u then 1 else 0))
  unfolding serve_packet udp_handle
  serve_packet-opened = ground (arith, handled-Balanced (lookup x.client u.requests))

-- How often a request was put into a pool, and how many exchanges hold it.
abbrev pub pooled : ℕ → List ℕ → ℕ
pooled p [] = 0
pooled p (q ∷ pool) = (if q == p then 1 else 0) + pooled p pool

abbrev pub holders : ℕ → List Exchange → ℕ
holders p [] = 0
holders p (e ∷ es) = (if e.request == p then 1 else 0) + holders p es

-- The given exchanges end one after the other.
unfoldable pub end_all : List Exchange → Udp → Udp
unfolding end_exchange
end_all [] u = u
end_all (e ∷ es) u = end_all es (end_exchange e es u).1

-- When the exchanges end, a request goes back to the pool once for each exchange that holds it.
pub end_all-pooled :
    (p : ℕ) (es : List Exchange) (u : Udp)
    → pooled p (end_all es u).pool ≡ pooled p u.pool + holders p es
unfolding end_all end_exchange on_return
end_all-pooled p [] u = omega arith
end_all-pooled p (e ∷ es) u = omega (arith, end_all-pooled p es (end_exchange e es u).1)
