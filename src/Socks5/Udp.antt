-- ===== src/Socks5/Udp.antt =====
-- pkg/service_proxy_socks5.go: UDP associations. `handleUDP` enters the request of an authenticated
-- client under its address; `UDPHandle` handles a packet; each exchange with a destination has a
-- goroutine. Requests are pointers, numbers here, because they go back to a pool. `serve_packet` is the
-- goroutine of a packet where it runs alone; in `Step` the goroutines of packets take turns.
pub mod Alone
pub mod Exchanges
pub mod Streams
pub mod Requests
mod Tests
use coinsurf_proxy.Base.{
  ℕ, zero, suc, ◌+◌, ◌≡◌, refl, Bool, true, false, not, Option, none, some, is_some, List, [], ◌∷◌,
  ◌++◌, Bytes, Assoc, lookup, insert, erase, if◌then◌else◌,
}

-- The variables that the goroutine of an exchange closes over.
pub record Exchange : Type 0 where
  pub client : Bytes
  pub destination : Bytes
  pub request : ℕ

-- `requests`, `exchangesUDP` with the client of each exchange, `srcUDP` with the local addresses,
-- the exchanges that run, each from its `Set` in the table to the `Delete` of its goroutine, and what
-- was put into the pool of requests.
pub record Udp : Type 0 where
  pub requests : Assoc ℕ
  pub exchanges : Assoc Bytes
  pub sources : Assoc Bytes
  pub running : List Exchange
  pub pool : List ℕ

abbrev pub empty : Udp
empty = record { requests = []; exchanges = []; sources = []; running = []; pool = [] }

-- What `socks5.Dial.DialUDP` answers: a connection with a local address, "address already in use"
-- and then the answer to the second try, or another error.
pub data Bind : Type 0 where
  bound : Bytes → Bind
  in_use : Option Bytes → Bind
  bind_failed : Bind

-- A packet and how its handling goes. `frag` is whether the fragment number is not zero.
pub record Packet : Type 0 where
  pub client : Bytes
  pub destination : Bytes
  pub payload : Bytes
  pub parsed : Bool
  pub frag : Bool
  pub dialed : Bool
  pub service_set : Bool
  pub resolved : Bool
  pub sent : Bool
  pub bind : Bind

pub data UdpEffect : Type 0 where
  -- The request, and whether a stream is opened for it.
  dial : ℕ → Bool → UdpEffect
  release : ℕ → UdpEffect
  close_stream close_remote : UdpEffect
  -- A write to the remote connection of a client's exchange.
  send : Bytes → Bytes → UdpEffect

-- The key of an exchange, `src + dst`.
abbrev pub exchange_key : Bytes → Bytes → Bytes
exchange_key client destination = client ++ destination

abbrev pub emit : UdpEffect → List UdpEffect × Udp → List UdpEffect × Udp
emit e (es, u) = (e ∷ es, u)

-- `s.requests.Set(key, request, -1)` of `handleUDP`.
unfoldable pub associate : Bytes → ℕ → Udp → Udp
unfolding insert
associate key p u = record u { requests = insert key p u.requests }

-- `onReturn`.
unfoldable pub on_return : Bytes → ℕ → Udp → List UdpEffect × Udp
unfolding erase
on_return client p u = (
  release p ∷ close_stream ∷ [],
  record u { requests = erase client u.requests; pool = p ∷ u.pool },
)

-- From `send` on, when the remote connection is made.
unfoldable pub start : Packet → ℕ → Udp → List UdpEffect × Udp
unfolding on_return insert
start x p u = emit (send x.client x.payload) (
    if not x.sent then emit close_remote (on_return x.client p u) else (
      [],
      record u {
        exchanges = insert (exchange_key x.client x.destination) x.client u.exchanges;
        running =
            record { client = x.client; destination = x.destination; request = p } ∷ u.running;
      },
    ))

-- `s.srcUDP.Set` where there is no local address.
abbrev pub remember : Packet → Bytes → Udp → Udp
remember x local u = record u {
  sources = insert (exchange_key x.client x.destination) local u.sources;
}

unfoldable pub bind_remote : Packet → ℕ → Bind → Udp → List UdpEffect × Udp
unfolding start lookup on_return insert
bind_remote x p (bound local) u = start x p (
    if is_some (lookup (exchange_key x.client x.destination) u.sources)
    then u
    else remember x local u)
bind_remote x p (in_use (some local)) u = start x p (remember x local u)
bind_remote x p (in_use none) u = on_return x.client p u
bind_remote x p bind_failed u = on_return x.client p u

-- From the lookup of the exchange on.
unfoldable pub exchange : Packet → ℕ → Option Bytes → Udp → List UdpEffect × Udp
unfolding bind_remote on_return
exchange x p (some client) u = (send client x.payload ∷ [], u)
exchange x p none u = if not x.resolved then on_return x.client p u else bind_remote x p x.bind u

abbrev pub handled : Packet → Option ℕ → Udp → List UdpEffect × Udp
handled x none u = ([], u)
handled x (some p) u = emit (dial p x.dialed) (
    if not x.dialed
    then ([], u)
    else if not x.service_set
    then (close_stream ∷ [], u)
    else exchange x p (lookup (exchange_key x.client x.destination) u.exchanges) u)

-- `UDPHandle`.
unfoldable pub udp_handle : Packet → Udp → List UdpEffect × Udp
unfolding exchange lookup
udp_handle x u = handled x (lookup x.client u.requests) u

-- The goroutine of the UDP listener for a packet, where no other one runs.
unfoldable pub serve_packet : Packet → Udp → List UdpEffect × Udp
unfolding udp_handle
serve_packet x u = if not x.parsed then ([], u) else if x.frag then ([], u) else udp_handle x u

-- What an exchange's goroutine defers. The exchanges that still run are `rest`.
unfoldable pub end_exchange : Exchange → List Exchange → Udp → List UdpEffect × Udp
unfolding on_return erase
end_exchange e rest u = emit close_remote (
    on_return e.client e.request (record u {
      exchanges = erase (exchange_key e.client e.destination) u.exchanges;
      running = rest;
    }))

-- One turn of the goroutine's loop, by where it ends: a payload that was read from the remote
-- connection is wrapped for the client if the destination can be parsed, and written.
pub data Turn : Type 0 where
  deadline_failed read_failed : Turn
  received : Bytes → Bool → Bool → Turn

-- The payloads that reach the client.
unfoldable pub relay : List Turn → List Bytes
relay [] = []
relay (deadline_failed ∷ turns) = []
relay (read_failed ∷ turns) = []
relay (received payload parsed written ∷ turns) =
    let rest = relay turns in if not parsed then [] else if not written then [] else payload ∷ rest

abbrev pub accepted_for : Packet → Option ℕ → Option ℕ
accepted_for x none = none
accepted_for x (some p) = if x.dialed then if x.service_set then some p else none else none

-- The request of a packet whose goroutine comes to the lookup of the exchange.
unfoldable pub accepted : Packet → Udp → Option ℕ
unfolding lookup
accepted x u =
    if not x.parsed
    then none
    else if x.frag
    then none
    else accepted_for x (lookup x.client u.requests)

-- The tables, and the goroutines of packets with their requests: those that have dialled, and those
-- that have looked for an exchange since and have found none.
pub record Busy : Type 0 where
  pub udp : Udp
  pub dialed : List (Packet × ℕ)
  pub missed : List (Packet × ℕ)

abbrev pub idle : Busy
idle = record { udp = empty; dialed = []; missed = [] }

abbrev pub looked : Packet → ℕ → List (Packet × ℕ) → Busy → Option Bytes → Busy
looked x p rest b (some client) = record b { dialed = rest }
looked x p rest b none = record b { dialed = rest; missed = (x, p) ∷ b.missed }

-- `s.exchangesUDP.Get`; the other goroutines that have dialled are `rest`.
unfoldable pub look : Packet → ℕ → List (Packet × ℕ) → Busy → Busy
unfolding lookup
look x p rest b = looked x p rest b (lookup (exchange_key x.client x.destination) b.udp.exchanges)

-- From there on: each path writes `requests` or `exchangesUDP` once.
unfoldable pub settle : Packet → ℕ → List (Packet × ℕ) → Busy → Busy
unfolding exchange
settle x p rest b = record b { udp = (exchange x p none b.udp).1; missed = rest }

-- Associations, ends of exchanges, and the reads and writes of the goroutines of packets, in any
-- order. `Allowed` says which requests the goroutines of connections enter, and under which keys;
-- `Admits` says under which keys a goroutine may look while others have missed.
pub data Step (Allowed : Bytes → ℕ → Type 0) (Admits : List (Packet × ℕ) → Bytes → Type 0)
    : Busy → Busy → Type 0 where
  associated :
      {b : Busy} (key : Bytes) (p : ℕ)
      → Allowed key p
      → Step Allowed Admits b (record b { udp = associate key p b.udp })
  accepts :
      {b : Busy} (x : Packet) (p : ℕ)
      → accepted x b.udp ≡ some p
      → Step Allowed Admits b (record b { dialed = (x, p) ∷ b.dialed })
  looks :
      {b : Busy} (before : List (Packet × ℕ)) (x : Packet) (p : ℕ) (after : List (Packet × ℕ))
      → b.dialed ≡ before ++ (x, p) ∷ after
      → Admits b.missed (exchange_key x.client x.destination)
      → Step Allowed Admits b (look x p (before ++ after) b)
  settles :
      {b : Busy} (before : List (Packet × ℕ)) (x : Packet) (p : ℕ) (after : List (Packet × ℕ))
      → b.missed ≡ before ++ (x, p) ∷ after
      → Step Allowed Admits b (settle x p (before ++ after) b)
  ended :
      {b : Busy} (before : List Exchange) (e : Exchange) (after : List Exchange)
      → b.udp.running ≡ before ++ e ∷ after
      → Step Allowed Admits b (record b { udp = (end_exchange e (before ++ after) b.udp).1 })

pub data Reach (Allowed : Bytes → ℕ → Type 0) (Admits : List (Packet × ℕ) → Bytes → Type 0)
    (s : Busy) : Busy → Type 0 where
  here : Reach Allowed Admits s s
  next :
      {t u : Busy} → Reach Allowed Admits s t → Step Allowed Admits t u → Reach Allowed Admits s u
