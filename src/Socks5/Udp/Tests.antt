-- ===== src/Socks5/Udp/Tests.antt =====
-- pkg/service_proxy_socks5.go: two clients and their packets, and the theorems about UDP there.
use coinsurf_proxy.Base.{
  ℕ, ◌+◌, ◌≡◌, ◌≤◌, ◌++◌, List, refl, ◌⊎◌, true, false, none, some, [], ◌∷◌, Bytes, codes, lookup,
  insert, erase, length, if◌then◌else◌,
}
use coinsurf_proxy.Socks5.Udp.{
  Udp, empty, bound, in_use, Packet, dial, release, close_stream, send, exchange_key, associate,
  on_return, start, bind_remote, exchange, udp_handle, serve_packet, end_exchange, received,
  read_failed, relay, Busy, idle, accepted, look, settle, associated, accepts, looks, settles,
  Reach, here, next,
}
use coinsurf_proxy.Socks5.Udp.Exchanges.{runs, listed, IsAlone, Reach-runs, Reach-IsTracked}
use coinsurf_proxy.Socks5.Udp.Requests.{dials, serve_packet-dials}
use coinsurf_proxy.Socks5.Udp.Streams.{
  opened, closed, repeats, serve_packet-opened, pooled, holders, end_all, end_all-pooled,
}

computes : Unit {0}
unfolding lookup insert erase associate on_return start bind_remote exchange udp_handle serve_packet
    end_exchange end_all accepted look settle
computes = tt

abbrev datagram : Bytes → Bytes → Packet
datagram client destination = record {
  client = client;
  destination = destination;
  payload = codes "ping";
  parsed = true;
  frag = false;
  dialed = true;
  service_set = true;
  resolved = true;
  sent = true;
  bind = bound (codes "local");
}

abbrev first : Packet
first = datagram (codes "c:1") (codes "11.2:53")

abbrev second : Packet
second = datagram (codes "c:1") (codes "3.3:53")

-- The request 7 is associated with a client that sends to two destinations.
abbrev after_first : Udp
after_first = (serve_packet first (associate (codes "c:1") 7 empty)).1

abbrev after_second : Udp
after_second = (serve_packet second after_first).1

run_first :
    (serve_packet first (associate (codes "c:1") 7 empty)).0
    ≡ dial 7 true ∷ send (codes "c:1") (codes "ping") ∷ []
unfolding computes
run_first = refl

-- An address in use is tried again without it.
run_in_use :
    (serve_packet (record first { bind = in_use none }) (associate (codes "c:1") 7 empty)).0
    ≡ dial 7 true ∷ release 7 ∷ close_stream ∷ []
unfolding computes
run_in_use = refl

run_relay :
    relay (received (codes "a") true true ∷ received (codes "b") true false ∷ read_failed ∷ [])
    ≡ codes "a" ∷ []
unfolding relay
run_relay = refl

-- Both exchanges end: the request is put into the pool twice.
released_twice : (end_all after_second.running after_second).pool ≡ 7 ∷ 7 ∷ []
unfolding computes
released_twice = refl

end_all-pooled_case :
    pooled 7 (end_all after_second.running after_second).pool
    ≡ pooled 7 after_second.pool + holders 7 after_second.running
end_all-pooled_case = end_all-pooled 7 after_second.running after_second

abbrev IsSeven : Bytes → ℕ → Type 0
IsSeven key p = p ≡ 7

abbrev Any : List (Packet × ℕ) → Bytes → Type 0
Any missed key = Unit

abbrev held : Busy
held = record { udp = associate (codes "c:1") 7 empty; dialed = []; missed = [] }

abbrev first_dialed : Busy
first_dialed = record { udp = held.udp; dialed = (first, 7) ∷ []; missed = [] }

abbrev first_done : Busy
first_done = settle first 7 [] (look first 7 [] first_dialed)

first_accepted : accepted first held.udp ≡ some 7
unfolding computes
first_accepted = refl

first_missed : (look first 7 [] first_dialed).missed ≡ [] ++ (first, 7) ∷ []
unfolding computes
first_missed = refl

-- One goroutine runs at a time.
reached : Reach IsSeven IsAlone idle first_done
reached =
    next
      (next (next (next here (associated (codes "c:1") 7 refl)) (accepts first 7 first_accepted))
        (looks [] first 7 [] refl refl))
      (settles [] first 7 [] first_missed)

Reach-IsTracked_example :
    runs (codes "c:111.2:53") first_done.udp.running ≡ listed (codes "c:111.2:53") first_done.udp
Reach-IsTracked_example = Reach-IsTracked (codes "c:111.2:53") reached

serve_packet-dials_example :
    let ps = dials (serve_packet first first_done.udp).0 in
    (ps ≡ []) ⊎ ((p : ℕ) × IsSeven (codes "c:1") p × (ps ≡ p ∷ []))
serve_packet-dials_example = serve_packet-dials IsSeven IsAlone first first_done reached

-- Two packets of one client and destination: both goroutines look before one of them starts.
abbrev both_dialed : Busy
both_dialed = record { udp = held.udp; dialed = (first, 7) ∷ (first, 7) ∷ []; missed = [] }

abbrev both_missed : Busy
both_missed = look first 7 [] (look first 7 ((first, 7) ∷ []) both_dialed)

abbrev both_done : Busy
both_done = settle first 7 [] (settle first 7 ((first, 7) ∷ []) both_missed)

both_dialed_eq : (look first 7 ((first, 7) ∷ []) both_dialed).dialed ≡ [] ++ (first, 7) ∷ []
unfolding computes
both_dialed_eq = refl

both_missed_eq : both_missed.missed ≡ [] ++ (first, 7) ∷ (first, 7) ∷ []
unfolding computes
both_missed_eq = refl

last_missed_eq : (settle first 7 ((first, 7) ∷ []) both_missed).missed ≡ [] ++ (first, 7) ∷ []
unfolding computes
last_missed_eq = refl

raced : Reach IsSeven Any idle both_done
raced =
    next
      (next
        (next
          (next
            (next
              (next (next here (associated (codes "c:1") 7 refl)) (accepts first 7 first_accepted))
              (accepts first 7 first_accepted))
            (looks [] first 7 ((first, 7) ∷ []) refl tt))
          (looks [] first 7 [] both_dialed_eq tt))
        (settles [] first 7 ((first, 7) ∷ []) both_missed_eq))
      (settles [] first 7 [] last_missed_eq)

-- Two exchanges run then, and the table lists one.
run_raced :
    (runs (codes "c:111.2:53") both_done.udp.running ≡ 2)
    × (listed (codes "c:111.2:53") both_done.udp ≡ 1)
unfolding computes
run_raced = (refl, refl)

Reach-runs_example :
    listed (codes "c:111.2:53") both_done.udp ≤ runs (codes "c:111.2:53") both_done.udp.running
Reach-runs_example = Reach-runs (codes "c:111.2:53") raced

-- The third packet repeats the destination of the first: its stream stays open.
serve_packet-opened_example :
    let (es, u) = serve_packet first after_second in
    opened es + length after_second.running
    ≡ closed es + (length u.running + (if repeats first after_second then 1 else 0))
serve_packet-opened_example = serve_packet-opened first after_second

run_repeats : repeats first after_second ≡ true
unfolding computes
run_repeats = refl

-- The client at port 11 sends to "1.2:53", and the client at port 1 has an exchange with "11.2:53".
abbrev both : Udp
both = associate (codes "c:11") 8 after_second

both_listed :
    lookup (exchange_key (codes "c:1") (b'1' ∷ codes "1.2:53")) both.exchanges ≡ some (codes "c:1")
unfolding computes
both_listed = refl

both_held : lookup (codes "c:11") both.requests ≡ some 8
unfolding computes
both_held = refl

run_collision :
    serve_packet (datagram (codes "c:11") (codes "1.2:53")) both
    ≡ (dial 8 true ∷ send (codes "c:1") (codes "ping") ∷ [], both)
unfolding computes
run_collision = refl
