-- ===== src/Socks5/Udp/Exchanges.antt =====
-- pkg/service_proxy_socks5.go: the table of UDP exchanges against the goroutines that run.
use coinsurf_proxy.Base.{
  ◌≤◌, ◌∙◌, subst, sym, ℕ, ◌+◌, ◌≡◌, refl, ap, ◌⊎◌, inl, inr, Option, none, some, is_some, List, [],
  ◌∷◌, ◌++◌, Bytes, lookup, insert, lookup-insert, lookup-erase, bytes_eq, bytes_eq_iff, Bool-cases,
  if◌then◌else◌, arith,
}
use coinsurf_proxy.Socks5.Udp.{
  Exchange, Udp, Busy, idle, Bind, bound, in_use, bind_failed, Packet, exchange_key, associate,
  on_return, start, bind_remote, exchange, end_exchange, looked, look, settle, Step, associated,
  accepts, looks, settles, ended, Reach, here, next,
}

abbrev pub key_of : Exchange → Bytes
key_of e = exchange_key e.client e.destination

-- How many exchanges run under a key.
abbrev pub runs : Bytes → List Exchange → ℕ
runs k [] = 0
runs k (e ∷ es) = (if bytes_eq (key_of e) k then 1 else 0) + runs k es

runs-append : (k : Bytes) (es fs : List Exchange) → runs k (es ++ fs) ≡ runs k es + runs k fs
runs-append k [] fs = omega arith
runs-append k (e ∷ es) fs = omega (arith, runs-append k es fs)

abbrev pub listed : Bytes → Udp → ℕ
listed k u = if is_some (lookup k u.exchanges) then 1 else 0

-- How many goroutines of packets have missed a key.
abbrev pub waits : Bytes → List (Packet × ℕ) → ℕ
waits k [] = 0
waits k ((x, p) ∷ xs) =
    (if bytes_eq (exchange_key x.client x.destination) k then 1 else 0) + waits k xs

waits-append :
    (k : Bytes) (xs ys : List (Packet × ℕ)) → waits k (xs ++ ys) ≡ waits k xs + waits k ys
waits-append k [] ys = omega arith
waits-append k ((x, p) ∷ xs) ys = omega (arith, waits-append k xs ys)

-- A goroutine looks for an exchange only when no other one has missed the same key.
abbrev pub IsAlone : List (Packet × ℕ) → Bytes → Type 0
IsAlone missed key = waits key missed ≡ 0

-- Where an exchange is listed under a key, one runs.
abbrev IsBacked : Udp → Type 0
IsBacked u = (k : Bytes) → listed k u ≤ runs k u.running

-- The table has an entry where an exchange runs, no two run under one key, and nobody is about to
-- start a second one.
abbrev IsTracked : Busy → Type 0
IsTracked b =
    (k : Bytes) → (runs k b.udp.running ≡ listed k b.udp) × (listed k b.udp + waits k b.missed ≤ 1)

-- The exchange that a packet would start.
abbrev exchange_of : Packet → ℕ → Exchange
exchange_of x p = record { client = x.client; destination = x.destination; request = p }

-- A packet leaves the exchanges alone, or starts one and lists it.
abbrev StartsOnce : Packet → Udp → Udp → Type 0
StartsOnce x u u' =
    ((u'.exchanges ≡ u.exchanges) × (u'.running ≡ u.running))
    ⊎ ((p : ℕ) × (u'.exchanges ≡ insert (exchange_key x.client x.destination) x.client u.exchanges)
        × (u'.running ≡ exchange_of x p ∷ u.running))

module _ (x : Packet) (p : ℕ) where
  start-StartsOnce : (u : Udp) → StartsOnce x u (start x p u).1
  unfolding start on_return
  start-StartsOnce u = elim (Bool-cases x.sent) [
    | inl sent ↦ rw sent (inr (p, refl, refl))
    | inr failed ↦ rw failed (inl (refl, refl))
  ]

  bind_remote-StartsOnce : (b : Bind) (u : Udp) → StartsOnce x u (bind_remote x p b u).1
  unfolding bind_remote on_return
  bind_remote-StartsOnce (bound local) u =
      elim (Bool-cases (is_some (lookup (exchange_key x.client x.destination) u.sources))) [
        | inl known ↦ rw known (start-StartsOnce u)
        | inr unknown ↦ rw unknown (start-StartsOnce _)
      ]
  bind_remote-StartsOnce (in_use (some local)) u = start-StartsOnce _
  bind_remote-StartsOnce (in_use none) u = inl (refl, refl)
  bind_remote-StartsOnce bind_failed u = inl (refl, refl)

  exchange-StartsOnce : (u : Udp) → StartsOnce x u (exchange x p none u).1
  unfolding exchange on_return
  exchange-StartsOnce u = elim (Bool-cases x.resolved) [
    | inl resolved ↦ rw resolved (bind_remote-StartsOnce x.bind u)
    | inr failed ↦ rw failed (inl (refl, refl))
  ]

  exchange-IsBacked : (u : Udp) → IsBacked u → IsBacked (exchange x p none u).1
  exchange-IsBacked u h k = elim (exchange-StartsOnce u) [
    | inl (exchanges, running) ↦ rw (exchanges, running) (h k)
    | inr (q, exchanges, running) ↦
        let key = exchange_key x.client x.destination in
        rw (exchanges, running)
          (ground (arith, h k, bytes_eq_iff key k, lookup-insert key k x.client u.exchanges))
  ]

  settle-IsTracked :
      (b : Busy) (before after : List (Packet × ℕ))
      → b.missed ≡ before ++ (x, p) ∷ after
      → IsTracked b
      → IsTracked (settle x p (before ++ after) b)
  unfolding settle
  settle-IsTracked b before after split h k =
      let key = exchange_key x.client x.destination in
      let here_ = h k in
      let waiting = ap (waits k) split ∙ waits-append k before ((x, p) ∷ after) in
      elim (exchange-StartsOnce b.udp) [
        | inl (exchanges, running) ↦
            rw (exchanges, running)
              (here_.0, ground (arith, here_.1, waiting, waits-append k before after))
        | inr (q, exchanges, running) ↦
            rw (exchanges, running)
              (
                ground (
                  arith,
                  here_.0,
                  here_.1,
                  waiting,
                  bytes_eq_iff key k,
                  lookup-insert key k x.client b.udp.exchanges,
                ),
                ground (
                  arith,
                  here_.1,
                  waiting,
                  waits-append k before after,
                  bytes_eq_iff key k,
                  lookup-insert key k x.client b.udp.exchanges,
                ),
              )
      ]

  looked-IsTracked :
      (b : Busy) (rest : List (Packet × ℕ)) (o : Option Bytes)
      → lookup (exchange_key x.client x.destination) b.udp.exchanges ≡ o
      → IsAlone b.missed (exchange_key x.client x.destination)
      → IsTracked b
      → IsTracked (looked x p rest b o)
  looked-IsTracked b rest (some client) e alone h k = h k
  looked-IsTracked b rest none e alone h k =
      let key = exchange_key x.client x.destination in
      (
        (h k).0,
        elim (Bool-cases (bytes_eq key k)) [
          | inl same ↦
              let at_key : (listed key b.udp + waits key b.missed ≡ 0) = ground (arith, e, alone) in
              subst
                (λ j. listed j b.udp + ((if bytes_eq key j then 1 else 0) + waits j b.missed) ≤ 1)
                ((bytes_eq_iff key k).0 same) (ground (arith, at_key))
          | inr other ↦ ground (arith, (h k).1, other)
        ],
      )

pub looked-udp :
    (x : Packet) (p : ℕ) (rest : List (Packet × ℕ)) (b : Busy) (o : Option Bytes)
    → (looked x p rest b o).udp ≡ b.udp
looked-udp x p rest b none = refl
looked-udp x p rest b (some client) = refl

end_exchange-IsBacked :
    (u : Udp) (before after : List Exchange) (e : Exchange)
    → u.running ≡ before ++ e ∷ after
    → IsBacked u
    → IsBacked (end_exchange e (before ++ after) u).1
unfolding end_exchange on_return
end_exchange-IsBacked u before after e split h k = ground (
  arith,
  h k,
  ap (runs k) split,
  runs-append k before (e ∷ after),
  runs-append k before after,
  bytes_eq_iff (key_of e) k,
  lookup-erase (key_of e) k u.exchanges,
)

end_exchange-IsTracked :
    (b : Busy) (before after : List Exchange) (e : Exchange)
    → b.udp.running ≡ before ++ e ∷ after
    → IsTracked b
    → IsTracked (record b { udp = (end_exchange e (before ++ after) b.udp).1 })
unfolding end_exchange on_return
end_exchange-IsTracked b before after e split h k =
    let gone = lookup-erase (key_of e) k b.udp.exchanges in
    (
      ground (
        arith,
        (h k).0,
        (h k).1,
        ap (runs k) split,
        runs-append k before (e ∷ after),
        runs-append k before after,
        bytes_eq_iff (key_of e) k,
        gone,
      ),
      ground (arith, (h k).1, gone),
    )

module _ {Allowed : Bytes → ℕ → Type 0} {Admits : List (Packet × ℕ) → Bytes → Type 0} where
  Step-IsBacked : {b b' : Busy} → Step Allowed Admits b b' → IsBacked b.udp → IsBacked b'.udp
  unfolding associate look settle
  Step-IsBacked (associated key p allowed) h = h
  Step-IsBacked (accepts x p accepted) h = h
  Step-IsBacked {b = b} (looks before x p after split admitted) h =
      subst IsBacked
        (sym (
          looked-udp x p (before ++ after) b
            (lookup (exchange_key x.client x.destination) b.udp.exchanges)))
        h
  Step-IsBacked {b = b} (settles before x p after split) h = exchange-IsBacked x p b.udp h
  Step-IsBacked {b = b} (ended before e after split) h =
      end_exchange-IsBacked b.udp before after e split h

  -- In every state that associations, ends of exchanges and the reads and writes of the goroutines of
  -- packets reach, in any order, an exchange runs under each key that the table lists.
  pub Reach-runs :
      {b : Busy} (k : Bytes) → Reach Allowed Admits idle b → listed k b.udp ≤ runs k b.udp.running
  unfolding lookup
  Reach-runs k here = omega arith
  Reach-runs k (next r st) = Step-IsBacked st (λ j. Reach-runs j r) k

module _ {Allowed : Bytes → ℕ → Type 0} where
  Step-IsTracked : {b b' : Busy} → Step Allowed IsAlone b b' → IsTracked b → IsTracked b'
  unfolding associate look
  Step-IsTracked (associated key p allowed) h = h
  Step-IsTracked (accepts x p accepted) h = h
  Step-IsTracked {b = b} (looks before x p after split alone) h =
      looked-IsTracked x p b (before ++ after) _ refl alone h
  Step-IsTracked {b = b} (settles before x p after split) h =
      settle-IsTracked x p b before after split h
  Step-IsTracked {b = b} (ended before e after split) h =
      end_exchange-IsTracked b before after e split h

  Reach-IsTracked_all : {b : Busy} → Reach Allowed IsAlone idle b → IsTracked b
  unfolding lookup
  Reach-IsTracked_all here k = (refl, omega arith)
  Reach-IsTracked_all (next r st) k = Step-IsTracked st (Reach-IsTracked_all r) k

  -- Where a goroutine looks for an exchange only when no other one has missed the same key and not yet
  -- started it, in every state that associations, packets and ends of exchanges reach in any such
  -- order the table lists a key exactly where one exchange runs under it, and never do two run under
  -- the same key.
  pub Reach-IsTracked :
      {b : Busy} (k : Bytes) → Reach Allowed IsAlone idle b → runs k b.udp.running ≡ listed k b.udp
  Reach-IsTracked k r = (Reach-IsTracked_all r k).0
