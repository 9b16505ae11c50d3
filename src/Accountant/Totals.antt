-- ===== src/Accountant/Totals.antt =====
-- pkg/accountant/redis.go: no byte is lost or counted twice between `Decrement` and Redis.
use coinsurf_proxy.Base.{
  ℕ, ◌+◌, ◌%◌, ◌^◌, ◌≡◌, refl, ◌∙◌, Bool, true, false, ◌&&◌, List, [], ◌∷◌, ◌++◌, Bytes, bytes_eq,
  bytes_eq_iff, lookup, insert, lookup-insert, All, add64, is_empty, if◌then◌else◌, arith,
}
use coinsurf_proxy.Accountant.{
  Usage, Users, Cache, Accountant, Event, usage, tick, done, users_of, count_of, record_usage,
  flush, step, run,
}

-- Neither the end of the loop nor a batch that cannot be marshalled.
abbrev pub IsRunning : Event → Type 0
IsRunning (usage u) = Unit
IsRunning (tick marshalled) = marshalled ≡ true
IsRunning done = ⊥

count_of-insert :
    (k j : Bytes) (n : ℕ) (users : Users)
    → count_of (insert k n users) j ≡ (if bytes_eq k j then n else count_of users j)
count_of-insert k j n users = ground (arith, lookup-insert k j n users)

users_of-insert :
    (k j : Bytes) (users : Users) (cache : Cache)
    → users_of (insert k users cache) j ≡ (if bytes_eq k j then users else users_of cache j)
users_of-insert k j users cache = ground (arith, lookup-insert k j users cache)

step-tick : (a : Accountant) (m : Bool) → a.closed ≡ false → step a (tick m) ≡ flush a m
unfolding step
step-tick a m opened = simp opened

module _ (node user : Bytes) where
  abbrev pub in_cache : Cache → ℕ
  in_cache cache = count_of (users_of cache node) user

  abbrev pub in_batches : List Cache → ℕ
  in_batches [] = 0
  in_batches (c ∷ cs) = in_cache c + in_batches cs

  -- What one event adds to the user's traffic over the node.
  abbrev pub charge : Event → ℕ
  charge (usage u) = if bytes_eq u.node_id node && bytes_eq u.user_id user then u.bytes else 0
  charge (tick marshalled) = 0
  charge done = 0

  abbrev pub charges : List Event → ℕ
  charges [] = 0
  charges (e ∷ es) = charge e + charges es

  -- Published and still pending.
  abbrev pub accounted : Accountant → ℕ
  accounted a = in_batches a.published + in_cache a.cache

  in_batches-append :
      (cs : List Cache) (c : Cache) → in_batches (cs ++ c ∷ []) ≡ in_batches cs + in_cache c
  in_batches-append [] c = omega arith
  in_batches-append (d ∷ cs) c = omega (arith, in_batches-append cs c)

  record_usage_lem :
      (cache : Cache) (u : Usage)
      → in_cache (record_usage cache u) % 2 ^ 64 ≡ (in_cache cache + charge (usage u)) % 2 ^ 64
  unfolding record_usage
  record_usage_lem cache u =
      let users = users_of cache u.node_id in
      let total = add64 (count_of users u.user_id) u.bytes in
      ground (
        arith,
        users_of-insert u.node_id node (insert u.user_id total users) cache,
        count_of-insert u.user_id user total users,
        bytes_eq_iff u.node_id node,
        bytes_eq_iff u.user_id user,
      )

  flush_parts :
      (cache : Cache) (published : List Cache) (closed : Bool)
      → let a : Accountant = record { cache = cache; published = published; closed = closed } in
        (accounted (flush a true) ≡ accounted a) × ((flush a true).closed ≡ closed)
  unfolding flush lookup
  flush_parts [] published closed = (refl, refl)
  flush_parts (c ∷ cs) published closed =
      (omega (arith, in_batches-append published (c ∷ cs)), refl)

  flush_lem :
      (a : Accountant)
      → (accounted (flush a true) ≡ accounted a) × ((flush a true).closed ≡ a.closed)
  flush_lem a = flush_parts a.cache a.published a.closed

  step_lem :
      (a : Accountant) (e : Event)
      → a.closed ≡ false
      → IsRunning e
      → (accounted (step a e) % 2 ^ 64 ≡ (accounted a + charge e) % 2 ^ 64)
        × ((step a e).closed ≡ false)
  unfolding step
  step_lem a (usage u) opened h =
      rw (opened, step) (omega (arith, record_usage_lem a.cache u), refl)
  step_lem a (tick m) opened h =
      let (same, closed) = flush_lem a in
      rw (step-tick a m opened, h) (omega (arith, same), closed ∙ opened)
  step_lem a done opened h = absurd h

  -- Over any run of the loop that neither ends nor fails to marshal a batch, what was published
  -- for a node's user and what is still pending add up, modulo 2 ^ 64, to what was accounted
  -- before and the bytes of all its usages since.
  pub run-accounted :
      (a : Accountant) (es : List Event)
      → a.closed ≡ false
      → All IsRunning es
      → accounted (run a es) % 2 ^ 64 ≡ (accounted a + charges es) % 2 ^ 64
  unfolding run
  run-accounted a [] opened h = omega arith
  run-accounted a (e ∷ es) opened h =
      let (one, opened') = step_lem a e opened h.0 in
      omega (arith, one, run-accounted (step a e) es opened' h.1)

flush_parts_published :
    (cache : Cache) (published : List Cache) (closed : Bool)
    → let a : Accountant = record { cache = cache; published = published; closed = closed } in
      ((flush a true).cache ≡ [])
      × ((flush a true).published ≡ (if is_empty cache then published else published ++ cache ∷ []))
unfolding flush
flush_parts_published [] published closed = (refl, refl)
flush_parts_published (c ∷ cs) published closed = (refl, refl)

-- While the loop runs, a tick whose batch can be marshalled leaves nothing pending: it publishes
-- the whole cache as one batch, and no batch where the cache is empty.
pub tick-published :
    (a : Accountant)
    → a.closed ≡ false
    → ((step a (tick true)).cache ≡ [])
      × ((step a (tick true)).published
          ≡ (if is_empty a.cache then a.published else a.published ++ a.cache ∷ []))
tick-published a opened =
    rw (step-tick a true opened) (flush_parts_published a.cache a.published a.closed)
