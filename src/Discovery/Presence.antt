-- ===== src/Discovery/Presence.antt =====
-- pkg/discovery/redis.go: which keys of the server stand in Redis, and until when.
use coinsurf_proxy.Base.{
  ℕ, ◌+◌, ◌<◌, ◌≤◌, ◌≡◌, refl, ap, ◌∙◌, Bool, true, false, not, ◌||◌, Option, none, some, List, [],
  ◌∷◌, ◌++◌, map, Bytes, bytes_eq, ltb, leb, if◌then◌else◌, inl, inr, Bool-cases, arith,
}
use coinsurf_proxy.Discovery.{
  Discovery, RedisCall, set_key, delete_key, join_hosts, Turn, ticked, closed, second, keep,
  goroutine, join_redis,
}

-- When a key expires behind calls that Redis carries out; 0 is a key that is not there.
abbrev pub deadline : Bytes → List RedisCall → ℕ → ℕ
deadline key [] before = before
deadline key (set_key now host expiration ∷ calls) before =
    deadline key calls (if bytes_eq host key then now + expiration else before)
deadline key (delete_key now host ∷ calls) before =
    deadline key calls (if bytes_eq host key then 0 else before)

-- The key stands in Redis at the time `t`, if these are all the calls until then.
abbrev pub present : Bytes → List RedisCall → ℕ → ℕ → Bool
present key calls before t = ltb t (deadline key calls before)

abbrev pub is_host : Bytes → List Bytes → Bool
is_host key [] = false
is_host key (host ∷ hosts) = bytes_eq host key || is_host key hosts

abbrev pub closes : List Turn → Bool
closes [] = false
closes (ticked now ∷ turns) = closes turns
closes (closed now ∷ turns) = true

-- When the keys were set for the last time.
abbrev pub last_set : ℕ → List Turn → ℕ
last_set last [] = last
last_set last (ticked now ∷ turns) = last_set now turns
last_set last (closed now ∷ turns) = last

deadline-append :
    (key : Bytes) (calls more : List RedisCall) (before : ℕ)
    → deadline key (calls ++ more) before ≡ deadline key more (deadline key calls before)
deadline-append key [] more before = refl
deadline-append key (set_key now host expiration ∷ calls) more before =
    deadline-append key calls more (if bytes_eq host key then now + expiration else before)
deadline-append key (delete_key now host ∷ calls) more before =
    deadline-append key calls more (if bytes_eq host key then 0 else before)

deadline-set :
    (key : Bytes) (now expiration : ℕ) (hosts : List Bytes) (before : ℕ)
    → deadline key (map (λ host. set_key now host expiration) hosts) before
      ≡ (if is_host key hosts then now + expiration else before)
deadline-set key now expiration [] before = refl
deadline-set key now expiration (host ∷ hosts) before = ground (
  arith,
  deadline-set key now expiration hosts (if bytes_eq host key then now + expiration else before),
)

deadline-delete :
    (key : Bytes) (now : ℕ) (hosts : List Bytes) (before : ℕ)
    → deadline key (map (λ host. delete_key now host) hosts) before
      ≡ (if is_host key hosts then 0 else before)
deadline-delete key now [] before = refl
deadline-delete key now (host ∷ hosts) before =
    ground (arith, deadline-delete key now hosts (if bytes_eq host key then 0 else before))

-- The keys of hosts expire when their time from the last setting is over; others are left alone.
keep-deadline :
    (key : Bytes) (d : Discovery) (last : ℕ) (turns : List Turn) (before : ℕ)
    → (is_host key d.hosts ≡ true → before ≡ last + d.expiration)
    → deadline key (keep d turns) before ≡ (
        if is_host key d.hosts
        then if closes turns then 0 else last_set last turns + d.expiration
        else before)
unfolding keep
keep-deadline key d last [] before h = ground (arith, h)
keep-deadline key d last (closed now ∷ turns) before h =
    ground (arith, deadline-delete key now d.hosts before)
keep-deadline key d last (ticked now ∷ turns) before h =
    deadline-append key (map (λ host. set_key now host d.expiration) d.hosts) (keep d turns) before
    ∙ (ap (deadline key (keep d turns)) (deadline-set key now d.expiration d.hosts before)
        ∙ ground (
          arith,
          keep-deadline key d now turns (if is_host key d.hosts then now + d.expiration else before)
              (λ e. ground (arith, e)),
        ))

join_hosts-deadline :
    (accepts : Bytes → Bool) (key : Bytes) (expiration now : ℕ) (hosts : List Bytes) (before : ℕ)
    → (join_hosts accepts expiration now hosts).1 ≡ true
    → deadline key (join_hosts accepts expiration now hosts).0 before
      ≡ (if is_host key hosts then now + expiration else before)
unfolding join_hosts
join_hosts-deadline accepts key expiration now [] before h = refl
join_hosts-deadline accepts key expiration now (host ∷ hosts) before h = ground (
  arith,
  h,
  join_hosts-deadline accepts key expiration now hosts
      (if bytes_eq host key then now + expiration else before),
)

-- A server has joined if there was neither an error nor a panic.
abbrev pub has_joined : Option (List RedisCall × Bool) → Bool
has_joined none = false
has_joined (some (calls, joined)) = joined

abbrev pub calls_of : Option (List RedisCall × Bool) → List RedisCall
calls_of none = []
calls_of (some (calls, joined)) = calls

join_redis-deadline :
    (accepts : Bytes → Bool) (d : Discovery) (now : ℕ) (turns : List Turn) (key : Bytes)
    (before : ℕ)
    → has_joined (join_redis accepts d now turns) ≡ true
    → (second < d.expiration)
      × (deadline key (calls_of (join_redis accepts d now turns)) before ≡ (
          if is_host key d.hosts
          then if closes turns then 0 else last_set now turns + d.expiration
          else before))
unfolding join_redis goroutine
join_redis-deadline accepts d now turns key before h =
    elim (Bool-cases (join_hosts accepts d.expiration now d.hosts).1) [
      | inr refused ↦ absurd (ground (arith, h, refused))
      | inl accepted ↦ elim (Bool-cases (leb d.expiration second)) [
        | inl panics ↦ absurd (ground (arith, h, accepted, panics))
        | inr runs ↦
            rw (accepted, runs)
              (
                ground (arith, runs),
                deadline-append key (join_hosts accepts d.expiration now d.hosts).0 (keep d turns)
                      before
                    ∙ (ap (deadline key (keep d turns))
                          (join_hosts-deadline accepts key d.expiration now d.hosts before accepted)
                        ∙ ground (
                          arith,
                          keep-deadline key d now turns
                              (if is_host key d.hosts then now + d.expiration else before)
                              (λ e. ground (arith, e)),
                        )),
              )
      ]
    ]

-- If Redis carries out the calls, the keys of a server that has joined do not expire while the
-- ticker of `expiration - time.Second` is served with a delay of less than a second: they stand in
-- Redis until the server leaves, through any ticks, and none of them stands there afterwards. Other
-- keys stay as they are. (`turns` is what the goroutine has received up to the time `t`.)
pub join_redis-present :
    (accepts : Bytes → Bool) (d : Discovery) (now : ℕ) (turns : List Turn) (key : Bytes)
    (before delay t : ℕ)
    → has_joined (join_redis accepts d now turns) ≡ true
    → delay < second
    → t + second ≤ last_set now turns + d.expiration + delay
    → present key (calls_of (join_redis accepts d now turns)) before t
      ≡ (if is_host key d.hosts then not (closes turns) else ltb t before)
join_redis-present accepts d now turns key before delay t joined small timely =
    let (long, e) = join_redis-deadline accepts d now turns key before joined in
    ap (ltb t) e ∙ ground (arith, long, small, timely)
