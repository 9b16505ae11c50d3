-- ===== src/Discovery.antt =====
-- pkg/discovery/redis.go, pkg/discovery/consul.go and pkg/device_registry/redis.go: what a server
-- tells Redis and Consul of itself and of its nodes.
pub mod Presence
mod Tests
use coinsurf_proxy.Base.{
  ℕ, Bool, true, false, not, Option, none, some, List, [], ◌∷◌, ◌++◌, map, Bytes, codes, join,
  is_empty, leb, if◌then◌else◌,
}

pub record Discovery : Type 0 where
  pub hosts : List Bytes
  pub expiration : ℕ

-- `NewRedis`; `none` is an error.
unfoldable pub new_redis : ℕ → List Bytes → Option Discovery
new_redis expiration hosts =
    if is_empty hosts then none else some (record { hosts = hosts; expiration = expiration })

-- A call of Redis at a time; `set_key` with the expiration of the key.
pub data RedisCall : Type 0 where
  set_key : ℕ → Bytes → ℕ → RedisCall
  delete_key : ℕ → Bytes → RedisCall

-- The first loop of `Join` at the time `now`, by whether Redis accepts a host: the first error ends
-- it.
unfoldable pub join_hosts : (Bytes → Bool) → ℕ → ℕ → List Bytes → List RedisCall × Bool
join_hosts accepts expiration now [] = ([], true)
join_hosts accepts expiration now (host ∷ hosts) =
    let (calls, joined) = join_hosts accepts expiration now hosts in
    if not (accepts host)
    then (set_key now host expiration ∷ [], false)
    else (set_key now host expiration ∷ calls, joined)

-- What the goroutine of `Join` receives, and when.
pub data Turn : Type 0 where
  ticked closed : ℕ → Turn

-- One nanosecond is 1; an expiration is positive.
abbrev pub second : ℕ
second = 1000000000

-- The loop of the goroutine; the errors of its calls are logged.
unfoldable pub keep : Discovery → List Turn → List RedisCall
keep d [] = []
keep d (closed now ∷ turns) = map (λ host. delete_key now host) d.hosts
keep d (ticked now ∷ turns) =
    let rest = keep d turns in map (λ host. set_key now host d.expiration) d.hosts ++ rest

-- The goroutine: `NewTicker` panics where its period is not positive, which ends the program.
unfoldable pub goroutine : Discovery → List Turn → Option (List RedisCall)
unfolding keep
goroutine d turns = if leb d.expiration second then none else some (keep d turns)

abbrev pub with_goroutine :
    List RedisCall → Option (List RedisCall) → Option (List RedisCall × Bool)
with_goroutine calls none = none
with_goroutine calls (some kept) = some (calls ++ kept, true)

-- `Join` at the time `now`, and what follows; without an error the goroutine starts. `none` is the
-- panic of the goroutine.
unfoldable pub join_redis :
    (Bytes → Bool) → Discovery → ℕ → List Turn → Option (List RedisCall × Bool)
unfolding join_hosts goroutine
join_redis accepts d now turns =
    let (calls, joined) = join_hosts accepts d.expiration now d.hosts in
    if joined then with_goroutine calls (goroutine d turns) else some (calls, false)

-- `Consul`.
pub data ConsulCall : Type 0 where
  service_register service_deregister : Bytes → ConsulCall

abbrev pub join_consul : Bytes → ConsulCall
join_consul service = service_register service

abbrev pub leave_consul : Bytes → ConsulCall
leave_consul service = service_deregister service

-- The value that `Register` publishes, for the text of an address.
abbrev pub register_value : Bytes → Bytes → Bytes → Bytes → Bytes → Bytes
register_value node_id ip os version app_version =
    join (codes ",") (node_id ∷ ip ∷ os ∷ version ∷ app_version ∷ [])
