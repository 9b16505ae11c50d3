-- ===== src/Discovery/Tests.antt =====
-- pkg/discovery/redis.go on two hosts, and the theorems about it there.
use coinsurf_proxy.Base.{
  ◌≡◌, refl, true, false, not, ltb, ◌*◌, arith, some, none, List, [], ◌∷◌, codes, bytes_eq, join,
  if◌then◌else◌,
}
use coinsurf_proxy.Discovery.{
  Turn, second, goroutine, Discovery, new_redis, set_key, delete_key, join_hosts, ticked, closed,
  keep, join_redis, register_value,
}
use coinsurf_proxy.Discovery.Presence.{calls_of, present, is_host, closes, join_redis-present}

computes : Unit {0}
unfolding new_redis join_hosts keep goroutine join_redis join
computes = tt

abbrev two : Discovery
two = record { hosts = codes "a" ∷ codes "b" ∷ []; expiration = 30 * second }

run_new : new_redis (30 * second) [] ≡ none
unfolding computes
run_new = refl

run_join :
    join_redis (λ host. true) two 1 (closed 7 ∷ ticked 9 ∷ [])
    ≡ some (
      set_key 1 (codes "a") (30 * second)
          ∷ set_key 1 (codes "b") (30 * second)
          ∷ delete_key 7 (codes "a")
          ∷ delete_key 7 (codes "b")
          ∷ [],
      true,
    )
unfolding computes
run_join = refl

-- The first host was set when the second is refused, and stays until it expires.
run_join_refused :
    join_redis (λ host. bytes_eq host (codes "a")) two 1 []
    ≡ some (set_key 1 (codes "a") (30 * second) ∷ set_key 1 (codes "b") (30 * second) ∷ [], false)
unfolding computes
run_join_refused = refl

-- The ticker of an expiration of one second panics.
run_join_second :
    join_redis (λ host. true) (record { hosts = codes "a" ∷ []; expiration = second }) 1 [] ≡ none
unfolding computes
run_join_second = refl

run_register :
    register_value (codes "p1") (codes "1.1.1.1") (codes "linux") (codes "1") (codes "2")
    ≡ codes "p1,1.1.1.1,linux,1,2"
unfolding computes
run_register = refl

abbrev ticks : List Turn
ticks = ticked (29 * second) ∷ ticked (58 * second) ∷ []

-- The key was set three times, and stands there at 80 seconds.
join_redis-present_example :
    present (codes "a") (calls_of (join_redis (λ host. true) two 0 ticks)) 0 (80 * second)
    ≡ (if is_host (codes "a") two.hosts then not (closes ticks) else ltb (80 * second) 0)
unfolding computes
join_redis-present_example =
    join_redis-present (λ host. true) two 0 ticks (codes "a") 0 0 (80 * second) refl (omega arith)
      (omega arith)
