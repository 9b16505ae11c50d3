-- ===== src/RequestPool/Tests.antt =====
-- pkg/utils.go, the pool of requests, on a few steps, and the theorems about it there.
use coinsurf_proxy.Base.{ℕ, ◌+◌, ◌≤◌, ◌≡◌, refl, [], ◌∷◌, codes, some, All}
use coinsurf_proxy.Request.{Request, new_request, reset}
use coinsurf_proxy.RequestPool.{
  RequestPool, empty, acquire_new, acquire_pooled, release_request, acquires_new, releases, Reach,
  here, next,
}
use coinsurf_proxy.RequestPool.Holders.{holds, pools, IsClean, Reach-holds, release_twice}

abbrev used : Request
used = record new_request { user_id = codes "u1"; password = some (codes "secret") }

abbrev acquired : RequestPool
acquired = (acquire_new empty).1

abbrev released : RequestPool
released = release_request 0 used [] acquired

acquired_held : acquired.held ≡ 0 ∷ []
unfolding acquire_new
acquired_held = refl

released_free : released.free ≡ (0, record new_request { password = some (codes "secret") }) ∷ []
unfolding release_request acquire_new reset
released_free = refl

reached : Reach empty released
reached = next (next here acquires_new) (releases [] 0 [] used acquired_held)

Reach-holds_case :
    (holds 0 released.held + pools 0 released.free ≤ 1)
    × All (λ (e : ℕ × Request). IsClean e.1) released.free
Reach-holds_case = Reach-holds 0 reached

-- Two releases of the request that nobody else holds, and two acquisitions.
release_twice_case :
    let once = release_request 0 used [] released in
    let twice = release_request 0 used once.held once in
    let first = (acquire_pooled (0, reset used) once.free twice).1 in
    let second = (acquire_pooled (0, reset used) released.free first).1 in
    holds 0 second.held ≡ 2 + holds 0 released.held
unfolding release_request
release_twice_case = release_twice released 0 used used
