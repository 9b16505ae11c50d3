-- ===== src/RequestPool.antt =====
-- pkg/utils.go: the pool of requests. A request is a pointer, a number here, and a pooled one has
-- its contents. `sync.Pool` may give any of the pooled pointers, or none, and may drop some.
pub mod Holders
mod Tests
use coinsurf_proxy.Base.{
  ℕ, zero, suc, ◌+◌, ◌≡◌, Bool, true, false, List, [], ◌∷◌, ◌++◌, ◌==◌, if◌then◌else◌,
}
use coinsurf_proxy.Request.{Request, new_request, reset}

-- What is in the pool, who holds a request, and the next new pointer.
pub record RequestPool : Type 0 where
  pub free : List (ℕ × Request)
  pub held : List ℕ
  pub made : ℕ

abbrev pub empty : RequestPool
empty = record { free = []; held = []; made = 0 }

-- `AcquireRequest` where the pool has nothing to give: `New` makes a request.
unfoldable pub acquire_new : RequestPool → (ℕ × Request) × RequestPool
acquire_new u = ((u.made, new_request), record u { held = u.made ∷ u.held; made = suc u.made })

-- `AcquireRequest` where the pool gives an entry; `rest` is what stays in it.
unfoldable pub acquire_pooled :
    ℕ × Request → List (ℕ × Request) → RequestPool → (ℕ × Request) × RequestPool
acquire_pooled (p, r) rest u = ((p, r), record u { free = rest; held = p ∷ u.held })

-- `ReleaseRequest`, by one of those who hold the pointer; `rest` are the others.
unfoldable pub release_request : ℕ → Request → List ℕ → RequestPool → RequestPool
unfolding reset
release_request p r rest u = record u { free = (p, reset r) ∷ u.free; held = rest }

-- Requests are acquired, and released by who holds them. The contents `r` of a request are whatever
-- its holder has written.
pub data Step : RequestPool → RequestPool → Type 0 where
  acquires_new : {u : RequestPool} → Step u (acquire_new u).1
  acquires :
      {u : RequestPool} (before : List (ℕ × Request)) (e : ℕ × Request) (after : List (ℕ × Request))
      → u.free ≡ before ++ e ∷ after
      → Step u (acquire_pooled e (before ++ after) u).1
  releases :
      {u : RequestPool} (before : List ℕ) (p : ℕ) (after : List ℕ) (r : Request)
      → u.held ≡ before ++ p ∷ after
      → Step u (release_request p r (before ++ after) u)

pub data Reach (s : RequestPool) : RequestPool → Type 0 where
  here : Reach s s
  next : {t u : RequestPool} → Reach s t → Step t u → Reach s u
