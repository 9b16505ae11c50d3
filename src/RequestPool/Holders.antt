-- ===== src/RequestPool/Holders.antt =====
-- pkg/utils.go: who shares a request.
use coinsurf_proxy.Base.{
  ℕ, ◌+◌, ◌≤◌, ◌≡◌, refl, ap, subst, none, List, [], ◌∷◌, ◌++◌, All, ◌==◌, ==_iff, ltb,
  if◌then◌else◌, arith,
}
use coinsurf_proxy.Request.{Request, new_request, reset}
use coinsurf_proxy.RequestPool.{
  RequestPool, empty, acquire_new, acquire_pooled, release_request, Step, acquires_new, acquires,
  releases, Reach, here, next,
}

-- How often a pointer is held, and how often it is in the pool.
abbrev pub holds : ℕ → List ℕ → ℕ
holds p [] = 0
holds p (q ∷ qs) = (if q == p then 1 else 0) + holds p qs

abbrev pub pools : ℕ → List (ℕ × Request) → ℕ
pools p [] = 0
pools p (e ∷ es) = (if e.0 == p then 1 else 0) + pools p es

holds-append : (p : ℕ) (xs ys : List ℕ) → holds p (xs ++ ys) ≡ holds p xs + holds p ys
holds-append p [] ys = omega arith
holds-append p (x ∷ xs) ys = omega (arith, holds-append p xs ys)

pools-append : (p : ℕ) (xs ys : List (ℕ × Request)) → pools p (xs ++ ys) ≡ pools p xs + pools p ys
pools-append p [] ys = omega arith
pools-append p (x ∷ xs) ys = omega (arith, pools-append p xs ys)

-- A request is as a new one, but for the password that `reset` leaves.
abbrev pub IsClean : Request → Type 0
IsClean r = record r { password = none } ≡ new_request

abbrev AllClean : List (ℕ × Request) → Type 0
AllClean = All (λ (e : ℕ × Request). IsClean e.1)

-- A pointer is held or pooled once at most, only if it was made; what is pooled is clean.
abbrev IsExclusive : RequestPool → Type 0
IsExclusive u =
    ((p : ℕ) → holds p u.held + pools p u.free ≤ (if ltb p u.made then 1 else 0)) × AllClean u.free

AllClean-remove :
    (before : List (ℕ × Request)) (e : ℕ × Request) (after : List (ℕ × Request))
    → AllClean (before ++ e ∷ after)
    → IsClean e.1 × AllClean (before ++ after)
AllClean-remove [] e after h = h
AllClean-remove (x ∷ before) e after h =
    let (clean, rest) = AllClean-remove before e after h.1 in (clean, (h.0, rest))

reset-IsClean : (r : Request) → IsClean (reset r)
unfolding reset
reset-IsClean r = refl

Step-IsExclusive : {u v : RequestPool} → Step u v → IsExclusive u → IsExclusive v
unfolding acquire_new acquire_pooled release_request
Step-IsExclusive {u = u} acquires_new h = (λ p. ground (arith, h.0 p, ==_iff u.made p), h.1)
Step-IsExclusive {u = u} (acquires before e after split) h = (
  λ p. ground (
    arith,
    h.0 p,
    ap (pools p) split,
    pools-append p before (e ∷ after),
    pools-append p before after,
  ),
  (AllClean-remove before e after (subst AllClean split h.1)).1,
)
Step-IsExclusive {u = u} (releases before p after r split) h = (
  λ q. ground (
    arith,
    h.0 q,
    ap (holds q) split,
    holds-append q before (p ∷ after),
    holds-append q before after,
  ),
  (reset-IsClean r, h.1),
)

Reach-IsExclusive : {u : RequestPool} → Reach empty u → IsExclusive u
Reach-IsExclusive here = (λ p. ground arith, tt)
Reach-IsExclusive (next r st) = Step-IsExclusive st (Reach-IsExclusive r)

-- While every request is released only by a holder, and by each holder once, no two hold the same
-- request, in any order of acquisitions and releases; and a pooled request is clean.
pub Reach-holds :
    {u : RequestPool} (p : ℕ)
    → Reach empty u
    → (holds p u.held + pools p u.free ≤ 1) × All (λ (e : ℕ × Request). IsClean e.1) u.free
Reach-holds p r = let h = Reach-IsExclusive r in (ground (arith, h.0 p), h.1)

-- A second release of a request that is in the pool already lets two callers acquire it: both hold
-- it then.
pub release_twice :
    (u : RequestPool) (p : ℕ) (r s : Request)
    → let once = release_request p r u.held u in
      let twice = release_request p s once.held once in
      let first = (acquire_pooled (p, reset s) once.free twice).1 in
      let second = (acquire_pooled (p, reset r) u.free first).1 in
      holds p second.held ≡ 2 + holds p u.held
unfolding release_request acquire_pooled
release_twice u p r s = ground (arith, ==_iff p p)
