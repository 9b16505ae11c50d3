-- ===== src/PoolSync/Checks/Partition.antt =====
-- pkg/pool/redis.go, `scheduleTask`: what a run tells the router of the nodes.
use mathlib.Core.List.Memᴰ.{head, tail}
use mathlib.Core.List.{Memᴰ, Perm, perm_middle, perm-append_right_iff}
use mathlib.Core.List.Perm
use coinsurf_proxy.Base.{
  ◌⊎◌, ◌↔◌, ==_iff, is_empty, bytes_eq_iff, arith, ℕ, ◌≡◌, refl, sym, ap, ◌∙◌, subst, Bool, true,
  false, Option, none, some, is_none, List, [], ◌∷◌, ◌++◌, map, append_assoc, append-nil, Bytes,
  inl, inr, Bool-cases,
}
use coinsurf_proxy.Node.{Node}
use coinsurf_proxy.Router.{filter_country}
use coinsurf_proxy.PoolSync.{Task}
use coinsurf_proxy.PoolSync.Checks.{
  Turn, requested, judged, matches, passes, judge, collect, PoolCall, pool_add, pool_delete,
  pool_calls, Round, run_task,
}

-- The nodes that are judged, in order.
abbrev pub judged_ids : List Turn → List Bytes
judged_ids [] = []
judged_ids (requested answer ∷ turns) = judged_ids turns
judged_ids (judged id answer ∷ turns) = id ∷ judged_ids turns

abbrev pub ids_of : List (Bytes × Bool) → List Bytes
ids_of [] = []
ids_of ((id, result) ∷ checks) = id ∷ ids_of checks

judge-ids :
    (task : Task) (failing : Bool) (turns : List Turn)
    → ids_of (judge task failing turns) ≡ judged_ids turns
unfolding judge
judge-ids task failing [] = refl
judge-ids task failing (requested answer ∷ turns) = judge-ids task (is_none answer) turns
judge-ids task failing (judged id answer ∷ turns) =
    ap (λ xs. id ∷ xs) (judge-ids task failing turns)

abbrev both : List Bytes × List Bytes → List Bytes
both (success, failed) = success ++ failed

module _ (success failed : List Bytes) (id : Bytes) (ids : List Bytes) where
  success-perm :
      Perm (((success ++ (id ∷ [])) ++ failed) ++ ids) ((success ++ failed) ++ (id ∷ ids))
  success-perm = rw (append_assoc success (id ∷ []) failed) (
      Perm.trans ((perm-append_right_iff ids).1 (perm_middle success failed))
        (Perm.symm (perm_middle (success ++ failed) ids)))

  failed-eq : (success ++ (failed ++ (id ∷ []))) ++ ids ≡ (success ++ failed) ++ (id ∷ ids)
  failed-eq =
      ap (λ xs. xs ++ ids) (sym (append_assoc success failed (id ∷ [])))
      ∙ append_assoc (success ++ failed) (id ∷ []) ids

collect-perm :
    (checks : List (Bytes × Bool)) (success failed : List Bytes)
    → Perm (both (collect checks success failed)) ((success ++ failed) ++ ids_of checks)
unfolding collect
collect-perm [] success failed = rw (append-nil (success ++ failed)) (Perm.refl (success ++ failed))
collect-perm ((id, true) ∷ checks) success failed =
    Perm.trans (collect-perm checks (success ++ (id ∷ [])) failed)
      (success-perm success failed id (ids_of checks))
collect-perm ((id, false) ∷ checks) success failed =
    subst (Perm (both (collect checks success (failed ++ (id ∷ [])))))
      (failed-eq success failed id (ids_of checks))
      (collect-perm checks success (failed ++ (id ∷ [])))

-- The nodes that calls name, and those that they add.
abbrev pub named : List PoolCall → List Bytes
named [] = []
named (pool_add name ids ∷ calls) = ids ++ named calls
named (pool_delete name ids ∷ calls) = ids ++ named calls

abbrev pub added : List PoolCall → List Bytes
added [] = []
added (pool_add name ids ∷ calls) = ids ++ added calls
added (pool_delete name ids ∷ calls) = added calls

pool_calls-named : (name : Bytes) (p : List Bytes × List Bytes) → named (pool_calls name p) ≡ both p
pool_calls-named name ([], []) = refl
pool_calls-named name ([], y ∷ ys) = append-nil (y ∷ ys)
pool_calls-named name (x ∷ xs, []) = refl
pool_calls-named name (x ∷ xs, y ∷ ys) = ap (λ zs. (x ∷ xs) ++ zs) (append-nil (y ∷ ys))

pool_calls-added : (name : Bytes) (p : List Bytes × List Bytes) → added (pool_calls name p) ≡ p.0
pool_calls-added name ([], []) = refl
pool_calls-added name ([], y ∷ ys) = refl
pool_calls-added name (x ∷ xs, []) = append-nil (x ∷ xs)
pool_calls-added name (x ∷ xs, y ∷ ys) = append-nil (x ∷ xs)

-- Where each node's goroutine judges it once, in any order, a run names every node of `GetAll` once
-- in the calls of the router, to be added to the pool or deleted from it.
pub run_task-named :
    (task : Task) (r : Round) (nodes : List Node)
    → r.get_all (filter_country task.applicable_countries ∷ []) ≡ some nodes
    → Perm (judged_ids (r.turns nodes)) (map (λ (n : Node). n.id) nodes)
    → Perm (named (run_task task r)) (map (λ (n : Node). n.id) nodes)
unfolding run_task
run_task-named task r [] found all = rw found (Perm.refl [])
run_task-named task r (n ∷ nodes) found all =
    let checks = judge task false (r.turns (n ∷ nodes)) in
    rw (found, pool_calls-named task.name (collect checks [] []))
      (Perm.trans (collect-perm checks [] []) (rw (judge-ids task false (r.turns (n ∷ nodes))) all))

-- No request of another node has overwritten what a goroutine's own request wrote to `err` when the
-- goroutine reads it, or it has written the same.
abbrev pub IsUndisturbed : Bool → List Turn → Type 0
IsUndisturbed failing [] = Unit
IsUndisturbed failing (requested answer ∷ turns) = IsUndisturbed (is_none answer) turns
IsUndisturbed failing (judged id answer ∷ turns) =
    (failing ≡ is_none answer) × IsUndisturbed failing turns

-- The node has answered with the status of the task, and with its body if the task has one.
pub record HasPassed (task : Task) (turns : List Turn) (id : Bytes) : Type 0 where
  pub status : ℕ
  pub body : Bytes
  pub turn : Memᴰ (judged id (some (status, body))) turns
  pub status_wanted : status ≡ task.status_code
  pub body_wanted : (task.body ≡ []) ⊎ (body ≡ task.body)

abbrev oks : List (Bytes × Bool) → List Bytes
oks [] = []
oks ((id, true) ∷ checks) = id ∷ oks checks
oks ((id, false) ∷ checks) = oks checks

collect-oks :
    (checks : List (Bytes × Bool)) (success failed : List Bytes)
    → (collect checks success failed).0 ≡ success ++ oks checks
unfolding collect
collect-oks [] success failed = sym (append-nil success)
collect-oks ((id, true) ∷ checks) success failed =
    collect-oks checks (success ++ (id ∷ [])) failed ∙ append_assoc success (id ∷ []) (oks checks)
collect-oks ((id, false) ∷ checks) success failed = collect-oks checks success (failed ++ (id ∷ []))

module _ (task : Task) where
  later :
      {turns : List Turn} {id : Bytes} (t : Turn)
      → HasPassed task turns id
      → HasPassed task (t ∷ turns) id
  later t h = record {
    status = h.status;
    body = h.body;
    turn = tail h.turn;
    status_wanted = h.status_wanted;
    body_wanted = h.body_wanted;
  }

  has_body : (body : Bytes) → (is_empty body ≡ true) → body ≡ []
  has_body [] e = refl
  has_body (b ∷ bs) e = cc

  matches-wanted :
      (status : ℕ) (body : Bytes)
      → matches task (status, body) ≡ true
      → (status ≡ task.status_code) × ((task.body ≡ []) ⊎ (body ≡ task.body))
  matches-wanted status body h = (
    ground (arith, h, ==_iff status task.status_code),
    elim (Bool-cases (is_empty task.body)) [
      | inl any ↦ inl (has_body task.body any)
      | inr some_body ↦ inr (
          ground (arith, h, some_body, ==_iff status task.status_code, bytes_eq_iff body task.body))
    ],
  )

  matches-of_wanted :
      (status : ℕ) (body : Bytes)
      → status ≡ task.status_code
      → (task.body ≡ []) ⊎ (body ≡ task.body)
      → matches task (status, body) ≡ true
  matches-of_wanted status body s (inl any) =
      rw any (ground (arith, s, ==_iff status task.status_code))
  matches-of_wanted status body s (inr same) =
      ground (arith, s, same, ==_iff status task.status_code, bytes_eq_iff body task.body)

  passes-HasPassed :
      (failing : Bool) (turns : List Turn) (id : Bytes) (answer : Option (ℕ × Bytes))
      → failing ≡ is_none answer
      → passes task failing answer ≡ true
      → HasPassed task (judged id answer ∷ turns) id
  unfolding passes
  passes-HasPassed failing turns id none own h = absurd (ground (arith, own, h))
  passes-HasPassed failing turns id (some (status, body)) own h =
      let (s, b) = matches-wanted status body (ground (arith, own, h)) in
      record { status = status; body = body; turn = head refl; status_wanted = s; body_wanted = b }

  judged-HasPassed :
      (failing : Bool) (turns : List Turn) (id j : Bytes) (answer : Option (ℕ × Bytes)) (b : Bool)
      → failing ≡ is_none answer
      → passes task failing answer ≡ b
      → (Memᴰ id (oks (judge task failing turns)) → HasPassed task turns id)
      → Memᴰ id (oks ((j, b) ∷ judge task failing turns))
      → HasPassed task (judged j answer ∷ turns) id
  judged-HasPassed failing turns id j answer true own e rest (head same) =
      subst (HasPassed task (judged j answer ∷ turns)) (sym same)
        (passes-HasPassed failing turns j answer own e)
  judged-HasPassed failing turns id j answer true own e rest (tail m) =
      later (judged j answer) (rest m)
  judged-HasPassed failing turns id j answer false own e rest m = later (judged j answer) (rest m)

  -- The nodes that are found to pass have passed.
  oks-HasPassed :
      (failing : Bool) (turns : List Turn) (id : Bytes)
      → IsUndisturbed failing turns
      → Memᴰ id (oks (judge task failing turns))
      → HasPassed task turns id
  unfolding judge
  oks-HasPassed failing [] id u m = elim m [ ]
  oks-HasPassed failing (requested answer ∷ turns) id u m =
      later (requested answer) (oks-HasPassed (is_none answer) turns id u m)
  oks-HasPassed failing (judged j answer ∷ turns) id u m =
      judged-HasPassed failing turns id j answer (passes task failing answer) u.0 refl
        (oks-HasPassed failing turns id u.1) m

  oks-cons :
      (b : Bool) (id j : Bytes) (checks : List (Bytes × Bool))
      → Memᴰ id (oks checks)
      → Memᴰ id (oks ((j, b) ∷ checks))
  oks-cons true id j checks m = tail m
  oks-cons false id j checks m = m

  Memᴰ-oks :
      (failing : Bool) (turns : List Turn) (id : Bytes) (status : ℕ) (body : Bytes)
      → IsUndisturbed failing turns
      → Memᴰ (judged id (some (status, body))) turns
      → matches task (status, body) ≡ true
      → Memᴰ id (oks (judge task failing turns))
  unfolding judge passes
  Memᴰ-oks failing [] id status body u m good = elim m [ ]
  Memᴰ-oks failing (requested answer ∷ turns) id status body u (head e) good = cc
  Memᴰ-oks failing (requested answer ∷ turns) id status body u (tail m) good =
      Memᴰ-oks (is_none answer) turns id status body u m good
  Memᴰ-oks failing (judged j answer ∷ turns) id status body u (head e) good =
      let same : some (status, body) ≡ answer = ground (arith, e) in
      let calm : failing ≡ false = u.0 ∙ sym (ap is_none same) in
      subst (λ t. Memᴰ id (oks (judge task failing (t ∷ turns)))) e (rw (calm, good) (head refl))
  Memᴰ-oks failing (judged j answer ∷ turns) id status body u (tail m) good =
      oks-cons (passes task failing answer) id j (judge task failing turns)
        (Memᴰ-oks failing turns id status body u.1 m good)

-- Where each goroutine reads of `err` what its own request wrote, in whatever order the requests end
-- and are judged, a run adds to the pool just the nodes that answered with the status of the task,
-- and with its body if the task has one. (`GetAll` gives at least one node.)
pub run_task-passing :
    (task : Task) (r : Round) (n : Node) (nodes : List Node) (id : Bytes)
    → r.get_all (filter_country task.applicable_countries ∷ []) ≡ some (n ∷ nodes)
    → IsUndisturbed false (r.turns (n ∷ nodes))
    → Memᴰ id (added (run_task task r)) ↔ HasPassed task (r.turns (n ∷ nodes)) id
unfolding run_task
run_task-passing task r n nodes id found own =
    let turns = r.turns (n ∷ nodes) in
    let checks = judge task false turns in
    let same : added (run_task task r) ≡ oks checks =
      rw found (pool_calls-added task.name (collect checks [] []) ∙ collect-oks checks [] []) in
    (
      λ m. oks-HasPassed task false turns id own (subst (Memᴰ id) same m),
      λ h. subst (Memᴰ id) (sym same) (
          Memᴰ-oks task false turns id h.status h.body own h.turn
            (matches-of_wanted task h.status h.body h.status_wanted h.body_wanted)),
    )
