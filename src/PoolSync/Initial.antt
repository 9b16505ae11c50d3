-- ===== src/PoolSync/Initial.antt =====
-- pkg/pool/redis.go, the goroutine in front of the loop of `Serve`: it schedules the tasks that were read
-- first.
use coinsurf_proxy.Base.{
  ◌+◌, ◌≡◌, refl, sym, ap, ◌∙◌, subst, false, ◌||◌, Option, some, List, [], ◌∷◌, ◌++◌, Bytes, Assoc,
  lookup, insert, lookup-insert, bytes_eq, bytes_eq_iff, All, if◌then◌else◌, inl, inr, Bool-cases,
  Option-cases, some_inj, arith,
}
use coinsurf_proxy.PoolSync.{
  Task, Scheduler, start_worker, fetch_keys, schedule_all, initial_scheduling,
}
use coinsurf_proxy.PoolSync.Tables.{IsNamed, has, has-start_worker}
use coinsurf_proxy.PoolSync.Goroutines.{serving, IsServed, start_worker-IsServed}

-- No two entries stand under one name.
abbrev pub IsDistinct : Assoc Task → Type 0
IsDistinct [] = Unit
IsDistinct ((name, t) ∷ m) = (has name m ≡ false) × IsDistinct m

insert-IsDistinct :
    (k : Bytes) (t : Task) (m : Assoc Task) → IsDistinct m → IsDistinct (insert k t m)
unfolding insert lookup
insert-IsDistinct k t [] h = (refl, tt)
insert-IsDistinct k t ((j, u) ∷ m) h = elim (Bool-cases (bytes_eq j k)) [
  | inl same ↦ rw same (ap (λ x. has x m) (sym ((bytes_eq_iff j k).0 same)) ∙ h.0, h.1)
  | inr other ↦ rw other (
    ground (arith, h.0, lookup-insert k j t m, other, bytes_eq_iff j k, bytes_eq_iff k j),
    insert-IsDistinct k t m h.1,
  )
]

pub fetch_keys-IsDistinct :
    (get : Bytes → Option Bytes) (decode : Bytes → Option Task) (keys : List Bytes)
    (tasks : Assoc Task) (names : List Bytes) {r : Assoc Task × List Bytes}
    → IsDistinct tasks
    → fetch_keys get decode keys tasks names ≡ some r
    → IsDistinct r.0
unfolding fetch_keys
fetch_keys-IsDistinct get decode [] tasks names h e =
    subst (λ (x : Assoc Task × List Bytes). IsDistinct x.0) (some_inj e) h
fetch_keys-IsDistinct get decode (key ∷ keys) tasks names h e = elim (Option-cases (get key)) [
  | inl missing ↦ absurd (ground (arith, e, missing))
  | inr (result, found) ↦ elim (Option-cases (decode result)) [
    | inl bad ↦ absurd (ground (arith, e, found, bad))
    | inr (task, read) ↦
        fetch_keys-IsDistinct get decode keys (insert task.name task tasks)
          (names ++ (task.name ∷ [])) (insert-IsDistinct task.name task tasks h)
          (rw (found, read, fetch_keys) at e)
  ]
]

pub schedule_all-tasks : (ts : Assoc Task) (s : Scheduler) → (schedule_all ts s).tasks ≡ s.tasks
unfolding schedule_all start_worker
schedule_all-tasks [] s = refl
schedule_all-tasks ((name, t) ∷ ts) s = schedule_all-tasks ts (start_worker t s)

pub has-schedule_all :
    (n : Bytes) (ts : Assoc Task) (s : Scheduler)
    → IsNamed ts
    → has n (schedule_all ts s).channels ≡ (has n s.channels || has n ts)
unfolding schedule_all lookup
has-schedule_all n [] s h = ground arith
has-schedule_all n ((name, t) ∷ ts) s h = ground (
  arith,
  h.0,
  has-schedule_all n ts (start_worker t s) h.1,
  has-start_worker n t s,
  bytes_eq_iff t.name n,
  bytes_eq_iff name n,
)

-- No task of the list is scheduled.
abbrev pub IsFresh : Scheduler → Assoc Task → Type 0
IsFresh s = All (λ (e : Bytes × Task). has e.0 s.channels ≡ false)

start_worker-IsFresh :
    (t : Task) (s : Scheduler) (ts : Assoc Task)
    → has t.name ts ≡ false
    → IsFresh s ts
    → IsFresh (start_worker t s) ts
unfolding lookup
start_worker-IsFresh t s [] other f = tt
start_worker-IsFresh t s ((j, u) ∷ ts) other f = (
  ground (arith, f.0, other, has-start_worker j t s, bytes_eq_iff j t.name, bytes_eq_iff t.name j),
  start_worker-IsFresh t s ts (ground (arith, other)) f.1,
)

pub schedule_all-IsServed :
    (ts : Assoc Task) (s : Scheduler)
    → IsNamed ts
    → IsDistinct ts
    → IsFresh s ts
    → IsServed s
    → IsServed (schedule_all ts s)
unfolding schedule_all
schedule_all-IsServed [] s named distinct fresh h = h
schedule_all-IsServed ((name, t) ∷ ts) s named distinct fresh h =
    schedule_all-IsServed ts (start_worker t s) named.1 distinct.1
      (start_worker-IsFresh t s ts (ap (λ x. has x ts) (sym named.0) ∙ distinct.0) fresh.1)
      (start_worker-IsServed t s (ap (λ x. has x s.channels) (sym named.0) ∙ fresh.0) h)

pub IsFresh-empty : (s : Scheduler) (ts : Assoc Task) → s.channels ≡ [] → IsFresh s ts
unfolding lookup
IsFresh-empty s [] e = tt
IsFresh-empty s ((j, u) ∷ ts) e = (ground (arith, e), IsFresh-empty s ts e)

serving-schedule_all :
    (n : Bytes) (ts : Assoc Task) (s : Scheduler)
    → IsNamed ts
    → IsDistinct ts
    → serving n (schedule_all ts s).workers ≡ serving n s.workers + (if has n ts then 1 else 0)
unfolding schedule_all start_worker lookup
serving-schedule_all n [] s named distinct = omega arith
serving-schedule_all n ((name, t) ∷ ts) s named distinct = ground (
  arith,
  named.0,
  distinct.0,
  serving-schedule_all n ts (start_worker t s) named.1 distinct.1,
  bytes_eq_iff name n,
)

-- The initial scheduling does not look at the channels: where ticks came before it, a task that they
-- have scheduled gets a second goroutine.
pub initial_scheduling-serving :
    (s : Scheduler) (n : Bytes)
    → IsNamed s.tasks
    → IsDistinct s.tasks
    → serving n (initial_scheduling s).workers
      ≡ serving n s.workers + (if has n s.tasks then 1 else 0)
unfolding initial_scheduling
initial_scheduling-serving s n named distinct = serving-schedule_all n s.tasks s named distinct
