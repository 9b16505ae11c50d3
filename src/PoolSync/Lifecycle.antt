-- ===== src/PoolSync/Lifecycle.antt =====
-- pkg/pool/redis.go, `Serve`: from the first tasks on, through the initial scheduling and any ticks.
use coinsurf_proxy.Base.{
  false, ◌≡◌, refl, sym, ap, ◌∙◌, subst, Bool, Option, none, some, List, [], Bytes, Assoc, lookup,
  if◌then◌else◌, inl, inr, Bool-cases, Option-cases, some_inj, arith,
}
use coinsurf_proxy.PoolSync.{
  Task, Scheduler, add_new, remove_gone, refresh, fetch_tasks, serve, initial_scheduling, ticked,
  tick,
}
use coinsurf_proxy.PoolSync.Tables.{
  IsNamed, has, fetch_keys-IsNamed, add_new-IsNamed, remove_gone-IsNamed, schedule_new-tasks,
  refresh-tables,
}
use coinsurf_proxy.PoolSync.Goroutines.{serving, IsServed, refresh-IsServed}
use coinsurf_proxy.PoolSync.Initial.{
  IsDistinct, fetch_keys-IsDistinct, schedule_all-tasks, has-schedule_all, schedule_all-IsServed,
  IsFresh-empty,
}

-- What holds of the scheduler from the initial scheduling on.
pub record IsConsistent (s : Scheduler) : Type 0 where
  pub named : IsNamed s.tasks
  pub scheduled : (n : Bytes) → has n s.channels ≡ has n s.tasks
  pub served : IsServed s

module _ (get : Bytes → Option Bytes) (decode : Bytes → Option Task) where
  fetch_tasks-IsNamed :
      (keys : Option (List Bytes)) {r : Assoc Task × List Bytes}
      → fetch_tasks get decode keys ≡ some r
      → IsNamed r.0 × IsDistinct r.0
  unfolding fetch_tasks
  fetch_tasks-IsNamed none e = cc
  fetch_tasks-IsNamed (some keys) e = (
    fetch_keys-IsNamed get decode keys [] [] tt e,
    fetch_keys-IsDistinct get decode keys [] [] tt e,
  )

initial_scheduling-IsConsistent :
    (tasks : Assoc Task)
    → IsNamed tasks
    → IsDistinct tasks
    → IsConsistent (
        initial_scheduling
          (record { tasks = tasks; channels = []; workers = []; made = 0; crashed = false }))
unfolding initial_scheduling lookup
initial_scheduling-IsConsistent tasks named distinct =
    let s : Scheduler = record {
      tasks = tasks;
      channels = [];
      workers = [];
      made = 0;
      crashed = false;
    } in
    record {
      named = subst IsNamed (sym (schedule_all-tasks tasks s)) named;
      scheduled =
          λ n. has-schedule_all n tasks s named ∙ ap (has n) (sym (schedule_all-tasks tasks s));
      served =
          schedule_all-IsServed tasks s named distinct (IsFresh-empty s tasks refl)
            (λ n ch. refl, λ n. refl);
    }

refresh-IsConsistent :
    (all : Assoc Task) (s : Scheduler) → IsNamed all → IsConsistent s → IsConsistent (refresh all s)
unfolding refresh
refresh-IsConsistent all s named h =
    let added = record s { tasks = add_new all s.tasks } in
    let kept = remove_gone all added.tasks added in
    record {
      named =
          subst IsNamed (sym (schedule_new-tasks kept.tasks kept))
            (remove_gone-IsNamed all added.tasks added (add_new-IsNamed all s.tasks h.named));
      scheduled = λ n. (refresh-tables n all s named h.named (λ e. sym (h.scheduled n) ∙ e)).1;
      served = refresh-IsServed all s h.served;
    }

-- Ticks, whatever Redis and the router answer.
pub data Step : Scheduler → Scheduler → Type 0 where
  ticking :
      {s : Scheduler} (get : Bytes → Option Bytes) (decode : Bytes → Option Task)
      (keys : Option (List Bytes)) (clean : List Bytes → Bool)
      → Step s (tick get decode keys clean s)

pub data Reach (s : Scheduler) : Scheduler → Type 0 where
  here : Reach s s
  next : {t u : Scheduler} → Reach s t → Step t u → Reach s u

ticked-IsConsistent :
    (o : Option (Assoc Task × List Bytes)) (clean : List Bytes → Bool) (s : Scheduler)
    → ((r : Assoc Task × List Bytes) → o ≡ some r → IsNamed r.0)
    → IsConsistent s
    → IsConsistent (ticked o clean s)
ticked-IsConsistent none clean s named h = h
ticked-IsConsistent (some (all, names)) clean s named h = elim (Bool-cases (clean names)) [
  | inl cleaned ↦ rw cleaned (refresh-IsConsistent all s (named (all, names) refl) h)
  | inr failed ↦ rw failed h
]

Step-IsConsistent : {s u : Scheduler} → Step s u → IsConsistent s → IsConsistent u
unfolding tick
Step-IsConsistent {s = s} (ticking get decode keys clean) h =
    ticked-IsConsistent (fetch_tasks get decode keys) clean s
      (λ r e. (fetch_tasks-IsNamed get decode keys e).0) h

Reach-IsConsistent : {s u : Scheduler} → Reach s u → IsConsistent s → IsConsistent u
Reach-IsConsistent here h = h
Reach-IsConsistent (next r st) h = Step-IsConsistent st (Reach-IsConsistent r h)

-- From the initial scheduling of the tasks that were read first, through any ticks, whatever Redis
-- and the router answer, each task in the table has one goroutine, and no other goroutine runs.
pub serve-serving :
    (get : Bytes → Option Bytes) (decode : Bytes → Option Task) (keys : Option (List Bytes))
    (s u : Scheduler) (n : Bytes)
    → serve get decode keys ≡ some s
    → Reach (initial_scheduling s) u
    → serving n u.workers ≡ (if has n u.tasks then 1 else 0)
unfolding serve
serve-serving get decode keys s u n started r = elim (Option-cases (fetch_tasks get decode keys)) [
  | inl failed ↦ absurd (ground (arith, started, failed))
  | inr ((tasks, names), read) ↦
      let (named, distinct) = fetch_tasks-IsNamed get decode keys read in
      let same : record { tasks = tasks; channels = []; workers = []; made = 0; crashed = false }
          ≡ s =
        some_inj (rw (read, serve) at started) in
      let h = Reach-IsConsistent r (
        subst (λ x. IsConsistent (initial_scheduling x)) same
          (initial_scheduling-IsConsistent tasks named distinct)) in
      h.served.1 n ∙ ap (λ b. if b then 1 else 0) (h.scheduled n)
]
