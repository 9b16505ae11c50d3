-- ===== src/PoolSync/Tables.antt =====
-- pkg/pool/redis.go: the tables of tasks and channels behind a refresh.
use coinsurf_proxy.Base.{
  ℕ, ◌≡◌, refl, ap, subst, Bool, true, not, ◌&&◌, ◌||◌, Option, none, some, is_some, List, [], ◌∷◌,
  ◌++◌, Bytes, Assoc, lookup, insert, erase, lookup-insert, lookup-erase, bytes_eq, bytes_eq_iff,
  All, if◌then◌else◌, inl, inr, Bool-cases, Option-cases, some_inj, arith,
}
use coinsurf_proxy.PoolSync.{
  Task, Scheduler, start_worker, add_new, stopped, remove_task, remove_gone, schedule_new, refresh,
  fetch_keys,
}

-- Every entry stands under the name of its task.
abbrev pub IsNamed : Assoc Task → Type 0
IsNamed = All (λ (e : Bytes × Task). e.0 ≡ e.1.name)

abbrev pub has {ℓ} : {V : Type ℓ} → Bytes → Assoc V → Bool
has name m = is_some (lookup name m)

-- The entry of the first table, and else that of the second.
abbrev pub either : Option Task → Option Task → Option Task
either (some t) o = some t
either none o = o

pub insert-IsNamed : (t : Task) (m : Assoc Task) → IsNamed m → IsNamed (insert t.name t m)
unfolding insert
insert-IsNamed t [] h = (refl, tt)
insert-IsNamed t ((k, u) ∷ m) h = elim (Bool-cases (bytes_eq k t.name)) [
  | inl same ↦ rw same (refl, h.1)
  | inr other ↦ rw other (h.0, insert-IsNamed t m h.1)
]

pub fetch_keys-IsNamed :
    (get : Bytes → Option Bytes) (decode : Bytes → Option Task) (keys : List Bytes)
    (tasks : Assoc Task) (names : List Bytes) {r : Assoc Task × List Bytes}
    → IsNamed tasks
    → fetch_keys get decode keys tasks names ≡ some r
    → IsNamed r.0
unfolding fetch_keys
fetch_keys-IsNamed get decode [] tasks names h e =
    subst (λ (x : Assoc Task × List Bytes). IsNamed x.0) (some_inj e) h
fetch_keys-IsNamed get decode (key ∷ keys) tasks names h e = elim (Option-cases (get key)) [
  | inl missing ↦ absurd (ground (arith, e, missing))
  | inr (result, found) ↦ elim (Option-cases (decode result)) [
    | inl bad ↦ absurd (ground (arith, e, found, bad))
    | inr (task, read) ↦
        fetch_keys-IsNamed get decode keys (insert task.name task tasks) (names ++ (task.name ∷ []))
          (insert-IsNamed task tasks h) (rw (found, read, fetch_keys) at e)
  ]
]

lookup-add_new :
    (n : Bytes) (all tasks : Assoc Task)
    → IsNamed all
    → lookup n (add_new all tasks) ≡ either (lookup n tasks) (lookup n all)
unfolding add_new lookup
lookup-add_new n [] tasks h = ground arith
lookup-add_new n ((key, t) ∷ all) tasks h = ground (
  arith,
  h.0,
  lookup-add_new n all tasks h.1,
  lookup-add_new n all (insert t.name t tasks) h.1,
  lookup-insert t.name n t tasks,
  bytes_eq_iff t.name n,
  bytes_eq_iff key n,
)

module _ (all : Assoc Task) where
  -- The tables after the removal of one task.
  lookup-remove_task :
      (name n : Bytes) (s : Scheduler)
      → lookup n (remove_task all name s).tasks ≡ (
          if bytes_eq name n && (not (has n all) && has n s.channels)
          then none
          else lookup n s.tasks)
  unfolding remove_task
  lookup-remove_task name n s = ground (arith, lookup-erase name n s.tasks, bytes_eq_iff name n)

  lookup-remove_task-channels :
      (name n : Bytes) (s : Scheduler)
      → lookup n (remove_task all name s).channels
        ≡ (if bytes_eq name n && not (has n all) then none else lookup n s.channels)
  unfolding remove_task
  lookup-remove_task-channels name n s =
      ground (arith, lookup-erase name n s.channels, bytes_eq_iff name n)

  lookup-remove_gone-channels :
      (n : Bytes) (ts : Assoc Task) (s : Scheduler)
      → lookup n (remove_gone all ts s).channels
        ≡ (if has n ts && not (has n all) then none else lookup n s.channels)
  unfolding remove_gone lookup
  lookup-remove_gone-channels n [] s = refl
  lookup-remove_gone-channels n ((name, t) ∷ ts) s = ground (
    arith,
    lookup-remove_gone-channels n ts (remove_task all name s),
    lookup-remove_task-channels name n s,
  )

  lookup-remove_gone :
      (n : Bytes) (ts : Assoc Task) (s : Scheduler)
      → lookup n (remove_gone all ts s).tasks
        ≡ (if has n ts && (not (has n all) && has n s.channels) then none else lookup n s.tasks)
  unfolding remove_gone lookup
  lookup-remove_gone n [] s = refl
  lookup-remove_gone n ((name, t) ∷ ts) s = ground (
    arith,
    lookup-remove_gone n ts (remove_task all name s),
    lookup-remove_task name n s,
    lookup-remove_task-channels name n s,
  )

erase-IsNamed : (k : Bytes) (m : Assoc Task) → IsNamed m → IsNamed (erase k m)
unfolding erase
erase-IsNamed k [] h = tt
erase-IsNamed k ((j, t) ∷ m) h = elim (Bool-cases (bytes_eq j k)) [
  | inl same ↦ rw same (erase-IsNamed k m h.1)
  | inr other ↦ rw other (h.0, erase-IsNamed k m h.1)
]

stopped-IsNamed :
    (name : Bytes) (o : Option ℕ) (s : Scheduler)
    → IsNamed s.tasks
    → IsNamed (stopped name o s).tasks
stopped-IsNamed name none s h = h
stopped-IsNamed name (some ch) s h = erase-IsNamed name s.tasks h

pub remove_gone-IsNamed :
    (all ts : Assoc Task) (s : Scheduler) → IsNamed s.tasks → IsNamed (remove_gone all ts s).tasks
unfolding remove_gone remove_task
remove_gone-IsNamed all [] s h = h
remove_gone-IsNamed all ((name, t) ∷ ts) s h = elim (Bool-cases (has name all)) [
  | inl kept ↦ rw (kept, remove_gone) (remove_gone-IsNamed all ts s h)
  | inr gone ↦
      rw (gone, remove_gone)
        (remove_gone-IsNamed all ts _ (stopped-IsNamed name (lookup name s.channels) s h))
]

pub add_new-IsNamed : (all tasks : Assoc Task) → IsNamed tasks → IsNamed (add_new all tasks)
unfolding add_new
add_new-IsNamed [] tasks h = h
add_new-IsNamed ((key, t) ∷ all) tasks h = elim (Bool-cases (has t.name tasks)) [
  | inl known ↦ rw known (add_new-IsNamed all tasks h)
  | inr fresh ↦ rw fresh (add_new-IsNamed all _ (insert-IsNamed t tasks h))
]

pub schedule_new-tasks : (ts : Assoc Task) (s : Scheduler) → (schedule_new ts s).tasks ≡ s.tasks
unfolding schedule_new start_worker
schedule_new-tasks [] s = refl
schedule_new-tasks ((name, t) ∷ ts) s = elim (Bool-cases (has t.name s.channels)) [
  | inl known ↦ rw (known, schedule_new) (schedule_new-tasks ts s)
  | inr fresh ↦ rw (fresh, schedule_new) (schedule_new-tasks ts (start_worker t s))
]

pub has-start_worker :
    (n : Bytes) (t : Task) (s : Scheduler)
    → has n (start_worker t s).channels ≡ (bytes_eq t.name n || has n s.channels)
unfolding start_worker
has-start_worker n t s = ground (arith, lookup-insert t.name n s.made s.channels)

has-schedule_new :
    (n : Bytes) (ts : Assoc Task) (s : Scheduler)
    → IsNamed ts
    → has n (schedule_new ts s).channels ≡ (has n s.channels || has n ts)
unfolding schedule_new lookup
has-schedule_new n [] s h = ground arith
has-schedule_new n ((name, t) ∷ ts) s h = ground (
  arith,
  h.0,
  has-schedule_new n ts s h.1,
  has-schedule_new n ts (start_worker t s) h.1,
  has-start_worker n t s,
  bytes_eq_iff t.name n,
  bytes_eq_iff name n,
)

module _ (n : Bytes) (all : Assoc Task) (s : Scheduler) where
  -- What the tables hold of a name behind a refresh: a task of Redis is known, in the version that
  -- was known before if there was one; a task that is gone stays only if it had no channel; and just
  -- the known tasks are scheduled. (Where a channel belongs to a known task.)
  pub refresh-tables :
      IsNamed all
      → IsNamed s.tasks
      → (has n s.channels ≡ true → has n s.tasks ≡ true)
      → (lookup n (refresh all s).tasks ≡ (
          if not (has n all) && has n s.channels
          then none
          else either (lookup n s.tasks) (lookup n all)))
        × (has n (refresh all s).channels ≡ has n (refresh all s).tasks)
  unfolding refresh
  refresh-tables named known owned =
      let added = record s { tasks = add_new all s.tasks } in
      let kept = remove_gone all added.tasks added in
      ground (
        arith,
        owned,
        lookup-add_new n all s.tasks named,
        lookup-remove_gone all n added.tasks added,
        lookup-remove_gone-channels all n added.tasks added,
        has-schedule_new n kept.tasks kept
            (remove_gone-IsNamed all added.tasks added (add_new-IsNamed all s.tasks known)),
        ap (lookup n) (schedule_new-tasks kept.tasks kept),
      )
