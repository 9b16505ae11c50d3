-- ===== src/PoolSync/Goroutines.antt =====
-- pkg/pool/redis.go: the goroutines of the scheduled tasks.
use coinsurf_proxy.Base.{
  ℕ, ◌+◌, ◌≡◌, refl, Bool, false, ◌&&◌, Option, none, some, List, [], ◌∷◌, Bytes, Assoc, lookup,
  lookup-insert, lookup-erase, bytes_eq, bytes_eq_iff, if◌then◌else◌, inl, inr, Bool-cases, ◌==◌,
  arith,
}
use coinsurf_proxy.PoolSync.{
  Task, Worker, Scheduler, start_worker, add_new, is_worker, stopped, stop_worker, remove_task,
  remove_gone, schedule_new, refresh,
}
use coinsurf_proxy.PoolSync.Tables.{has}

-- The goroutines of a task's name, and those of them that listen to a channel.
abbrev pub serving : Bytes → List Worker → ℕ
serving n [] = 0
serving n (w ∷ ws) = (if bytes_eq w.task.name n then 1 else 0) + serving n ws

abbrev pub listening : Bytes → ℕ → List Worker → ℕ
listening n ch [] = 0
listening n ch (w ∷ ws) = (if is_worker n ch w then 1 else 0) + listening n ch ws

abbrev pub same_channel : ℕ → Option ℕ → Bool
same_channel ch none = false
same_channel ch (some c) = c == ch

-- The channels in the table have one goroutine each, and no other goroutine runs.
abbrev pub IsServed : Scheduler → Type 0
IsServed s =
    ((n : Bytes) (ch : ℕ)
      → listening n ch s.workers ≡ (if same_channel ch (lookup n s.channels) then 1 else 0))
    × ((n : Bytes) → serving n s.workers ≡ (if has n s.channels then 1 else 0))

pub start_worker-IsServed :
    (t : Task) (s : Scheduler)
    → has t.name s.channels ≡ false
    → IsServed s
    → IsServed (start_worker t s)
unfolding start_worker
start_worker-IsServed t s fresh h = (
  λ n ch.
      ground
        (arith, h.0 n ch, fresh, lookup-insert t.name n s.made s.channels, bytes_eq_iff t.name n),
  λ n.
      ground (arith, h.1 n, fresh, lookup-insert t.name n s.made s.channels, bytes_eq_iff t.name n),
)

listening-stop_worker :
    (n m : Bytes) (ch c : ℕ) (ws : List Worker)
    → listening n ch (stop_worker m c ws)
      ≡ (if bytes_eq m n && c == ch then 0 else listening n ch ws)
unfolding stop_worker
listening-stop_worker n m ch c [] = ground arith
listening-stop_worker n m ch c (w ∷ ws) = ground (
  arith,
  listening-stop_worker n m ch c ws,
  bytes_eq_iff m n,
  bytes_eq_iff w.task.name n,
  bytes_eq_iff w.task.name m,
)

serving-stop_worker :
    (n m : Bytes) (c : ℕ) (ws : List Worker)
    → serving n ws ≡ serving n (stop_worker m c ws) + (if bytes_eq m n then listening m c ws else 0)
unfolding stop_worker
serving-stop_worker n m c [] = ground arith
serving-stop_worker n m c (w ∷ ws) = ground (
  arith,
  serving-stop_worker n m c ws,
  bytes_eq_iff m n,
  bytes_eq_iff w.task.name n,
  bytes_eq_iff w.task.name m,
)

stopped-IsServed :
    (m : Bytes) (o : Option ℕ) (s : Scheduler)
    → lookup m s.channels ≡ o
    → IsServed s
    → IsServed (stopped m o s)
stopped-IsServed m none s e h = h
stopped-IsServed m (some c) s e h = (
  λ n ch. ground (
    arith,
    h.0 n ch,
    e,
    listening-stop_worker n m ch c s.workers,
    lookup-erase m n s.channels,
    bytes_eq_iff m n,
  ),
  λ n. ground (
    arith,
    h.1 n,
    h.0 m c,
    e,
    serving-stop_worker n m c s.workers,
    lookup-erase m n s.channels,
    bytes_eq_iff m n,
  ),
)

remove_gone-IsServed :
    (all ts : Assoc Task) (s : Scheduler) → IsServed s → IsServed (remove_gone all ts s)
unfolding remove_gone remove_task
remove_gone-IsServed all [] s h = h
remove_gone-IsServed all ((name, t) ∷ ts) s h = elim (Bool-cases (has name all)) [
  | inl kept ↦ rw (kept, remove_gone) (remove_gone-IsServed all ts s h)
  | inr gone ↦
      rw (gone, remove_gone)
        (remove_gone-IsServed all ts _ (stopped-IsServed name (lookup name s.channels) s refl h))
]

schedule_new-IsServed :
    (ts : Assoc Task) (s : Scheduler) → IsServed s → IsServed (schedule_new ts s)
unfolding schedule_new
schedule_new-IsServed [] s h = h
schedule_new-IsServed ((name, t) ∷ ts) s h = elim (Bool-cases (has t.name s.channels)) [
  | inl known ↦ rw (known, schedule_new) (schedule_new-IsServed ts s h)
  | inr fresh ↦
      rw (fresh, schedule_new)
        (schedule_new-IsServed ts (start_worker t s) (start_worker-IsServed t s fresh h))
]

pub refresh-IsServed : (all : Assoc Task) (s : Scheduler) → IsServed s → IsServed (refresh all s)
unfolding refresh
refresh-IsServed all s h =
    let added = record s { tasks = add_new all s.tasks } in
    let kept = remove_gone all added.tasks added in
    schedule_new-IsServed kept.tasks kept (remove_gone-IsServed all added.tasks added h)
