-- ===== src/PoolSync.antt =====
-- pkg/pool/redis.go: pool synchronisation. Tasks are read from Redis; each scheduled task has a
-- channel and a goroutine that checks nodes and writes the results to the router's pools. The
-- ranges over maps follow the order of the lists, which nothing reads.
pub mod Tables
pub mod Goroutines
pub mod Initial
pub mod Lifecycle
pub mod Checks
mod Tests
use coinsurf_proxy.Base.{
  ℕ, zero, suc, ◌+◌, Bool, true, false, not, ◌&&◌, ◌||◌, sle64, mul64, Option, none, some, is_some,
  List, [], ◌∷◌, ◌++◌, map, Bytes, Assoc, lookup, insert, erase, bytes_eq, is_empty, ◌==◌,
  if◌then◌else◌,
}

-- `Task`. The headers only go into the request, which the network answers.
pub record Task : Type 0 where
  pub name : Bytes
  pub method : Bytes
  pub url : Bytes
  pub headers : Assoc Bytes
  pub status_code : ℕ
  pub body : Bytes
  pub max_tries : ℕ
  pub applicable_countries : List Bytes
  pub schedule : ℕ

-- The goroutine of a task, with the serial number of the channel that it listens to.
pub record Worker : Type 0 where
  pub task : Task
  pub channel : ℕ

-- `Redis`: the tasks, the channels by the task's name, and the goroutines that run. A channel is
-- known by the task that it is made for and a serial number, of which `made` is the next one.
pub record Scheduler : Type 0 where
  pub tasks : Assoc Task
  pub channels : Assoc ℕ
  pub workers : List Worker
  pub made : ℕ
  -- A goroutine has panicked, which ends the program: what comes behind it does not happen.
  pub crashed : Bool

-- A minute, in nanoseconds.
abbrev pub minute : ℕ
minute = 60000000000

-- The loop of `fetchTasks` over the keys: the first error ends it. `get` is Redis' GET, `decode` is
-- `json.Unmarshal` of a task.
unfoldable pub fetch_keys :
    (Bytes → Option Bytes)
    → (Bytes → Option Task)
    → List Bytes
    → Assoc Task
    → List Bytes
    → Option (Assoc Task × List Bytes)
unfolding insert
fetch_keys get decode [] tasks names = some (tasks, names)
fetch_keys get decode (key ∷ keys) tasks names = elim (get key) [
  | none ↦ none
  | some result ↦ elim (decode result) [
    | none ↦ none
    | some task ↦
        fetch_keys get decode keys (insert task.name task tasks) (names ++ (task.name ∷ []))
  ]
]

abbrev pub fetch_listed :
    (Bytes → Option Bytes)
    → (Bytes → Option Task)
    → Option (List Bytes)
    → Option (Assoc Task × List Bytes)
fetch_listed get decode none = none
fetch_listed get decode (some keys) = fetch_keys get decode keys [] []

-- `fetchTasks`; the keys are what KEYS answers for the pattern.
unfoldable pub fetch_tasks :
    (Bytes → Option Bytes)
    → (Bytes → Option Task)
    → Option (List Bytes)
    → Option (Assoc Task × List Bytes)
unfolding fetch_keys
fetch_tasks get decode keys = fetch_listed get decode keys

-- `time.NewTicker` panics where the task's period is not positive.
abbrev pub panics : Task → Bool
panics task = sle64 (mul64 task.schedule minute) 0

-- `ch := make(chan struct{})`, its entry in the table and `go r.scheduleTask(ch, task)`, which panics
-- at once in `time.NewTicker` where the task's period is not positive.
unfoldable pub start_worker : Task → Scheduler → Scheduler
unfolding insert
start_worker task s = record s {
  channels = insert task.name s.made s.channels;
  workers = record { task = task; channel = s.made } ∷ s.workers;
  made = suc s.made;
  crashed = s.crashed || panics task;
}

-- The initial scheduling, over the tasks.
unfoldable pub schedule_all : Assoc Task → Scheduler → Scheduler
unfolding start_worker
schedule_all [] s = s
schedule_all ((name, task) ∷ tasks) s = schedule_all tasks (start_worker task s)

unfoldable pub initial_scheduling : Scheduler → Scheduler
unfolding schedule_all
initial_scheduling s = schedule_all s.tasks s

-- "find new tasks".
unfoldable pub add_new : Assoc Task → Assoc Task → Assoc Task
unfolding insert lookup
add_new [] tasks = tasks
add_new ((key, t) ∷ all) tasks =
    add_new all (if is_some (lookup t.name tasks) then tasks else insert t.name t tasks)

-- The goroutine that receives from the channel of the task returns.
abbrev pub is_worker : Bytes → ℕ → Worker → Bool
is_worker name ch w = bytes_eq w.task.name name && w.channel == ch

unfoldable pub stop_worker : Bytes → ℕ → List Worker → List Worker
stop_worker name ch [] = []
stop_worker name ch (w ∷ ws) =
    let rest = stop_worker name ch ws in if is_worker name ch w then rest else w ∷ rest

abbrev pub stopped : Bytes → Option ℕ → Scheduler → Scheduler
stopped name none s = s
stopped name (some ch) s = record s {
  tasks = erase name s.tasks;
  channels = erase name s.channels;
  workers = stop_worker name ch s.workers;
}

unfoldable pub remove_task : Assoc Task → Bytes → Scheduler → Scheduler
unfolding erase lookup stop_worker
remove_task all name s =
    if is_some (lookup name all) then s else stopped name (lookup name s.channels) s

-- "find removed tasks and close their channels".
unfoldable pub remove_gone : Assoc Task → Assoc Task → Scheduler → Scheduler
unfolding remove_task
remove_gone all [] s = s
remove_gone all ((name, task) ∷ tasks) s = remove_gone all tasks (remove_task all name s)

-- "schedule new tasks".
unfoldable pub schedule_new : Assoc Task → Scheduler → Scheduler
unfolding start_worker lookup
schedule_new [] s = s
schedule_new ((name, task) ∷ tasks) s =
    schedule_new tasks (if is_some (lookup task.name s.channels) then s else start_worker task s)

-- What a tick does with the tasks that it read, under the lock.
unfoldable pub refresh : Assoc Task → Scheduler → Scheduler
unfolding add_new remove_gone schedule_new
refresh all s =
    let added = record s { tasks = add_new all s.tasks } in
    let kept = remove_gone all added.tasks added in schedule_new kept.tasks kept

-- A tick: what was read, and whether `PoolCleanNameNotIn` of the names succeeds.
abbrev pub ticked : Option (Assoc Task × List Bytes) → (List Bytes → Bool) → Scheduler → Scheduler
ticked none clean s = s
ticked (some (all, names)) clean s = if clean names then refresh all s else s

unfoldable pub tick :
    (Bytes → Option Bytes)
    → (Bytes → Option Task)
    → Option (List Bytes)
    → (List Bytes → Bool)
    → Scheduler
    → Scheduler
unfolding fetch_tasks refresh
tick get decode keys clean s = ticked (fetch_tasks get decode keys) clean s

-- `Serve` up to the goroutines: it returns an error where the tasks cannot be read.
unfoldable pub serve :
    (Bytes → Option Bytes) → (Bytes → Option Task) → Option (List Bytes) → Option Scheduler
unfolding fetch_tasks
serve get decode keys = elim (fetch_tasks get decode keys) [
  | none ↦ none
  | some (tasks, names) ↦
      some (record { tasks = tasks; channels = []; workers = []; made = 0; crashed = false })
]
