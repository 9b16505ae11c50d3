-- ===== src/PoolSync/Tests.antt =====
-- pkg/pool/redis.go on two tasks and two nodes, and the theorems about it there.
use mathlib.Core.List.{Memᴰ, Perm}
use mathlib.Core.List.Perm
use coinsurf_proxy.Base.{
  false, ◌↔◌, ◌+◌, ◌≡◌, refl, true, not, ◌&&◌, Option, none, some, List, [], ◌∷◌, map, Bytes, codes,
  Assoc, lookup, insert, erase, if◌then◌else◌,
}
use coinsurf_proxy.Node.{Node, new_node}
use coinsurf_proxy.PoolSync.{
  Task, Scheduler, fetch_keys, fetch_tasks, start_worker, schedule_all, initial_scheduling, add_new,
  stop_worker, remove_task, remove_gone, schedule_new, refresh, tick, serve,
}
use coinsurf_proxy.PoolSync.Tables.{has, either, refresh-tables}
use coinsurf_proxy.PoolSync.Goroutines.{serving}
use coinsurf_proxy.PoolSync.Initial.{initial_scheduling-serving}
use coinsurf_proxy.PoolSync.Lifecycle.{ticking, here, next, serve-serving}
use coinsurf_proxy.PoolSync.Checks.{
  Turn, requested, judged, passes, judge, collect, pool_add, pool_delete, Round, run_task, ticks,
  stops, await, schedule_task,
}
use coinsurf_proxy.PoolSync.Checks.Partition.{
  named, added, HasPassed, run_task-named, run_task-passing,
}

computes : Unit {0}
unfolding lookup insert erase fetch_keys fetch_tasks start_worker schedule_all initial_scheduling
    add_new stop_worker remove_task remove_gone schedule_new refresh tick serve
computes = tt

abbrev task : Bytes → Bytes → Task
task name url = record {
  name = name;
  method = codes "get";
  url = url;
  headers = [];
  status_code = 200;
  body = [];
  max_tries = 2;
  applicable_countries = codes "us" ∷ [];
  schedule = 5;
}

-- The value of a task is its URL, and its key is its name.
abbrev decode : Bytes → Option Task
decode value = some (task (codes "t") value)

abbrev found : Bytes → Option Bytes
found key = some (codes "u")

abbrev first_tasks : Assoc Task
first_tasks = (codes "t", task (codes "t") (codes "u")) ∷ []

abbrev first : Scheduler
first = record { tasks = first_tasks; channels = []; workers = []; made = 0; crashed = false }

run_serve : serve found decode (some (codes "k" ∷ [])) ≡ some first
unfolding computes
run_serve = refl

-- Redis now has another value for the task: the goroutine that runs keeps the old one.
abbrev later : Bytes → Option Bytes
later key = some (codes "v")

abbrev ticked : Scheduler
ticked = tick later decode (some (codes "k" ∷ [])) (λ names. true) (initial_scheduling first)

run_tick : lookup (codes "t") ticked.tasks ≡ some (task (codes "t") (codes "u"))
unfolding computes
run_tick = refl

-- The task is gone, and so is its goroutine.
run_tick_gone : (tick later decode (some []) (λ names. true) ticked).workers ≡ []
unfolding computes
run_tick_gone = refl

serve-serving_example :
    serving (codes "t") ticked.workers ≡ (if has (codes "t") ticked.tasks then 1 else 0)
serve-serving_example =
    serve-serving found decode (some (codes "k" ∷ [])) first ticked (codes "t") run_serve
      (next here (ticking later decode (some (codes "k" ∷ [])) (λ names. true)))

-- A tick before the initial scheduling: the task has two goroutines then.
abbrev early : Scheduler
early = tick found decode (some (codes "k" ∷ [])) (λ names. true) first

early_tasks : early.tasks ≡ first_tasks
unfolding computes
early_tasks = refl

run_twice : serving (codes "t") (initial_scheduling early).workers ≡ 2
unfolding computes
run_twice = refl

initial_scheduling-serving_case :
    serving (codes "t") (initial_scheduling early).workers
    ≡ serving (codes "t") early.workers + (if has (codes "t") early.tasks then 1 else 0)
unfolding computes
initial_scheduling-serving_case = initial_scheduling-serving early (codes "t") (refl, tt) (refl, tt)

abbrev gone : Assoc Task
gone = []

refresh-tables_example :
    (lookup (codes "t") (refresh gone first).tasks ≡ (
      if not (has (codes "t") gone) && has (codes "t") first.channels
      then none
      else either (lookup (codes "t") first_tasks) (lookup (codes "t") gone)))
    × (has (codes "t") (refresh gone first).channels ≡ has (codes "t") (refresh gone first).tasks)
unfolding lookup
refresh-tables_example = refresh-tables (codes "t") gone first tt (refl, tt) (λ e. cc)

abbrev node : Bytes → Node
node id = record new_node { id = id }

abbrev nodes : List Node
nodes = node (codes "a") ∷ node (codes "b") ∷ []

-- Only the node "b" answers; its request ends first.
abbrev turns : List Turn
turns =
    requested (some (200, codes "ok"))
    ∷ judged (codes "b") (some (200, codes "ok"))
    ∷ requested none
    ∷ judged (codes "a") none
    ∷ []

abbrev in_order : Round
in_order = record { get_all = λ fs. some nodes; turns = λ ns. turns }

run_schedule :
    schedule_task (task (codes "t") []) in_order (stops ∷ ticks in_order ∷ [])
    ≡ some (pool_add (codes "t") (codes "b" ∷ []) ∷ pool_delete (codes "t") (codes "a" ∷ []) ∷ [])
unfolding schedule_task run_task await judge passes collect
run_schedule = refl

run_schedule_zero : schedule_task (record (task (codes "t") []) { schedule = 0 }) in_order [] ≡ none
unfolding schedule_task
run_schedule_zero = refl

run_task-named_example :
    Perm (named (run_task (task (codes "t") []) in_order)) (map (λ (n : Node). n.id) nodes)
run_task-named_example =
    run_task-named (task (codes "t") []) in_order nodes refl (Perm.swap (codes "a") (codes "b") [])

run_task-passing_example :
    Memᴰ (codes "b") (added (run_task (task (codes "t") []) in_order))
    ↔ HasPassed (task (codes "t") []) turns (codes "b")
run_task-passing_example =
    run_task-passing (task (codes "t") []) in_order (node (codes "a")) (node (codes "b") ∷ [])
      (codes "b") refl (refl, (refl, tt))

-- The first node's request fails, the second's succeeds, and then both read `err`: the node that did
-- not answer is added as well.
abbrev raced : Round
raced = record {
  get_all = λ fs. some nodes;
  turns = λ ns.
      requested none
      ∷ requested (some (200, codes "ok"))
      ∷ judged (codes "a") none
      ∷ judged (codes "b") (some (200, codes "ok"))
      ∷ [];
}

run_race :
    run_task (task (codes "t") []) raced ≡ pool_add (codes "t") (codes "a" ∷ codes "b" ∷ []) ∷ []
unfolding run_task judge passes collect
run_race = refl
