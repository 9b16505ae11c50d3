-- ===== src/PoolSync/Checks.antt =====
-- pkg/pool/redis.go, `scheduleTask`: the goroutine of a task. A run checks each node in a goroutine
-- of its own, and all of them write the one variable `err`.
pub mod Partition
use coinsurf_proxy.Base.{
  ℕ, zero, suc, ◌+◌, Bool, true, false, not, ◌&&◌, Option, none, some, is_none, List, [], ◌∷◌, ◌++◌,
  map, Bytes, bytes_eq, is_empty, ◌==◌, if◌then◌else◌,
}
use coinsurf_proxy.Node.{Node}
use coinsurf_proxy.Router.{Filter, filter_country}
use coinsurf_proxy.PoolSync.{Task, panics}

-- The steps of the nodes' goroutines, in the order in which they happen: a request ends and writes
-- `err`, with the status and the body of its response or with an error, and later the goroutine
-- reads `err` and its own response.
pub data Turn : Type 0 where
  requested : Option (ℕ × Bytes) → Turn
  judged : Bytes → Option (ℕ × Bytes) → Turn

-- A response that was not filled has the status 200 and no body.
abbrev pub response_of : Option (ℕ × Bytes) → ℕ × Bytes
response_of none = (200, [])
response_of (some response) = response

abbrev pub matches : Task → ℕ × Bytes → Bool
matches task (status, body) =
    if not (status == task.status_code)
    then false
    else if not (is_empty task.body) && not (bytes_eq body task.body)
    then false
    else true

-- The three tests behind the request, of which the first reads the shared `err`.
unfoldable pub passes : Task → Bool → Option (ℕ × Bytes) → Bool
passes task failing answer = if failing then false else matches task (response_of answer)

-- The nodes with their results, in the order of the results.
unfoldable pub judge : Task → Bool → List Turn → List (Bytes × Bool)
unfolding passes
judge task failing [] = []
judge task failing (requested answer ∷ turns) = judge task (is_none answer) turns
judge task failing (judged id answer ∷ turns) =
    (id, passes task failing answer) ∷ judge task failing turns

-- `success` and `failed`.
unfoldable pub collect : List (Bytes × Bool) → List Bytes → List Bytes → List Bytes × List Bytes
collect [] success failed = (success, failed)
collect ((id, true) ∷ checks) success failed = collect checks (success ++ (id ∷ [])) failed
collect ((id, false) ∷ checks) success failed = collect checks success (failed ++ (id ∷ []))

pub data PoolCall : Type 0 where
  pool_add pool_delete : Bytes → List Bytes → PoolCall

-- The calls of the router, in order.
abbrev pub pool_calls : Bytes → List Bytes × List Bytes → List PoolCall
pool_calls name (success, failed) =
    (if is_empty success then [] else pool_add name success ∷ [])
    ++ (if is_empty failed then [] else pool_delete name failed ∷ [])

abbrev pub checked : Task → (List Node → List Turn) → Option (List Node) → List PoolCall
checked task turns none = []
checked task turns (some []) = []
checked task turns (some (n ∷ nodes)) =
    pool_calls task.name (collect (judge task false (turns (n ∷ nodes))) [] [])

-- What a run meets: `GetAll` and the turns of the goroutines for the nodes.
pub record Round : Type 0 where
  pub get_all : List Filter → Option (List Node)
  pub turns : List Node → List Turn

-- `run`.
unfoldable pub run_task : Task → Round → List PoolCall
unfolding judge collect
run_task task r = checked task r.turns (r.get_all (filter_country task.applicable_countries ∷ []))

-- What the loop of `scheduleTask` receives.
pub data Signal : Type 0 where
  ticks : Round → Signal
  stops : Signal

unfoldable pub await : Task → List Signal → List PoolCall
unfolding run_task
await task [] = []
await task (stops ∷ signals) = []
await task (ticks r ∷ signals) = let rest = await task signals in run_task task r ++ rest

-- `scheduleTask`; `none` is the panic of its ticker.
unfoldable pub schedule_task : Task → Round → List Signal → Option (List PoolCall)
unfolding run_task await
schedule_task task r signals =
    if panics task then none else some (run_task task r ++ await task signals)
