-- ===== src/SessionCache.antt =====
-- internal/cache/fastcache.go: the session cache. fastcache's store and the clock that runs jobs
-- are parameters; `advance` lets time pass.
pub mod Expiry
mod Tests
use coinsurf_proxy.Base.{
  ℕ, zero, suc, ◌+◌, Bool, true, false, not, ◌&&◌, Option, none, some, List, [], ◌∷◌, ◌++◌, Bytes,
  length, leb, is_empty, ◌==◌, if◌then◌else◌,
}
use coinsurf_proxy.Auth.{Outcome, Error, other, ok, err}
use coinsurf_proxy.Router.Genji.{Cache}

-- `fastcache.Cache`: a missing key gives no bytes. `accepts` is whether the clock takes a job for
-- that far in the future.
pub record Fast : Type 1 where
  pub Store : Type 0
  pub get : Bytes → Store → Bytes
  pub set : Bytes → Bytes → Store → Store
  pub del : Bytes → Store → Store
  pub accepts : ℕ → Bool

pub record Job : Type 0 where
  pub time : ℕ
  pub key : Bytes
  pub value : Bytes

-- `notified` is what the option's callback was called with; `on_expired` whether there is one.
pub record FastCache (f : Fast) : Type 0 where
  pub cache : f.Store
  pub on_expired : Bool
  pub now : ℕ
  pub jobs : List Job
  pub notified : List (Bytes × Bytes)

module _ {f : Fast} where
  unfoldable pub get : Bytes → FastCache f → Option Bytes
  get key m = let found = f.get key m.cache in if length found == 0 then none else some found

  unfoldable pub delete : Bytes → FastCache f → FastCache f
  delete key m = record m { cache = f.del key m.cache }

  -- The value is set in any case, and expires only where its job is scheduled.
  unfoldable pub set_with_expire :
      Bytes → Bytes → ℕ → FastCache f → Outcome (Unit {0}) × FastCache f
  set_with_expire key value expiration m =
      let set = record m { cache = f.set key value m.cache } in
      if not (f.accepts expiration) then (err other, set) else (
        ok tt,
        record set {
          jobs = m.jobs ++ (record { time = m.now + expiration; key = key; value = value }) ∷ [];
        },
      )

  -- A job: the callback, and then the deletion.
  unfoldable pub expire : Job → FastCache f → FastCache f
  unfolding delete
  expire job m =
      delete job.key (
        if m.on_expired then record m { notified = m.notified ++ (job.key, job.value) ∷ [] } else m)

  -- The jobs that are due at `now` run in order; the others stay.
  unfoldable pub run_due : List Job → FastCache f → FastCache f
  unfolding expire
  run_due [] m = m
  run_due (job ∷ jobs) m =
      if leb job.time m.now
      then run_due jobs (expire job m)
      else run_due jobs (record m { jobs = m.jobs ++ job ∷ [] })

  unfoldable pub advance : ℕ → FastCache f → FastCache f
  unfolding run_due
  advance n m = run_due m.jobs (record m { now = m.now + n; jobs = [] })

-- The implementation of pkg/cache.go.
abbrev pub fast_cache : Fast → Cache
fast_cache f = record {
  Store = FastCache f;
  get = get;
  delete = delete;
  set_with_expire = set_with_expire;
}
