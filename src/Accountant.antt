-- ===== src/Accountant.antt =====
-- pkg/accountant.go and pkg/accountant/redis.go: the traffic of each node's users is added up and
-- published in batches. The channel is the list of its events, in the order of their arrival.
pub mod Totals
mod Tests
use coinsurf_proxy.Base.{
  ℕ, Bool, true, false, Option, none, some, List, [], ◌∷◌, ◌++◌, Bytes, Assoc, lookup, insert,
  is_empty, add64, if◌then◌else◌,
}

-- Byte counts are int64s.
pub record Usage : Type 0 where
  pub user_id : Bytes
  pub node_id : Bytes
  pub bytes : ℕ

-- `result`, the value of `cache`.
abbrev pub Users : Type 0
Users = Assoc ℕ

abbrev pub Cache : Type 0
Cache = Assoc Users

pub record Accountant : Type 0 where
  pub cache : Cache
  -- What was handed to Redis, oldest first.
  pub published : List Cache
  pub closed : Bool

-- What the loop's `select` receives; `tick` says whether `json.Marshal` succeeds.
pub data Event : Type 0 where
  usage : Usage → Event
  tick : Bool → Event
  done : Event

abbrev pub users_of : Cache → Bytes → Users
users_of cache node = elim (lookup node cache) [ none ↦ [] | some users ↦ users ]

-- `m[k]`, which is 0 for a missing key.
abbrev pub count_of : Users → Bytes → ℕ
count_of users user = elim (lookup user users) [ none ↦ 0 | some n ↦ n ]

unfoldable pub record_usage : Cache → Usage → Cache
record_usage cache u =
    let users = users_of cache u.node_id in
    insert u.node_id (insert u.user_id (add64 (count_of users u.user_id) u.bytes) users) cache

unfoldable pub flush : Accountant → Bool → Accountant
flush a marshalled =
    if is_empty a.cache
    then a
    else if marshalled
    then record a { cache = []; published = a.published ++ a.cache ∷ [] }
    else record a { cache = [] }

-- One round of the loop; behind `done` it has returned.
unfoldable pub step : Accountant → Event → Accountant
unfolding record_usage flush
step a (usage u) = if a.closed then a else record a { cache = record_usage a.cache u }
step a (tick marshalled) = if a.closed then a else flush a marshalled
step a done = record a { closed = true }

unfoldable pub run : Accountant → List Event → Accountant
run a [] = a
run a (e ∷ es) = run (step a e) es

abbrev pub new_accountant : Accountant
new_accountant = record { cache = []; published = []; closed = false }

-- `Decrement` sends one usage.
abbrev pub decrement : Bytes → Bytes → ℕ → Event
decrement user node n = usage (record { user_id = user; node_id = node; bytes = n })
