-- ===== src/RedisAuth.antt =====
-- pkg/auth/redis.go and internal/keys/keys.go: authentication against Redis behind a cache. The
-- cache, the Redis client and the JSON reader are parameters.
pub mod Cached
pub mod Records
pub mod Provenance
pub mod Removal
mod Tests
use coinsurf_proxy.Base.{
  ℕ, Bool, true, false, not, ◌&&◌, ◌||◌, Option, none, some, List, [], ◌∷◌, ◌++◌, Bytes, codes,
  length, ltb, sle64, slt64, if◌then◌else◌,
}
use coinsurf_proxy.Auth.{
  Outcome, Error, unauthorized, other, ok, err, panic, Permission, permission_udp,
}

-- The answer to a read: a value, `redis.Nil` or `gcache.KeyNotFoundError`, or another error.
pub data Reply {ℓ} (A : Type ℓ) : Type ℓ where
  found : A → Reply A
  missing failed : Reply A

-- What the cache holds: a user's id, or the permissions of a key.
pub data Entry : Type 0 where
  user : Bytes → Entry
  granted : List Permission → Entry

pub record Gcache : Type 1 where
  pub Store : Type 0
  pub get : Bytes → Store → Reply Entry
  pub set_with_expire : Bytes → Entry → ℕ → Store → Option Store
  pub remove : Bytes → Store → Store
  pub purge : Store → Store

-- `ttl` is an int64; `id` and `has_udp` are what gjson reads in a record.
pub record Redis : Type 0 where
  pub get : Bytes → Reply Bytes
  pub ttl : Bytes → Reply ℕ
  pub id : Bytes → Bytes
  pub has_udp : Bytes → Bool
  pub expiration : ℕ

abbrev pub user_key : Bytes → Bytes
user_key api_key = codes ":1:" ++ api_key

abbrev pub permission_key : Bytes → Bytes
permission_key key = key ++ codes "permissions"

abbrev pub permissions_of : Redis → Bytes → List Permission
permissions_of r metadata = if r.has_udp metadata then permission_udp ∷ [] else []

-- The time that an entry is kept: the record's own, within the configured one.
abbrev pub lifetime : Redis → ℕ → ℕ
lifetime r ttl = if sle64 ttl 0 || slt64 r.expiration ttl then r.expiration else ttl

abbrev pub ttl_of : Redis → Bytes → Option ℕ
ttl_of r key = elim (r.ttl key) [ found n ↦ some n | missing ↦ some 0 | failed ↦ none ]

abbrev pub with_entry : Entry → List Permission → Outcome (Bytes × List Permission)
with_entry (user id) permissions = ok (id, permissions)
with_entry (granted ps) permissions = err other

-- A key that is cached.
abbrev pub read_cached : Entry → Reply Entry → Outcome (Bytes × List Permission)
read_cached entry (found (granted permissions)) = with_entry entry permissions
read_cached entry (found (user id)) = err other
read_cached entry missing = with_entry entry []
read_cached entry failed = err other

module _ (c : Gcache) where
  abbrev pub stored :
      Bytes
      → List Permission
      → c.Store
      → Option c.Store
      → Outcome (Bytes × List Permission) × c.Store
  stored id permissions before none = (err other, before)
  stored id permissions before (some after) = (ok (id, permissions), after)

  abbrev pub store_user :
      Bytes
      → Bytes
      → List Permission
      → ℕ
      → c.Store
      → Option c.Store
      → Outcome (Bytes × List Permission) × c.Store
  store_user api_key id permissions time before none = (err other, before)
  store_user api_key id permissions time before (some s) =
      stored id permissions s (c.set_with_expire api_key (user id) time s)

  abbrev pub store_entries :
      Redis → Bytes → Bytes → c.Store → Option ℕ → Outcome (Bytes × List Permission) × c.Store
  store_entries r api_key metadata s none = (err other, s)
  store_entries r api_key metadata s (some ttl) =
      let permissions = permissions_of r metadata in
      let time = lifetime r ttl in
      store_user api_key (r.id metadata) permissions time s (
        if ltb 0 (length permissions)
        then c.set_with_expire (permission_key api_key) (granted permissions) time s
        else some s)

  -- A key that is not cached.
  abbrev pub read_record :
      Redis → Bytes → c.Store → Reply Bytes → Outcome (Bytes × List Permission) × c.Store
  read_record r api_key s (found metadata) =
      store_entries r api_key metadata s (ttl_of r (user_key api_key))
  read_record r api_key s missing = (err unauthorized, s)
  read_record r api_key s failed = (err other, s)

  abbrev pub answered :
      Redis → Bytes → c.Store → Reply Entry → Outcome (Bytes × List Permission) × c.Store
  answered r api_key s (found entry) = (read_cached entry (c.get (permission_key api_key) s), s)
  answered r api_key s missing = read_record r api_key s (r.get (user_key api_key))
  answered r api_key s failed = (err other, s)

  unfoldable pub authenticate :
      Redis → Bytes → c.Store → Outcome (Bytes × List Permission) × c.Store
  authenticate r api_key s = answered r api_key s (c.get api_key s)

  -- A message on the channel of removed users.
  unfoldable pub remove_user : Bytes → c.Store → c.Store
  remove_user payload s = c.remove (permission_key payload) (c.remove payload s)
