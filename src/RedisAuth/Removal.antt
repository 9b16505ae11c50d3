-- ===== src/RedisAuth/Removal.antt =====
-- pkg/auth/redis.go: what `Authenticate` answers for a key behind the message that its user was removed.
use coinsurf_proxy.Base.{◌≡◌, ◌≢◌, refl, sym, ap, ◌∙◌, List, Bytes}
use coinsurf_proxy.Auth.{ok, Permission}
use coinsurf_proxy.RedisAuth.{
  missing, Gcache, Redis, user_key, permission_key, answered, authenticate, remove_user,
}
use coinsurf_proxy.RedisAuth.Records.{IsRecorded, read_record-IsRecorded}
use coinsurf_proxy.RedisAuth.Cached.{permission_key≢}

-- What the cache promises of `Remove`.
pub record Removes (c : Gcache) : Type 0 where
  pub get_remove : (k : Bytes) (s : c.Store) → c.get k (c.remove k s) ≡ missing
  pub get_remove_other : (j k : Bytes) (s : c.Store) → j ≢ k → c.get j (c.remove k s) ≡ c.get j s

get-remove_user :
    (c : Gcache)
    → Removes c
    → (key : Bytes) (s : c.Store) → c.get key (remove_user c key s) ≡ missing
unfolding remove_user
get-remove_user c laws key s =
    laws.get_remove_other key (permission_key key) (c.remove key s)
      (λ e. permission_key≢ key (sym e))
    ∙ laws.get_remove key s

module _ (c : Gcache) (r : Redis) (key : Bytes) where
  -- Behind the message that the user of a key was removed, a successful `Authenticate` of the key has
  -- the user and the permissions of the record that Redis has of the key then, whatever was cached
  -- before (where the cache removes what it is told to, `Removes c`).
  pub authenticate-remove_user :
      (s : c.Store) (u : Bytes) (ps : List Permission)
      → Removes c
      → (authenticate c r key (remove_user c key s)).0 ≡ ok (u, ps)
      → IsRecorded c r key u ps
  unfolding authenticate
  authenticate-remove_user s u ps laws e =
      let removed = remove_user c key s in
      read_record-IsRecorded c r key removed (r.get (user_key key)) u ps refl
        (sym (ap (λ o. (answered c r key removed o).0) (get-remove_user c laws key s)) ∙ e)
