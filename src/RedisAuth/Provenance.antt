-- ===== src/RedisAuth/Provenance.antt =====
-- pkg/auth/redis.go, Authenticate: where the user of an answer comes from.
use coinsurf_proxy.Base.{◌≡◌, refl, ap, ◌∙◌, ◌⊎◌, inl, inr, List, Bytes, arith}
use coinsurf_proxy.Auth.{ok, Permission}
use coinsurf_proxy.RedisAuth.{
  Reply, found, missing, failed, Entry, user, granted, Gcache, Redis, user_key, permission_key,
  read_cached, answered, authenticate,
}
use coinsurf_proxy.RedisAuth.Records.{read_record-IsRecorded}

module _ (c : Gcache) (r : Redis) (key : Bytes) where
  -- The user stands in the cache under the key, or in the record that Redis has of the key.
  abbrev pub IsUserOf : c.Store → Bytes → Type 0
  IsUserOf s id =
      (c.get key s ≡ found (user id))
      ⊎ ((metadata : Bytes) × (r.get (user_key key) ≡ found metadata) × (r.id metadata ≡ id))

  read_cached-user :
      (entry : Entry) (o : Reply Entry) (u : Bytes) (ps : List Permission)
      → read_cached entry o ≡ ok (u, ps)
      → entry ≡ user u
  read_cached-user (user id) (found (granted qs)) u ps e = ground (arith, e)
  read_cached-user (user id) (found (user other_id)) u ps e = cc
  read_cached-user (user id) missing u ps e = ground (arith, e)
  read_cached-user (user id) failed u ps e = cc
  read_cached-user (granted rs) (found (granted qs)) u ps e = cc
  read_cached-user (granted rs) (found (user id)) u ps e = cc
  read_cached-user (granted rs) missing u ps e = cc
  read_cached-user (granted rs) failed u ps e = cc

  answered-IsUserOf :
      (s : c.Store) (o : Reply Entry) (u : Bytes) (ps : List Permission)
      → c.get key s ≡ o
      → (answered c r key s o).0 ≡ ok (u, ps)
      → IsUserOf s u
  answered-IsUserOf s (found entry) u ps e h =
      inl (e ∙ ap found (read_cached-user entry (c.get (permission_key key) s) u ps h))
  answered-IsUserOf s missing u ps e h =
      let record_of = read_record-IsRecorded c r key s (r.get (user_key key)) u ps refl h in
      inr (record_of.metadata, record_of.there, record_of.same_user)
  answered-IsUserOf s failed u ps e h = cc

  -- The user of a successful `Authenticate` stands in the cache under the key, or in the record that
  -- Redis has of the key.
  pub authenticate-IsUserOf :
      (s : c.Store) (u : Bytes) (ps : List Permission)
      → (authenticate c r key s).0 ≡ ok (u, ps)
      → IsUserOf s u
  unfolding authenticate
  authenticate-IsUserOf s u ps h = answered-IsUserOf s (c.get key s) u ps refl h
