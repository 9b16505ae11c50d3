-- ===== src/RedisAuth/Records.antt =====
-- pkg/auth/redis.go, Authenticate: an answer that is not cached is the one of the record in Redis.
use coinsurf_proxy.Base.{ℕ, ◌≡◌, refl, ◌∙◌, Option, none, some, List, Bytes, arith}
use coinsurf_proxy.Auth.{Outcome, ok, err, panic, Permission}
use coinsurf_proxy.RedisAuth.{
  Reply, found, missing, failed, user, Gcache, Redis, user_key, permissions_of, lifetime, ttl_of,
  stored, store_user, store_entries, read_record,
}

module _ (c : Gcache) (r : Redis) (key : Bytes) where
  -- An answer has the given user and permissions.
  abbrev Gives : Bytes → List Permission → Outcome (Bytes × List Permission) → Type 0
  Gives id permissions (ok (u, ps)) = (id ≡ u) × (permissions ≡ ps)
  Gives id permissions (err e) = Unit
  Gives id permissions panic = Unit

  stored-Gives :
      (id : Bytes) (ps : List Permission) (s : c.Store) (o : Option c.Store)
      → Gives id ps (stored c id ps s o).0
  stored-Gives id ps s none = tt
  stored-Gives id ps s (some t) = (refl, refl)

  store_user-Gives :
      (id : Bytes) (ps : List Permission) (time : ℕ) (s : c.Store) (o : Option c.Store)
      → Gives id ps (store_user c key id ps time s o).0
  store_user-Gives id ps time s none = tt
  store_user-Gives id ps time s (some t) =
      stored-Gives id ps t (c.set_with_expire key (user id) time t)

  store_entries-Gives :
      (metadata : Bytes) (s : c.Store) (ttl : Option ℕ)
      → Gives (r.id metadata) (permissions_of r metadata) (store_entries c r key metadata s ttl).0
  store_entries-Gives metadata s none = tt
  store_entries-Gives metadata s (some ttl) =
      store_user-Gives (r.id metadata) (permissions_of r metadata) (lifetime r ttl) s _

  Gives-ok :
      (id u : Bytes) (qs ps : List Permission) (o : Outcome (Bytes × List Permission))
      → Gives id qs o
      → o ≡ ok (u, ps)
      → (id ≡ u) × (qs ≡ ps)
  Gives-ok id u qs ps (ok (v, rs)) h e = (h.0 ∙ ground (arith, e), h.1 ∙ ground (arith, e))
  Gives-ok id u qs ps (err x) h e = cc
  Gives-ok id u qs ps panic h e = cc

  -- Redis has a record of the key, with this user and these permissions.
  pub record IsRecorded (u : Bytes) (ps : List Permission) : Type 0 where
    pub metadata : Bytes
    pub there : r.get (user_key key) ≡ found metadata
    pub same_user : r.id metadata ≡ u
    pub same_permissions : permissions_of r metadata ≡ ps

  pub read_record-IsRecorded :
      (s : c.Store) (o : Reply Bytes) (u : Bytes) (ps : List Permission)
      → r.get (user_key key) ≡ o
      → (read_record c r key s o).0 ≡ ok (u, ps)
      → IsRecorded u ps
  read_record-IsRecorded s (found metadata) u ps there e =
      let (same_user, same_permissions) =
        Gives-ok (r.id metadata) u (permissions_of r metadata) ps _
          (store_entries-Gives metadata s (ttl_of r (user_key key))) e in
      record {
        metadata = metadata;
        there = there;
        same_user = same_user;
        same_permissions = same_permissions;
      }
  read_record-IsRecorded s missing u ps there e = cc
  read_record-IsRecorded s failed u ps there e = cc
