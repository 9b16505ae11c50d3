-- ===== src/RedisAuth/Tests.antt =====
-- pkg/auth/redis.go on a small cache, and the theorems about it there.
use coinsurf_proxy.Base.{
  ◌≡◌, ◌≢◌, refl, sym, ap, ◌∙◌, true, false, if◌then◌else◌, Option, none, some, some_inj, [], ◌∷◌,
  Bytes, codes, Assoc, lookup, insert, erase, lookup-insert, lookup-erase, bytes_eq, bytes_eq_iff,
  bytes_eq_refl, arith,
}
use coinsurf_proxy.Auth.{ok, err, other, permission_udp}
use coinsurf_proxy.RedisAuth.{
  Reply, found, missing, Entry, user, granted, Gcache, Redis, authenticate, remove_user,
}
use coinsurf_proxy.RedisAuth.Records.{IsRecorded}
use coinsurf_proxy.RedisAuth.Removal.{Removes, authenticate-remove_user}
use coinsurf_proxy.RedisAuth.Cached.{Keeps, authenticate_again, authenticate_collision}

abbrev reply : Option Entry → Reply Entry
reply none = missing
reply (some e) = found e

abbrev cache : Gcache
cache = record {
  Store = Assoc Entry;
  get = λ k s. reply (lookup k s);
  set_with_expire = λ k e n s. some (insert k e s);
  remove = erase;
  purge = λ s. [];
}

set_found :
    (k : Bytes) (e : Entry) (s s' : Assoc Entry) → insert k e s ≡ s' → reply (lookup k s') ≡ found e
set_found k e s s' h =
    ap (λ x. reply (lookup k x)) (sym h)
    ∙ (ap reply (lookup-insert k k e s)
        ∙ ap (λ b. reply (if b then some e else lookup k s)) (bytes_eq_refl k))

set_other :
    (j k : Bytes) (e : Entry) (s s' : Assoc Entry)
    → j ≢ k
    → insert k e s ≡ s'
    → reply (lookup j s') ≡ reply (lookup j s)
set_other j k e s s' o h =
    let other : bytes_eq k j ≡ false = ground (arith, bytes_eq_iff k j, o) in
    ap (λ x. reply (lookup j x)) (sym h)
    ∙ (ap reply (lookup-insert k j e s) ∙ ap (λ b. reply (if b then some e else lookup j s)) other)

cache-Keeps : Keeps cache
cache-Keeps = record {
  get_set = λ k e n s s' h. set_found k e s s' (some_inj h);
  get_set_other = λ j k e n s s' o h. set_other j k e s s' o (some_inj h);
}

abbrev redis : Redis
redis = record {
  get = λ key. found (codes "{}");
  ttl = λ key. missing;
  id = λ metadata. codes "u1";
  has_udp = λ metadata. true;
  expiration = 60;
}

abbrev filled : Assoc Entry
filled = (codes "kpermissions", granted (permission_udp ∷ [])) ∷ (codes "k", user (codes "u1")) ∷ []

authenticate_first :
    authenticate cache redis (codes "k") [] ≡ (ok (codes "u1", permission_udp ∷ []), filled)
unfolding authenticate lookup insert
authenticate_first = refl

authenticate_again_example :
    authenticate cache redis (codes "k") filled ≡ (ok (codes "u1", permission_udp ∷ []), filled)
unfolding lookup
authenticate_again_example =
    authenticate_again cache redis (codes "k") (codes "u1") (permission_udp ∷ []) [] filled
      cache-Keeps refl refl authenticate_first

authenticate_collision_case :
    authenticate cache redis (codes "kpermissions") filled ≡ (err other, filled)
unfolding lookup
authenticate_collision_case =
    authenticate_collision cache redis (codes "k") (permission_udp ∷ []) filled refl

cache-Removes : Removes cache
cache-Removes = record {
  get_remove = λ k s.
      ap reply (lookup-erase k k s)
      ∙ ap (λ b. reply (if b then none else lookup k s)) (bytes_eq_refl k);
  get_remove_other = λ j k s o.
      let other : bytes_eq k j ≡ false = ground (arith, bytes_eq_iff k j, o) in
      ap reply (lookup-erase k j s) ∙ ap (λ b. reply (if b then none else lookup j s)) other;
}

authenticate_removed :
    (authenticate cache redis (codes "k") (remove_user cache (codes "k") filled)).0
    ≡ ok (codes "u1", permission_udp ∷ [])
unfolding authenticate remove_user lookup insert erase
authenticate_removed = refl

authenticate-remove_user_example :
    IsRecorded cache redis (codes "k") (codes "u1") (permission_udp ∷ [])
authenticate-remove_user_example =
    authenticate-remove_user cache redis (codes "k") filled (codes "u1") (permission_udp ∷ [])
      cache-Removes authenticate_removed
