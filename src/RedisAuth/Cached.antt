-- ===== src/RedisAuth/Cached.antt =====
-- pkg/auth/redis.go: what the cache answers after Redis has.
use coinsurf_proxy.Base.{
  ℕ, ◌≡◌, ◌≢◌, refl, sym, ap, ◌∙◌, subst, Bool, true, false, Option, none, some, some_inj, List, [],
  ◌∷◌, Bytes, codes, length, length-append, ltb, if◌then◌else◌, arith,
}
use coinsurf_proxy.Auth.{Outcome, ok, err, panic, Permission, permission_udp, other}
use coinsurf_proxy.RedisAuth.{
  Reply, found, missing, failed, Entry, user, granted, Gcache, Redis, user_key, permission_key,
  permissions_of, lifetime, ttl_of, stored, store_user, store_entries, read_record, read_cached,
  answered, authenticate,
}

-- What the cache promises until an entry expires.
pub record Keeps (c : Gcache) : Type 0 where
  pub get_set :
      (k : Bytes) (e : Entry) (n : ℕ) (s s' : c.Store)
      → c.set_with_expire k e n s ≡ some s'
      → c.get k s' ≡ found e
  pub get_set_other :
      (j k : Bytes) (e : Entry) (n : ℕ) (s s' : c.Store)
      → j ≢ k
      → c.set_with_expire k e n s ≡ some s'
      → c.get j s' ≡ c.get j s

pub permission_key≢ : (key : Bytes) → permission_key key ≢ key
permission_key≢ key e = omega (arith, length-append key (codes "permissions"), ap length e)

module _ (c : Gcache) where
  -- The two entries of a key are those of an answer.
  abbrev Holds : Bytes → Bytes → List Permission → c.Store → Type 0
  Holds api_key id permissions s =
      (c.get api_key s ≡ found (user id))
      × (read_cached (user id) (c.get (permission_key api_key) s) ≡ ok (id, permissions))

  Holds-authenticate :
      (r : Redis) (api_key id : Bytes) (permissions : List Permission) (s : c.Store)
      → Holds api_key id permissions s
      → authenticate c r api_key s ≡ (ok (id, permissions), s)
  unfolding authenticate
  Holds-authenticate r api_key id permissions s (h, p) =
      ap (answered c r api_key s) h ∙ ap (λ o. (o, s)) p

  -- Where an answer was given, the cache holds its entries.
  abbrev IsKept : Bytes → Outcome (Bytes × List Permission) × c.Store → Type 0
  IsKept api_key (ok (id, permissions), s) = Holds api_key id permissions s
  IsKept api_key (err e, s) = Unit
  IsKept api_key (panic, s) = Unit

module _ (c : Gcache) (laws : Keeps c) (api_key id : Bytes) where
  stored-IsKept :
      (permissions : List Permission) (time : ℕ) (before : c.Store) (o : Option c.Store)
      → read_cached (user id) (c.get (permission_key api_key) before) ≡ ok (id, permissions)
      → c.set_with_expire api_key (user id) time before ≡ o
      → IsKept c api_key (stored c id permissions before o)
  stored-IsKept permissions time before none h e = tt
  stored-IsKept permissions time before (some after) h e = (
    laws.get_set api_key (user id) time before after e,
    ap (read_cached (user id)) (
          laws.get_set_other (permission_key api_key) api_key (user id) time before after
            (permission_key≢ api_key) e)
        ∙ h,
  )

  store_user-IsKept :
      (permissions : List Permission) (time : ℕ) (before : c.Store) (o : Option c.Store)
      → ((s : c.Store)
          → o ≡ some s
          → read_cached (user id) (c.get (permission_key api_key) s) ≡ ok (id, permissions))
      → IsKept c api_key (store_user c api_key id permissions time before o)
  store_user-IsKept permissions time before none h = tt
  store_user-IsKept permissions time before (some s) h =
      stored-IsKept permissions time s (c.set_with_expire api_key (user id) time s) (h s refl) refl

  -- Only permissions that are not empty are stored, so an old entry must not be there.
  permissions_kept :
      (udp : Bool) (time : ℕ) (s s' : c.Store)
      → c.get (permission_key api_key) s ≡ missing
      → (if ltb 0 (length (if udp then permission_udp ∷ [] else []))
          then c.set_with_expire
              (permission_key api_key)
              (granted (if udp then permission_udp ∷ [] else []))
              time
              s
          else some s)
        ≡ some s'
      → read_cached (user id) (c.get (permission_key api_key) s')
        ≡ ok (id, if udp then permission_udp ∷ [] else [])
  permissions_kept true time s s' h e =
      ap (read_cached (user id))
        (laws.get_set (permission_key api_key) (granted (permission_udp ∷ [])) time s s' e)
  permissions_kept false time s s' h e =
      ap (read_cached (user id))
        (subst (λ x. c.get (permission_key api_key) x ≡ missing) (some_inj e) h)

module _ (c : Gcache) (laws : Keeps c) (r : Redis) (api_key : Bytes) (s : c.Store)
    (old : c.get (permission_key api_key) s ≡ missing) where
  store_entries-IsKept :
      (metadata : Bytes) (ttl : Option ℕ)
      → IsKept c api_key (store_entries c r api_key metadata s ttl)
  store_entries-IsKept metadata none = tt
  store_entries-IsKept metadata (some ttl) =
      store_user-IsKept c laws api_key (r.id metadata) (permissions_of r metadata) (lifetime r ttl)
        s _
        (λ s' e.
          permissions_kept c laws api_key (r.id metadata) (r.has_udp metadata) (lifetime r ttl) s s'
            old e)

  read_record-IsKept : (o : Reply Bytes) → IsKept c api_key (read_record c r api_key s o)
  read_record-IsKept (found metadata) = store_entries-IsKept metadata (ttl_of r (user_key api_key))
  read_record-IsKept missing = tt
  read_record-IsKept failed = tt

-- A key whose record Redis gave, with neither of its entries cached before, is answered from the
-- cache as Redis answered it: the same user and the same permissions, and nothing changes, while the cache keeps
-- what was set (`Keeps c`).
pub authenticate_again :
    (c : Gcache) (r : Redis) (api_key id : Bytes) (permissions : List Permission) (s s' : c.Store)
    → Keeps c
    → c.get api_key s ≡ missing
    → c.get (permission_key api_key) s ≡ missing
    → authenticate c r api_key s ≡ (ok (id, permissions), s')
    → authenticate c r api_key s' ≡ (ok (id, permissions), s')
unfolding authenticate
authenticate_again c r api_key id permissions s s' laws new old e =
    Holds-authenticate c r api_key id permissions s' (
      subst (IsKept c api_key) (sym (ap (answered c r api_key s) new) ∙ e)
        (read_record-IsKept c laws r api_key s old (r.get (user_key api_key))))

-- The permissions of a key stand in the cache under a key that a client may present as well. While
-- they stand there, the user whose key has that name is refused with an error, whatever Redis
-- knows of him.
pub authenticate_collision :
    (c : Gcache) (r : Redis) (api_key : Bytes) (permissions : List Permission) (s : c.Store)
    → c.get (permission_key api_key) s ≡ found (granted permissions)
    → authenticate c r (permission_key api_key) s ≡ (err other, s)
unfolding authenticate
authenticate_collision c r api_key permissions s h =
    ap (answered c r (permission_key api_key) s) h
    ∙ ap (λ o. (o, s)) (refused (c.get (permission_key (permission_key api_key)) s))
  where
    refused : (o : Reply Entry) → read_cached (granted permissions) o ≡ err other
    refused (found (user id)) = refl
    refused (found (granted ps)) = refl
    refused missing = refl
    refused failed = refl
