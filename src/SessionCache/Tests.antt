-- ===== src/SessionCache/Tests.antt =====
-- internal/cache/fastcache.go over a list of entries, and the theorems about it there.
use mathlib.Core.List.Memᴰ.{head}
use coinsurf_proxy.Base.{
  ◌≡◌, refl, ap, ◌∙◌, true, Option, none, some, [], ◌∷◌, Bytes, codes, Assoc, lookup, insert, erase,
  lookup-insert, lookup-erase, bytes_eq_refl, if◌then◌else◌, arith,
}
use coinsurf_proxy.Auth.{ok}
use coinsurf_proxy.Router.Genji.Nodes.Removal.{Deletes}
use coinsurf_proxy.SessionCache.{
  Fast, Job, FastCache, get, set_with_expire, run_due, advance, fast_cache,
}
use coinsurf_proxy.SessionCache.Expiry.{
  Stores, advance-deletes, set_with_expire-expires, fast_cache-Deletes,
}

abbrev bytes_of : Option Bytes → Bytes
bytes_of none = []
bytes_of (some v) = v

abbrev entries : Fast
entries = record {
  Store = Assoc Bytes;
  get = λ k s. bytes_of (lookup k s);
  set = insert;
  del = erase;
  accepts = λ n. true;
}

entries-Stores : Stores entries
entries-Stores = record {
  get_set = λ k v s fits.
      ap bytes_of (lookup-insert k k v s)
      ∙ ap (λ b. bytes_of (if b then some v else lookup k s)) (bytes_eq_refl k);
  get_del = λ k s.
      ap bytes_of (lookup-erase k k s)
      ∙ ap (λ b. bytes_of (if b then none else lookup k s)) (bytes_eq_refl k);
  get_del_other = λ j k s e. ap bytes_of (lookup-erase k j s) ∙ ground (arith, e);
}

abbrev session : Bytes
session = codes "7"

abbrev first : Job
first = record { time = 30; key = session; value = codes "n1" }

abbrev second : Job
second = record { time = 50; key = session; value = codes "n2" }

abbrev opened : FastCache entries
opened = record { cache = []; on_expired = true; now = 0; jobs = []; notified = [] }

abbrev once : FastCache entries
once = record {
  cache = (session, codes "n1") ∷ [];
  on_expired = true;
  now = 0;
  jobs = first ∷ [];
  notified = [];
}

-- The session was set again at 20, to last until 50.
abbrev twice : FastCache entries
twice = record {
  cache = (session, codes "n2") ∷ [];
  on_expired = true;
  now = 20;
  jobs = first ∷ second ∷ [];
  notified = [];
}

set_once : set_with_expire session (codes "n1") 30 opened ≡ (ok tt, once)
unfolding set_with_expire insert
set_once = refl

set_twice : set_with_expire session (codes "n2") 30 (advance 20 once) ≡ (ok tt, twice)
unfolding set_with_expire insert advance run_due
set_twice = refl

advance-deletes_case : get session (advance 10 twice) ≡ none
advance-deletes_case = advance-deletes entries-Stores 10 first twice (head refl) (omega arith)

set_with_expire-expires_example :
    (get session once ≡ some (codes "n1")) × (get session (advance 40 once) ≡ none)
set_with_expire-expires_example =
    set_with_expire-expires entries-Stores session (codes "n1") 30 40 opened once (omega arith)
      (omega arith) (omega arith) set_once

fast_cache-Deletes_case : Deletes (fast_cache entries)
fast_cache-Deletes_case = fast_cache-Deletes entries-Stores
