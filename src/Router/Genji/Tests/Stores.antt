-- ===== src/Router/Genji/Tests/Stores.antt =====
-- A database, a session cache and a codec that keep what the router relies on.
use coinsurf_proxy.Base.{
  some_inj, ℕ, zero, suc, ◌≡◌, refl, sym, ap, ◌∙◌, some, List, [], ◌∷◌, ◌++◌, length, Bytes, Assoc,
  lookup, insert, erase, lookup-insert, lookup-erase, bytes_eq_refl, arith,
}
use coinsurf_proxy.Auth.{Outcome, ok}
use coinsurf_proxy.Node.{Node, new_node}
use coinsurf_proxy.Router.Genji.{Database, Cache, Codec, Document}
use coinsurf_proxy.Router.Genji.Routing.Sticky.{KeepsSessions, plain}
use coinsurf_proxy.Router.Genji.Nodes.Removal.{Deletes}

-- Statements change nothing, and each query gives all the documents.
abbrev pub documents : Database
documents = record {
  Db = List Document;
  exec = λ sql args db. some db;
  query = λ sql args db. some db;
}

abbrev pub cache : Cache
cache = record {
  Store = Assoc Bytes;
  get = lookup;
  delete = erase;
  set_with_expire = λ k v n s. (ok tt, insert k v s);
}

abbrev pub pack : List Bytes → Bytes
pack [] = []
pack (f ∷ fs) = length f ∷ (f ++ pack fs)

abbrev split_at : ℕ → Bytes → Bytes × Bytes
split_at zero s = ([], s)
split_at (suc n) [] = ([], [])
split_at (suc n) (c ∷ s) = (c ∷ (split_at n s).0, (split_at n s).1)

abbrev unpack : ℕ → Bytes → List Bytes
unpack zero s = []
unpack (suc k) [] = []
unpack (suc k) (n ∷ s) = (split_at n s).0 ∷ unpack k (split_at n s).1

split_at-append : (f s : Bytes) → split_at (length f) (f ++ s) ≡ (f, s)
split_at-append [] s = refl
split_at-append (c ∷ f) s = ap (λ (p : Bytes × Bytes). (c ∷ p.0, p.1)) (split_at-append f s)

unpack-pack : (fs : List Bytes) → unpack (length fs) (pack fs) ≡ fs
unpack-pack [] = refl
unpack-pack (f ∷ fs) =
    ap (λ (p : Bytes × Bytes). p.0 ∷ unpack (length fs) p.1) (split_at-append f (pack fs))
    ∙ ap (λ (x : List Bytes). f ∷ x) (unpack-pack fs)

abbrev pub fields : Node → List Bytes
fields n =
    n.id ∷ n.ipv4 ∷ n.ipv6 ∷ n.user_id ∷ n.api_key ∷ n.os ∷ n.version ∷ n.app_version ∷ n.country
    ∷ n.region ∷ n.city ∷ []

abbrev nth : List Bytes → ℕ → Bytes
nth [] i = []
nth (f ∷ fs) zero = f
nth (f ∷ fs) (suc i) = nth fs i

abbrev node_from : List Bytes → Node
node_from fs = record new_node {
  id = nth fs 0;
  ipv4 = nth fs 1;
  ipv6 = nth fs 2;
  user_id = nth fs 3;
  api_key = nth fs 4;
  os = nth fs 5;
  version = nth fs 6;
  app_version = nth fs 7;
  country = nth fs 8;
  region = nth fs 9;
  city = nth fs 10;
}

abbrev pub codec : Codec
codec = record {
  encode = λ id. id;
  decode = λ s. some s;
  marshal = λ n. some (pack (fields n));
  unmarshal = λ s. some (node_from (unpack 11 s));
}

stored : (k v : Bytes) (s s' : Assoc Bytes) → insert k v s ≡ s' → lookup k s' ≡ some v
stored k v s s' e = ap (lookup k) (sym e) ∙ (lookup-insert k k v s ∙ rw (bytes_eq_refl k) refl)

pub codec-KeepsSessions : KeepsSessions cache codec
codec-KeepsSessions = record {
  get_set = λ k v m n s s' w e. stored k v s s' (ap (λ (p : Outcome _ × Assoc Bytes). p.1) e);
  unmarshal_marshal = λ n v w. (
    plain n,
    ap (λ x. some (node_from (unpack 11 x))) (sym (some_inj w))
        ∙ ap (λ fs. some (node_from fs)) (unpack-pack (fields n)),
    refl,
  );
}

pub cache-Deletes : Deletes cache
cache-Deletes = record {
  gone = λ k s. lookup-erase k k s ∙ rw (bytes_eq_refl k) refl;
  stays_gone = λ j k s missing. lookup-erase k j s ∙ ground (arith, missing);
}
