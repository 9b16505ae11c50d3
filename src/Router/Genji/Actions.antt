-- ===== src/Router/Genji/Actions.antt =====
-- pkg/router/genji.go: code that changes the router and returns a value or an error. What was
-- changed before an error stays changed.
use coinsurf_proxy.Base.{◌≡◌, refl, ap, arith, Option, none, some, List, Bytes}
use coinsurf_proxy.Auth.{Outcome, Error, ok, err, panic, other}
use coinsurf_proxy.Router.Genji.{Database, Cache, Genji, Value, Document, first_document}

module _ (d : Database) (c : Cache) where
  abbrev pub Action : Type 0 → Type 0
  Action A = Genji d c → Outcome A × Genji d c

abbrev pub value : {A : Type 0} → Outcome A → Option A
value (ok a) = some a
value (err e) = none
value panic = none

module _ {d : Database} {c : Cache} where
  abbrev pub after :
      {A B : Type 0} → Outcome A × Genji d c → (A → Action d c B) → Outcome B × Genji d c
  after (ok a, g) f = f a g
  after (err e, g) f = (err e, g)
  after (panic, g) f = (panic, g)

  infixl 5 ◌>>=◌ ◌>>◌
  abbrev pub ◌>>=◌ : {A B : Type 0} → Action d c A → (A → Action d c B) → Action d c B
  ◌>>=◌ m f g = after (m g) f

  abbrev pub ◌>>◌ : {B : Type 0} → Action d c (Unit {0}) → Action d c B → Action d c B
  m >> k = m >>= λ _. k

  abbrev pub return : {A : Type 0} → A → Action d c A
  return a g = (ok a, g)

  abbrev pub fail : {A : Type 0} → Error → Action d c A
  fail e g = (err e, g)

  -- A value, or an error that some library made.
  abbrev pub require : {A : Type 0} → Option A → Action d c A
  require none g = (err other, g)
  require (some a) g = (ok a, g)

  abbrev pub with_db : Option d.Db → Action d c (Unit {0})
  with_db none g = (err other, g)
  with_db (some db) g = (ok tt, record g { db = db })

  abbrev pub with_pools : Option d.Db → Action d c (Unit {0})
  with_pools none g = (err other, g)
  with_pools (some pools) g = (ok tt, record g { pools = pools })

  abbrev pub exec_db : Bytes → List Value → Action d c (Unit {0})
  exec_db sql args g = with_db (d.exec sql args g.db) g

  abbrev pub exec_pools : Bytes → List Value → Action d c (Unit {0})
  exec_pools sql args g = with_pools (d.exec sql args g.pools) g

  abbrev pub query_db : Bytes → List Value → Action d c (List Document)
  query_db sql args g = require (d.query sql args g.db) g

  abbrev pub query_pools : Bytes → List Value → Action d c (List Document)
  query_pools sql args g = require (d.query sql args g.pools) g

  -- `QueryDocument`.
  abbrev pub first_db : Bytes → List Value → Action d c Document
  first_db sql args g = require (first_document (d.query sql args g.db)) g

  abbrev pub first_pools : Bytes → List Value → Action d c Document
  first_pools sql args g = require (first_document (d.query sql args g.pools)) g

  -- Inversion of a successful bind.
  pub after-eq-ok :
      {A B : Type 0} (x : Outcome A × Genji d c) (f : A → Action d c B) {b : B} {g : Genji d c}
      → after x f ≡ (ok b, g)
      → (a : A) × (h : Genji d c) × (x ≡ (ok a, h)) × (f a h ≡ (ok b, g))
  after-eq-ok (ok a, h) f e = (a, h, refl, e)
  after-eq-ok (err x, h) f e = absurd (ground (arith, ap (λ (y : Outcome _ × Genji d c). y.0) e))
  after-eq-ok (panic, h) f e = absurd (ground (arith, ap (λ (y : Outcome _ × Genji d c). y.0) e))

  pub require-eq-ok :
      {A : Type 0} (o : Option A) (g : Genji d c) {a : A} {h : Genji d c}
      → require o g ≡ (ok a, h)
      → (o ≡ some a) × (g ≡ h)
  require-eq-ok none g e = absurd (ground (arith, ap (λ (y : Outcome _ × Genji d c). y.0) e))
  require-eq-ok (some a) g e =
      (ap (λ (y : Outcome _ × Genji d c). value y.0) e, ap (λ (y : Outcome _ × Genji d c). y.1) e)

  -- A successful statement changes its own database and nothing else.
  pub with_db-eq-ok :
      (o : Option d.Db) (g h : Genji d c) {u : Unit {0}}
      → with_db o g ≡ (ok u, h)
      → (db : d.Db) × (o ≡ some db) × (record g { db = db } ≡ h)
  with_db-eq-ok none g h e = absurd (ground (arith, ap (λ (y : Outcome _ × Genji d c). y.0) e))
  with_db-eq-ok (some db) g h e = (db, refl, ap (λ (y : Outcome _ × Genji d c). y.1) e)

  pub with_pools-eq-ok :
      (o : Option d.Db) (g h : Genji d c) {u : Unit {0}}
      → with_pools o g ≡ (ok u, h)
      → (pools : d.Db) × (o ≡ some pools) × (record g { pools = pools } ≡ h)
  with_pools-eq-ok none g h e = absurd (ground (arith, ap (λ (y : Outcome _ × Genji d c). y.0) e))
  with_pools-eq-ok (some pools) g h e = (pools, refl, ap (λ (y : Outcome _ × Genji d c). y.1) e)
