-- ===== src/Router/Genji.antt =====
-- pkg/router/genji.go: the router over two Genji databases and a cache of sticky sessions. The
-- databases, the cache, peer ids and JSON are parameters.
pub mod Actions
pub mod Nodes
pub mod Pools
pub mod Routing
pub mod Tests
use coinsurf_proxy.Base.{
  ℕ, ◌≡◌, suc, Bool, true, false, not, ◌&&◌, Option, none, some, List, [], ◌∷◌, ◌++◌, map, Bytes,
  codes, Assoc, lookup, insert, is_none, is_some, is_empty, length, ltb, ◌==◌, join, if◌then◌else◌,
}
use coinsurf_proxy.Auth.{Outcome, Error, ok, err, panic, other}
use coinsurf_proxy.Node.{Node, PoolNode, new_node}
use coinsurf_proxy.Request.{Request, is_random_location}
use coinsurf_proxy.Router.{
  Query, new_query, Filter, apply_all, itoa, query_builder, quoted, nodes_select_query,
  nodes_count_query,
}

infixl 5 ◌>>=◌
abbrev pub ◌>>=◌ {ℓ κ} : {A : Type ℓ} {B : Type κ} → Option A → (A → Option B) → Option B
none >>= f = none
some a >>= f = f a

pub data Value : Type 0 where
  text : Bytes → Value
  integer : ℕ → Value

-- `d.GetByField`.
abbrev pub Document : Type 0
Document = Assoc Value

-- A Genji database: `exec` runs a statement (`none` is an error, which changes nothing), `query`
-- gives the documents of a SELECT.
pub record Database : Type 1 where
  pub Db : Type 0
  pub exec : Bytes → List Value → Db → Option Db
  pub query : Bytes → List Value → Db → Option (List Document)

-- pkg/cache.go. A duration is an int64. `SetWithExpire` may change the store and return an error.
pub record Cache : Type 1 where
  pub Store : Type 0
  pub get : Bytes → Store → Option Bytes
  pub delete : Bytes → Store → Store
  pub set_with_expire : Bytes → Bytes → ℕ → Store → Outcome (Unit {0}) × Store

-- libp2p's `peer.Encode` and `peer.Decode`, and the generated JSON code of pkg/node_easyjson.go.
pub record Codec : Type 0 where
  pub encode : Bytes → Bytes
  pub decode : Bytes → Option Bytes
  pub marshal : Node → Option Bytes
  pub unmarshal : Bytes → Option Node

pub record Genji (d : Database) (c : Cache) : Type 0 where
  pub db : d.Db
  pub pools : d.Db
  pub sessions : c.Store

abbrev pub sessions_insert : Bytes
sessions_insert = codes "INSERT INTO sessions(peer_id, session_id) VALUES(?, ?)"

abbrev pub sessions_select_by_peer_id : Bytes
sessions_select_by_peer_id = codes "SELECT session_id FROM sessions WHERE peer_id = ?"

abbrev pub sessions_delete_by_peer_id : Bytes
sessions_delete_by_peer_id = codes "DELETE FROM sessions WHERE peer_id = ?"

abbrev pub sessions_delete_by_session_id : Bytes
sessions_delete_by_session_id = codes "DELETE FROM sessions WHERE session_id = ?"

abbrev pub pools_select_query : Bytes
pools_select_query = codes "SELECT peer_id FROM pools WHERE name = ? ORDER BY ranking ASC LIMIT 1"

abbrev pub pools_delete_node_query : Bytes
pools_delete_node_query = codes "DELETE FROM pools WHERE peer_id = ?"

abbrev pub pools_insert_atomic_query : Bytes
pools_insert_atomic_query =
    codes "INSERT INTO pools (peer_id, name) VALUES (?, ?) ON CONFLICT DO REPLACE"

abbrev pub pools_delete_bulk_query : Bytes
pools_delete_bulk_query = codes "DELETE FROM pools WHERE name = "

abbrev pub pools_purge_query : Bytes
pools_purge_query = codes "DELETE FROM pools WHERE name "

abbrev pub pools_increment_ranking_query : Bytes
pools_increment_ranking_query = codes "UPDATE pools SET ranking = ranking + 1 WHERE peer_id = ?"

abbrev pub pools_reset_ranking_query : Bytes
pools_reset_ranking_query = codes "UPDATE pools SET ranking = 0"

abbrev pub nodes_insert_query : Bytes
nodes_insert_query =
    codes
      "INSERT INTO nodes (peer_id, country, region, city, user_id, api_key, os, version, app_version, ipv4, ipv6, ranking) \n\t\t\t\t\t\tVALUES (?, ?, ?, ?, ?, ?, ?, ?, ?, ?, ?, 0) ON CONFLICT DO REPLACE"

abbrev pub nodes_delete_query : Bytes
nodes_delete_query = codes "DELETE FROM nodes WHERE peer_id = ?"

abbrev pub nodes_reset_ranking_query : Bytes
nodes_reset_ranking_query = codes "UPDATE nodes SET ranking = 0"

abbrev pub nodes_increment_ranking_query : Bytes
nodes_increment_ranking_query = codes "UPDATE nodes SET ranking = ranking + 1 WHERE peer_id = ?"

-- `GetByField` and the type assertion to string.
unfoldable pub text_field : Bytes → Document → Option Bytes
unfolding lookup
text_field name doc = elim (lookup name doc) [
  | none ↦ none
  | some value ↦ elim value [ text s ↦ some s | integer n ↦ none ]
]

-- `documentToNode`: the node and its encoded peer id; any missing or mistyped field is an error.
unfoldable pub document_to_node : Codec → Document → Option (Node × Bytes)
unfolding text_field
document_to_node codec doc = do
  peer_id ← text_field (codes "peer_id") doc
  api_key ← text_field (codes "api_key") doc
  user_id ← text_field (codes "user_id") doc
  country ← text_field (codes "country") doc
  region ← text_field (codes "region") doc
  city ← text_field (codes "city") doc
  os ← text_field (codes "os") doc
  version ← text_field (codes "version") doc
  app_version ← text_field (codes "app_version") doc
  ipv4 ← text_field (codes "ipv4") doc
  ipv6 ← text_field (codes "ipv6") doc
  id ← codec.decode peer_id
  some (
    record new_node {
      id = id;
      ipv4 = ipv4;
      ipv6 = ipv6;
      user_id = user_id;
      api_key = api_key;
      os = os;
      version = version;
      app_version = app_version;
      country = country;
      region = region;
      city = city;
    },
    peer_id,
  )

abbrev pub integer_field : Bytes → Document → Option ℕ
integer_field name doc = elim (lookup name doc) [
  | none ↦ none
  | some value ↦ elim value [ text s ↦ none | integer n ↦ some n ]
]

-- The callback of `GetPoolNodes`. `show` is Genji's text of a value.
unfoldable pub pool_node : Codec → (Value → Bytes) → Document → Option PoolNode
unfolding text_field
pool_node codec show doc = do
  name ← lookup (codes "name") doc
  pid ← text_field (codes "peer_id") doc
  id ← codec.decode pid
  ranking ← integer_field (codes "ranking") doc
  some (record { id = id; name = show name; ranking = ranking })

-- The first document of a query, as `QueryDocument` gives it; no document is an error.
abbrev pub first_document : Option (List Document) → Option Document
first_document none = none
first_document (some []) = none
first_document (some (doc ∷ docs)) = some doc

-- `result.Iterate` with a callback that fails on the first bad document.
unfoldable pub all_documents {ℓ} :
    {A : Type ℓ} → (Document → Option A) → List Document → Option (List A)
all_documents f [] = some []
all_documents f (doc ∷ docs) = do a ← f doc; as' ← all_documents f docs; some (a ∷ as')
