-- ===== src/Router/Genji/Pools.antt =====
-- pkg/router/genji.go: the pools' table, and the counts of nodes by pool and by country.
pub mod Statements
pub mod Stats
use coinsurf_proxy.Base.{
  ℕ, Bool, true, false, Option, none, some, List, [], ◌∷◌, ◌++◌, map, Bytes, codes, Assoc, lookup,
  insert, if◌then◌else◌,
}
use coinsurf_proxy.Auth.{Outcome, ok, err, panic, other}
use coinsurf_proxy.Node.{PoolNode}
use coinsurf_proxy.Router.{quoted}
use coinsurf_proxy.Router.Genji.Actions.{
  Action, after, ◌>>=◌, ◌>>◌, return, require, exec_pools, query_db, query_pools,
}
use coinsurf_proxy.Router.Genji.{
  Database, Cache, Codec, Genji, Value, text, integer, Document, text_field, all_documents,
  pools_insert_atomic_query, pools_delete_bulk_query, pools_purge_query, pool_node,
}

abbrev pub pools_select_all_query : Bytes
pools_select_all_query = codes "SELECT name, peer_id, ranking FROM pools ORDER BY ranking DESC"

abbrev pub pools_select_group_name_query : Bytes
pools_select_group_name_query = codes "SELECT COUNT(*) as nodes, name FROM pools GROUP BY name"

abbrev pub nodes_select_group_country_query : Bytes
nodes_select_group_country_query =
    codes "SELECT COUNT(*) as nodes, country FROM nodes GROUP BY country"

-- The loop of `PoolDelete` and of `PoolCleanNameNotIn` with its flag for the first row.
unfoldable pub write_rows : Bool → List Bytes → Bytes → Bytes
write_rows first_row [] buf = buf
write_rows first_row (v ∷ vs) buf =
    write_rows false vs ((if first_row then buf else buf ++ codes ",") ++ quoted v)

unfoldable pub pool_delete_statement : Bytes → List Bytes → Bytes
unfolding write_rows
pool_delete_statement name pids =
    let buf = pools_delete_bulk_query ++ (quoted name ++ codes " AND peer_id ") in
    elim pids [
      | [] ↦ write_rows true [] (buf ++ codes "IN(") ++ codes ")"
      | pid ∷ rest ↦ elim rest [
        | [] ↦ buf ++ (codes "= " ++ quoted pid)
        | pid' ∷ rest' ↦ write_rows true (pid ∷ pid' ∷ rest') (buf ++ codes "IN(") ++ codes ")"
      ]
    ]

unfoldable pub pool_clean_statement : List Bytes → Bytes
unfolding write_rows
pool_clean_statement names = elim names [
  | [] ↦ write_rows true [] (pools_purge_query ++ codes "NOT IN(") ++ codes ")"
  | name ∷ rest ↦ elim rest [
    | [] ↦ pools_purge_query ++ (codes "!= " ++ quoted name)
    | name' ∷ rest' ↦
        write_rows true (name ∷ name' ∷ rest') (pools_purge_query ++ codes "NOT IN(") ++ codes ")"
  ]
]

-- The callback of `GetPoolStats` and of `GetCountryStats`: a missing field ends the iteration with
-- an error, a field of another type skips the document.
unfoldable pub count_groups : Bytes → List Document → Assoc ℕ → Option (Assoc ℕ)
count_groups key [] nodes = some nodes
count_groups key (doc ∷ docs) nodes = elim (lookup key doc) [
  | none ↦ none
  | some name ↦ elim name [
    | integer n ↦ count_groups key docs nodes
    | text group ↦ elim (lookup (codes "nodes") doc) [
      | none ↦ none
      | some value ↦ elim value [
        | text s ↦ count_groups key docs nodes
        | integer n ↦ count_groups key docs (insert group n nodes)
      ]
    ]
  ]
]

module _ {d : Database} {c : Cache} where
  unfoldable pub pool_delete : Codec → Bytes → List Bytes → Action d c (Unit {0})
  unfolding pool_delete_statement
  pool_delete codec name [] = return tt
  pool_delete codec name (id ∷ ids) =
      exec_pools (pool_delete_statement name (map codec.encode (id ∷ ids))) []

  unfoldable pub pool_clean_name_not_in : List Bytes → Action d c (Unit {0})
  unfolding pool_clean_statement
  pool_clean_name_not_in [] = return tt
  pool_clean_name_not_in (name ∷ names) = exec_pools (pool_clean_statement (name ∷ names)) []

  -- Each failure is only logged.
  unfoldable pub pool_add : Codec → Bytes → List Bytes → Action d c (Unit {0})
  pool_add codec name [] g = (ok tt, g)
  pool_add codec name (id ∷ ids) g =
      let inserted =
        exec_pools pools_insert_atomic_query (text (codec.encode id) ∷ text name ∷ []) g in
      pool_add codec name ids inserted.1

  unfoldable pub get_pool_nodes : Codec → (Value → Bytes) → Action d c (List PoolNode)
  get_pool_nodes codec show = do
    docs ← query_pools pools_select_all_query []
    require (all_documents (pool_node codec show) docs)

  unfoldable pub get_pool_stats : Action d c (Assoc ℕ)
  get_pool_stats = do
    docs ← query_pools pools_select_group_name_query []
    require (count_groups (codes "name") docs [])

  unfoldable pub get_country_stats : Action d c (Assoc ℕ)
  get_country_stats = do
    docs ← query_db nodes_select_group_country_query []
    require (count_groups (codes "country") docs [])
