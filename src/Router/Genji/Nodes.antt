-- ===== src/Router/Genji/Nodes.antt =====
-- pkg/router/genji.go: nodes are added, removed, counted and listed.
pub mod Removal
use coinsurf_proxy.Base.{
  ℕ, Bool, true, false, Option, none, some, List, [], ◌∷◌, ◌++◌, Bytes, codes, lookup, length, ltb,
  is_empty, if◌then◌else◌,
}
use coinsurf_proxy.Auth.{Outcome, Error, ok, err, panic, other}
use coinsurf_proxy.Node.{Node}
use coinsurf_proxy.Router.{
  Filter, apply_all, new_query, query_builder, nodes_select_query, nodes_count_query,
}
use coinsurf_proxy.Router.Genji.Actions.{
  Action, after, ◌>>=◌, ◌>>◌, return, require, exec_db, exec_pools, query_db, first_db,
}
use coinsurf_proxy.Router.Genji.{
  Database, Cache, Codec, Genji, Value, text, integer, Document, text_field, integer_field,
  document_to_node, all_documents, nodes_insert_query, nodes_delete_query,
  nodes_reset_ranking_query, pools_reset_ranking_query, pools_delete_node_query,
  sessions_select_by_peer_id, sessions_delete_by_peer_id,
}

abbrev pub node_of : Codec → Document → Option Node
node_of codec doc = elim (document_to_node codec doc) [ none ↦ none | some found ↦ some found.0 ]

-- The query of `Count` and `GetAll`.
unfoldable pub filtered_query : Bytes → List Filter → Bool → Bytes
filtered_query base filters count_query =
    if ltb 0 (length filters)
    then query_builder base (apply_all filters new_query) count_query
    else base

module _ {d : Database} {c : Cache} where
  unfoldable pub count : List Filter → Action d c ℕ
  count filters = do
    doc ← first_db (filtered_query nodes_count_query filters true) []
    require (integer_field (codes "nodes") doc)

  -- A tick of the goroutine that `NewGenji` starts: each failure is only logged.
  unfoldable pub reset_rankings : Genji d c → Genji d c
  reset_rankings g =
      let g' = (exec_db nodes_reset_ranking_query [] g).1 in
      (exec_pools pools_reset_ranking_query [] g').1

  abbrev pub forget : Bytes → Action d c (Unit {0})
  forget session_id g = (ok tt, record g { sessions = c.delete session_id g.sessions })

  -- The callback of `Remove`'s `Iterate`.
  unfoldable pub forget_sessions : List Document → Action d c (Unit {0})
  forget_sessions [] = return tt
  forget_sessions (doc ∷ docs) = do
    session_id ← require (text_field (codes "session_id") doc)
    forget session_id
    forget_sessions docs

  module _ (codec : Codec) where
    unfoldable pub add : Node → Action d c (Unit {0})
    add n = exec_db nodes_insert_query (
        text (codec.encode n.id)
        ∷ text n.country
        ∷ text n.region
        ∷ text n.city
        ∷ text n.user_id
        ∷ text n.api_key
        ∷ text n.os
        ∷ text n.version
        ∷ text n.app_version
        ∷ text n.ipv4
        ∷ text n.ipv6
        ∷ [])

    unfoldable pub remove : Bytes → Action d c (Unit {0})
    remove id = do
      let pid = text (codec.encode id)
      exec_db nodes_delete_query (pid ∷ [])
      exec_pools pools_delete_node_query (pid ∷ [])
      rows ← query_db sessions_select_by_peer_id (pid ∷ [])
      forget_sessions rows
      if is_empty rows then return tt else exec_db sessions_delete_by_peer_id (pid ∷ [])

    unfoldable pub get_by_ip : Bytes → Action d c Node
    get_by_ip ip = do
      doc ← first_db (nodes_select_query ++ codes " WHERE ipv4 = ? LIMIT 1") (text ip ∷ [])
      found ← require (document_to_node codec doc)
      return found.0

    unfoldable pub get_all : List Filter → Action d c (List Node)
    get_all filters = do
      docs ← query_db (filtered_query nodes_select_query filters false) []
      require (all_documents (node_of codec) docs)
