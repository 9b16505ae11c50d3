-- ===== src/Router/Genji/Routing.antt =====
-- pkg/router/genji.go: the choice of a node for a request, and sticky sessions.
pub mod Sticky
pub mod Targets
pub mod Provenance
use coinsurf_proxy.Base.{
  ℕ, Bool, true, false, not, ◌&&◌, Option, none, some, List, [], ◌∷◌, ◌++◌, Bytes, codes, is_none,
  is_some, ◌==◌, if◌then◌else◌,
}
use coinsurf_proxy.Auth.{Outcome, Error, ok, err, panic, other}
use coinsurf_proxy.Node.{Node}
use coinsurf_proxy.Request.{Request, is_random_location}
use coinsurf_proxy.Router.{itoa, nodes_select_query}
use coinsurf_proxy.Router.Genji.Actions.{
  Action, after, ◌>>=◌, ◌>>◌, return, fail, require, exec_db, exec_pools, first_db, first_pools,
}
use coinsurf_proxy.Router.Genji.{
  Database, Cache, Codec, Genji, Value, text, Document, text_field, document_to_node,
  sessions_insert, sessions_delete_by_session_id, pools_select_query, pools_delete_node_query,
  pools_increment_ranking_query, nodes_increment_ranking_query,
}

-- The SQL text and arguments that `pick` builds for a request without a pool; `none` is its
-- "invalid request targeting".
unfoldable pub target_query : Request → Option (Bytes × List Value)
target_query r =
    if is_random_location r
    then some (nodes_select_query ++ codes " ORDER BY ranking ASC LIMIT 1", [])
    else elim r.ip [
      | some ip ↦ some (nodes_select_query ++ codes " WHERE ipv4 = ?", text ip ∷ [])
      | none ↦ elim r.country [
        | none ↦ none
        | some country ↦ elim r.region [
          | some region ↦ some (
            nodes_select_query
                ++ codes " WHERE country = ? AND region = ? ORDER BY ranking ASC LIMIT 1",
            text country ∷ text region ∷ [],
          )
          | none ↦ elim r.city [
            | some city ↦ some (
              nodes_select_query
                  ++ codes " WHERE country = ? AND city = ? ORDER BY ranking ASC LIMIT 1",
              text country ∷ text city ∷ [],
            )
            | none ↦ some (
              nodes_select_query ++ codes " WHERE country = ? ORDER BY ranking ASC LIMIT 1",
              text country ∷ [],
            )
          ]
        ]
      ]
    ]

-- The request asks for a sticky session.
abbrev pub has_session : Request → Bool
has_session r = not (r.session_id == 0) && is_none r.ip

module _ {d : Database} {c : Cache} where
  -- `onSessionExpired`; a failure is only logged.
  unfoldable pub on_session_expired : Bytes → Genji d c → Genji d c
  on_session_expired key g = (exec_db sessions_delete_by_session_id (text key ∷ []) g).1

module _ {d : Database} {c : Cache} (codec : Codec) where
  unfoldable pub find_session : Bytes → Genji d c → Option Node
  find_session session_id g = elim (c.get session_id g.sessions) [
    | none ↦ none
    | some bytes ↦ codec.unmarshal bytes
  ]

  -- The clean-up of a pool entry whose node is gone runs a statement with a `?` and no argument,
  -- and ignores its result; the error returned is the query's.
  abbrev pub clean_pool : Genji d c → Genji d c
  clean_pool g = (exec_pools pools_delete_node_query [] g).1

  abbrev pub node_of_pool : Bytes → Action d c Document
  node_of_pool pid g =
      elim (first_db (nodes_select_query ++ codes " WHERE peer_id = ?") (text pid ∷ []) g).0 [
        | ok doc ↦ (ok doc, g)
        | err e ↦ (err e, clean_pool g)
        | panic ↦ (panic, g)
      ]

  unfoldable pub pick_from_pool : Bytes → Action d c (Node × Bytes)
  pick_from_pool name = do
    entry ← first_pools pools_select_query (text name ∷ [])
    pid ← require (text_field (codes "peer_id") entry)
    doc ← node_of_pool pid
    found ← require (document_to_node codec doc)
    exec_db nodes_increment_ranking_query (text pid ∷ [])
    exec_pools pools_increment_ranking_query (text pid ∷ [])
    return (found.0, pid)

  abbrev pub pick_from : Option (Bytes × List Value) → Action d c (Node × Bytes)
  pick_from query = do
    target ← require query
    doc ← first_db target.0 target.1
    found ← require (document_to_node codec doc)
    exec_db nodes_increment_ranking_query (text found.1 ∷ [])
    return found

  abbrev pub pick_where : Option Bytes → Action d c (Node × Bytes) → Action d c (Node × Bytes)
  pick_where none target = target
  pick_where (some name) target = pick_from_pool name

  unfoldable pub pick : Request → Action d c (Node × Bytes)
  pick r = pick_where r.pool (pick_from (target_query r))

  abbrev pub with_sessions : Outcome (Unit {0}) × c.Store → Action d c (Unit {0})
  with_sessions (o, store) g = (o, record g { sessions = store })

  abbrev pub store_bytes : Bytes → ℕ → Bytes → Action d c (Unit {0})
  store_bytes session_id duration bytes g =
      with_sessions (c.set_with_expire session_id bytes duration g.sessions) g

  abbrev pub store_session : Bytes → Node → ℕ → Action d c (Unit {0})
  store_session session_id node duration =
      require (codec.marshal node) >>= store_bytes session_id duration

  -- The second half of `Route`: the session is stored in the cache and then in the database.
  unfoldable pub save_session : Request → Node × Bytes → Action d c Node
  save_session r found = do
    store_session (itoa r.session_id) found.0 r.session_duration
    exec_db sessions_insert (text found.1 ∷ text (itoa r.session_id) ∷ [])
    return found.0

  -- What `Route` does where no stored session serves the request.
  unfoldable pub route_new : Request → Action d c Node
  route_new r = pick r >>= λ found. if has_session r then save_session r found else return found.0

  unfoldable pub route : Request → Action d c Node
  route r g =
      if has_session r
      then elim (find_session (itoa r.session_id) g) [
        | some node ↦ (ok node, g)
        | none ↦ route_new r g
      ]
      else route_new r g
