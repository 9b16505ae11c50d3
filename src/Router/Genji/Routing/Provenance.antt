-- ===== src/Router/Genji/Routing/Provenance.antt =====
-- pkg/router/genji.go, Route: where the node of an answer comes from.
use coinsurf_proxy.Base.{
  ◌≡◌, sym, ap, ◌∙◌, subst, ◌⊎◌, inl, inr, ◌++◌, true, Option, none, some, List, [], ◌∷◌, Bytes,
  codes, some_inj, Bool-cases, Option-cases, arith,
}
use coinsurf_proxy.Auth.{Outcome, ok}
use coinsurf_proxy.Node.{Node}
use coinsurf_proxy.Request.{Request}
use coinsurf_proxy.Router.{itoa, nodes_select_query}
use coinsurf_proxy.Router.Genji.{
  Database, Cache, Codec, Genji, Value, text, Document, text_field, document_to_node,
  first_document, sessions_insert, pools_select_query, nodes_increment_ranking_query,
  pools_increment_ranking_query,
}
use coinsurf_proxy.Router.Genji.Actions.{
  value, require, exec_db, exec_pools, first_db, first_pools, after-eq-ok, require-eq-ok,
}
use coinsurf_proxy.Router.Genji.Routing.{
  has_session, target_query, find_session, node_of_pool, pick_from_pool, pick_from, pick_where,
  pick, store_session, save_session, route_new, route,
}

abbrev pub peer_query : Bytes
peer_query = nodes_select_query ++ codes " WHERE peer_id = ?"

module _ {d : Database} {c : Cache} (codec : Codec) where
  -- The node is read from the first document that answers the query.
  pub record IsAnswer (g : Genji d c) (sql : Bytes) (args : List Value) (n : Node) : Type 0 where
    pub doc : Document
    pub pid : Bytes
    pub asked : first_document (d.query sql args g.db) ≡ some doc
    pub read : document_to_node codec doc ≡ some (n, pid)

  -- The first entry of the pool names the node's peer.
  pub record IsPooled (g : Genji d c) (name : Bytes) (n : Node) : Type 0 where
    pub entry : Document
    pub peer : Bytes
    pub first : first_document (d.query pools_select_query (text name ∷ []) g.pools) ≡ some entry
    pub named : text_field (codes "peer_id") entry ≡ some peer
    pub answer : IsAnswer g peer_query (text peer ∷ []) n

  abbrev pub IsPicked : Option Bytes → Option (Bytes × List Value) → Genji d c → Node → Type 0
  IsPicked none query g n = (q : Bytes × List Value) × (query ≡ some q) × IsAnswer g q.0 q.1 n
  IsPicked (some name) query g n = IsPooled g name n

  -- The node is the first of the request's pool, or the first answer to the query of its targeting
  -- where it names no pool.
  abbrev pub IsListed : Request → Genji d c → Node → Type 0
  IsListed r = IsPicked r.pool (target_query r)

  -- The node is the one that the cache has for the request's session.
  abbrev pub IsSticky : Request → Genji d c → Node → Type 0
  IsSticky r g n = (has_session r ≡ true) × (find_session codec (itoa r.session_id) g ≡ some n)

  same_value :
      {A : Type 0} (a b : A) (g h : Genji d c)
      → ◌≡◌ {A = Outcome A × Genji d c} (ok a, g) (ok b, h)
      → a ≡ b
  same_value a b g h e = some_inj (ap (λ (y : Outcome _ × Genji d c). value y.0) e)

  -- The last steps of both choices return the node that was found.
  pick_from-IsPicked :
      (query : Option (Bytes × List Value)) (g h : Genji d c) (found : Node × Bytes)
      → pick_from codec query g ≡ (ok found, h)
      → IsPicked none query g found.0
  pick_from-IsPicked query g h found e =
      let (target, g1, given, e1) = after-eq-ok (require query g) _ e in
      let (doc, g2, asked, e2) = after-eq-ok (first_db target.0 target.1 g1) _ e1 in
      let ((n, pid), g3, read, e3) = after-eq-ok (require (document_to_node codec doc) g2) _ e2 in
      let (_, g4, _, e4) =
        after-eq-ok (exec_db nodes_increment_ranking_query (text pid ∷ []) g3) _ e3 in
      let (given', same) = require-eq-ok query g given in
      (
        target,
        given',
        record {
          doc = doc;
          pid = pid;
          asked =
              subst (λ (x : Genji d c). first_document (d.query target.0 target.1 x.db) ≡ some doc)
                (sym same) (require-eq-ok _ g1 asked).0;
          read =
              (require-eq-ok (document_to_node codec doc) g2 read).0
              ∙ ap (λ (x : Node). some (x, pid))
                  (ap (λ (x : Node × Bytes). x.0) (same_value _ found g4 h e4));
        },
      )

  node_of_pool-eq-ok :
      (pid : Bytes) (g h : Genji d c) (doc : Document)
      → node_of_pool codec pid g ≡ (ok doc, h)
      → (first_document (d.query peer_query (text pid ∷ []) g.db) ≡ some doc) × (g ≡ h)
  node_of_pool-eq-ok pid g h doc e =
      let o = first_document (d.query peer_query (text pid ∷ []) g.db) in
      elim (Option-cases o) [
        | inl absent ↦ absurd (
            ground (
              arith,
              ap (λ (y : Outcome Document × Genji d c). y.0) (rw (absent, node_of_pool) at e),
            ))
        | inr (found, there) ↦
            let same = rw (there, node_of_pool) at e in
            (
              there ∙ ap some (same_value found doc g h same),
              ap (λ (y : Outcome Document × Genji d c). y.1) same,
            )
      ]

  pick_from_pool-IsPooled :
      (name : Bytes) (g h : Genji d c) (found : Node × Bytes)
      → pick_from_pool codec name g ≡ (ok found, h)
      → IsPooled g name found.0
  unfolding pick_from_pool
  pick_from_pool-IsPooled name g h found e =
      let (entry, g1, first, e1) =
        after-eq-ok (first_pools pools_select_query (text name ∷ []) g) _ e in
      let (pid, g2, named, e2) =
        after-eq-ok (require (text_field (codes "peer_id") entry) g1) _ e1 in
      let (doc, g3, asked, e3) = after-eq-ok (node_of_pool codec pid g2) _ e2 in
      let (node, g4, read, e4) = after-eq-ok (require (document_to_node codec doc) g3) _ e3 in
      let (_, g5, _, e5) =
        after-eq-ok (exec_db nodes_increment_ranking_query (text pid ∷ []) g4) _ e4 in
      let (_, g6, _, e6) =
        after-eq-ok (exec_pools pools_increment_ranking_query (text pid ∷ []) g5) _ e5 in
      let same : g ≡ g2 = (require-eq-ok _ g first).1 ∙ (require-eq-ok _ g1 named).1 in
      record {
        entry = entry;
        peer = pid;
        first = (require-eq-ok _ g first).0;
        named = (require-eq-ok _ g1 named).0;
        answer = record {
          doc = doc;
          pid = node.1;
          asked =
              subst
                (λ (x : Genji d c).
                  first_document (d.query peer_query (text pid ∷ []) x.db) ≡ some doc)
                (sym same) (node_of_pool-eq-ok pid g2 g3 doc asked).0;
          read =
              (require-eq-ok (document_to_node codec doc) g3 read).0
              ∙ ap (λ (x : Node). some (x, node.1))
                  (ap (λ (x : Node × Bytes). x.0) (same_value (node.0, pid) found g6 h e6));
        };
      }

  pick_where-IsPicked :
      (pool : Option Bytes) (query : Option (Bytes × List Value)) (g h : Genji d c)
      (found : Node × Bytes)
      → pick_where codec pool (pick_from codec query) g ≡ (ok found, h)
      → IsPicked pool query g found.0
  pick_where-IsPicked none query g h found e = pick_from-IsPicked query g h found e
  pick_where-IsPicked (some name) query g h found e = pick_from_pool-IsPooled name g h found e

  save_session-node :
      (r : Request) (found : Node × Bytes) (g h : Genji d c) (n : Node)
      → save_session codec r found g ≡ (ok n, h)
      → found.0 ≡ n
  unfolding save_session
  save_session-node r found g h n e =
      let (_, g1, _, e1) =
        after-eq-ok (store_session codec (itoa r.session_id) found.0 r.session_duration g) _ e in
      let (_, g2, _, e2) =
        after-eq-ok (exec_db sessions_insert (text found.1 ∷ text (itoa r.session_id) ∷ []) g1) _
          e1 in
      same_value found.0 n g2 h e2

  route_new-IsListed :
      (r : Request) (g h : Genji d c) (n : Node) → route_new codec r g ≡ (ok n, h) → IsListed r g n
  unfolding route_new pick
  route_new-IsListed r g h n e =
      let (found, g1, picked, e1) = after-eq-ok (pick codec r g) _ e in
      let listed = pick_where-IsPicked r.pool (target_query r) g g1 found picked in
      elim (Bool-cases (has_session r)) [
        | inl s ↦ subst (IsListed r g) (save_session-node r found g1 h n (rw s at e1)) listed
        | inr s ↦ subst (IsListed r g) (same_value found.0 n g1 h (rw s at e1)) listed
      ]

  -- The node of a successful `Route` is the one that the cache has for the request's session, the
  -- first of the request's pool, or the first answer to the query of its targeting.
  pub route-IsListed :
      (r : Request) (g h : Genji d c) (n : Node)
      → route codec r g ≡ (ok n, h)
      → IsSticky r g n ⊎ IsListed r g n
  unfolding route
  route-IsListed r g h n e = elim (Bool-cases (has_session r)) [
    | inr s ↦ inr (route_new-IsListed r g h n (rw (s, route) at e))
    | inl s ↦ elim (Option-cases (find_session codec (itoa r.session_id) g)) [
      | inl missed ↦ inr (route_new-IsListed r g h n (rw (s, missed, route) at e))
      | inr (m, found) ↦ inl (s, found ∙ ap some (same_value m n g h (rw (s, found, route) at e)))
    ]
  ]
