-- ===== src/Router/Genji/Nodes/Removal.antt =====
-- pkg/router/genji.go, `Remove`: the sessions of a node that left.
use coinsurf_proxy.Base.{
  ◌≡◌, sym, ap, ◌∙◌, subst, Bool, true, false, none, some, List, [], ◌∷◌, Bytes, codes, All,
  is_empty, if◌then◌else◌,
}
use coinsurf_proxy.Auth.{Outcome, ok}
use coinsurf_proxy.Router.Genji.{
  Database, Cache, Codec, Genji, Value, text, Document, text_field, nodes_delete_query,
  pools_delete_node_query, sessions_select_by_peer_id, sessions_delete_by_peer_id,
}
use coinsurf_proxy.Router.Genji.Actions.{
  return, exec_db, exec_pools, query_db, require, after-eq-ok, require-eq-ok, with_db-eq-ok,
  with_pools-eq-ok,
}
use coinsurf_proxy.Router.Genji.Nodes.{forget_sessions, remove}

-- What a session cache promises of `Delete`: the key is gone, and no key comes back.
pub record Deletes (c : Cache) : Type 0 where
  pub gone : (k : Bytes) (s : c.Store) → c.get k (c.delete k s) ≡ none
  pub stays_gone : (j k : Bytes) (s : c.Store) → c.get j s ≡ none → c.get j (c.delete k s) ≡ none

module _ (c : Cache) where
  -- The document of a session names a session that the cache does not hold.
  abbrev pub IsForgotten : c.Store → Document → Type 0
  IsForgotten s doc =
      (k : Bytes) × (text_field (codes "session_id") doc ≡ some k) × (c.get k s ≡ none)

module _ {d : Database} {c : Cache} (laws : Deletes c) where
  forget_sessions-stays_gone :
      (docs : List Document) (g h : Genji d c) {u : Unit {0}} (j : Bytes)
      → forget_sessions docs g ≡ (ok u, h)
      → c.get j g.sessions ≡ none
      → c.get j h.sessions ≡ none
  unfolding forget_sessions
  forget_sessions-stays_gone [] g h j e missing =
      subst (λ (x : Genji d c). c.get j x.sessions ≡ none)
        (ap (λ (y : Outcome _ × Genji d c). y.1) e) missing
  forget_sessions-stays_gone (doc ∷ docs) g h j e missing =
      let (sid, g1, read, e1) = after-eq-ok (require (text_field (codes "session_id") doc) g) _ e in
      let (_, same) = require-eq-ok _ g read in
      forget_sessions-stays_gone docs _ h j e1 (
        laws.stays_gone j sid g1.sessions
          (subst (λ (x : Genji d c). c.get j x.sessions ≡ none) same missing))

  forget_sessions-All :
      (docs : List Document) (g h : Genji d c) {u : Unit {0}}
      → forget_sessions docs g ≡ (ok u, h)
      → All (IsForgotten c h.sessions) docs × (h.db ≡ g.db)
  unfolding forget_sessions
  forget_sessions-All [] g h e = (tt, ap (λ (y : Outcome (Unit {0}) × Genji d c). y.1.db) (sym e))
  forget_sessions-All (doc ∷ docs) g h e =
      let (sid, g1, read, e1) = after-eq-ok (require (text_field (codes "session_id") doc) g) _ e in
      let (named, same) = require-eq-ok _ g read in
      let (rest, kept) = forget_sessions-All docs _ h e1 in
      (
        (
          (sid, named, forget_sessions-stays_gone docs _ h sid e1 (laws.gone sid g1.sessions)),
          rest,
        ),
        kept ∙ sym (ap (λ (x : Genji d c). x.db) same),
      )

module _ {d : Database} {c : Cache} where
  unless_empty-sessions :
      (b : Bool) (args : List Value) (g h : Genji d c) {u : Unit {0}}
      → (if b then return tt else exec_db sessions_delete_by_peer_id args) g ≡ (ok u, h)
      → g.sessions ≡ h.sessions
  unless_empty-sessions true args g h e =
      ap (λ (y : Outcome (Unit {0}) × Genji d c). y.1.sessions) e
  unless_empty-sessions false args g h e =
      let (db, _, same) = with_db-eq-ok _ g h e in ap (λ (x : Genji d c). x.sessions) same

module _ {d : Database} {c : Cache} (codec : Codec) where
  -- After a successful `Remove` of a peer, the database has executed the statement that deletes its
  -- node, and of every session that it then lists for the peer the cached node is forgotten. (Given
  -- `Deletes c`.)
  pub remove-forgets :
      (id : Bytes) (g h : Genji d c) {u : Unit {0}}
      → Deletes c
      → remove codec id g ≡ (ok u, h)
      → (db : d.Db) × (rows : List Document) × (d.exec nodes_delete_query
            (text (codec.encode id) ∷ [])
            g.db
          ≡ some db)
        × (d.query sessions_select_by_peer_id (text (codec.encode id) ∷ []) db ≡ some rows)
        × All (IsForgotten c h.sessions) rows
  unfolding remove
  remove-forgets id g h laws e =
      let (_, g1, deleted, e1) =
        after-eq-ok (exec_db nodes_delete_query (text (codec.encode id) ∷ []) g) _ e in
      let (_, g2, cleaned, e2) =
        after-eq-ok (exec_pools pools_delete_node_query (text (codec.encode id) ∷ []) g1) _ e1 in
      let (rows, g3, listed, e3) =
        after-eq-ok (query_db sessions_select_by_peer_id (text (codec.encode id) ∷ []) g2) _ e2 in
      let (_, g4, forgotten, e4) = after-eq-ok (forget_sessions rows g3) _ e3 in
      let (db, executed, same1) = with_db-eq-ok _ g g1 deleted in
      let (pools, _, same2) = with_pools-eq-ok _ g1 g2 cleaned in
      let (found, same3) = require-eq-ok _ g2 listed in
      let db_same : g2.db ≡ db =
        sym (ap (λ (x : Genji d c). x.db) same1 ∙ ap (λ (x : Genji d c). x.db) same2) in
      (
        db,
        rows,
        executed,
        subst (λ x. d.query sessions_select_by_peer_id (text (codec.encode id) ∷ []) x ≡ some rows)
            db_same found,
        subst (λ x. All (IsForgotten c x) rows) (unless_empty-sessions (is_empty rows) _ g4 h e4)
            (forget_sessions-All laws rows g3 g4 forgotten).0,
      )
