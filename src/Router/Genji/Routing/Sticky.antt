-- ===== src/Router/Genji/Routing/Sticky.antt =====
-- pkg/router/genji.go, `Route`: requests with a session.
use coinsurf_proxy.Base.{
  ℕ, ◌≡◌, sym, ap, ◌∙◌, subst, inl, inr, true, none, some, some_inj, [], ◌∷◌, Bytes, Option-cases,
}
use coinsurf_proxy.Auth.{Outcome, ok}
use coinsurf_proxy.Node.{Node}
use coinsurf_proxy.Request.{Request}
use coinsurf_proxy.Router.{itoa}
use coinsurf_proxy.Router.Genji.Actions.{
  require, require-eq-ok, exec_db, after-eq-ok, value, with_db-eq-ok,
}
use coinsurf_proxy.Router.Genji.{Database, Cache, Codec, Genji, sessions_insert, text}
use coinsurf_proxy.Router.Genji.Routing.{
  find_session, pick, has_session, with_sessions, store_session, save_session, route_new, route,
}

-- The node without the names that it caches, which are not part of its JSON.
abbrev pub plain : Node → Node
plain n = record n { short_id = []; full_id = [] }

-- What the session cache and the JSON code promise: a node that was set is found, and is read back
-- from its JSON, but for the cached names.
pub record KeepsSessions (c : Cache) (codec : Codec) : Type 0 where
  pub get_set :
      (k v : Bytes) (m : Node) (n : ℕ) (s s' : c.Store)
      → codec.marshal m ≡ some v
      → c.set_with_expire k v n s ≡ (ok tt, s')
      → c.get k s' ≡ some v
  pub unmarshal_marshal :
      (n : Node) (v : Bytes)
      → codec.marshal n ≡ some v
      → (m : Node) × (codec.unmarshal v ≡ some m) × (plain m ≡ plain n)

module _ {d : Database} {c : Cache} where
  ok_value :
      (a b : Node) (g h : Genji d c)
      → ◌≡◌ {A = Outcome Node × Genji d c} (ok a, g) (ok b, h)
      → a ≡ b
  ok_value a b g h e = some_inj (ap (λ (y : Outcome Node × Genji d c). value y.0) e)

-- The bytes of the node are what the cache was given for the session.
abbrev IsStored : (c : Cache) → Codec → Request → Node → c.Store → c.Store → Type 0
IsStored c codec r n before after =
    (v : Bytes) × (codec.marshal n ≡ some v)
    × (c.set_with_expire (itoa r.session_id) v r.session_duration before ≡ (ok tt, after))

module _ {d : Database} {c : Cache} (codec : Codec) where
  find_session_lem :
      (k v : Bytes) (g : Genji d c)
      → c.get k g.sessions ≡ some v
      → find_session codec k g ≡ codec.unmarshal v
  unfolding find_session
  find_session_lem k v g h = rw (h, find_session)

  -- A stored session is served from the cache, and nothing changes: no ranking either.
  route_found :
      (r : Request) (g : Genji d c) (n : Node)
      → has_session r ≡ true
      → find_session codec (itoa r.session_id) g ≡ some n
      → route codec r g ≡ (ok n, g)
  unfolding route
  route_found r g n s h = rw (s, route) (rw (h, route))

  route_missed :
      (r : Request) (g : Genji d c)
      → has_session r ≡ true
      → find_session codec (itoa r.session_id) g ≡ none
      → route codec r g ≡ route_new codec r g
  unfolding route
  route_missed r g s h = rw (s, route) (rw (h, route))

  with_sessions-eq-ok :
      (o : Outcome (Unit {0}) × c.Store) (g h : Genji d c)
      → with_sessions codec o g ≡ (ok tt, h)
      → o ≡ (ok tt, h.sessions)
  with_sessions-eq-ok o g h e = ap (λ (y : Outcome (Unit {0}) × Genji d c). (y.0, y.1.sessions)) e

  store_session-IsStored :
      (r : Request) (n : Node) (g h : Genji d c)
      → store_session codec (itoa r.session_id) n r.session_duration g ≡ (ok tt, h)
      → IsStored c codec r n g.sessions h.sessions
  store_session-IsStored r n g h e =
      let (v, g1, written, e1) = after-eq-ok (require (codec.marshal n) g) _ e in
      let (given, same) = require-eq-ok (codec.marshal n) g written in
      (
        v,
        given,
        ap
              (λ (x : Genji d c).
                c.set_with_expire (itoa r.session_id) v r.session_duration x.sessions)
              same
            ∙ with_sessions-eq-ok _ g1 h e1,
      )

  save_session-stores :
      (r : Request) (found : Node × Bytes) (g h : Genji d c) (n : Node)
      → save_session codec r found g ≡ (ok n, h)
      → IsStored c codec r n g.sessions h.sessions
  unfolding save_session
  save_session-stores r (node, pid) g h n e =
      let (_, g1, stored, e1) =
        after-eq-ok (store_session codec (itoa r.session_id) node r.session_duration g) _ e in
      let (_, g2, inserted, e2) =
        after-eq-ok (exec_db sessions_insert (text pid ∷ text (itoa r.session_id) ∷ []) g1) _ e1 in
      let (db, _, same) = with_db-eq-ok _ g1 g2 inserted in
      let kept : g1.sessions ≡ g2.sessions = ap (λ (x : Genji d c). x.sessions) same in
      let last : g2.sessions ≡ h.sessions = ap (λ (y : Outcome _ × Genji d c). y.1.sessions) e2 in
      subst (λ s. IsStored c codec r n g.sessions s) (kept ∙ last)
        (subst (λ m. IsStored c codec r m g.sessions g1.sessions) (ok_value node n g2 h e2)
          (store_session-IsStored r node g g1 stored))

  route_new-stores :
      (r : Request) (g h : Genji d c) (n : Node)
      → has_session r ≡ true
      → route_new codec r g ≡ (ok n, h)
      → (s : c.Store) × IsStored c codec r n s h.sessions
  unfolding route_new
  route_new-stores r g h n s e =
      let (found, g1, _, e1) = after-eq-ok (pick codec r g) _ e in
      let saved : save_session codec r found g1 ≡ (ok n, h) = rw s at e1 in
      (g1.sessions, save_session-stores r found g1 h n saved)

  -- A request with a session that was routed to a node leaves that node stored under the session.
  route-stores :
      (r : Request) (g h : Genji d c) (n : Node)
      → KeepsSessions c codec
      → has_session r ≡ true
      → route codec r g ≡ (ok n, h)
      → (m : Node) × (find_session codec (itoa r.session_id) h ≡ some m) × (plain m ≡ plain n)
  route-stores r g h n laws s e = elim (Option-cases (find_session codec (itoa r.session_id) g)) [
    | inl missed ↦
        let (store, (v, written, set)) =
          route_new-stores r g h n s (sym (route_missed r g s missed) ∙ e) in
        let (m, read, same) = laws.unmarshal_marshal n v written in
        (
          m,
          find_session_lem (itoa r.session_id) v h
                (laws.get_set _ v n r.session_duration store h.sessions written set)
              ∙ read,
          same,
        )
    | inr (m, found) ↦
        let both = sym (route_found r g m s found) ∙ e in
        let state : g ≡ h = ap (λ (y : Outcome Node × Genji d c). y.1) both in
        (
          m,
          subst (λ x. find_session codec (itoa r.session_id) x ≡ some m) state found,
          ap plain (ok_value m n g h both),
        )
  ]

  -- Once a request with a session was routed to a node, every request with the same session id
  -- that names no IP is routed to the same node while the cache keeps the session, whatever
  -- country, region, city or pool it asks for; the router does not change and no ranking is
  -- incremented. (Given `KeepsSessions c codec`; the nodes are equal but for their cached names.)
  pub route_sticky :
      (r r' : Request) (g h : Genji d c) (n : Node)
      → KeepsSessions c codec
      → has_session r ≡ true
      → has_session r' ≡ true
      → r'.session_id ≡ r.session_id
      → route codec r g ≡ (ok n, h)
      → (m : Node) × (route codec r' h ≡ (ok m, h)) × (plain m ≡ plain n)
  route_sticky r r' g h n laws s s' same e =
      let (m, found, equal) = route-stores r g h n laws s e in
      (m, route_found r' h m s' (rw same found), equal)
