-- ===== src/Username/Keeps.antt =====
-- pkg/username.go, Parse: the fields of a request that no user name can write.
use coinsurf_proxy.Base.{
  ℕ, ◌+◌, ◌%◌, ◌≡◌, sym, ap, ◌∙◌, inl, inr, Bool, Option, none, List, [], ◌∷◌, Bytes, split, ◌==◌,
  Bool-cases, arith,
}
use coinsurf_proxy.Auth.{Permission, ok, >>=-eq-ok}
use coinsurf_proxy.Request.{Request}
use coinsurf_proxy.Username.{
  UsernameParser, Parsing, Keyword, keyword, takes_value, param_at, assign, parse_param,
  parse_params, add_session, parse,
}
use coinsurf_proxy.Username.Inversion.{parse-Accepted, ok_lem}

-- The user, the permissions, the node and its peer, the password and the protocol.
pub record Identity : Type 0 where
  pub user_id : Bytes
  pub permissions : Option (List Permission)
  pub node_id : Bytes
  pub peer_id : Bytes
  pub password : Option Bytes
  pub socks5 : Bool

abbrev pub identity : Request → Identity
identity r = record {
  user_id = r.user_id;
  permissions = r.permissions;
  node_id = r.node_id;
  peer_id = r.peer_id;
  password = r.password;
  socks5 = r.socks5;
}

assign-identity :
    (k : Keyword) (v : Bytes) (st : Parsing) {st' : Parsing}
    → assign k v st ≡ ok st'
    → identity (st'.req) ≡ identity st.req
unfolding assign
assign-identity k v st h = ground (arith, h)

parse_param-identity :
    (params : List Bytes) (i : ℕ) (k : Keyword) (st : Parsing) {st' : Parsing}
    → parse_param params i k st ≡ ok st'
    → identity (st'.req) ≡ identity st.req
unfolding parse_param
parse_param-identity params i k st h = elim (Bool-cases (takes_value k)) [
  | inl t ↦
      let (v, _, assigned) = >>=-eq-ok (param_at params i) _ (rw t at h) in
      assign-identity k v st assigned
  | inr f ↦ assign-identity k [] st (rw f at h)
]

parse_params-identity :
    (params : List Bytes) (i : ℕ) (rest : List Bytes) (st : Parsing) {st' : Parsing}
    → parse_params params i rest st ≡ ok st'
    → identity (st'.req) ≡ identity st.req
unfolding parse_params
parse_params-identity params i [] st h = ap (λ (x : Parsing). identity x.req) (sym (ok_lem st _ h))
parse_params-identity params i (p ∷ rest) st h = elim (Bool-cases ((i + 1) % 2 == 0)) [
  | inl even ↦ parse_params-identity params (i + 1) rest st (rw (even, parse_params) at h)
  | inr odd ↦
      let (mid, here, after) =
        >>=-eq-ok (parse_param params (i + 1) (keyword p) st) _ (rw (odd, parse_params) at h) in
      parse_params-identity params (i + 1) rest mid after
      ∙ parse_param-identity params (i + 1) (keyword p) st here
]

add_session-identity :
    (sum64 : Bytes → ℕ) (s : UsernameParser) (sid : Option Bytes) (r : Request)
    → identity (add_session sum64 s sid r) ≡ identity r
unfolding add_session
add_session-identity sum64 s sid r = ground arith

-- An accepted user name leaves the user, the permissions, the node, its peer, the password and the
-- protocol of the request as they were.
pub parse-identity :
    (sum64 : Bytes → ℕ) (s : UsernameParser) (username : Bytes) (req r : Request)
    → parse sum64 s username req ≡ ok r
    → identity r ≡ identity req
parse-identity sum64 s username req r h =
    let a = parse-Accepted sum64 s username req r h in
    ap identity (sym a.finished)
    ∙ (add_session-identity sum64 s a.st.session_id (a.st.req)
        ∙ parse_params-identity (split b'-' username) 0 (split b'-' username)
            (record { session_id = none; req = req }) a.loop)
