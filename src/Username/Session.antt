-- ===== src/Username/Session.antt =====
-- pkg/username.go, Parse: the sticky session of an accepted user name.
use coinsurf_proxy.Base.{
  ℕ, ◌+◌, ◌%◌, ◌<◌, ◌≡◌, refl, sym, subst, ap, ◌∙◌, inl, inr, true, Option, List, [], ◌∷◌, ◌++◌,
  Bytes, split, length, ◌==◌, sle64, slt64, Bool-cases, lt→ltb, arith,
}
use coinsurf_proxy.Auth.{ok, >>=-eq-ok}
use coinsurf_proxy.Request.{Request}
use coinsurf_proxy.Username.Inversion.{parse-Accepted, parsed, ok_lem}
use coinsurf_proxy.Username.{
  UsernameParser, Keyword, Parsing, keyword, takes_value, param_at, assign, session_given, written,
  default_duration, with_session, parse_param, parse_params, add_session, parse,
}

-- The user name has a non-empty session parameter.
abbrev pub HasSession : Option Bytes → Type 0
HasSession sid = 0 < length (session_given sid)

default_duration_bounds :
    (s : UsernameParser) (d : ℕ)
    → slt64 0 s.session_duration ≡ true
    → sle64 s.session_duration s.session_duration_max ≡ true
    → (slt64 0 (default_duration s d) ≡ true)
      × (sle64 (default_duration s d) s.session_duration_max ≡ true)
default_duration_bounds s d pos le = ground arith

-- What the loop and the checks leave of the request that they are given.
pub record IsKept (r r' : Request) : Type 0 where
  pub password : r'.password ≡ r.password
  pub user_id : r'.user_id ≡ r.user_id
  pub permissions : r'.permissions ≡ r.permissions
  pub socks5 : r'.socks5 ≡ r.socks5
  pub session_id : r'.session_id ≡ r.session_id

assign-IsKept :
    (k : Keyword) (v : Bytes) (st st' : Parsing) → assign k v st ≡ ok st' → IsKept st.req st'.req
unfolding assign
assign-IsKept Keyword.country v st st' h = ground arith
assign-IsKept _ v st st' h = ground arith

IsKept-refl : (r : Request) → IsKept r r
IsKept-refl r = record {
  password = refl;
  user_id = refl;
  permissions = refl;
  socks5 = refl;
  session_id = refl;
}

IsKept-trans : {a b c : Request} → IsKept a b → IsKept b c → IsKept a c
IsKept-trans h k = record {
  password = k.password ∙ h.password;
  user_id = k.user_id ∙ h.user_id;
  permissions = k.permissions ∙ h.permissions;
  socks5 = k.socks5 ∙ h.socks5;
  session_id = k.session_id ∙ h.session_id;
}

parse_param-IsKept :
    (params : List Bytes) (i : ℕ) (k : Keyword) (st st' : Parsing)
    → parse_param params i k st ≡ ok st'
    → IsKept st.req st'.req
unfolding parse_param
parse_param-IsKept params i k st st' h = elim (Bool-cases (takes_value k)) [
  | inl t ↦
      let (v, _, e) = >>=-eq-ok (param_at params i) (λ v. assign k v st) (rw t at h) in
      assign-IsKept k v st st' e
  | inr f ↦ assign-IsKept k [] st st' (rw f at h)
]

parse_params-IsKept :
    (params : List Bytes) (i : ℕ) (rest : List Bytes) (st st' : Parsing)
    → parse_params params i rest st ≡ ok st'
    → IsKept st.req st'.req
unfolding parse_params
parse_params-IsKept params i [] st st' h =
    subst (λ x. IsKept st.req x.req) (ok_lem st st' h) (IsKept-refl st.req)
parse_params-IsKept params i (p ∷ rest) st st' h = elim (Bool-cases ((i + 1) % 2 == 0)) [
  | inl skip ↦ parse_params-IsKept params (i + 1) rest st st' (rw (skip, parse_params) at h)
  | inr read ↦
      let (mid, first, later) =
        >>=-eq-ok (parse_param params (i + 1) (keyword p) st) _ (rw (read, parse_params) at h) in
      IsKept-trans (parse_param-IsKept params (i + 1) (keyword p) st mid first)
        (parse_params-IsKept params (i + 1) rest mid st' later)
]

module _ (sum64 : Bytes → ℕ) (s : UsernameParser) where
  -- What a session adds: the id is the hash of country, pool, session name and password, and
  -- nothing else.
  add_session_lem :
      (sid : Option Bytes) (r : Request)
      → HasSession sid
      → ((add_session sum64 s sid r).session_id
          ≡ sum64
              (written r.country ++ (written r.pool ++ (session_given sid ++ written r.password))))
        × ((add_session sum64 s sid r).session_duration ≡ default_duration s r.session_duration)
        × ((add_session sum64 s sid r).country ≡ r.country)
        × ((add_session sum64 s sid r).pool ≡ r.pool)
  unfolding add_session with_session
  add_session_lem sid r h = rw (lt→ltb _ _ h, add_session) (refl, refl, refl, refl)

  module _ (username : Bytes) (req r : Request) (st : Parsing) (loop : parsed req username ≡ ok st)
      (accepted : parse sum64 s username req ≡ ok r) where
    finished : add_session sum64 s st.session_id st.req ≡ r
    finished =
        let a = parse-Accepted sum64 s username req r accepted in
        subst (λ (x : Parsing). add_session sum64 s x.session_id x.req ≡ r)
          (ok_lem a.st st (sym a.loop ∙ loop)) a.finished

    kept : IsKept req st.req
    kept = parse_params-IsKept (split b'-' username) 0 (split b'-' username) _ st loop

    -- A user name with a session gets the hash of its country, pool, session name and the
    -- request's password as session id, whatever its region, city, duration and address family.
    pub parse-session_id :
        HasSession st.session_id
        → r.session_id
          ≡ sum64 (
              written r.country
              ++ (written r.pool ++ (session_given st.session_id ++ written req.password)))
    parse-session_id given =
        let (id, _, country, pool) = add_session_lem st.session_id st.req given in
        subst
          (λ (x : Request).
            x.session_id
            ≡ sum64 (
                written x.country
                ++ (written x.pool ++ (session_given st.session_id ++ written req.password))))
          finished (rw (country, pool, ← kept.password) id)

    -- With a session its lifetime is positive and at most the configured maximum, also where the
    -- user's number of seconds overflows an int64, if the default lifetime is.
    pub parse-session_duration :
        HasSession st.session_id
        → slt64 0 s.session_duration ≡ true
        → sle64 s.session_duration s.session_duration_max ≡ true
        → (slt64 0 r.session_duration ≡ true)
          × (sle64 r.session_duration s.session_duration_max ≡ true)
    parse-session_duration given pos le =
        let (_, duration, _, _) = add_session_lem st.session_id st.req given in
        subst (λ d. (slt64 0 d ≡ true) × (sle64 d s.session_duration_max ≡ true))
          (sym duration ∙ ap (λ (x : Request). x.session_duration) finished)
          (default_duration_bounds s st.req.session_duration pos le)
