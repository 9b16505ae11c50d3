-- ===== src/Username/Targeting.antt =====
-- pkg/username.go, Parse: what an accepted user name says about the request's target.
use coinsurf_proxy.Base.{
  ℕ, ◌+◌, ◌%◌, ◌==◌, ◌≡◌, ◌≢◌, Bool, true, false, not, ◌&&◌, ◌||◌, ltb, length, Bool-cases, subst,
  ◌⊎◌, inl, inr, Option, none, some, is_none, List, [], ◌∷◌, Bytes, split, arith,
}
use coinsurf_proxy.Auth.{ok, >>=-eq-ok}
use coinsurf_proxy.Request.{Request}
use coinsurf_proxy.Username.Inversion.{parse-Accepted, ok_lem}
use coinsurf_proxy.Username.{
  LocationLookup, UsernameParser, Keyword, country, region, city, session, duration, ip, pool, ipv6,
  ipv4, unknown, keyword, takes_value, Parsing, param_at, assign, parse_param, parse_params,
  session_given, check_targeting, check_location, add_session, parse,
}

-- At least one of the five ways to choose an exit node is set.
abbrev pub IsTargeted : Request → Type 0
IsTargeted r =
    (r.country ≢ none) ⊎ (r.region ≢ none) ⊎ (r.city ≢ none) ⊎ (r.pool ≢ none) ⊎ (r.ip ≢ none)

-- With a country, the most precise place that goes with it is known to the lookup.
pub record IsLocated (l : LocationLookup) (r : Request) : Type 0 where
  pub by_country :
      (c : Bytes) → r.country ≡ some c → r.region ≡ none → r.city ≡ none → l.find_country c ≡ true
  pub by_city : (c t : Bytes) → r.country ≡ some c → r.city ≡ some t → l.find_city c t ≡ true
  pub by_region :
      (c g : Bytes)
      → r.country ≡ some c
      → r.region ≡ some g
      → r.city ≡ none
      → l.find_region c g ≡ true

check_targeting-IsTargeted : (r : Request) → check_targeting r ≡ ok r → IsTargeted r
unfolding check_targeting
check_targeting-IsTargeted r h = ground arith

check_location-IsLocated :
    (l : LocationLookup) (r : Request) → check_location l r ≡ ok r → IsLocated l r
unfolding check_location
check_location-IsLocated l r h = record {
  by_country = λ c a b d. ground arith;
  by_city = λ c t a b. ground arith;
  by_region = λ c g a b d. ground arith;
}

-- The request asks for no exit node yet, as the ones that the pool gives.
abbrev pub untargeted : Request → Bool
untargeted r =
    is_none r.country && is_none r.region && is_none r.city && is_none r.pool && is_none r.ip

abbrev pub is_target : Keyword → Bool
is_target country = true
is_target region = true
is_target city = true
is_target pool = true
is_target ip = true
is_target session = false
is_target duration = false
is_target ipv6 = false
is_target ipv4 = false
is_target unknown = false

-- One of the parameters that the loop reads as keys, which are those at even positions, is the
-- name of a target.
abbrev pub names_target : ℕ → List Bytes → Bool
names_target i [] = false
names_target i (p ∷ params) =
    (not ((i + 1) % 2 == 0) && is_target (keyword p)) || names_target (i + 1) params

assign-untargeted :
    (k : Keyword) (v : Bytes) (st st' : Parsing)
    → assign k v st ≡ ok st'
    → is_target k ≡ false
    → untargeted st.req ≡ true
    → untargeted st'.req ≡ true
unfolding assign
assign-untargeted k v st st' h other free = ground (arith, h, other, free)

parse_param-untargeted :
    (params : List Bytes) (i : ℕ) (k : Keyword) (st st' : Parsing)
    → parse_param params i k st ≡ ok st'
    → is_target k ≡ false
    → untargeted st.req ≡ true
    → untargeted st'.req ≡ true
unfolding parse_param
parse_param-untargeted params i k st st' h other free = elim (Bool-cases (takes_value k)) [
  | inl t ↦
      let (v, _, assigned) = >>=-eq-ok (param_at params i) _ (rw t at h) in
      assign-untargeted k v st st' assigned other free
  | inr f ↦ assign-untargeted k [] st st' (rw f at h) other free
]

parse_params-untargeted :
    (params : List Bytes) (i : ℕ) (rest : List Bytes) (st st' : Parsing)
    → parse_params params i rest st ≡ ok st'
    → names_target i rest ≡ false
    → untargeted st.req ≡ true
    → untargeted st'.req ≡ true
unfolding parse_params
parse_params-untargeted params i [] st st' h other free =
    subst (λ (x : Parsing). untargeted x.req ≡ true) (ok_lem st st' h) free
parse_params-untargeted params i (p ∷ rest) st st' h other free =
    elim (Bool-cases ((i + 1) % 2 == 0)) [
      | inl even ↦
          parse_params-untargeted params (i + 1) rest st st' (rw (even, parse_params) at h)
            (ground (arith, other)) free
      | inr odd ↦
          let (mid, here_, after) =
            >>=-eq-ok (parse_param params (i + 1) (keyword p) st) _ (rw (odd, parse_params) at h) in
          parse_params-untargeted params (i + 1) rest mid st' after (ground (arith, other)) (
            parse_param-untargeted params (i + 1) (keyword p) st mid here_
              (ground (arith, other, odd)) free)
    ]

check_targeting-untargeted : (r : Request) → check_targeting r ≡ ok r → untargeted r ≡ true → ⊥
unfolding check_targeting
check_targeting-untargeted r h free = ground (arith, h, free)

module _ (sum64 : Bytes → ℕ) (s : UsernameParser) where
  add_session-IsTargeted :
      (sid : Option Bytes) (r : Request) → IsTargeted r → IsTargeted (add_session sum64 s sid r)
  unfolding add_session
  add_session-IsTargeted sid r h = ground arith

  add_session-IsLocated :
      (sid : Option Bytes) (r : Request)
      → IsLocated s.location r
      → IsLocated s.location (add_session sum64 s sid r)
  unfolding add_session
  add_session-IsLocated sid r h = elim (Bool-cases (ltb 0 (length (session_given sid)))) [
    | inl e ↦
        rw (e, add_session)
          (record { by_country = h.by_country; by_city = h.by_city; by_region = h.by_region })
    | inr e ↦ rw (e, add_session) h
  ]

  -- For a request that asks for no exit node yet, an accepted user name has country, region, city,
  -- pool or ip among its keys, and the request has one of the five then. With a country, the lookup
  -- knows the city in it where one is given, else the region in it where one is given, else the
  -- country itself.
  pub parse-IsTargeted :
      (username : Bytes) (req r : Request)
      → untargeted req ≡ true
      → parse sum64 s username req ≡ ok r
      → (names_target 0 (split b'-' username) ≡ true) × IsTargeted r × IsLocated s.location r
  parse-IsTargeted username req r free h =
      let a = parse-Accepted sum64 s username req r h in
      (
        elim (Bool-cases (names_target 0 (split b'-' username))) [
          | inl named ↦ named
          | inr none_named ↦ absurd (
              check_targeting-untargeted a.st.req a.targeted (
                parse_params-untargeted (split b'-' username) 0 (split b'-' username)
                  (record { session_id = none; req = req }) a.st a.loop none_named free))
        ],
        subst IsTargeted a.finished (
            add_session-IsTargeted a.st.session_id a.st.req
              (check_targeting-IsTargeted a.st.req a.targeted)),
        subst (IsLocated s.location) a.finished (
            add_session-IsLocated a.st.session_id a.st.req
              (check_location-IsLocated s.location a.st.req a.located)),
      )
