-- ===== src/Username/Panics.antt =====
-- pkg/username.go, Parse: which user names make it index past the end of its parameters.
use coinsurf_proxy.Base.{
  ℕ, suc, ◌+◌, ◌%◌, ◌≤◌, ◌≡◌, ◌≢◌, sym, subst, ap, ◌∙◌, inl, inr, true, none, List, [], ◌∷◌, ◌++◌,
  Bytes, split, length, get_elem?, get_elem?-length, length-append, ◌==◌, Bool-cases, arith,
}
use coinsurf_proxy.Auth.{ok, panic, ◌>>=◌, >>=-eq-panic, >>=_through}
use coinsurf_proxy.Request.{Request}
use coinsurf_proxy.Username.{
  LocationLookup, UsernameParser, Keyword, Parsing, keyword, takes_value, param_at, assign,
  parse_param, parse_params, check_targeting, check_location, parse,
}

-- At an even index, the last parameter is a key that wants a value.
abbrev pub HasDanglingKey : ℕ → List Bytes → Type 0
HasDanglingKey i [] = ⊥
HasDanglingKey i (p ∷ []) = (i % 2 ≡ 0) × (takes_value (keyword p) ≡ true)
HasDanglingKey i (p ∷ q ∷ ps) = HasDanglingKey (i + 1) (q ∷ ps)

assign-ne-panic : (k : Keyword) (v : Bytes) (st : Parsing) → assign k v st ≢ panic
unfolding assign
assign-ne-panic Keyword.country v st = ground arith
assign-ne-panic _ v st = ground arith

param_at-eq-panic :
    (params : List Bytes) (i : ℕ) → param_at params i ≡ panic → get_elem? params i ≡ none
unfolding param_at
param_at-eq-panic params i h = ground arith

-- A single key panics only where it wants a value and there is none.
parse_param-eq-panic :
    (params : List Bytes) (i : ℕ) (k : Keyword) (st : Parsing)
    → parse_param params i k st ≡ panic
    → (takes_value k ≡ true) × (get_elem? params i ≡ none)
unfolding parse_param
parse_param-eq-panic params i k st h = elim (Bool-cases (takes_value k)) [
  | inl t ↦ elim (>>=-eq-panic (param_at params i) (λ v. assign k v st) (rw t at h)) [
    | inl e ↦ (t, param_at-eq-panic params i e)
    | inr (v, _, e) ↦ absurd (assign-ne-panic k v st e)
  ]
  | inr f ↦ absurd (assign-ne-panic k [] st (rw f at h))
]

-- `rest` is what stands in `params` from index `i` on.
pub record IsRest (params : List Bytes) (i : ℕ) (rest : List Bytes) : Type 0 where
  pub at : (n : ℕ) → get_elem? params (i + n) ≡ get_elem? rest n
  pub total : i + length rest ≡ length params

pub IsRest-all : (params : List Bytes) → IsRest params 0 params
IsRest-all params = record { at = λ n. ap (get_elem? params) (omega arith); total = omega arith }

pub IsRest-tail :
    (params : List Bytes) (i : ℕ) (p : Bytes) (rest : List Bytes)
    → IsRest params i (p ∷ rest)
    → IsRest params (i + 1) rest
IsRest-tail params i p rest v = record {
  at = λ n. ap (get_elem? params) (omega arith) ∙ v.at (suc n);
  total = omega (arith, v.total);
}

HasDanglingKey-cons :
    (i : ℕ) (p : Bytes) (rest : List Bytes)
    → HasDanglingKey (i + 1) rest
    → HasDanglingKey i (p ∷ rest)
HasDanglingKey-cons i p [] h = absurd h
HasDanglingKey-cons i p (q ∷ ps) h = h

HasDanglingKey-here :
    (i : ℕ) (p : Bytes) (rest : List Bytes)
    → i % 2 ≡ 0
    → takes_value (keyword p) ≡ true
    → get_elem? rest 0 ≡ none
    → HasDanglingKey i (p ∷ rest)
HasDanglingKey-here i p [] even t h = (even, t)
HasDanglingKey-here i p (q ∷ ps) even t h = cc

-- The loop over what is left of the parameters.
parse_params-eq-panic :
    (params : List Bytes) (i : ℕ) (rest : List Bytes) (st : Parsing)
    → IsRest params i rest
    → parse_params params i rest st ≡ panic
    → HasDanglingKey i rest
unfolding parse_params
parse_params-eq-panic params i [] st v h = cc
parse_params-eq-panic params i (p ∷ rest) st v h =
    let tail = IsRest-tail params i p rest v in
    elim (Bool-cases ((i + 1) % 2 == 0)) [
      | inl skip ↦
          HasDanglingKey-cons i p rest
            (parse_params-eq-panic params (i + 1) rest st tail (rw (skip, parse_params) at h))
      | inr read ↦
          elim (>>=-eq-panic (parse_param params (i + 1) (keyword p) st) _
            (rw (read, parse_params) at h)) [
              | inl e ↦
                  let (t, missing) = parse_param-eq-panic params (i + 1) (keyword p) st e in
                  HasDanglingKey-here i p rest (ground arith) t (sym (v.at 1) ∙ missing)
              | inr (st', _, e) ↦
                  HasDanglingKey-cons i p rest
                    (parse_params-eq-panic params (i + 1) rest st' tail e)
            ]
    ]

pub check_targeting-ne-panic : (r : Request) → check_targeting r ≢ panic
unfolding check_targeting
check_targeting-ne-panic r h = ground arith

pub check_location-ne-panic : (l : LocationLookup) (r : Request) → check_location l r ≢ panic
unfolding check_location
check_location-ne-panic l r h = ground arith

-- The loop may be cut in two at any parameter.
pub parse_params-append :
    (params : List Bytes) (i : ℕ) (xs ys : List Bytes) (st : Parsing)
    → parse_params params i (xs ++ ys) st
      ≡ (parse_params params i xs st >>= parse_params params (i + length xs) ys)
unfolding parse_params
parse_params-append params i [] ys st = ap (λ j. parse_params params j ys st) (omega arith)
parse_params-append params i (p ∷ xs) ys st =
    let index : i + 1 + length xs ≡ i + suc (length xs) = omega arith in
    elim (Bool-cases ((i + 1) % 2 == 0)) [
      | inl skip ↦
          rw (skip, parse_params) (rw (parse_params-append params (i + 1) xs ys st) (rw index))
      | inr read ↦
          rw (read, parse_params)
            (>>=_through (parse_param params (i + 1) (keyword p) st) _ _ _
              λ a. rw (parse_params-append params (i + 1) xs ys a) (rw index))
    ]

parse_params_key :
    (params : List Bytes) (i : ℕ) (key : Bytes) (st : Parsing)
    → i % 2 ≡ 0
    → takes_value (keyword key) ≡ true
    → i + 1 ≤ length params
    → get_elem? params (i + 1) ≡ none
    → parse_params params i (key ∷ []) st ≡ panic
unfolding parse_params parse_param param_at
parse_params_key params i key st even t within missing = ground arith

module _ (sum64 : Bytes → ℕ) (s : UsernameParser) (username : Bytes) (req : Request) where
  -- `Parse` panics only on a user name whose last parameter is a key at an even index that wants a
  -- value: country, region, city, session, duration, ip or pool.
  pub parse-eq-panic : parse sum64 s username req ≡ panic → HasDanglingKey 0 (split b'-' username)
  unfolding parse
  parse-eq-panic h =
      let params = split b'-' username in
      elim (>>=-eq-panic (parse_params params 0 params (record { session_id = none; req = req })) _
        h) [
          | inl e ↦ parse_params-eq-panic params 0 params _ (IsRest-all params) e
          | inr (st, _, e) ↦ elim (>>=-eq-panic (check_targeting st.req) _ e) [
            | inl t ↦ absurd (check_targeting-ne-panic st.req t)
            | inr (r, _, e') ↦ elim (>>=-eq-panic (check_location s.location r) _ e') [
              | inl l ↦ absurd (check_location-ne-panic s.location r l)
              | inr (r', _, e'') ↦ cc
            ]
          ]
        ]

  -- `Parse` panics on every user name whose last parameter is a key that wants a value, stands at an
  -- even index and follows parameters that the loop accepts.
  pub parse_panics :
      (before : List Bytes) (key : Bytes) (st : Parsing)
      → split b'-' username ≡ before ++ key ∷ []
      → length before % 2 ≡ 0
      → takes_value (keyword key) ≡ true
      → parse_params (before ++ key ∷ []) 0 before (record { session_id = none; req = req }) ≡ ok st
      → parse sum64 s username req ≡ panic
  unfolding parse
  parse_panics before key st e even t accepted =
      rw (e, parse)
        (rw (parse_params-append (before ++ key ∷ []) 0 before (key ∷ []) _, accepted)
          (rw (
            parse_params_key (before ++ key ∷ []) (0 + length before) key st (omega (arith, even)) t
              (omega (arith, length-append before (key ∷ [])))
              (subst (λ i. get_elem? (before ++ key ∷ []) i ≡ none)
                (length-append before (key ∷ []) ∙ omega arith)
                (get_elem?-length (before ++ key ∷ []))))))
