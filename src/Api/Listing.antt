-- ===== src/Api/Listing.antt =====
-- pkg/api.go: who may list, and which nodes a call lists.
use coinsurf_proxy.Base.{
  ℕ, ◌<◌, ◌≡◌, ◌≢◌, refl, sym, ap, ◌∙◌, ◌↔◌, inl, inr, ltb_false→le, true, List, [], ◌∷◌, ◌++◌, map,
  Bytes, codes, All, length, ltb, lower_byte, is_empty, split, bytes_eq, bytes_eq_iff,
  if◌then◌else◌, Bool-cases, arith,
}
use coinsurf_proxy.Auth.{Outcome, ok, err, panic, >>=-eq-ok}
use coinsurf_proxy.Router.{
  Query, new_query, Filter, filter_version, filter_ip, filter_country, filter_region, filter_limit,
  filter_offset, apply, apply_all,
}
use coinsurf_proxy.Username.{equal_fold, take_fold}
use coinsurf_proxy.Api.{
  Argument, no_value, malformed, number, Call, authorized, number_filter, names_filter,
  extract_filters,
}

abbrev pub IsAscii : Bytes → Type 0
IsAscii = All (λ c. c < 128)

equal_fold_lem : (s t : Bytes) → IsAscii s → equal_fold s t ≡ bytes_eq (map lower_byte s) t
unfolding equal_fold take_fold
equal_fold_lem [] [] h = refl
equal_fold_lem (c ∷ s) [] h = refl
equal_fold_lem [] (y ∷ t) h = refl
equal_fold_lem (c ∷ s) (y ∷ t) (hc, hs) = ground (arith, hc, equal_fold_lem s t hs)

is_empty_iff : (s : Bytes) → (is_empty s ≡ true) ↔ (s ≡ [])
is_empty_iff [] = (λ _. refl, λ _. refl)
is_empty_iff (c ∷ s) = (λ h. cc, λ h. cc)

-- An ASCII text is accepted as the administration's password just where it is not empty and equals
-- the password but for the case of letters.
pub authorized_iff :
    (password : Bytes) (call : Call)
    → IsAscii call.authorization
    → (authorized password call ≡ true)
      ↔ ((call.authorization ≢ []) × (map lower_byte call.authorization ≡ map lower_byte password))
unfolding authorized
authorized_iff password call h = ground (
  arith,
  equal_fold_lem call.authorization (map lower_byte password) h,
  bytes_eq_iff (map lower_byte call.authorization) (map lower_byte password),
  is_empty_iff call.authorization,
)

apply_all-append :
    (fs gs : List Filter) (q : Query) → apply_all (fs ++ gs) q ≡ apply_all gs (apply_all fs q)
unfolding apply_all
apply_all-append [] gs q = refl
apply_all-append (f ∷ fs) gs q = apply_all-append fs gs (apply f q)

abbrev names_in : Bytes → List Bytes
names_in names = if ltb 0 (length names) then split b',' names else []

abbrev number_in : Argument → ℕ
number_in no_value = 0
number_in malformed = 0
number_in (number n) = n

-- The query that a call asks for.
abbrev pub query_of : Call → Query
query_of call = record {
  country = names_in (call.peek (codes "country"));
  region = names_in (call.peek (codes "region"));
  version = names_in (call.peek (codes "version"));
  ip = names_in (call.peek (codes "ip"));
  peer_id = [];
  limit = number_in (call.get_uint (codes "limit"));
  offset = number_in (call.get_uint (codes "offset"));
}

names_filter-apply :
    (filter : List Bytes → Filter) (set : List Bytes → Query) (q : Query) (names : Bytes)
    → ((v : List Bytes) → apply (filter v) q ≡ set v)
    → q ≡ set []
    → apply_all (names_filter filter names) q ≡ set (names_in names)
unfolding apply_all
names_filter-apply filter set q names applied initial = elim (Bool-cases (ltb 0 (length names))) [
  | inl given ↦ rw given (applied (split b',' names))
  | inr absent ↦ rw absent initial
]

abbrev filters_of : Outcome (List Filter) → List Filter
filters_of (ok fs) = fs
filters_of (err e) = []
filters_of panic = []

number_filter-apply :
    (filter : ℕ → Filter) (set : ℕ → Query) (q : Query) (a : Argument) {fs : List Filter}
    → ((n : ℕ) → apply (filter n) q ≡ set n)
    → q ≡ set 0
    → number_filter filter a ≡ ok fs
    → apply_all fs q ≡ set (number_in a)
unfolding apply_all
number_filter-apply filter set q no_value applied initial e =
    sym (ap (λ o. apply_all (filters_of o) q) e) ∙ initial
number_filter-apply filter set q malformed applied initial e = cc
number_filter-apply filter set q (number n) applied initial e =
    sym (ap (λ o. apply_all (filters_of o) q) e) ∙ elim (Bool-cases (ltb 0 n)) [
      | inl given ↦ rw given (applied n)
      | inr absent ↦ rw absent (initial ∙ ap set (omega (arith, ltb_false→le 0 n absent)))
    ]

then_apply :
    (fs gs : List Filter) (q : Query) {q' q'' : Query}
    → apply_all fs q ≡ q'
    → apply_all gs q' ≡ q''
    → apply_all (fs ++ gs) q ≡ q''
then_apply fs gs q first rest = apply_all-append fs gs q ∙ (ap (apply_all gs) first ∙ rest)

-- The filters of a call, applied to an empty query, ask for just what the arguments say: the names
-- between commas of each list, and the limit and the offset where they are given.
pub extract_filters-query_of :
    (call : Call) {fs : List Filter}
    → extract_filters call ≡ ok fs
    → apply_all fs new_query ≡ query_of call
unfolding extract_filters apply
extract_filters-query_of call e =
    let (limit, el, e1) =
      >>=-eq-ok (number_filter filter_limit (call.get_uint (codes "limit"))) _ e in
    let (offset, eo, e2) =
      >>=-eq-ok (number_filter filter_offset (call.get_uint (codes "offset"))) _ e1 in
    let q1 : Query = record new_query { limit = number_in (call.get_uint (codes "limit")) } in
    let q2 : Query = record q1 { offset = number_in (call.get_uint (codes "offset")) } in
    let q3 : Query = record q2 { country = names_in (call.peek (codes "country")) } in
    let q4 : Query = record q3 { version = names_in (call.peek (codes "version")) } in
    let q5 : Query = record q4 { ip = names_in (call.peek (codes "ip")) } in
    sym (ap (λ o. apply_all (filters_of o) new_query) e2)
    ∙ then_apply limit _ new_query
        (number_filter-apply filter_limit (λ n. record new_query { limit = n }) new_query _
          (λ n. refl) refl el)
        (then_apply offset _ q1
          (number_filter-apply filter_offset (λ n. record q1 { offset = n }) q1 _ (λ n. refl) refl
            eo)
          (then_apply (names_filter filter_country (call.peek (codes "country"))) _ q2
            (names_filter-apply filter_country (λ v. record q2 { country = v }) q2 _ (λ v. refl)
              refl)
            (then_apply (names_filter filter_version (call.peek (codes "version"))) _ q3
              (names_filter-apply filter_version (λ v. record q3 { version = v }) q3 _ (λ v. refl)
                refl)
              (then_apply (names_filter filter_ip (call.peek (codes "ip"))) _ q4
                (names_filter-apply filter_ip (λ v. record q4 { ip = v }) q4 _ (λ v. refl) refl)
                (names_filter-apply filter_region (λ v. record q5 { region = v }) q5 _ (λ v. refl)
                  refl)))))
