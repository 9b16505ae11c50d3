-- ===== src/Router.antt =====
-- pkg/router_filter.go, and pkg/router/genji.go's `queryBuilder`: the SQL text of node queries.
pub mod Queries
pub mod Genji
use coinsurf_proxy.Base.{
  ℕ, zero, suc, ◌+◌, ◌-◌, ◌/◌, ◌%◌, Bool, true, false, not, ◌&&◌, Option, none, some, List, [], ◌∷◌,
  ◌++◌, Bytes, codes, join, map, lower_byte, length, ltb, ◌==◌, if◌then◌else◌,
}

-- `Limit` and `Offset` are positive where they are used.
pub record Query : Type 0 where
  pub country : List Bytes
  pub region : List Bytes
  pub version : List Bytes
  pub ip : List Bytes
  pub peer_id : List Bytes
  pub limit : ℕ
  pub offset : ℕ

-- `new(Query)`.
abbrev pub new_query : Query
new_query = record {
  country = [];
  region = [];
  version = [];
  ip = [];
  peer_id = [];
  limit = 0;
  offset = 0;
}

-- A `Filter` is a closure over a query; these are all that the package makes.
pub data Filter : Type 0 where
  filter_version filter_ip filter_peer_id filter_country filter_region : List Bytes → Filter
  filter_limit filter_offset : ℕ → Filter

unfoldable pub apply : Filter → Query → Query
apply (filter_version v) q = record q { version = v }
apply (filter_ip v) q = record q { ip = v }
apply (filter_peer_id v) q = record q { peer_id = v }
apply (filter_country v) q = record q { country = v }
apply (filter_region v) q = record q { region = v }
apply (filter_limit n) q = record q { limit = n }
apply (filter_offset n) q = record q { offset = n }

-- `for _, f := range filters { f(query) }`.
unfoldable pub apply_all : List Filter → Query → Query
unfolding apply
apply_all [] q = q
apply_all (f ∷ fs) q = apply_all fs (apply f q)

unfoldable pub is_prefix : Bytes → Bytes → Bool
is_prefix [] s = true
is_prefix (y ∷ t) [] = false
is_prefix (y ∷ t) (c ∷ s) = c == y && is_prefix t s

-- `strings.Contains`.
unfoldable pub contains : Bytes → Bytes → Bool
unfolding is_prefix
contains [] t = is_prefix t []
contains (c ∷ s) t = let later = contains s t in if is_prefix t (c ∷ s) then true else later

-- `strconv.Itoa` of a number that is not negative; `fuel` bounds its digits.
unfoldable pub itoa_from : ℕ → ℕ → Bytes
itoa_from zero n = []
itoa_from (suc fuel) n =
    let front = itoa_from fuel (n / 10) in
    if ltb n 10 then (b'0' + n) ∷ [] else front ++ (b'0' + n % 10) ∷ []

unfoldable pub itoa : ℕ → Bytes
unfolding itoa_from
itoa n = itoa_from (suc n) n

abbrev pub lower : Bytes → Bytes
lower s = map lower_byte s

abbrev pub quoted : Bytes → Bytes
quoted v = codes "\"" ++ (v ++ codes "\"")

-- `column = "v"`, or `column IN("v","w")`.
unfoldable pub clause : Bytes → List Bytes → Bytes
unfolding join
clause column [] = column ++ codes " IN()"
clause column (v ∷ []) = column ++ (codes " = " ++ quoted v)
clause column (v ∷ w ∷ vs) =
    column ++ (codes " IN(" ++ (join (codes ",") (map quoted (v ∷ w ∷ vs)) ++ codes ")"))

abbrev pub where_word : Bytes
where_word = codes "WHERE"

-- One block of the builder. `connector` is what it writes where the text has a WHERE already.
unfoldable pub add_clause : Bytes → Bytes → List Bytes → Bytes → Bytes
unfolding clause contains
add_clause connector column values query =
    if ltb 0 (length values)
    then (if not (contains query where_word) then query ++ codes " WHERE " else query ++ connector)
      ++ clause column values
    else query

unfoldable pub add_limit : Query → Bool → Bytes → Bytes
unfolding itoa
add_limit q count_query query =
    if not count_query && ltb 0 q.limit then query ++ (codes " LIMIT " ++ itoa q.limit) else query

unfoldable pub add_offset : Query → Bool → Bytes → Bytes
unfolding itoa
add_offset q count_query query =
    if not count_query && ltb 0 q.offset
    then query ++ (codes " OFFSET " ++ itoa q.offset)
    else query

-- `queryBuilder`. The first three blocks have no `else` branch: they write no " AND ".
unfoldable pub query_builder : Bytes → Query → Bool → Bytes
query_builder query q count_query =
    let country = add_clause [] (codes "country") (map lower q.country) query in
    let peer_id = add_clause [] (codes "peer_id") (map lower q.peer_id) country in
    let ip = add_clause [] (codes "ipv4") (map lower q.ip) peer_id in
    let region = add_clause (codes " AND ") (codes "region") q.region ip in
    let version = add_clause (codes " AND ") (codes "app_version") q.version region in
    add_offset q count_query (add_limit q count_query version)

abbrev pub nodes_select_query : Bytes
nodes_select_query =
    codes
      "SELECT peer_id, user_id, api_key, country, region, city, os, version, app_version, ipv4, ipv6 FROM nodes"

abbrev pub nodes_count_query : Bytes
nodes_count_query = codes "SELECT COUNT(*) as nodes FROM nodes"
