-- ===== src/Api.antt =====
-- pkg/api.go: the administration's HTTP handlers. fasthttp's request, the router and the resolver
-- are parameters; a body is the value that is marshalled (`encoding/json` fails on none of these).
pub mod Listing
mod Tests
use coinsurf_proxy.Base.{
  ℕ, zero, suc, Bool, true, false, not, ◌&&◌, ◌||◌, Option, none, some, List, [], ◌∷◌, ◌++◌, map,
  Bytes, codes, Assoc, length, ltb, lower_byte, is_empty, split, ◌==◌, if◌then◌else◌,
}
use coinsurf_proxy.Auth.{Outcome, Error, ok, err, panic, ◌>>=◌}
use coinsurf_proxy.Node.{Node, PoolNode}
use coinsurf_proxy.Router.{
  Filter, filter_version, filter_ip, filter_country, filter_region, filter_limit, filter_offset,
}
use coinsurf_proxy.Username.{equal_fold}

-- pkg/router.go, the methods that the handlers use.
pub record Directory : Type 0 where
  pub get_all : List Filter → Outcome (List Node)
  pub count : List Filter → Outcome ℕ
  pub get_pool_nodes : Outcome (List PoolNode)
  pub get_country_stats : Outcome (Assoc ℕ)
  pub get_pool_stats : Outcome (Assoc ℕ)

pub record Location : Type 0 where
  pub country : Bytes
  pub region : Bytes
  pub city : Bytes

-- `GetUint`: `no_value` is ErrNoArgValue, which comes with -1.
pub data Argument : Type 0 where
  no_value malformed : Argument
  number : ℕ → Argument

-- What fasthttp tells of the request. A missing header or argument is empty. `parse_ip` is whether
-- `net.ParseIP` accepts a text, `lookup_ip` is the resolver's.
pub record Call : Type 0 where
  pub authorization : Bytes
  pub get_uint : Bytes → Argument
  pub peek : Bytes → Bytes
  pub parse_ip : Bytes → Bool
  pub lookup_ip : Bytes → Outcome Location

pub data Body : Type 0 where
  empty error_text : Body
  nodes : ℕ → List Node → Body
  pool_nodes : List PoolNode → Body
  stats : Assoc ℕ → Body
  location : Location → Body

pub record Response : Type 0 where
  pub status : ℕ
  pub body : Body

abbrev pub respond : ℕ → Body → Response
respond status body = record { status = status; body = body }

-- The guard of each listing, for a password in ASCII: `bytes.EqualFold` ignores case.
unfoldable pub authorized : Bytes → Call → Bool
unfolding equal_fold
authorized password call =
    not (is_empty call.authorization) && equal_fold call.authorization (map lower_byte password)

-- One argument of numbers, as a filter where it is positive.
abbrev pub number_filter : (ℕ → Filter) → Argument → Outcome (List Filter)
number_filter filter no_value = ok []
number_filter filter malformed = err Error.other
number_filter filter (number n) = ok (if ltb 0 n then filter n ∷ [] else [])

-- One argument of names between commas.
abbrev pub names_filter : (List Bytes → Filter) → Bytes → List Filter
names_filter filter names = if ltb 0 (length names) then filter (split b',' names) ∷ [] else []

unfoldable pub extract_filters : Call → Outcome (List Filter)
unfolding split
extract_filters call = do
  limit ← number_filter filter_limit (call.get_uint (codes "limit"))
  offset ← number_filter filter_offset (call.get_uint (codes "offset"))
  ok (
      limit
      ++ (offset
          ++ (names_filter filter_country (call.peek (codes "country"))
              ++ (names_filter filter_version (call.peek (codes "version"))
                  ++ (names_filter filter_ip (call.peek (codes "ip"))
                      ++ names_filter filter_region (call.peek (codes "region")))))))

-- An error is answered with its text.
abbrev pub answer : {A : Type 0} → (A → Body) → Outcome A → Outcome Response
answer body (ok a) = ok (respond 200 (body a))
answer body (err e) = ok (respond 500 error_text)
answer body panic = panic

abbrev pub guarded : Bytes → Call → Outcome Response → Outcome Response
guarded password call response =
    if not (authorized password call) then ok (respond 401 empty) else response

unfoldable pub list_nodes : Directory → Bytes → Call → Outcome Response
unfolding authorized extract_filters
list_nodes d password call = guarded password call (
    answer (λ (found : ℕ × List Node). nodes found.0 found.1)
      (extract_filters call >>= λ filters.
        d.get_all filters >>= λ listed. d.count filters >>= λ n. ok (n, listed)))

unfoldable pub list_pool_nodes : Directory → Bytes → Call → Outcome Response
unfolding authorized
list_pool_nodes d password call = guarded password call (answer pool_nodes d.get_pool_nodes)

unfoldable pub country_stats : Directory → Bytes → Call → Outcome Response
unfolding authorized
country_stats d password call = guarded password call (answer stats d.get_country_stats)

unfoldable pub pool_stats : Directory → Bytes → Call → Outcome Response
unfolding authorized
pool_stats d password call = guarded password call (answer stats d.get_pool_stats)

abbrev pub located : Outcome Location → Outcome Response
located (ok found) = ok (respond 200 (location found))
located (err e) = ok (respond 417 empty)
located panic = panic

-- `ipCheck` has no guard.
unfoldable pub ip_check : Call → Outcome Response
ip_check call =
    let ip = call.peek (codes "ip") in
    if not (call.parse_ip ip) then ok (respond 400 empty) else located (call.lookup_ip ip)
