-- ===== src/Request.antt =====
-- pkg/request.go: one client request on its way through the proxy.
pub mod Permissions
mod Tests
use coinsurf_proxy.Base.{
  ℕ, Bool, true, false, ◌&&◌, ◌||◌, Option, none, some, List, [], ◌∷◌, Bytes, codes, bytes_eq,
  is_none, ◌==◌, if◌then◌else◌,
}
use coinsurf_proxy.Auth.{Permission}

-- A slice that may be nil is an `Option`.
pub record Request : Type 0 where
  pub id : Option Bytes
  pub uri : Option Bytes
  pub hostname : Option Bytes
  pub session_id : ℕ
  pub session_duration : ℕ
  pub country : Option Bytes
  pub region : Option Bytes
  pub city : Option Bytes
  pub socks5 : Bool
  pub permissions : Option (List Permission)
  pub user_id : Bytes
  pub password : Option Bytes
  pub node_id : Bytes
  pub peer_id : Bytes
  pub ip : Option Bytes
  pub pool : Option Bytes
  pub ipv4 : Bool
  pub ipv6 : Bool

-- `&Request{}`.
abbrev pub new_request : Request
new_request = record {
  id = none;
  uri = none;
  hostname = none;
  session_id = 0;
  session_duration = 0;
  country = none;
  region = none;
  city = none;
  socks5 = false;
  permissions = none;
  user_id = [];
  password = none;
  node_id = [];
  peer_id = [];
  ip = none;
  pool = none;
  ipv4 = false;
  ipv6 = false;
}

-- The inner loop, up to its `break`.
unfoldable pub contains_permission : Permission → List Permission → Bool
contains_permission rp [] = false
contains_permission rp (p ∷ ps) = rp == p || contains_permission rp ps

-- The outer loop.
unfoldable pub all_permissions : List Permission → List Permission → Bool
unfolding contains_permission
all_permissions granted [] = true
all_permissions granted (rp ∷ rps) =
    if contains_permission rp granted then all_permissions granted rps else false

unfoldable pub has_permissions : Request → List Permission → Bool
unfolding all_permissions
has_permissions r wanted = elim r.permissions [
  | none ↦ false
  | some granted ↦ all_permissions granted wanted
]

abbrev pub country_random : Bytes
country_random = codes "rr"

-- `bytes.Compare(b, c) == 0`, to which a nil slice is the empty one.
abbrev pub compare_eq : Option Bytes → Bytes → Bool
compare_eq none c = bytes_eq [] c
compare_eq (some b) c = bytes_eq b c

unfoldable pub is_random_location : Request → Bool
is_random_location r =
    compare_eq r.country country_random
    || (is_none r.country && is_none r.region && is_none r.city && is_none r.ip && is_none r.pool)

-- Every field but `Password` is cleared.
unfoldable pub reset : Request → Request
reset r = record r {
  id = none;
  session_id = 0;
  session_duration = 0;
  permissions = none;
  country = none;
  region = none;
  city = none;
  socks5 = false;
  ipv4 = false;
  ipv6 = false;
  ip = none;
  pool = none;
  user_id = [];
  node_id = [];
  peer_id = [];
  uri = none;
  hostname = none;
}
