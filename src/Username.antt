-- ===== src/Username.antt =====
-- pkg/username.go: the targeting data that a client writes into its proxy user name,
-- "key-value-key-value-…".
pub mod Inversion
pub mod Panics
pub mod Targeting
pub mod Session
pub mod RoundTrip
pub mod Keeps
mod Tests
use coinsurf_proxy.Base.{
  ℕ, zero, suc, ◌+◌, ◌-◌, ◌*◌, ◌%◌, ◌^◌, ◌≡◌, refl, Bool, true, false, not, ◌&&◌, ◌||◌, Option,
  none, some, List, [], ◌∷◌, ◌++◌, Bytes, codes, split, lower_byte, length, get_elem?, is_empty,
  is_some, is_none, ltb, leb, ◌==◌, if◌then◌else◌, mul64, sle64, slt64,
}
use coinsurf_proxy.Auth.{
  Error, invalid_param, invalid_targeting, unknown_country, unknown_region, unknown_city, other,
  Outcome, ok, err, panic, ◌>>=◌,
}
use coinsurf_proxy.Request.{Request}

-- pkg/location.go.
pub record LocationLookup : Type 0 where
  pub find_country : Bytes → Bool
  pub find_region : Bytes → Bytes → Bool
  pub find_city : Bytes → Bytes → Bool

-- Durations are `time.Duration`s, 64-bit nanoseconds.
pub record UsernameParser : Type 0 where
  pub session_duration : ℕ
  pub session_duration_max : ℕ
  pub location : LocationLookup

unfoldable pub strip_prefix : Bytes → Bytes → Option Bytes
strip_prefix [] s = some s
strip_prefix (y ∷ t) [] = none
strip_prefix (y ∷ t) (c ∷ s) = if c == y then strip_prefix t s else none

-- One rune of `bytes.EqualFold` against a lower-case ASCII letter. Its fold class holds both cases,
-- and also U+017F at "s" and U+212A at "k".
unfoldable pub take_fold : ℕ → Bytes → Option Bytes
unfolding strip_prefix
take_fold y [] = none
take_fold y (c ∷ s) =
    if lower_byte c == y
    then some s
    else if y == b's' && c == 0xC5
    then strip_prefix (0xBF ∷ []) s
    else if y == b'k' && c == 0xE2
    then strip_prefix (0x84 ∷ 0xAA ∷ []) s
    else none

-- `bytes.EqualFold(s, t)` for a lower-case ASCII `t`.
unfoldable pub equal_fold : Bytes → Bytes → Bool
unfolding take_fold
equal_fold s [] = is_empty s
equal_fold s (y ∷ t) = elim (take_fold y s) [ none ↦ false | some rest ↦ equal_fold rest t ]

pub data Keyword : Type 0 where
  country region city session duration ip pool ipv6 ipv4 unknown : Keyword

-- The chain of comparisons of the loop's body, in its order.
unfoldable pub keyword : Bytes → Keyword
unfolding equal_fold
keyword p =
    if equal_fold p (codes "country")
    then country
    else if equal_fold p (codes "region")
    then region
    else if equal_fold p (codes "city")
    then city
    else if equal_fold p (codes "session")
    then session
    else if equal_fold p (codes "duration")
    then duration
    else if equal_fold p (codes "ip")
    then ip
    else if equal_fold p (codes "pool")
    then pool
    else if equal_fold p (codes "ipv6")
    then ipv6
    else if equal_fold p (codes "ipv4")
    then ipv4
    else unknown

-- The digits of `strconv.Atoi`.
unfoldable pub digits : ℕ → Bytes → Option ℕ
digits acc [] = some acc
digits acc (c ∷ s) =
    let rest = digits (acc * 10 + (c - b'0')) s in if leb b'0' c && leb c b'9' then rest else none

unfoldable pub unsigned : Bytes → Option ℕ
unfolding digits
unsigned [] = none
unsigned (c ∷ s) = digits 0 (c ∷ s)

abbrev pub in_range : ℕ → ℕ → ℕ → Option ℕ
in_range limit v pattern_of = if leb v limit then some pattern_of else none

-- `strconv.Atoi` on a 64-bit platform: an optional sign and decimal digits, in the range of int64.
unfoldable pub atoi : Bytes → Option ℕ
unfolding unsigned
atoi [] = none
atoi (c ∷ s) =
    if c == b'-'
    then elim (unsigned s) [ none ↦ none | some v ↦ in_range (2 ^ 63) v ((2 ^ 64 - v) % 2 ^ 64) ]
    else if c == b'+'
    then elim (unsigned s) [ none ↦ none | some v ↦ in_range (2 ^ 63 - 1) v v ]
    else elim (unsigned (c ∷ s)) [ none ↦ none | some v ↦ in_range (2 ^ 63 - 1) v v ]

-- `time.Second` in nanoseconds.
abbrev pub second : ℕ
second = 1_000_000_000

-- The two variables of the loop.
pub record Parsing : Type 0 where
  pub session_id : Option Bytes
  pub req : Request

-- `if len(params) < i { return ErrInvalidParam }` and then `params[i]`.
unfoldable pub param_at : List Bytes → ℕ → Outcome Bytes
param_at params i =
    if ltb (length params) i
    then err invalid_param
    else elim (get_elem? params i) [ none ↦ panic | some v ↦ ok v ]

-- `req.Country = params[i]`, at most two bytes long.
abbrev pub with_country : Parsing → Bytes → Outcome Parsing
with_country st v =
    if ltb 2 (length v)
    then err invalid_param
    else ok (record st { req = record (st.req) { country = some v } })

abbrev pub with_duration : Parsing → Bytes → Outcome Parsing
with_duration st v = elim (atoi v) [
  | none ↦ err other
  | some n ↦ ok (record st { req = record (st.req) { session_duration = mul64 n second } })
]

-- What a key does with its value.
unfoldable pub assign : Keyword → Bytes → Parsing → Outcome Parsing
assign country v st = with_country st v
assign region v st = ok (record st { req = record (st.req) { region = some v } })
assign city v st = ok (record st { req = record (st.req) { city = some v } })
assign session v st = ok (record st { session_id = some v })
assign duration v st = with_duration st v
assign ip v st = ok (record st { req = record (st.req) { ip = some v } })
assign pool v st = ok (record st { req = record (st.req) { pool = some v } })
assign ipv6 v st = ok (record st { req = record (st.req) { ipv6 = true } })
assign ipv4 v st = ok (record st { req = record (st.req) { ipv4 = true } })
assign unknown v st = ok st

-- Whether a key reads the parameter behind it.
abbrev pub takes_value : Keyword → Bool
takes_value ipv6 = false
takes_value ipv4 = false
takes_value unknown = false
takes_value _ = true

unfoldable pub parse_param : List Bytes → ℕ → Keyword → Parsing → Outcome Parsing
parse_param params i k st =
    if takes_value k then param_at params i >>= (λ v. assign k v st) else assign k [] st

-- The loop at index `i`, with the parameters not yet visited.
unfoldable pub parse_params : List Bytes → ℕ → List Bytes → Parsing → Outcome Parsing
parse_params params i [] st = ok st
parse_params params i (p ∷ rest) st = elim ((i + 1) % 2 == 0) [
  | true ↦ parse_params params (i + 1) rest st
  | false ↦ parse_param params (i + 1) (keyword p) st >>= parse_params params (i + 1) rest
]

-- The checks between the loop and the session: `ok` passes the request on.
unfoldable pub check_location : LocationLookup → Request → Outcome Request
check_location l r = elim r.country [
  | none ↦ ok r
  | some c ↦ elim r.city [
    | some t ↦ if l.find_city c t then ok r else err unknown_city
    | none ↦ elim r.region [
      | some g ↦ if l.find_region c g then ok r else err unknown_region
      | none ↦ if l.find_country c then ok r else err unknown_country
    ]
  ]
]

unfoldable pub check_targeting : Request → Outcome Request
check_targeting r =
    if is_none r.country && is_none r.region && is_none r.city && is_none r.pool && is_none r.ip
    then err invalid_targeting
    else ok r

-- `digest.Write` of a slice that may be nil; the hash never returns an error.
abbrev pub written : Option Bytes → Bytes
written none = []
written (some b) = b

abbrev pub default_duration : UsernameParser → ℕ → ℕ
default_duration s d = if sle64 d 0 || slt64 s.session_duration_max d then s.session_duration else d

-- `sum64` is xxhash's `Sum64` of all that was written.
unfoldable pub with_session : (Bytes → ℕ) → UsernameParser → Bytes → Request → Request
with_session sum64 s sid r = record r {
  session_duration = default_duration s r.session_duration;
  session_id = sum64 (written r.country ++ (written r.pool ++ (sid ++ written r.password)));
}

abbrev pub session_given : Option Bytes → Bytes
session_given none = []
session_given (some b) = b

unfoldable pub add_session : (Bytes → ℕ) → UsernameParser → Option Bytes → Request → Request
unfolding with_session
add_session sum64 s sid r =
    if ltb 0 (length (session_given sid)) then with_session sum64 s (session_given sid) r else r

-- `Parse`. On an error the callers only release the request, so no request is returned.
unfoldable pub parse : (Bytes → ℕ) → UsernameParser → Bytes → Request → Outcome Request
parse sum64 s username req = do
  let params = split b'-' username
  st ← parse_params params 0 params (record { session_id = none; req = req })
  targeted ← check_targeting st.req
  located ← check_location s.location targeted
  ok (add_session sum64 s st.session_id located)
