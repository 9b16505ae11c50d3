-- ===== src/Resolver.antt =====
-- pkg/resolver/ip2location.go: the place of an address. The databases of IP2Location are given.
pub mod Names
mod Tests
use coinsurf_proxy.Base.{
  ℕ, zero, suc, ◌+◌, Bool, true, false, not, ◌&&◌, ◌||◌, Option, none, some, List, [], ◌∷◌, Bytes,
  split, leb, ltb, ◌==◌, if◌then◌else◌,
}
use coinsurf_proxy.Router.{lower}

-- What is read of a database's record.
pub record Ip2LocationRecord : Type 0 where
  pub country_short : Bytes
  pub region : Bytes
  pub city : Bytes

-- `IP2Location`, the two databases by `Get_all`.
pub record Ip2Location : Type 0 where
  pub ipv4 : Bytes → Option Ip2LocationRecord
  pub ipv6 : Bytes → Option Ip2LocationRecord

pub record ResolvedPlace : Type 0 where
  pub country : Bytes
  pub region : Bytes
  pub city : Bytes

-- `\w` of a regular expression.
abbrev pub is_word_byte : ℕ → Bool
is_word_byte c =
    leb b'0' c && leb c b'9'
    || (leb b'A' c && leb c b'Z' || (leb b'a' c && leb c b'z' || c == b'_'))

-- `re.ReplaceAllString(s, "")` for `[^\w]`: what is no ASCII letter or digit and no underscore goes.
unfoldable pub only_words : Bytes → Bytes
only_words [] = []
only_words (c ∷ s) = let rest = only_words s in if is_word_byte c then c ∷ rest else rest

-- `strings.Count(addr, ":")`.
unfoldable pub colons : Bytes → ℕ
colons [] = 0
colons (c ∷ s) = let rest = colons s in if c == b':' then suc rest else rest

-- `parts[0]`; `strings.Split` gives one part at least.
abbrev pub first_part : List Bytes → Bytes
first_part [] = []
first_part (part ∷ parts) = part

abbrev pub region_name : Bytes → Bytes
region_name region = only_words (lower (first_part (split b' ' region)))

abbrev pub city_name : Bytes → Bytes
city_name city = only_words (lower city)

abbrev pub found_place : Option Ip2LocationRecord → Option ResolvedPlace
found_place none = none
found_place (some c) = some (record {
  country = lower c.country_short;
  region = region_name c.region;
  city = city_name c.city;
})

-- `LookupIP`; `none` is an error.
unfoldable pub lookup_ip : Ip2Location → Bytes → Option ResolvedPlace
unfolding only_words colons split
lookup_ip w addr = found_place (if ltb 1 (colons addr) then w.ipv6 addr else w.ipv4 addr)

-- `IPDB.LookupIP` of pkg/resolver/ipdb.go knows no place.
abbrev pub ipdb_lookup_ip : Bytes → Option ResolvedPlace
ipdb_lookup_ip addr = some (record { country = []; region = []; city = [] })
