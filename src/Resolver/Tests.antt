-- ===== src/Resolver/Tests.antt =====
-- pkg/resolver/ip2location.go on an address, and the theorems about it there.
use coinsurf_proxy.Base.{◌≡◌, ◌↔◌, refl, false, none, some, codes, split}
use coinsurf_proxy.Username.{strip_prefix}
use coinsurf_proxy.Geo.{Row, city_of, rename, replace_all, replace_from}
use coinsurf_proxy.Resolver.{
  Ip2LocationRecord, Ip2Location, ResolvedPlace, only_words, colons, lookup_ip,
}
use coinsurf_proxy.Resolver.Names.{has_space, lookup_ip-city_iff}

computes : Unit {0}
unfolding only_words colons split lookup_ip strip_prefix rename replace_all replace_from
computes = tt

abbrev los_angeles : Ip2LocationRecord
los_angeles = record {
  country_short = codes "US";
  region = codes "New York State";
  city = codes "Los Angeles";
}

abbrev databases : Ip2Location
databases = record { ipv4 = λ addr. some los_angeles; ipv6 = λ addr. none }

abbrev place : ResolvedPlace
place = record { country = codes "us"; region = codes "new"; city = codes "losangeles" }

run_lookup : lookup_ip databases (codes "1.2.3.4") ≡ some place
unfolding computes
run_lookup = refl

run_lookup_ipv6 : lookup_ip databases (codes "::1") ≡ none
unfolding computes
run_lookup_ipv6 = refl

abbrev row : Row
row = record {
  id = 1;
  name = codes "Los Angeles";
  state_id = 1;
  state_code = codes "CA";
  state_name = codes "California";
  country_id = 1;
  country_code = codes "US";
  country_name = codes "United States";
}

run_city : (city_of row).name ≡ codes "los_angeles"
unfolding computes
run_city = refl

lookup_ip-city_iff_example :
    (place.city ≡ (city_of row).name) ↔ (has_space (codes "Los Angeles") ≡ false)
unfolding colons
lookup_ip-city_iff_example =
    lookup_ip-city_iff databases (codes "1.2.3.4") los_angeles place row refl run_lookup refl
      (refl, (refl, (refl, (refl, (refl, (refl, (refl, (refl, (refl, (refl, (refl, tt)))))))))))
