-- ===== src/Location.antt =====
-- pkg/location/base.go and pkg/location/worldcities.go: which countries, regions and cities exist.
-- gountries' data and the CSV reader are parameters.
pub mod Lookups
mod Tests
use coinsurf_proxy.Base.{
  ℕ, Bool, true, false, not, ◌&&◌, ◌||◌, Option, none, some, List, [], ◌∷◌, ◌++◌, Bytes, codes,
  Assoc, lookup, insert, is_some, join, if◌then◌else◌,
}
use coinsurf_proxy.Geo.{Country, Region, City, load}
use coinsurf_proxy.Username.{LocationLookup, equal_fold}

abbrev pub country_random : Bytes
country_random = codes "rr"

abbrev pub country_gb : Bytes
country_gb = codes "gb"

abbrev pub country_uk : Bytes
country_uk = codes "uk"

-- gountries: the country of a code, and whether it has a subdivision of a code or of a name. A
-- country that is not found is gountries' zero value.
pub record Gountries : Type 1 where
  pub Country : Type 0
  pub zero_country : Country
  pub find_country_by_alpha : Bytes → Option Country
  pub has_subdivision_code : Country → Bytes → Bool
  pub has_subdivision_name : Country → Bytes → Bool

abbrev pub place : Bytes → Bytes → Bytes
place country name = country ++ (codes "-" ++ name)

module _ (g : Gountries) where
  unfoldable pub find_country : Bytes → Bool
  unfolding equal_fold
  find_country country =
      if equal_fold country country_random
      then true
      else if not (is_some (g.find_country_by_alpha country)) && equal_fold country country_uk
      then is_some (g.find_country_by_alpha country_gb)
      else true

  abbrev pub has_subdivision : g.Country → Bytes → Bool
  has_subdivision c region = g.has_subdivision_code c region || g.has_subdivision_name c region

  -- `FindRegion` with the country of the first search.
  abbrev pub in_country : Bytes → Bytes → Option g.Country → Bool
  in_country country region (some c) = has_subdivision c region
  in_country country region none =
      if equal_fold country country_uk
      then elim (g.find_country_by_alpha country_gb) [
        | none ↦ false
        | some c ↦ has_subdivision c region
      ]
      else has_subdivision g.zero_country region

  unfoldable pub find_region : Bytes → Bytes → Bool
  unfolding equal_fold
  find_region country region = in_country country region (g.find_country_by_alpha country)

-- The set of cities, keyed "country-city".
unfoldable pub find_city : Assoc (Unit {0}) → Bytes → Bytes → Bool
unfolding lookup
find_city cities country city = is_some (lookup (place country city) cities)

-- `NewBase`: the rows behind the first one, each joined by "-". A row that cannot be read ends the
-- load with an error, and no row is an error.
unfoldable pub load_rows : List (Option (List Bytes)) → Assoc (Unit {0}) → Option (Assoc (Unit {0}))
unfolding insert join
load_rows [] cities = some cities
load_rows (none ∷ rows) cities = none
load_rows (some row ∷ rows) cities = load_rows rows (insert (join (codes "-") row) tt cities)

unfoldable pub new_base : List (Option (List Bytes)) → Option (Assoc (Unit {0}))
unfolding load_rows
new_base [] = none
new_base (none ∷ rows) = none
new_base (some titles ∷ rows) = load_rows rows []

abbrev pub base : Gountries → Assoc (Unit {0}) → LocationLookup
base g cities = record {
  find_country = find_country g;
  find_region = find_region g;
  find_city = find_city cities;
}

-- pkg/location/worldcities.go: three maps that internal/geo loads.
pub record World : Type 0 where
  pub countries : Assoc Country
  pub regions : Assoc Region
  pub cities : Assoc City

unfoldable pub world : World → LocationLookup
unfolding lookup equal_fold
world w = record {
  find_country = λ country.
      if equal_fold country country_random then true else is_some (lookup country w.countries);
  find_region = λ country region. is_some (lookup (place country region) w.regions);
  find_city = λ country city. is_some (lookup (place country city) w.cities);
}

-- `NewWorld`, of what the three files hold.
unfoldable pub new_world :
    Option (List Country) → Option (List Region) → Option (List City) → Option World
unfolding load
new_world countries regions cities = elim (load countries regions cities) [
  | none ↦ none
  | some (co, rr, cc) ↦ some (record { countries = co; regions = rr; cities = cc })
]
