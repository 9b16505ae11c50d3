-- ===== src/Location/Tests.antt =====
-- pkg/location/base.go on a file of two cities, and the theorems about it there.
use coinsurf_proxy.Base.{
  ◌≡◌, refl, ◌↔◌, true, false, none, some, List, [], ◌∷◌, map, Bytes, codes, Assoc, insert, join,
}
use coinsurf_proxy.Username.{equal_fold, take_fold}
use coinsurf_proxy.Location.{
  Gountries, country_random, country_uk, country_gb, find_country, find_city, new_base, load_rows,
}
use coinsurf_proxy.Location.Lookups.{find_country-eq-false_iff, listed, find_city-listed}

-- A world without countries.
abbrev nowhere : Gountries
nowhere = record {
  Country = Unit {0};
  zero_country = tt;
  find_country_by_alpha = λ code. none;
  has_subdivision_code = λ c code. false;
  has_subdivision_name = λ c name. false;
}

-- A text that is no country is accepted.
find_no_country : find_country nowhere (codes "atlantis") ≡ true
unfolding find_country equal_fold take_fold
find_no_country = refl

find_country-eq-false_iff_case : (find_country nowhere (codes "uk") ≡ false) ↔ (
    (equal_fold (codes "uk") country_random ≡ false)
    × (equal_fold (codes "uk") country_uk ≡ true)
    × (nowhere.find_country_by_alpha (codes "uk") ≡ none)
    × (nowhere.find_country_by_alpha country_gb ≡ none))
find_country-eq-false_iff_case = find_country-eq-false_iff nowhere (codes "uk")

abbrev titles : List Bytes
titles = codes "country" ∷ codes "city" ∷ []

abbrev rows : List (List Bytes)
rows = (codes "us" ∷ codes "austin" ∷ []) ∷ (codes "de" ∷ codes "berlin" ∷ []) ∷ []

abbrev cities : Assoc (Unit {0})
cities = (codes "us-austin", tt) ∷ (codes "de-berlin", tt) ∷ []

load_two : new_base (map some (titles ∷ rows)) ≡ some cities
unfolding new_base load_rows insert join
load_two = refl

find_city-listed_case :
    find_city cities (codes "de") (codes "berlin") ≡ listed (codes "de-berlin") rows
find_city-listed_case = find_city-listed titles rows cities (codes "de") (codes "berlin") load_two
