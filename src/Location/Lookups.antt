-- ===== src/Location/Lookups.antt =====
-- pkg/location/base.go: what `FindCountry` and `FindCity` accept.
use coinsurf_proxy.Base.{
  ◌≡◌, sym, ap, ◌∙◌, ◌↔◌, Bool, true, false, ◌||◌, none, some, some_inj, List, [], ◌∷◌, Bytes,
  codes, Assoc, lookup, insert, lookup-insert, bytes_eq, is_some, map, join, arith,
}
use coinsurf_proxy.Username.{equal_fold}
use coinsurf_proxy.Location.{
  Gountries, country_uk, country_gb, country_random, place, find_country, find_city, load_rows,
  new_base,
}

-- `FindCountry` accepts every text, a country or not, except "uk" in any case where gountries knows
-- neither that text nor "gb".
pub find_country-eq-false_iff :
    (g : Gountries) (country : Bytes)
    → (find_country g country ≡ false) ↔ (
        (equal_fold country country_random ≡ false)
        × (equal_fold country country_uk ≡ true)
        × (g.find_country_by_alpha country ≡ none)
        × (g.find_country_by_alpha country_gb ≡ none))
unfolding find_country
find_country-eq-false_iff g country = (λ h. ground (arith, h), λ h. ground (arith, h))

-- One of the rows, joined by "-", is the key.
abbrev pub listed : Bytes → List (List Bytes) → Bool
listed key [] = false
listed key (row ∷ rows) = bytes_eq (join (codes "-") row) key || listed key rows

load_rows-lookup :
    (key : Bytes) (rows : List (List Bytes)) (cities cities' : Assoc (Unit {0}))
    → load_rows (map some rows) cities ≡ some cities'
    → is_some (lookup key cities') ≡ (listed key rows || is_some (lookup key cities))
unfolding load_rows
load_rows-lookup key [] cities cities' e = ap (λ x. is_some (lookup key x)) (sym (some_inj e))
load_rows-lookup key (row ∷ rows) cities cities' e = ground (
  arith,
  load_rows-lookup key rows (insert (join (codes "-") row) tt cities) cities' e,
  lookup-insert (join (codes "-") row) key tt cities,
)

-- From a file of which every row can be read, `FindCity` accepts just the cities of which a row
-- behind the first one, joined by "-", is the text "country-city".
pub find_city-listed :
    (titles : List Bytes) (rows : List (List Bytes)) (cities : Assoc (Unit {0}))
    (country city : Bytes)
    → new_base (map some (titles ∷ rows)) ≡ some cities
    → find_city cities country city ≡ listed (place country city) rows
unfolding new_base find_city
find_city-listed titles rows cities country city e =
    load_rows-lookup (place country city) rows [] cities e ∙ ground arith
