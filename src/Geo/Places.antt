-- ===== src/Geo/Places.antt =====
-- internal/geo/formatter.go and pkg/location/worldcities.go together: which places are known.
use coinsurf_proxy.Base.{
  ℕ, ◌≡◌, refl, ap, ◌∙◌, subst, Bool, true, false, ◌||◌, some, is_some, List, [], ◌∷◌, Bytes, Assoc,
  lookup, insert, lookup-insert, bytes_eq, length, ltb, ◌==◌, if◌then◌else◌, inl, inr, Bool-cases,
  some_inj, arith,
}
use coinsurf_proxy.Geo.{
  Country, Region, City, Row, has_id, collect, values, country_of, region_of, city_of, format,
  load_values, country_key, region_key, city_key, load,
}
use coinsurf_proxy.Username.{LocationLookup, equal_fold}
use coinsurf_proxy.Location.{World, world, new_world, place, country_random}

abbrev pub any {ℓ} : {A : Type ℓ} → (A → Bool) → List A → Bool
any p [] = false
any p (x ∷ xs) = p x || any p xs

-- An id is among those that were seen.
abbrev pub seen : ℕ → List ℕ → Bool
seen i [] = false
seen i (j ∷ js) = if j == i then true else seen i js

-- The rows whose id no row before them has.
abbrev pub firsts : (Row → ℕ) → List ℕ → List Row → List Row
firsts id ids [] = []
firsts id ids (r ∷ rows) =
    let fresh = firsts id (id r ∷ ids) rows in
    let known = firsts id ids rows in if seen (id r) ids then known else r ∷ fresh

module _ {V : Type 0} where
  ids_of : List (ℕ × V) → List ℕ
  ids_of [] = []
  ids_of ((i, v) ∷ m) = i ∷ ids_of m

  has_id-seen : (i : ℕ) (m : List (ℕ × V)) → has_id i m ≡ seen i (ids_of m)
  unfolding has_id ids_of
  has_id-seen i [] = refl
  has_id-seen i ((j, v) ∷ m) = ap (λ b. if j == i then true else b) (has_id-seen i m)

  -- The key of some entry or of some row that is the first of its id.
  collect-any :
      (id : Row → ℕ) (make : Row → V) (p : V → Bool) (rows : List Row) (m : List (ℕ × V))
      → any p (values (collect id make rows m))
        ≡ (any (λ r. p (make r)) (firsts id (ids_of m) rows) || any p (values m))
  unfolding collect values ids_of
  collect-any id make p [] m = refl
  collect-any id make p (r ∷ rows) m = elim (Bool-cases (seen (id r) (ids_of m))) [
    | inl known ↦ rw (known, has_id-seen (id r) m) (rw known (collect-any id make p rows m))
    | inr fresh ↦
        ground (arith, fresh, has_id-seen (id r) m, collect-any id make p rows ((id r, make r) ∷ m))
  ]

  load_values-any :
      (key : V → Bytes) (k : Bytes) (vs : List V) (m : Assoc V)
      → is_some (lookup k (load_values key vs m))
        ≡ (any (λ v. bytes_eq (key v) k) vs || is_some (lookup k m))
  unfolding load_values
  load_values-any key k [] m = refl
  load_values-any key k (v ∷ vs) m =
      ground (arith, load_values-any key k vs (insert (key v) v m), lookup-insert (key v) k v m)

loaded-any :
    {V : Type 0} (id : Row → ℕ) (make : Row → V) (key : V → Bytes) (k : Bytes) (rows : List Row)
    → is_some (lookup k (load_values key (values (collect id make rows [])) []))
      ≡ any (λ r. bytes_eq (key (make r)) k) (firsts id [] rows)
unfolding ids_of values lookup
loaded-any id make key k rows = ground (
  arith,
  load_values-any key k (values (collect id make rows [])) [],
  collect-any id make (λ v. bytes_eq (key v) k) rows [],
)

-- What the lookup of the world accepts, of the rows that `Format` was given.
abbrev pub Accepts : List Row → LocationLookup → Type 0
Accepts rows l =
    ((country : Bytes)
      → l.find_country country ≡ (
          if equal_fold country country_random
          then true
          else any (λ r. bytes_eq (country_key (country_of r)) country)
              (firsts (λ r. r.country_id) [] rows)))
    × ((country region : Bytes)
        → l.find_region country region
          ≡ any (λ r. bytes_eq (region_key (region_of r)) (place country region))
              (firsts (λ r. r.state_id) [] rows))
    × ((country city : Bytes)
        → l.find_city country city
          ≡ any (λ r. bytes_eq (city_key (city_of r)) (place country city))
              (firsts (λ r. r.id) [] rows))

-- The world of what `Format` returns.
abbrev world_of : List Country × List Region × List City → World
world_of (countries, regions, cities) = record {
  countries = load_values country_key countries [];
  regions = load_values region_key regions [];
  cities = load_values city_key cities [];
}

world_of-Accepts :
    (rows : List Row)
    → Accepts rows (
        world (
          world_of (
            values (collect (λ r. r.country_id) country_of rows []),
            values (collect (λ r. r.state_id) region_of rows []),
            values (collect (λ r. r.id) city_of rows []),
          )))
unfolding world
world_of-Accepts rows = (
  λ country.
      ap (λ b. if equal_fold country country_random then true else b)
        (loaded-any (λ r. r.country_id) country_of country_key country rows),
  λ country region. loaded-any (λ r. r.state_id) region_of region_key (place country region) rows,
  λ country city. loaded-any (λ r. r.id) city_of city_key (place country city) rows,
)

-- The world that is made of the files of formatted rows knows just the countries, regions and cities
-- of the rows that are the first of their country, state or city id, and the random country.
pub new_world-Accepts :
    (rows : List Row) (countries : List Country) (regions : List Region) (cities : List City)
    (w : World)
    → format (some rows) ≡ some (countries, regions, cities)
    → new_world (some countries) (some regions) (some cities) ≡ some w
    → Accepts rows (world w)
unfolding format new_world load
new_world-Accepts rows countries regions cities w formatted loaded =
    elim (Bool-cases (ltb (length rows) 10)) [
      | inl few ↦ absurd (ground (arith, formatted, few))
      | inr enough ↦
          subst (λ x. Accepts rows (world x))
            (ap world_of (some_inj (rw (enough, format) at formatted)) ∙ some_inj loaded)
            (world_of-Accepts rows)
    ]
