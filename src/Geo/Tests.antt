-- ===== src/Geo/Tests.antt =====
-- internal/geo/formatter.go on names and on ten rows, and the theorems about it there.
use coinsurf_proxy.Base.{
  ℕ, ◌≡◌, refl, true, Option, none, some, List, [], ◌∷◌, Bytes, codes, All, lookup, insert,
}
use coinsurf_proxy.Username.{strip_prefix, equal_fold, take_fold}
use coinsurf_proxy.Geo.{
  Country, Region, City, Row, replace_from, replace_all, rename, remove_region_word, has_id,
  collect, values, format, load_values, load,
}
use coinsurf_proxy.Geo.Names.{IsPlain, rename-IsPlain}
use coinsurf_proxy.Geo.Places.{Accepts, new_world-Accepts}
use coinsurf_proxy.Location.{World, world, new_world}

computes : Unit {0}
unfolding strip_prefix replace_from replace_all rename remove_region_word has_id collect values
    format load_values load new_world world lookup insert equal_fold take_fold
computes = tt

run_rename : rename (codes "Val-d'Or, St") ≡ codes "val_dor_st"
unfolding computes
run_rename = refl

run_remove_region_word : remove_region_word (codes "kyiv_oblast") ≡ codes "kyiv"
unfolding computes
run_remove_region_word = refl

-- A word is removed inside a longer one too.
run_states : remove_region_word (codes "free_states") ≡ codes "frees"
unfolding computes
run_states = refl

rename-IsPlain_example : All IsPlain (rename (codes "Val-d'Or"))
rename-IsPlain_example = rename-IsPlain (codes "Val-d'Or")

abbrev row : ℕ → Bytes → Row
row id name = record {
  id = id;
  name = name;
  state_id = 1;
  state_code = codes "QC";
  state_name = codes "Quebec Province";
  country_id = 1;
  country_code = codes "CA";
  country_name = codes "Canada";
}

-- The last row has the id of the first one.
abbrev rows : List Row
rows =
    row 1 (codes "A")
    ∷ row 2 (codes "B b")
    ∷ row 3 (codes "C")
    ∷ row 4 (codes "D")
    ∷ row 5 (codes "E")
    ∷ row 6 (codes "F")
    ∷ row 7 (codes "G")
    ∷ row 8 (codes "H")
    ∷ row 9 (codes "I")
    ∷ row 1 (codes "J")
    ∷ []

abbrev city : Bytes → City
city name = record { region_code = codes "qc"; country_code = codes "ca"; name = name }

abbrev countries : List Country
countries = record { code = codes "ca"; name = codes "canada" } ∷ []

abbrev regions : List Region
regions = record { country_code = codes "ca"; code = codes "qc"; name = codes "quebec" } ∷ []

abbrev cities : List City
cities =
    city (codes "i")
    ∷ city (codes "h")
    ∷ city (codes "g")
    ∷ city (codes "f")
    ∷ city (codes "e")
    ∷ city (codes "d")
    ∷ city (codes "c")
    ∷ city (codes "b_b")
    ∷ city (codes "a")
    ∷ []

run_format : format (some rows) ≡ some (countries, regions, cities)
unfolding computes
run_format = refl

abbrev known : Option World
known = new_world (some countries) (some regions) (some cities)

abbrev the_world : World
the_world = elim known [ none ↦ record { countries = []; regions = []; cities = [] } | some w ↦ w ]

run_world : known ≡ some the_world
unfolding computes
run_world = refl

run_find_city : (world the_world).find_city (codes "ca") (codes "b_b") ≡ true
unfolding computes
run_find_city = refl

new_world-Accepts_example : Accepts rows (world the_world)
new_world-Accepts_example =
    new_world-Accepts rows countries regions cities the_world run_format run_world
