-- ===== src/Geo.antt =====
-- internal/geo/formatter.go: the world's cities, from the records of a file to the maps that the
-- location lookup reads. Files and JSON are given as what is read from them; the ranges over maps
-- follow the order of the lists.
pub mod Names
pub mod Places
mod Tests
use coinsurf_proxy.Base.{
  ℕ, zero, suc, ◌+◌, ◌-◌, Bool, true, false, Option, none, some, is_some, List, [], ◌∷◌, ◌++◌, map,
  Bytes, codes, Assoc, insert, length, ltb, ◌==◌, if◌then◌else◌,
}
use coinsurf_proxy.Router.{lower}
use coinsurf_proxy.Username.{strip_prefix}

pub record Country : Type 0 where
  pub code : Bytes
  pub name : Bytes

pub record Region : Type 0 where
  pub country_code : Bytes
  pub code : Bytes
  pub name : Bytes

pub record City : Type 0 where
  pub region_code : Bytes
  pub country_code : Bytes
  pub name : Bytes

-- `record`.
pub record Row : Type 0 where
  pub id : ℕ
  pub name : Bytes
  pub state_id : ℕ
  pub state_code : Bytes
  pub state_name : Bytes
  pub country_id : ℕ
  pub country_code : Bytes
  pub country_name : Bytes

-- `strings.Replace(s, old, new, -1)` for an `old` that is not empty; `skip` bytes of an occurrence
-- are still to be passed over.
unfoldable pub replace_from : ℕ → Bytes → Bytes → Bytes → Bytes
unfolding strip_prefix
replace_from skip old new [] = []
replace_from (suc skip) old new (c ∷ s) = replace_from skip old new s
replace_from zero old new (c ∷ s) =
    let inside = replace_from (length old - 1) old new s in
    let behind = replace_from zero old new s in
    if is_some (strip_prefix old (c ∷ s)) then new ++ inside else c ∷ behind

abbrev pub replace : Bytes → Bytes → Bytes → Bytes
replace old new s = replace_from zero old new s

-- The pairs that `rename` replaces, in its order. The fourth is the right single quotation mark in
-- UTF-8.
abbrev pub renamed : List (Bytes × Bytes)
renamed =
    (b'-' ∷ [], b'_' ∷ [])
    ∷ (b' ' ∷ [], b'_' ∷ [])
    ∷ (b'`' ∷ [], [])
    ∷ (0xE2 ∷ 0x80 ∷ 0x99 ∷ [], [])
    ∷ (b'\'' ∷ [], [])
    ∷ (b',' ∷ [], [])
    ∷ []

unfoldable pub replace_all : List (Bytes × Bytes) → Bytes → Bytes
unfolding replace_from
replace_all [] s = s
replace_all ((old, new) ∷ pairs) s = replace_all pairs (replace old new s)

-- `strings.ToLower` is that of ASCII texts.
unfoldable pub rename : Bytes → Bytes
unfolding replace_all
rename n = lower (replace_all renamed n)

abbrev pub region_words : List (Bytes × Bytes)
region_words =
    (codes "_oblast", [])
    ∷ (codes "_state", [])
    ∷ (codes "_region", [])
    ∷ (codes "_province", [])
    ∷ (codes "_division", [])
    ∷ (codes "_county", [])
    ∷ (codes "_prefecture", [])
    ∷ (codes "_district", [])
    ∷ (codes "_governorate", [])
    ∷ (codes "_municipality", [])
    ∷ (codes "_voivodeship", [])
    ∷ (codes "_krai", [])
    ∷ (codes "_pradesh", [])
    ∷ (codes "_quarter", [])
    ∷ []

unfoldable pub remove_region_word : Bytes → Bytes
unfolding replace_all
remove_region_word n = replace_all region_words n

module _ {V : Type 0} where
  unfoldable pub has_id : ℕ → List (ℕ × V) → Bool
  has_id i [] = false
  has_id i ((j, v) ∷ m) = if j == i then true else has_id i m

  -- One of the three maps of `Format`: the first row of an id gives its entry.
  unfoldable pub collect : (Row → ℕ) → (Row → V) → List Row → List (ℕ × V) → List (ℕ × V)
  unfolding has_id
  collect id make [] m = m
  collect id make (r ∷ rows) m =
      collect id make rows (if has_id (id r) m then m else (id r, make r) ∷ m)

  -- The values of a map, as the goroutines copy them.
  unfoldable pub values : List (ℕ × V) → List V
  values [] = []
  values ((i, v) ∷ m) = v ∷ values m

abbrev pub country_of : Row → Country
country_of r = record { code = lower r.country_code; name = rename r.country_name }

abbrev pub region_of : Row → Region
region_of r = record {
  country_code = lower r.country_code;
  code = lower r.state_code;
  name = remove_region_word (rename r.state_name);
}

abbrev pub city_of : Row → City
city_of r = record {
  region_code = lower r.state_code;
  country_code = lower r.country_code;
  name = rename r.name;
}

-- `Format`; `none` as rows is a file that cannot be read or parsed.
unfoldable pub format : Option (List Row) → Option (List Country × List Region × List City)
unfolding collect values rename remove_region_word
format none = none
format (some rows) =
    if ltb (length rows) 10
    then none
    else some (
      values (collect (λ r. r.country_id) country_of rows []),
      values (collect (λ r. r.state_id) region_of rows []),
      values (collect (λ r. r.id) city_of rows []),
    )

-- One of the three maps of `Load`.
unfoldable pub load_values : {V : Type 0} → (V → Bytes) → List V → Assoc V → Assoc V
unfolding insert
load_values key [] m = m
load_values key (v ∷ vs) m = load_values key vs (insert (key v) v m)

abbrev pub country_key : Country → Bytes
country_key c = c.code

abbrev pub region_key : Region → Bytes
region_key r = r.country_code ++ (codes "-" ++ r.name)

abbrev pub city_key : City → Bytes
city_key c = c.country_code ++ (codes "-" ++ c.name)

-- `Load`; `none` is a file that cannot be read or parsed.
unfoldable pub load :
    Option (List Country)
    → Option (List Region)
    → Option (List City)
    → Option (Assoc Country × Assoc Region × Assoc City)
unfolding load_values
load none regions cities = none
load (some countries) none cities = none
load (some countries) (some regions) none = none
load (some countries) (some regions) (some cities) = some (
  load_values country_key countries [],
  load_values region_key regions [],
  load_values city_key cities [],
)
