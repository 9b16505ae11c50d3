-- ===== src/Resolver/Names.antt =====
-- pkg/resolver/ip2location.go against internal/geo/formatter.go: the two names of a city.
use coinsurf_proxy.Base.{
  ℕ, suc, ◌≡◌, refl, sym, ap, ◌∙◌, ◌↔◌, ◌<◌, ◌≤◌, Bool, true, false, ◌&&◌, ◌||◌, some, [], ◌∷◌, map,
  Bytes, All, length, leb, ◌==◌, if◌then◌else◌, inl, inr, Bool-cases, some_inj, ltb, arith,
}
use coinsurf_proxy.Router.{lower}
use coinsurf_proxy.Username.{strip_prefix}
use coinsurf_proxy.Geo.{replace_from, replace, replace_all, rename, Row, city_of}
use coinsurf_proxy.Resolver.{
  Ip2LocationRecord, Ip2Location, ResolvedPlace, only_words, colons, city_name, found_place,
  lookup_ip,
}

-- An ASCII letter, a digit or a space.
abbrev pub is_simple : ℕ → Bool
is_simple c =
    leb b'0' c && leb c b'9'
    || (leb b'A' c && leb c b'Z' || (leb b'a' c && leb c b'z' || c == b' '))

abbrev pub IsSimple : Bytes → Type 0
IsSimple = All (λ c. is_simple c ≡ true)

abbrev pub has_space : Bytes → Bool
has_space [] = false
has_space (c ∷ s) = c == b' ' || has_space s

-- The replacement of a text that does not begin at any byte changes nothing.
replace-absent :
    (b : ℕ) (old new s : Bytes) → All (λ c. (c == b) ≡ false) s → replace (b ∷ old) new s ≡ s
unfolding replace_from strip_prefix
replace-absent b old new [] h = refl
replace-absent b old new (c ∷ s) h = rw h.0 (ap (λ x. c ∷ x) (replace-absent b old new s h.1))

abbrev underscored : ℕ → ℕ
underscored c = if c == b' ' then b'_' else c

replace-space : (s : Bytes) → replace (b' ' ∷ []) (b'_' ∷ []) s ≡ map underscored s
unfolding replace_from strip_prefix
replace-space [] = refl
replace-space (c ∷ s) = elim (Bool-cases (c == b' ')) [
  | inl space ↦ rw space (ap (λ x. b'_' ∷ x) (replace-space s))
  | inr other ↦ rw other (ap (λ x. c ∷ x) (replace-space s))
]

IsSimple-absent :
    (b : ℕ) (s : Bytes) → is_simple b ≡ false → IsSimple s → All (λ c. (c == b) ≡ false) s
IsSimple-absent b [] out h = tt
IsSimple-absent b (c ∷ s) out h = (ground (arith, out, h.0), IsSimple-absent b s out h.1)

underscored-absent :
    (b : ℕ) (s : Bytes)
    → is_simple b ≡ false
    → (b == b'_') ≡ false
    → IsSimple s
    → All (λ c. (c == b) ≡ false) (map underscored s)
underscored-absent b [] out other h = tt
underscored-absent b (c ∷ s) out other h =
    (ground (arith, out, other, h.0), underscored-absent b s out other h.1)

-- `rename` behind its fourth, third, second and first replacement.
abbrev behind_mark : Bytes → Bytes
behind_mark s = replace (b',' ∷ []) [] (replace (b'\'' ∷ []) [] s)

abbrev behind_backquote : Bytes → Bytes
behind_backquote s = behind_mark (replace (0xE2 ∷ 0x80 ∷ 0x99 ∷ []) [] s)

abbrev behind_space : Bytes → Bytes
behind_space s = behind_backquote (replace (b'`' ∷ []) [] s)

abbrev behind_dash : Bytes → Bytes
behind_dash s = behind_space (replace (b' ' ∷ []) (b'_' ∷ []) s)

rename-underscored : (n : Bytes) → IsSimple n → rename n ≡ lower (map underscored n)
unfolding rename replace_all
rename-underscored n h =
    let u = map underscored n in
    ap lower (
      ap behind_dash (replace-absent b'-' [] (b'_' ∷ []) n (IsSimple-absent b'-' n refl h))
      ∙ (ap behind_space (replace-space n)
          ∙ (ap behind_backquote
                (replace-absent b'`' [] [] u (underscored-absent b'`' n refl refl h))
              ∙ (ap behind_mark (
                    replace-absent 0xE2 (0x80 ∷ 0x99 ∷ []) [] u
                      (underscored-absent 0xE2 n refl refl h))
                  ∙ (ap (replace (b',' ∷ []) [])
                        (replace-absent b'\'' [] [] u (underscored-absent b'\'' n refl refl h))
                      ∙ replace-absent b',' [] [] u (underscored-absent b',' n refl refl h))))))

length-lower : (s : Bytes) → length (lower s) ≡ length s
length-lower [] = refl
length-lower (c ∷ s) = ap suc (length-lower s)

length-underscored : (s : Bytes) → length (map underscored s) ≡ length s
length-underscored [] = refl
length-underscored (c ∷ s) = ap suc (length-underscored s)

-- Without spaces both names are the lower-case one; with a space the resolver's is shorter.
city_name-plain :
    (n : Bytes) → IsSimple n → has_space n ≡ false → city_name n ≡ lower (map underscored n)
unfolding only_words
city_name-plain [] h none_there = refl
city_name-plain (c ∷ n) h none_there = ground (arith, h.0, none_there, city_name-plain n h.1)

length-city_name : (n : Bytes) → length (city_name n) ≤ length n
unfolding only_words
length-city_name [] = omega arith
length-city_name (c ∷ n) = ground (arith, length-city_name n)

length-city_name-space : (n : Bytes) → has_space n ≡ true → length (city_name n) < length n
unfolding only_words
length-city_name-space [] h = cc
length-city_name-space (c ∷ n) h = ground (arith, h, length-city_name n, length-city_name-space n)

-- The name of a city of ASCII letters, digits and spaces is the same for nodes, as the resolver gives
-- it, and for clients, as the formatter writes it, just where it has no space.
pub city_name-rename : (n : Bytes) → IsSimple n → (city_name n ≡ rename n) ↔ (has_space n ≡ false)
city_name-rename n h = (
  λ same. elim (Bool-cases (has_space n)) [
    | inr none_there ↦ none_there
    | inl there ↦ absurd (
        omega (
          arith,
          ap length (same ∙ rename-underscored n h),
          length-lower (map underscored n),
          length-underscored n,
          length-city_name-space n there,
        ))
  ],
  λ none_there. city_name-plain n h none_there ∙ sym (rename-underscored n h),
)

-- What `LookupIP` finds is the city of the formatter's row with the same names, just where the
-- city's name has no space.
pub lookup_ip-city_iff :
    (w : Ip2Location) (addr : Bytes) (c : Ip2LocationRecord) (place : ResolvedPlace) (r : Row)
    → (if ltb 1 (colons addr) then w.ipv6 addr else w.ipv4 addr) ≡ some c
    → lookup_ip w addr ≡ some place
    → r.name ≡ c.city
    → IsSimple c.city
    → (place.city ≡ (city_of r).name) ↔ (has_space c.city ≡ false)
unfolding lookup_ip
lookup_ip-city_iff w addr c place r found looked named simple =
    let place_city : place.city ≡ city_name c.city =
      ap (λ (x : ResolvedPlace). x.city) (sym (some_inj (sym (ap found_place found) ∙ looked))) in
    rw (place_city, named) (city_name-rename c.city simple)
