-- ===== src/Router/Genji/Routing/Targets.antt =====
-- pkg/router/genji.go, `pick`: which node a request asks for.
use coinsurf_proxy.Base.{
  ◌≡◌, ◌≢◌, sym, ap, ◌∙◌, ◌⊎◌, ◌↔◌, true, false, Option, none, some, [], ◌++◌, Bytes, codes,
  bytes_eq, arith,
}
use coinsurf_proxy.Auth.{err, other}
use coinsurf_proxy.Node.{Node}
use coinsurf_proxy.Request.{Request, is_random_location, country_random}
use coinsurf_proxy.Router.{nodes_select_query}
use coinsurf_proxy.Router.Genji.{Database, Cache, Codec, Genji}
use coinsurf_proxy.Router.Genji.Actions.{Action}
use coinsurf_proxy.Router.Genji.Routing.{target_query, pick_where, pick_from, pick}

-- The country is not the word for a random location.
abbrev pub IsSpecific : Bytes → Type 0
IsSpecific country = bytes_eq country country_random ≡ false

target_query-city :
    (r : Request) (country region : Bytes) (city : Option Bytes)
    → IsSpecific country
    → r.country ≡ some country
    → r.region ≡ some region
    → target_query (record r { city = city }) ≡ target_query r
unfolding target_query is_random_location
target_query-city r country region city specific c g = ground arith

random_country : (r : Request) → r.country ≡ some country_random → is_random_location r ≡ true
unfolding is_random_location
random_country r c = ground arith

target_query_random :
    (r : Request)
    → is_random_location r ≡ true
    → target_query r ≡ some (nodes_select_query ++ codes " ORDER BY ranking ASC LIMIT 1", [])
unfolding target_query
target_query_random r c = rw (c, target_query)

target_query-eq-none_iff :
    (r : Request)
    → r.pool ≡ none
    → (target_query r ≡ none)
      ↔ ((r.ip ≡ none) × (r.country ≡ none) × ((r.region ≢ none) ⊎ (r.city ≢ none)))
unfolding target_query is_random_location
target_query-eq-none_iff r p = (λ h. ground arith, λ h. ground arith)

module _ {d : Database} {c : Cache} (codec : Codec) where
  pick_lem :
      (r : Request)
      → r.pool ≡ none
      → pick {d = d} {c = c} codec r ≡ pick_from codec (target_query r)
  unfolding pick
  pick_lem r p = ap (λ o. pick_where codec o (pick_from codec (target_query r))) p

  -- Of a request (with no pool) for a city and a region in a country, the city is ignored: any
  -- other city, or none, leads to the same choice.
  pub pick-city :
      (r : Request) (country region : Bytes) (city : Option Bytes)
      → IsSpecific country
      → r.country ≡ some country
      → r.region ≡ some region
      → r.pool ≡ none
      → pick {d = d} {c = c} codec (record r { city = city }) ≡ pick codec r
  pick-city r country region city specific rc rg rp =
      pick_lem (record r { city = city }) rp
      ∙ (ap (pick_from codec) (target_query-city r country region city specific rc rg)
          ∙ sym (pick_lem r rp))

  -- A request (with no pool) for the random country "rr" ignores IP, region and city.
  pub pick_random :
      (r : Request) (ip region city : Option Bytes)
      → r.country ≡ some country_random
      → r.pool ≡ none
      → pick {d = d} {c = c} codec (record r { ip = ip; region = region; city = city })
        ≡ pick codec r
  pick_random r ip region city rc rp =
      let r' : Request = record r { ip = ip; region = region; city = city } in
      pick_lem r' rp
      ∙ (ap (pick_from codec) (
            target_query_random r' (random_country r' rc)
            ∙ sym (target_query_random r (random_country r rc)))
          ∙ sym (pick_lem r rp))

  -- A request with a region or a city but neither country, IP nor pool is refused with an error,
  -- and the router does not change.
  pub pick_refused :
      (r : Request) (g : Genji d c)
      → r.pool ≡ none
      → r.ip ≡ none
      → r.country ≡ none
      → (r.region ≢ none) ⊎ (r.city ≢ none)
      → pick codec r g ≡ (err other, g)
  pick_refused r g rp ri rc h =
      ap (λ (f : Action d c (Node × Bytes)). f g) (pick_lem r rp)
      ∙ ap (λ q. pick_from codec q g) ((target_query-eq-none_iff r rp).1 (ri, rc, h))
