-- ===== src/Api/Tests.antt =====
-- pkg/api.go on a call for nodes of two countries, and the theorems about it there.
use coinsurf_proxy.Base.{
  ◌≡◌, ◌≢◌, refl, ◌↔◌, true, false, if◌then◌else◌, List, [], ◌∷◌, map, codes, bytes_eq, lower_byte,
  split, arith,
}
use coinsurf_proxy.Auth.{ok, panic}
use coinsurf_proxy.Router.{apply_all, new_query, filter_country, filter_limit, Filter}
use coinsurf_proxy.Api.{Call, no_value, number, authorized, extract_filters}
use coinsurf_proxy.Api.Listing.{query_of, authorized_iff, extract_filters-query_of}

abbrev call : Call
call = record {
  authorization = codes "kEy";
  get_uint = λ name. if bytes_eq name (codes "limit") then number 5 else no_value;
  peek = λ name. if bytes_eq name (codes "country") then codes "us,de" else [];
  parse_ip = λ ip. false;
  lookup_ip = λ ip. panic;
}

abbrev filters : List Filter
filters = filter_limit 5 ∷ filter_country (codes "us" ∷ codes "de" ∷ []) ∷ []

extract_call : extract_filters call ≡ ok filters
unfolding extract_filters split
extract_call = refl

authorized_iff_case :
    (authorized (codes "Key") call ≡ true)
    ↔ ((codes "kEy" ≢ []) × (map lower_byte (codes "kEy") ≡ map lower_byte (codes "Key")))
authorized_iff_case =
    authorized_iff (codes "Key") call (omega arith, (omega arith, (omega arith, tt)))

extract_filters-query_of_example : apply_all filters new_query ≡ query_of call
extract_filters-query_of_example = extract_filters-query_of call extract_call
