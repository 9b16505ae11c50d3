-- ===== src/Username/Tests.antt =====
-- pkg/username.go on user names of README.md, and the theorems about it at such names.
use coinsurf_proxy.Base.{
  ◌*◌, ◌≡◌, refl, true, false, none, some, [], ◌∷◌, Bytes, codes, split, join, length, arith, sle64,
  slt64,
}
use coinsurf_proxy.Auth.{
  Outcome, ok, err, panic, unknown_city, invalid_targeting, invalid_param, other,
}
use coinsurf_proxy.Request.{Request, new_request}
use coinsurf_proxy.Username.Inversion.{parsed}
use coinsurf_proxy.Username.Panics.{HasDanglingKey, parse-eq-panic, parse_panics}
use coinsurf_proxy.Username.Targeting.{IsTargeted, IsLocated, names_target, parse-IsTargeted}
use coinsurf_proxy.Username.Session.{parse-session_id, parse-session_duration}
use coinsurf_proxy.Username.Keeps.{identity, parse-identity}
use coinsurf_proxy.Username.RoundTrip.{assign_all, parsed-print_username}
use coinsurf_proxy.Username.{
  LocationLookup, UsernameParser, Parsing, keyword, atoi, param_at, assign, parse_param,
  parse_params, check_targeting, check_location, add_session, parse, second,
}

-- Everything that a run of `Parse` computes with.
parser : Unit {0}
unfolding keyword atoi param_at assign parse_param parse_params check_targeting check_location
    add_session parse split
parser = tt

abbrev lookup : LocationLookup
lookup = record { find_country = λ c. true; find_region = λ c g. true; find_city = λ c t. false }

abbrev config : UsernameParser
config = record {
  session_duration = 600 * second;
  session_duration_max = 1800 * second;
  location = lookup;
}

abbrev run : Bytes → Outcome Request
run name = parse length config name new_request

abbrev us_session : Bytes
us_session = codes "country-us-session-12345678-duration-300"

abbrev us_request : Request
us_request = record new_request {
  country = some (codes "us");
  session_id = 10;
  session_duration = 300 * second;
}

run_session : run us_session ≡ ok us_request
unfolding parser
run_session = refl

run_city : run (codes "country-us-city-los_angeles") ≡ err unknown_city
unfolding parser
run_city = refl

run_untargeted : run (codes "session-abc") ≡ err invalid_targeting
unfolding parser
run_untargeted = refl

run_long_country : run (codes "country-usa") ≡ err invalid_param
unfolding parser
run_long_country = refl

run_no_number : run (codes "country-us-duration-1x") ≡ err other
unfolding parser
run_no_number = refl

-- The session behind the flag is read as a value and lost.
run_flag_first :
    run (codes "country-us-ipv4-session-abc")
    ≡ ok (record new_request { country = some (codes "us"); ipv4 = true })
unfolding parser
run_flag_first = refl

-- A number of seconds that overflows int64 nanoseconds.
run_overflow :
    run (codes "country-us-session-12345678-duration-9223372037")
    ≡ ok (record us_request { session_duration = 600 * second })
unfolding parser
run_overflow = refl

run_dangling : run (codes "country-us-session") ≡ panic
unfolding parser
run_dangling = refl

parse-eq-panic_example : HasDanglingKey 0 (split b'-' (codes "country-us-session"))
parse-eq-panic_example =
    parse-eq-panic length config (codes "country-us-session") new_request run_dangling

abbrev us_only : Parsing
us_only = record { session_id = none; req = record new_request { country = some (codes "us") } }

parse_panics_case : run (codes "country-us-CITY") ≡ panic
unfolding parser
parse_panics_case =
    parse_panics length config (codes "country-us-CITY") new_request
      (codes "country" ∷ codes "us" ∷ []) (codes "CITY") us_only refl (omega arith) refl refl

parse-IsTargeted_example :
    (names_target 0 (split b'-' us_session) ≡ true)
    × IsTargeted us_request
    × IsLocated lookup us_request
parse-IsTargeted_example =
    parse-IsTargeted length config us_session new_request us_request refl run_session

abbrev us_parsing : Parsing
us_parsing = record {
  session_id = some (codes "12345678");
  req = record us_request { session_id = 0 };
}

us_loop : parsed new_request us_session ≡ ok us_parsing
unfolding parser
us_loop = refl

parse-session_id_case : us_request.session_id ≡ 10
unfolding parser
parse-session_id_case =
    parse-session_id length config us_session new_request us_request us_parsing us_loop run_session
      (omega arith)

parse-session_duration_case :
    (slt64 0 us_request.session_duration ≡ true)
    × (sle64 us_request.session_duration config.session_duration_max ≡ true)
parse-session_duration_case =
    parse-session_duration length config us_session new_request us_request us_parsing us_loop
      run_session (omega arith) refl refl

parsed-print_username_example :
    parsed new_request (codes "country-us-city-ny")
    ≡ assign_all
        ((codes "country", codes "us") ∷ (codes "city", codes "ny") ∷ [])
        (record { session_id = none; req = new_request })
unfolding join
parsed-print_username_example =
    parsed-print_username new_request (codes "country") (codes "us")
      ((codes "city", codes "ny") ∷ []) (omega arith)

parse-identity_example : identity us_request ≡ identity new_request
parse-identity_example = parse-identity length config us_session new_request us_request run_session
