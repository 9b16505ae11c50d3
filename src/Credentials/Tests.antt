-- ===== src/Credentials/Tests.antt =====
-- pkg/utils.go, `parseBasicAuth`, on credentials of a few bytes.
use coinsurf_proxy.Base.{◌≡◌, refl, arith, none, some, codes}
use coinsurf_proxy.Credentials.{
  parse_basic_auth, decode, decode_quanta, quantum, sextet, cut, without_newlines,
}
use coinsurf_proxy.Credentials.Base64.{encode, parse_basic_auth-encode}

-- A truncated quantum is refused.
parse_truncated : parse_basic_auth (codes "Basic dTpwd") ≡ none
unfolding parse_basic_auth decode decode_quanta quantum sextet cut without_newlines
parse_truncated = refl

parse_basic_auth-encode_example :
    parse_basic_auth (codes "Basic dTpr") ≡ some (codes "u", codes "k")
unfolding encode
parse_basic_auth-encode_example =
    parse_basic_auth-encode b'B' b'a' b's' b'i' b'c' b' ' (codes "u") (codes "k")
      ((λ e. omega (arith, e)), tt) (omega arith, tt) (omega arith, tt)
