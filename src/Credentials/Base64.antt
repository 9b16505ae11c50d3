-- ===== src/Credentials/Base64.antt =====
-- pkg/utils.go, `parseBasicAuth`, and the encoding of the credentials that it reads.
use coinsurf_proxy.Base.{
  ℕ, suc, ◌+◌, ◌-◌, ◌*◌, ◌/◌, ◌%◌, ◌<◌, ◌≡◌, ◌≢◌, refl, ap, ◌∙◌, Bool, true, false, Option, some,
  [], ◌∷◌, ◌++◌, Bytes, All, All-append, length, is_empty, ltb, leb, ◌==◌, if◌then◌else◌, arith,
}
use coinsurf_proxy.Credentials.{
  sextet, quantum, decode_quanta, without_newlines, decode, cut, drop, parse_basic_auth, first_byte,
  second_byte, third_byte,
}

-- RFC 4648's encoding.
abbrev pub digit : ℕ → ℕ
digit n =
    if ltb n 26
    then b'A' + n
    else if ltb n 52
    then 71 + n
    else if ltb n 62
    then n - 4
    else if n == 62
    then b'+'
    else b'/'

unfoldable pub encode : Bytes → Bytes
encode [] = []
encode (a ∷ []) = digit (a / 4) ∷ digit (a % 4 * 16) ∷ b'=' ∷ b'=' ∷ []
encode (a ∷ b ∷ []) = digit (a / 4) ∷ digit (a % 4 * 16 + b / 16) ∷ digit (b % 16 * 4) ∷ b'=' ∷ []
encode (a ∷ b ∷ c ∷ s) =
    digit (a / 4)
    ∷ digit (a % 4 * 16 + b / 16)
    ∷ digit (b % 16 * 4 + c / 64)
    ∷ digit (c % 64)
    ∷ encode s

sextet-digit : (n : ℕ) → n < 64 → sextet (digit n) ≡ some n
unfolding sextet
sextet-digit n h = ground arith

digit≢padding : (n : ℕ) → n < 64 → (digit n == b'=') ≡ false
digit≢padding n h = ground arith

quantum_digits :
    (x y z w : ℕ) (last : Bool) (s : Bytes)
    → x < 64
    → y < 64
    → z < 64
    → w < 64
    → quantum (digit x) (digit y) (digit z) (digit w) last (some s)
      ≡ some (first_byte x y ∷ second_byte y z ∷ third_byte z w ∷ s)
unfolding quantum
quantum_digits x y z w last s hx hy hz hw =
    rw
      (
        sextet-digit x hx,
        sextet-digit y hy,
        digit≢padding z hz,
        sextet-digit z hz,
        digit≢padding w hw,
        sextet-digit w hw,
        quantum,
      )
      refl

quantum_one :
    (x y : ℕ) (tail : Option Bytes)
    → x < 64
    → y < 64
    → quantum (digit x) (digit y) b'=' b'=' true tail ≡ some (first_byte x y ∷ [])
unfolding quantum
quantum_one x y tail hx hy = rw (sextet-digit x hx, sextet-digit y hy, quantum) refl

quantum_two :
    (x y z : ℕ) (tail : Option Bytes)
    → x < 64
    → y < 64
    → z < 64
    → quantum (digit x) (digit y) (digit z) b'=' true tail
      ≡ some (first_byte x y ∷ second_byte y z ∷ [])
unfolding quantum
quantum_two x y z tail hx hy hz =
    rw (sextet-digit x hx, sextet-digit y hy, digit≢padding z hz, sextet-digit z hz, quantum) refl

-- The bytes that the digits of three bytes make up are those bytes.
first_byte_lem : (a b : ℕ) → b < 256 → first_byte (a / 4) (a % 4 * 16 + b / 16) ≡ a
first_byte_lem a b h = omega arith

second_byte_lem :
    (a b c : ℕ) → b < 256 → c < 256 → second_byte (a % 4 * 16 + b / 16) (b % 16 * 4 + c / 64) ≡ b
second_byte_lem a b c hb hc = omega arith

third_byte_lem : (b c : ℕ) → c < 256 → third_byte (b % 16 * 4 + c / 64) (c % 64) ≡ c
third_byte_lem b c h = omega arith

abbrev pub IsByte : ℕ → Type 0
IsByte n = n < 256

decode_quanta-encode : (s : Bytes) → All IsByte s → decode_quanta (encode s) ≡ some s
unfolding decode_quanta encode
decode_quanta-encode [] h = refl
decode_quanta-encode (a ∷ []) (ha, _) =
    quantum_one (a / 4) (a % 4 * 16) (some []) (omega arith) (omega arith)
    ∙ ap (λ x. some (x ∷ [])) (omega arith)
decode_quanta-encode (a ∷ b ∷ []) (ha, (hb, _)) =
    quantum_two (a / 4) (a % 4 * 16 + b / 16) (b % 16 * 4) (some []) (omega arith) (omega arith)
      (omega arith)
    ∙ rw (first_byte_lem a b hb) (ap (λ y. some (a ∷ y ∷ [])) (omega arith))
decode_quanta-encode (a ∷ b ∷ c ∷ s) (ha, (hb, (hc, hs))) = rw (decode_quanta-encode s hs) (
    quantum_digits (a / 4) (a % 4 * 16 + b / 16) (b % 16 * 4 + c / 64) (c % 64)
      (is_empty (encode s)) s (omega arith) (omega arith) (omega arith) (omega arith)
    ∙ rw (first_byte_lem a b hb, second_byte_lem a b c hb hc, third_byte_lem b c hc) refl)

-- No digit is a line break.
abbrev IsInk : ℕ → Type 0
IsInk c = (c ≢ b'\n') × (c ≢ b'\r')

without_newlines_lem : (s : Bytes) → All IsInk s → without_newlines s ≡ s
unfolding without_newlines
without_newlines_lem [] h = refl
without_newlines_lem (c ∷ s) ((n, r), h) = ground (arith, without_newlines_lem s h)

digit-IsInk : (n : ℕ) → IsInk (digit n)
digit-IsInk n = (ground arith, ground arith)

padding-IsInk : IsInk b'='
padding-IsInk = (λ e. omega (arith, e), λ e. omega (arith, e))

encode-IsInk : (s : Bytes) → All IsInk (encode s)
unfolding encode
encode-IsInk [] = tt
encode-IsInk (a ∷ []) =
    (digit-IsInk (a / 4), (digit-IsInk (a % 4 * 16), (padding-IsInk, (padding-IsInk, tt))))
encode-IsInk (a ∷ b ∷ []) = (
  digit-IsInk (a / 4),
  (digit-IsInk (a % 4 * 16 + b / 16), (digit-IsInk (b % 16 * 4), (padding-IsInk, tt))),
)
encode-IsInk (a ∷ b ∷ c ∷ s) = (
  digit-IsInk (a / 4),
  (
    digit-IsInk (a % 4 * 16 + b / 16),
    (digit-IsInk (b % 16 * 4 + c / 64), (digit-IsInk (c % 64), encode-IsInk s)),
  ),
)

decode-encode : (s : Bytes) → All IsByte s → decode (encode s) ≡ some s
unfolding decode
decode-encode s h = rw (without_newlines_lem (encode s) (encode-IsInk s)) (decode_quanta-encode s h)

cut-append :
    (sep : ℕ) (user password : Bytes)
    → All (λ c. c ≢ sep) user
    → cut sep (user ++ sep ∷ password) ≡ some (user, password)
unfolding cut
cut-append sep [] password h = ground arith
cut-append sep (c ∷ user) password (h, hs) = ground (arith, cut-append sep user password hs)

-- The credentials are longer than the scheme.
leb_long : (n : ℕ) → leb (suc (suc (suc (suc (suc (suc (suc (suc (suc (suc n)))))))))) 7 ≡ false
leb_long n = ground arith

leb-encode : (a : ℕ) (s : Bytes) → leb (length (0 ∷ 0 ∷ 0 ∷ 0 ∷ 0 ∷ 0 ∷ encode (a ∷ s))) 7 ≡ false
unfolding encode
leb-encode a [] = refl
leb-encode a (b ∷ []) = refl
leb-encode a (b ∷ c ∷ s) = leb_long (length (encode s))

long_enough :
    (user password : Bytes)
    → leb (length (0 ∷ 0 ∷ 0 ∷ 0 ∷ 0 ∷ 0 ∷ encode (user ++ b':' ∷ password))) 7 ≡ false
long_enough [] password = leb-encode b':' password
long_enough (c ∷ user) password = leb-encode c (user ++ b':' ∷ password)

parse_basic_auth_lem :
    (credentials buf : Bytes)
    → leb (length credentials) 7 ≡ false
    → decode (drop 6 credentials) ≡ some buf
    → parse_basic_auth credentials ≡ cut b':' buf
unfolding parse_basic_auth
parse_basic_auth_lem credentials buf h e = rw (h, e, parse_basic_auth) refl

-- Basic credentials of a user name without a colon and a password, in any scheme of six bytes, are
-- read back as that user name and that password.
pub parse_basic_auth-encode :
    (a0 a1 a2 a3 a4 a5 : ℕ) (user password : Bytes)
    → All (λ c. c ≢ b':') user
    → All IsByte user
    → All IsByte password
    → parse_basic_auth (a0 ∷ a1 ∷ a2 ∷ a3 ∷ a4 ∷ a5 ∷ encode (user ++ b':' ∷ password))
      ≡ some (user, password)
parse_basic_auth-encode a0 a1 a2 a3 a4 a5 user password hc hu hp =
    parse_basic_auth_lem (a0 ∷ a1 ∷ a2 ∷ a3 ∷ a4 ∷ a5 ∷ encode (user ++ b':' ∷ password))
      (user ++ b':' ∷ password) (long_enough user password)
      (decode-encode (user ++ b':' ∷ password)
        (All-append IsByte user (b':' ∷ password) hu (omega arith, hp)))
    ∙ cut-append b':' user password hc
