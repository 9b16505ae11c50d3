-- ===== src/Credentials.antt =====
-- pkg/utils.go, `parseBasicAuth`: the credentials of a Proxy-Authorization header.
pub mod Base64
mod Tests
use coinsurf_proxy.Base.{
  ℕ, zero, suc, ◌+◌, ◌-◌, ◌*◌, ◌/◌, ◌%◌, Bool, true, false, not, ◌&&◌, ◌||◌, Option, none, some,
  List, [], ◌∷◌, Bytes, length, is_empty, leb, ◌==◌, if◌then◌else◌,
}

infixl 5 ◌>>=◌
abbrev ◌>>=◌ {ℓ κ} : {A : Type ℓ} {B : Type κ} → Option A → (A → Option B) → Option B
none >>= f = none
some a >>= f = f a

-- The value of a character of base64's standard alphabet.
unfoldable pub sextet : ℕ → Option ℕ
sextet c =
    if leb b'A' c && leb c b'Z'
    then some (c - b'A')
    else if leb b'a' c && leb c b'z'
    then some (c - b'a' + 26)
    else if leb b'0' c && leb c b'9'
    then some (c - b'0' + 52)
    else if c == b'+'
    then some 62
    else if c == b'/'
    then some 63
    else none

abbrev pub first_byte : ℕ → ℕ → ℕ
first_byte x y = x * 4 + y / 16

abbrev pub second_byte : ℕ → ℕ → ℕ
second_byte y z = y % 16 * 16 + z / 4

abbrev pub third_byte : ℕ → ℕ → ℕ
third_byte z w = z % 4 * 64 + w

-- A quantum of four characters; `tail` is what the rest of the text decodes to, and `last` tells
-- that there is no more. Padding is allowed at the end only.
unfoldable pub quantum : ℕ → ℕ → ℕ → ℕ → Bool → Option Bytes → Option Bytes
unfolding sextet
quantum a b c d last tail = sextet a >>= λ x. sextet b >>= λ y.
    if c == b'='
    then if d == b'=' && last then some (first_byte x y ∷ []) else none
    else sextet c >>= λ z.
        if d == b'='
        then if last then some (first_byte x y ∷ second_byte y z ∷ []) else none
        else sextet d >>= λ w.
            tail >>= λ rest. some (first_byte x y ∷ second_byte y z ∷ third_byte z w ∷ rest)

unfoldable pub decode_quanta : Bytes → Option Bytes
unfolding quantum
decode_quanta [] = some []
decode_quanta (a ∷ []) = none
decode_quanta (a ∷ b ∷ []) = none
decode_quanta (a ∷ b ∷ c ∷ []) = none
decode_quanta (a ∷ b ∷ c ∷ d ∷ s) = quantum a b c d (is_empty s) (decode_quanta s)

-- The decoder skips line breaks.
unfoldable pub without_newlines : Bytes → Bytes
without_newlines [] = []
without_newlines (c ∷ s) =
    let rest = without_newlines s in if c == b'\n' || c == b'\r' then rest else c ∷ rest

-- `base64.StdEncoding.Decode`.
unfoldable pub decode : Bytes → Option Bytes
unfolding decode_quanta without_newlines
decode s = decode_quanta (without_newlines s)

-- The bytes in front of the first `sep` and those behind it.
unfoldable pub cut : ℕ → Bytes → Option (Bytes × Bytes)
cut sep [] = none
cut sep (c ∷ s) = elim (cut sep s) [
  | none ↦ if c == sep then some ([], s) else none
  | some parts ↦ if c == sep then some ([], s) else some (c ∷ parts.0, parts.1)
]

abbrev pub drop : ℕ → Bytes → Bytes
drop zero s = s
drop (suc n) [] = []
drop (suc n) (c ∷ s) = drop n s

-- The scheme's six bytes ("Basic ") are skipped without a look at them.
unfoldable pub parse_basic_auth : Bytes → Option (Bytes × Bytes)
unfolding decode cut
parse_basic_auth credentials =
    if leb (length credentials) 7 then none else decode (drop 6 credentials) >>= cut b':'
