-- ===== src/Username/RoundTrip.antt =====
-- pkg/username.go, Parse, against the user names of README.md: "key-value-key-value-…".
use coinsurf_proxy.Base.{
  ℕ, ◌+◌, ◌%◌, ◌≡◌, ◌≢◌, refl, sym, ap, ◌∙◌, inl, inr, true, false, none, some, List, [], ◌∷◌, ◌++◌,
  Bytes, split, join, length, get_elem?, All, ltb, ◌==◌, Bool-cases, arith,
}
use coinsurf_proxy.Auth.{Outcome, ok, ◌>>=◌, >>=_cong}
use coinsurf_proxy.Request.{Request}
use coinsurf_proxy.Username.Panics.{IsRest, IsRest-all, IsRest-tail}
use coinsurf_proxy.Username.Inversion.{parsed}
use coinsurf_proxy.Username.{
  Keyword, Parsing, keyword, takes_value, param_at, assign, parse_param, parse_params,
}

-- No byte of the text is the separator.
abbrev pub IsWithout : ℕ → Bytes → Type 0
IsWithout sep s = All (λ c. c ≢ sep) s

split-ne-nil : (sep : ℕ) (s : Bytes) → split sep s ≢ []
unfolding split
split-ne-nil sep [] = ground arith
split-ne-nil sep (c ∷ s) = ground (arith, split-ne-nil sep s)

split_word : (sep : ℕ) (s : Bytes) → IsWithout sep s → split sep s ≡ s ∷ []
unfolding split
split_word sep [] h = refl
split_word sep (c ∷ s) h = ground (arith, split_word sep s h.1)

split-append :
    (sep : ℕ) (s t : Bytes) → IsWithout sep s → split sep (s ++ sep ∷ t) ≡ s ∷ split sep t
unfolding split
split-append sep [] t h = ground (arith, split-ne-nil sep t)
split-append sep (c ∷ s) t h = ground (arith, split-append sep s t h.1)

-- Splitting undoes joining.
pub split-join :
    (sep : ℕ) (part : Bytes) (parts : List Bytes)
    → IsWithout sep part
    → All (IsWithout sep) parts
    → split sep (join (sep ∷ []) (part ∷ parts)) ≡ part ∷ parts
unfolding join
split-join sep part [] h k = split_word sep part h
split-join sep part (q ∷ qs) h k =
    split-append sep part (join (sep ∷ []) (q ∷ qs)) h ∙ ap (◌∷◌ part) (split-join sep q qs k.0 k.1)

abbrev pub flatten : List (Bytes × Bytes) → List Bytes
flatten [] = []
flatten ((k, v) ∷ rest) = k ∷ v ∷ flatten rest

-- The user name of README.md.
abbrev pub print_username : List (Bytes × Bytes) → Bytes
print_username pairs = join (b'-' ∷ []) (flatten pairs)

abbrev pub ArePrintable : List (Bytes × Bytes) → Type 0
ArePrintable pairs = All (IsWithout b'-') (flatten pairs)

-- The meaning of such a name: each key is given its value, in order.
abbrev pub assign_all : List (Bytes × Bytes) → Parsing → Outcome Parsing
assign_all [] st = ok st
assign_all ((k, v) ∷ rest) st = assign (keyword k) v st >>= assign_all rest

assign_flag :
    (k : Keyword) (v : Bytes) (st : Parsing)
    → takes_value k ≡ false
    → assign k v st ≡ assign k [] st
unfolding assign
assign_flag Keyword.country v st h = cc
assign_flag Keyword.unknown v st h = refl
assign_flag _ v st h = ground arith

param_at_lem :
    (params : List Bytes) (i : ℕ) (v : Bytes)
    → ltb (length params) i ≡ false
    → get_elem? params i ≡ some v
    → param_at params i ≡ ok v
unfolding param_at
param_at_lem params i v within here = ground arith

parse_param_lem :
    (params : List Bytes) (i : ℕ) (k : Keyword) (v : Bytes) (st : Parsing)
    → ltb (length params) i ≡ false
    → get_elem? params i ≡ some v
    → parse_param params i k st ≡ assign k v st
unfolding parse_param
parse_param_lem params i k v st within here = elim (Bool-cases (takes_value k)) [
  | inl t ↦ rw (t, param_at_lem params i v within here)
  | inr f ↦ rw f (sym (assign_flag k v st f))
]

parse_params_skip :
    (params : List Bytes) (i : ℕ) (p : Bytes) (rest : List Bytes) (st : Parsing)
    → ((i + 1) % 2 == 0) ≡ true
    → parse_params params i (p ∷ rest) st ≡ parse_params params (i + 1) rest st
unfolding parse_params
parse_params_skip params i p rest st even = rw (even, parse_params)

parse_params-flatten :
    (params : List Bytes) (i : ℕ) (pairs : List (Bytes × Bytes)) (st : Parsing)
    → i % 2 ≡ 0
    → IsRest params i (flatten pairs)
    → parse_params params i (flatten pairs) st ≡ assign_all pairs st
unfolding parse_params
parse_params-flatten params i [] st even v = refl
parse_params-flatten params i ((k, x) ∷ rest) st even v =
    let tail = IsRest-tail params i k (x ∷ flatten rest) v in
    let tail' = IsRest-tail params (i + 1) x (flatten rest) tail in
    let odd : ((i + 1) % 2 == 0) ≡ false = ground arith in
    let within : ltb (length params) (i + 1) ≡ false = ground (arith, v.total) in
    rw (odd, parse_params)
      (rw (parse_param_lem params (i + 1) (keyword k) x st within (v.at 1)) (
        >>=_cong (assign (keyword k) x st) _ _ λ a.
          parse_params_skip params (i + 1) x (flatten rest) a (ground arith)
          ∙ parse_params-flatten params (i + 1 + 1) rest a (omega arith) tail'))

-- The loop of `Parse` undoes the printing of any non-empty list of keys and values that hold no
-- dash: it assigns each value to its key, in order, and fails where the first assignment fails. So
-- it never panics on such a name.
pub parsed-print_username :
    (req : Request) (key value : Bytes) (pairs : List (Bytes × Bytes))
    → ArePrintable ((key, value) ∷ pairs)
    → parsed req (print_username ((key, value) ∷ pairs))
      ≡ assign_all ((key, value) ∷ pairs) (record { session_id = none; req = req })
parsed-print_username req key value pairs h =
    let params = flatten ((key, value) ∷ pairs) in
    rw (split-join b'-' key (value ∷ flatten pairs) h.0 h.1)
      (parse_params-flatten params 0 ((key, value) ∷ pairs) _ (omega arith) (IsRest-all params))
