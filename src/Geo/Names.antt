-- ===== src/Geo/Names.antt =====
-- internal/geo/formatter.go: the bytes of a name.
use coinsurf_proxy.Base.{
  ℕ, zero, suc, ◌-◌, ◌≡◌, refl, false, ◌&&◌, is_some, List, [], ◌∷◌, Bytes, All, All-append, length,
  leb, ◌==◌, inl, inr, Bool-cases, arith,
}
use coinsurf_proxy.Router.{lower}
use coinsurf_proxy.Username.{strip_prefix}
use coinsurf_proxy.Geo.{replace_from, replace, renamed, replace_all, rename}

module _ (P : ℕ → Type 0) where
  -- A replacement brings in no bytes but those of the new text.
  replace_from-All :
      (skip : ℕ) (old new s : Bytes) → All P new → All P s → All P (replace_from skip old new s)
  unfolding replace_from
  replace_from-All zero old new [] n h = tt
  replace_from-All (suc skip) old new [] n h = tt
  replace_from-All (suc skip) old new (c ∷ s) n h = replace_from-All skip old new s n h.1
  replace_from-All zero old new (c ∷ s) n h =
      elim (Bool-cases (is_some (strip_prefix old (c ∷ s)))) [
        | inl here ↦ rw here (
            All-append P new (replace_from (length old - 1) old new s) n
              (replace_from-All (length old - 1) old new s n h.1))
        | inr other ↦ rw other (h.0, replace_from-All zero old new s n h.1)
      ]

abbrev Differs : ℕ → ℕ → Type 0
Differs b c = (c == b) ≡ false

-- Behind the replacement of a single byte the byte is gone.
replace-Differs :
    (b : ℕ) (new s : Bytes) → All (Differs b) new → All (Differs b) (replace (b ∷ []) new s)
unfolding replace_from strip_prefix
replace-Differs b new [] n = tt
replace-Differs b new (c ∷ s) n = elim (Bool-cases (c == b)) [
  | inl same ↦ rw same (All-append (Differs b) new _ n (replace-Differs b new s n))
  | inr other ↦ rw other (other, replace-Differs b new s n)
]

-- A byte that a name can have in a user name: no dash, and no upper-case letter.
pub record IsPlain (c : ℕ) : Type 0 where
  pub no_dash : Differs b'-' c
  pub no_space : Differs b' ' c
  pub no_backquote : Differs b'`' c
  pub no_quote : Differs b'\'' c
  pub no_comma : Differs b',' c
  pub lower_case : (leb b'A' c && leb c b'Z') ≡ false

-- The new text of each pair has the property.
abbrev AllNew : (ℕ → Type 0) → List (Bytes × Bytes) → Type 0
AllNew P [] = Unit
AllNew P ((old, new) ∷ pairs) = All P new × AllNew P pairs

replace_all-All :
    (P : ℕ → Type 0) (pairs : List (Bytes × Bytes)) (s : Bytes)
    → AllNew P pairs
    → All P s
    → All P (replace_all pairs s)
unfolding replace_all
replace_all-All P [] s n h = h
replace_all-All P ((old, new) ∷ pairs) s n h =
    replace_all-All P pairs (replace old new s) n.1 (replace_from-All P zero old new s n.0 h)

-- The pairs behind a single byte do not bring it back.
removed-Differs :
    (b : ℕ) (new : Bytes) (pairs : List (Bytes × Bytes)) (s : Bytes)
    → All (Differs b) new
    → AllNew (Differs b) pairs
    → All (Differs b) (replace_all ((b ∷ [], new) ∷ pairs) s)
unfolding replace_all
removed-Differs b new pairs s n later =
    replace_all-All (Differs b) pairs (replace (b ∷ []) new s) later (replace-Differs b new s n)

lower-Differs :
    (b : ℕ) (s : Bytes)
    → (leb b'a' b && leb b b'z') ≡ false
    → All (Differs b) s
    → All (Differs b) (lower s)
lower-Differs b [] out h = tt
lower-Differs b (c ∷ s) out h = (ground (arith, out, h.0), lower-Differs b s out h.1)

lower-lower_case : (s : Bytes) → All (λ c. (leb b'A' c && leb c b'Z') ≡ false) (lower s)
lower-lower_case [] = tt
lower-lower_case (c ∷ s) = (ground arith, lower-lower_case s)

All-IsPlain :
    (s : Bytes)
    → All (Differs b'-') s
    → All (Differs b' ') s
    → All (Differs b'`') s
    → All (Differs b'\'') s
    → All (Differs b',') s
    → All (λ c. (leb b'A' c && leb c b'Z') ≡ false) s
    → All IsPlain s
All-IsPlain [] h1 h2 h3 h4 h5 h6 = tt
All-IsPlain (c ∷ s) h1 h2 h3 h4 h5 h6 = (
  record {
    no_dash = h1.0;
    no_space = h2.0;
    no_backquote = h3.0;
    no_quote = h4.0;
    no_comma = h5.0;
    lower_case = h6.0;
  },
  All-IsPlain s h1.1 h2.1 h3.1 h4.1 h5.1 h6.1,
)

abbrev behind : ℕ → List (Bytes × Bytes) → List (Bytes × Bytes)
behind zero pairs = pairs
behind (suc n) [] = []
behind (suc n) (p ∷ pairs) = behind n pairs

-- A renamed text has no dash, space, backquote, quotation mark or comma and no upper-case ASCII
-- letter, so that it can stand in a user name.
pub rename-IsPlain : (n : Bytes) → All IsPlain (rename n)
unfolding rename replace_all
rename-IsPlain n =
    let s1 = replace (b'-' ∷ []) (b'_' ∷ []) n in
    let s2 = replace (b' ' ∷ []) (b'_' ∷ []) s1 in
    let s4 = replace (0xE2 ∷ 0x80 ∷ 0x99 ∷ []) [] (replace (b'`' ∷ []) [] s2) in
    let s5 = replace (b'\'' ∷ []) [] s4 in
    let s = replace_all renamed n in
    All-IsPlain (lower s)
      (lower-Differs b'-' s refl (
        removed-Differs b'-' (b'_' ∷ []) (behind 1 renamed) n (refl, tt)
          ((refl, tt), (tt, (tt, (tt, (tt, tt)))))))
      (lower-Differs b' ' s refl (
        removed-Differs b' ' (b'_' ∷ []) (behind 2 renamed) s1 (refl, tt)
          (tt, (tt, (tt, (tt, tt))))))
      (lower-Differs b'`' s refl
        (removed-Differs b'`' [] (behind 3 renamed) s2 tt (tt, (tt, (tt, tt)))))
      (lower-Differs b'\'' s refl (removed-Differs b'\'' [] (behind 5 renamed) s4 tt (tt, tt)))
      (lower-Differs b',' s refl (removed-Differs b',' [] (behind 6 renamed) s5 tt tt))
      (lower-lower_case s)
