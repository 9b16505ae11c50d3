-- ===== src/Transfer/Accounting.antt =====
-- pkg/transfer.go: every byte read is accounted once, in batches of the configured size.
use coinsurf_proxy.Base.{
  ℕ, ◌+◌, ◌^◌, ◌≤◌, ◌<◌, ◌≡◌, refl, subst, ◌⊎◌, Option-cases, some_inj, inl, inr, Option, none,
  some, List, [], ◌∷◌, ◌++◌, is_some, All, All-append, Bool-cases, sle64, slt64, arith,
}
use coinsurf_proxy.Transfer.{
  Transfer, Round, Copying, CopyError, Next, stop, continue, account, count_read, copy, round, loop,
  finish, start, transfer,
}

abbrev pub sum : List ℕ → ℕ
sum [] = 0
sum (x ∷ xs) = x + sum xs

sum-append : (xs ys : List ℕ) → sum (xs ++ ys) ≡ sum xs + sum ys
sum-append [] ys = omega arith
sum-append (x ∷ xs) ys = omega (arith, sum-append xs ys)

-- The bytes that the rounds read.
abbrev pub total : List Round → ℕ
total [] = 0
total (r ∷ rs) = r.nr + total rs

abbrev result : Next → Copying
result (stop c) = c
result (continue c) = c

-- With `left` bytes to come, of `limit` in all: what was accounted and what is waiting add up to
-- what was read, and each batch reached the threshold.
record IsBalanced (t : Transfer) (limit left : ℕ) (c : Copying) : Type 0 where
  balanced : sum c.decrements + c.accounted ≡ c.read
  bounded : c.read + left ≤ limit
  batched : All (λ n. t.account_bytes ≤ n) c.decrements

-- `copy` counts what it writes and sets the error; it accounts nothing.
copy_keeps :
    (r : Round) (c : Copying)
    → ((result (copy r c)).accounted ≡ c.accounted)
      × ((result (copy r c)).read ≡ c.read)
      × ((result (copy r c)).decrements ≡ c.decrements)
unfolding copy
copy_keeps r c = ground arith

pub Next-cases : (n : Next) → ((c : Copying) × (n ≡ stop c)) ⊎ ((c : Copying) × (n ≡ continue c))
Next-cases (stop c) = inl (c, refl)
Next-cases (continue c) = inr (c, refl)

module _ (t : Transfer) (limit : ℕ) (small : limit < 2 ^ 63)
    (positive : t.account_bytes < 2 ^ 63) where
  account-IsBalanced :
      (left : ℕ) (r : Round) (c : Copying)
      → IsBalanced t limit left c
      → IsBalanced t limit left (account t r c)
  unfolding account
  account-IsBalanced left r c v = elim (Bool-cases (sle64 t.account_bytes c.accounted)) [
    | inl full ↦
        rw (full, account)
          (record {
            balanced = omega (arith, sum-append c.decrements (c.accounted ∷ []), v.balanced);
            bounded = v.bounded;
            batched =
                All-append (λ n. t.account_bytes ≤ n) c.decrements (c.accounted ∷ []) v.batched
                  (ground (arith, v.balanced, v.bounded), tt);
          })
    | inr part ↦ rw (part, account) v
  ]

  read-IsBalanced :
      (left : ℕ) (r : Round) (c : Copying)
      → IsBalanced t limit (r.nr + left) c
      → IsBalanced t limit left (count_read r c)
  read-IsBalanced left r c v = record {
    balanced = omega (arith, v.balanced, v.bounded);
    bounded = omega (arith, v.balanced, v.bounded);
    batched = v.batched;
  }

  copy-IsBalanced :
      (left : ℕ) (r : Round) (c : Copying)
      → IsBalanced t limit left c
      → IsBalanced t limit left (result (copy r c))
  copy-IsBalanced left r c v =
      let (a, b, d) = copy_keeps r c in
      record {
        balanced = rw (a, b, d) v.balanced;
        bounded = rw b v.bounded;
        batched = rw d v.batched;
      }

  waiting-IsBalanced :
      (left : ℕ) (r : Round) (c : Copying) (e : Option CopyError)
      → IsBalanced t limit (r.nr + left) c
      → IsBalanced t limit left (record c { err = e })
  waiting-IsBalanced left r c e v = record {
    balanced = v.balanced;
    bounded = omega (arith, v.bounded);
    batched = v.batched;
  }

  go-IsBalanced :
      (left : ℕ) (r : Round) (c : Copying)
      → IsBalanced t limit (r.nr + left) c
      → IsBalanced t limit left (result (copy r (count_read r (account t r c))))
  go-IsBalanced left r c v =
      copy-IsBalanced left r _ (read-IsBalanced left r _ (account-IsBalanced (r.nr + left) r c v))

  round-IsBalanced :
      (left : ℕ) (r : Round) (c : Copying)
      → IsBalanced t limit (r.nr + left) c
      → IsBalanced t limit left (result (round t r c))
  unfolding round
  round-IsBalanced left r c v =
      let timed : Copying = record c { err = r.deadline } in
      let v' : IsBalanced t limit (r.nr + left) timed = record {
        balanced = v.balanced;
        bounded = v.bounded;
        batched = v.batched;
      } in
      elim (Bool-cases (slt64 0 t.copy_deadline)) [
        | inl on ↦ elim (Bool-cases (is_some r.deadline)) [
          | inl late ↦ rw (on, late, round) (waiting-IsBalanced left r c r.deadline v)
          | inr early ↦ rw (on, early, round) (go-IsBalanced left r timed v')
        ]
        | inr off ↦ rw (off, round) (go-IsBalanced left r c v)
      ]

  done-IsBalanced : (left : ℕ) (c : Copying) → IsBalanced t limit left c → IsBalanced t limit 0 c
  done-IsBalanced left c v = record {
    balanced = v.balanced;
    bounded = omega (arith, v.bounded);
    batched = v.batched;
  }

  loop-IsBalanced :
      (rs : List Round) (c c' : Copying)
      → IsBalanced t limit (total rs) c
      → loop t rs c ≡ some c'
      → IsBalanced t limit 0 c'
  unfolding loop
  loop-IsBalanced [] c c' v h = cc
  loop-IsBalanced (r ∷ rs) c c' v h =
      let v' = round-IsBalanced (total rs) r c v in
      elim (Next-cases (round t r c)) [
        | inl (d, e) ↦ subst (IsBalanced t limit 0) (some_inj (rw (e, loop) at h)) (
            done-IsBalanced (total rs) d
              (subst (λ n. IsBalanced t limit (total rs) (result n)) e v'))
        | inr (d, e) ↦
            loop-IsBalanced rs d c' (subst (λ n. IsBalanced t limit (total rs) (result n)) e v')
              (rw (e, loop) at h)
      ]

-- Every number but the last reaches the threshold.
abbrev pub AreBatches : ℕ → List ℕ → Type 0
AreBatches n [] = Unit
AreBatches n (x ∷ []) = Unit
AreBatches n (x ∷ y ∷ xs) = (n ≤ x) × AreBatches n (y ∷ xs)

AreBatches-of_All : (n : ℕ) (xs : List ℕ) → All (λ x. n ≤ x) xs → AreBatches n xs
AreBatches-of_All n [] h = tt
AreBatches-of_All n (x ∷ []) h = tt
AreBatches-of_All n (x ∷ y ∷ xs) h = (h.0, AreBatches-of_All n (y ∷ xs) h.1)

AreBatches-append :
    (n : ℕ) (xs : List ℕ) (a : ℕ) → All (λ x. n ≤ x) xs → AreBatches n (xs ++ a ∷ [])
AreBatches-append n [] a h = tt
AreBatches-append n (x ∷ []) a h = (h.0, tt)
AreBatches-append n (x ∷ y ∷ xs) a h = (h.0, AreBatches-append n (y ∷ xs) a h.1)

-- What a transfer owes when it is over.
pub record IsAccounted (t : Transfer) (limit : ℕ) (c : Copying) : Type 0 where
  pub exact : sum c.decrements ≡ c.read
  pub bounded : c.read ≤ limit
  pub batches : AreBatches t.account_bytes c.decrements

finish-IsAccounted :
    (t : Transfer) (limit : ℕ) (answer : Option CopyError) (c : Copying)
    → limit < 2 ^ 63
    → IsBalanced t limit 0 c
    → IsAccounted t limit (finish answer c)
unfolding finish
finish-IsAccounted t limit answer c small v = elim (Bool-cases (slt64 0 c.accounted)) [
  | inl some_left ↦
      rw (some_left, finish)
        (record {
          exact = omega (arith, sum-append c.decrements (c.accounted ∷ []), v.balanced);
          bounded = omega (arith, v.bounded);
          batches = AreBatches-append t.account_bytes c.decrements c.accounted v.batched;
        })
  | inr nothing ↦
      rw (nothing, finish)
        (record {
          exact = ground (arith, v.balanced, v.bounded);
          bounded = omega (arith, v.bounded);
          batches = AreBatches-of_All t.account_bytes c.decrements v.batched;
        })
]

-- Whatever the connections and the accountant answer, and also where the transfer ends by an error,
-- the amounts given to `Decrement` add up to the number of bytes read, which is what `Transfer`
-- returns, and each of them but the last reaches the accountant's threshold. (The bytes that could
-- be read and the threshold are below 2 ^ 63.)
pub transfer-IsAccounted :
    (t : Transfer) (rs : List Round) (answer : Option CopyError) (c : Copying)
    → total rs < 2 ^ 63
    → t.account_bytes < 2 ^ 63
    → transfer t rs answer ≡ some c
    → IsAccounted t (total rs) c
unfolding transfer
transfer-IsAccounted t rs answer c small positive h = elim (Option-cases (loop t rs start)) [
  | inl e ↦ let h' : none ≡ some c = rw (e, transfer) at h in cc
  | inr (d, e) ↦ subst (IsAccounted t (total rs)) (some_inj (rw (e, transfer) at h)) (
      finish-IsAccounted t (total rs) answer d small (
        loop-IsBalanced t (total rs) small positive rs start d
          (record { balanced = refl; bounded = omega arith; batched = tt }) e))
]
