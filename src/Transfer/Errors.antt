-- ===== src/Transfer/Errors.antt =====
-- pkg/transfer.go: when a transfer ends, and which error it returns.
use coinsurf_proxy.Base.{
  ◌^◌, ◌<◌, ◌≡◌, ◌≢◌, refl, sym, ap, ◌∙◌, inl, inr, true, false, Option, none, some, some_inj, List,
  [], ◌∷◌, ◌++◌, is_some, ◌==◌, Bool-cases, lt→ltb, slt64, arith,
}
use coinsurf_proxy.Transfer.{
  Transfer, Round, more, Copying, CopyError, short_write, Next, stop, continue, account, count_read,
  count_written, copy, round, loop, finish, start, transfer,
}
use coinsurf_proxy.Transfer.Accounting.{Next-cases}

abbrev pub Stops : Next → Type 0
Stops n = (c : Copying) × (n ≡ stop c)

copy_stops : (r : Round) (c : Copying) → r.er ≢ more → (d : Copying) → copy r c ≢ continue d
unfolding copy
copy_stops r c ends d h = ground arith

round_stops :
    (t : Transfer) (r : Round) (c : Copying)
    → r.er ≢ more
    → (d : Copying) → round t r c ≢ continue d
unfolding round
round_stops t r c ends d h = ground (
  arith,
  copy_stops r (count_read r (account t r c)) ends d,
  copy_stops r (count_read r (account t r (record c { err = r.deadline }))) ends d,
)

loop_ends :
    (t : Transfer) (before : List Round) (r : Round) (after : List Round) (c : Copying)
    → r.er ≢ more
    → (d : Copying) × (loop t (before ++ r ∷ after) c ≡ some d)
unfolding loop
loop_ends t [] r after c ends = elim (Next-cases (round t r c)) [
  | inl (d, e) ↦ (d, rw (e, loop))
  | inr (d, e) ↦ absurd (round_stops t r c ends d e)
]
loop_ends t (q ∷ qs) r after c ends = elim (Next-cases (round t q c)) [
  | inl (d, e) ↦ (d, rw (e, loop))
  | inr (d, e) ↦ let (d', h) = loop_ends t qs r after d ends in (d', rw (e, loop) h)
]

-- A transfer ends at the latest in the first round whose read returns an error, end of file
-- included, whatever the rounds before and after it.
pub transfer_ends :
    (t : Transfer) (before : List Round) (r : Round) (after : List Round)
    (answer : Option CopyError)
    → r.er ≢ more
    → (c : Copying) × (transfer t (before ++ r ∷ after) answer ≡ some c)
unfolding transfer
transfer_ends t before r after answer ends =
    let (d, h) = loop_ends t before r after start ends in (finish answer d, rw (h, transfer))

-- The first round reads `nr` bytes and writes another number of them, with no error of its own.
pub record IsShortWrite (r : Round) : Type 0 where
  pub some_read : 0 < r.nr
  pub small : r.nr < 2 ^ 63
  pub timely : r.deadline ≡ none
  pub no_error : r.ew ≡ false
  pub short : (r.nw == r.nr) ≡ false

copy_short :
    (r : Round) (c : Copying)
    → IsShortWrite r
    → copy r c ≡ stop (record (count_written r c) { err = some short_write })
unfolding copy
copy_short r c v = rw (lt→ltb _ _ v.some_read, copy) (rw (v.no_error, copy) (rw (v.short, copy)))

account_zero :
    (t : Transfer) (r : Round) (c : Copying) → c.accounted ≡ 0 → (account t r c).accounted ≡ 0
unfolding account
account_zero t r c h = ground arith

written-accounted : (r : Round) (c : Copying) → (count_written r c).accounted ≡ c.accounted
written-accounted r c = ground arith

-- A round that is in time reads on behalf of a state with nothing to account, and stops.
short_round_from :
    (t : Transfer) (r : Round) (c : Copying)
    → IsShortWrite r
    → c.accounted ≡ 0
    → (d : Copying) × (copy r (count_read r (account t r c)) ≡ stop d) × (d.accounted ≡ r.nr)
short_round_from t r c v zero_left =
    let counted = count_read r (account t r c) in
    (
      record (count_written r counted) { err = some short_write },
      copy_short r counted v,
      omega (arith, written-accounted r counted, account_zero t r c zero_left, v.small),
    )

short_round :
    (t : Transfer) (r : Round)
    → IsShortWrite r
    → (d : Copying) × (round t r start ≡ stop d) × (d.accounted ≡ r.nr)
unfolding round
short_round t r v =
    let on_time : is_some r.deadline ≡ false = rw v.timely in
    elim (Bool-cases (slt64 0 t.copy_deadline)) [
      | inl on ↦
          let (d, e, n) = short_round_from t r (record start { err = r.deadline }) v refl in
          (d, rw (on, round) (rw (on_time, round) e), n)
      | inr off ↦ let (d, e, n) = short_round_from t r start v refl in (d, rw (off, round) e, n)
    ]

finish_err :
    (answer : Option CopyError) (c : Copying)
    → slt64 0 c.accounted ≡ true
    → (finish answer c).err ≡ answer
unfolding finish
finish_err answer c h = rw (h, finish)

-- If the first round writes fewer (or more) bytes than it reads, the transfer ends there and
-- returns what the last `Decrement` answers: no error where that succeeds, and never
-- io.ErrShortWrite, though the bytes were not all written.
pub transfer_short_write :
    (t : Transfer) (r : Round) (rs : List Round) (answer : Option CopyError) (c : Copying)
    → IsShortWrite r
    → transfer t (r ∷ rs) answer ≡ some c
    → c.err ≡ answer
unfolding transfer loop
transfer_short_write t r rs answer c v h =
    let (d, e, n) = short_round t r v in
    let ended : some (finish answer d) ≡ some c = rw (e, transfer, loop) at h in
    sym (ap (λ (x : Copying). x.err) (some_inj ended))
    ∙ finish_err answer d (ground (arith, n, v.some_read, v.small))
