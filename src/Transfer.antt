-- ===== src/Transfer.antt =====
-- pkg/transfer.go: bytes are copied from one connection to the other and accounted on the way.
-- What the connections, the clock and the accountant answer in a round is given by the round.
pub mod Accounting
pub mod Errors
pub mod Traffic
mod Tests
use coinsurf_proxy.Base.{
  ℕ, ◌+◌, ◌^◌, Bool, true, false, not, ◌&&◌, Option, none, some, List, [], ◌∷◌, ◌++◌, is_some, ltb,
  ◌==◌, if◌then◌else◌, add64, slt64, sle64,
}

-- Every error is a value of its own here, so that a theorem can tell which one is returned.
pub data CopyError : Type 0 where
  deadline_error read_error write_error short_write : CopyError
  -- `k` numbers the errors of `Decrement`.
  decrement_error : ℕ → CopyError

-- The error that `src.Read` returns beside its count.
pub data ReadStatus : Type 0 where
  more eof failed : ReadStatus

-- `nr` and `nw` are counts of one call; the contracts of io.Reader and io.Writer keep them below
-- the buffer's length.
pub record Round : Type 0 where
  pub deadline : Option CopyError
  pub flushed : Option CopyError
  pub nr : ℕ
  pub er : ReadStatus
  pub nw : ℕ
  pub ew : Bool

-- `copyDeadline` and `accountant.AccountBytes()`, both int64.
pub record Transfer : Type 0 where
  pub copy_deadline : ℕ
  pub account_bytes : ℕ

-- The variables of the loop, and the calls of `Decrement` so far. (`written` is never read.)
pub record Copying : Type 0 where
  pub accounted : ℕ
  pub read : ℕ
  pub written : ℕ
  pub err : Option CopyError
  pub decrements : List ℕ

-- A round leaves the loop or goes on.
pub data Next : Type 0 where
  stop continue : Copying → Next

unfoldable pub account : Transfer → Round → Copying → Copying
account t r c =
    if sle64 t.account_bytes c.accounted
    then record c { err = r.flushed; accounted = 0; decrements = c.decrements ++ c.accounted ∷ [] }
    else c

abbrev pub count_read : Round → Copying → Copying
count_read r c = record c { accounted = add64 c.accounted r.nr; read = add64 c.read r.nr }

abbrev pub count_written : Round → Copying → Copying
count_written r c = if ltb 0 r.nw then record c { written = add64 c.written r.nw } else c

abbrev pub read_result : Round → Copying → Next
read_result r c = elim r.er [
  | more ↦ continue c
  | eof ↦ stop c
  | failed ↦ stop (record c { err = some read_error })
]

-- From `src.Read` to the end of the loop's body.
unfoldable pub copy : Round → Copying → Next
copy r c =
    if ltb 0 r.nr
    then if r.ew
      then stop (record (count_written r c) { err = some write_error })
      else if not (r.nw == r.nr)
      then stop (record (count_written r c) { err = some short_write })
      else read_result r (count_written r c)
    else read_result r c

unfoldable pub round : Transfer → Round → Copying → Next
unfolding account copy
round t r c =
    let go = copy r (count_read r (account t r c)) in
    let timed = record c { err = r.deadline } in
    if slt64 0 t.copy_deadline
    then if is_some r.deadline then stop timed else copy r (count_read r (account t r timed))
    else go

-- The loop over the rounds of the environment; `none` where it still waits for the next one.
unfoldable pub loop : Transfer → List Round → Copying → Option Copying
loop t [] c = none
loop t (r ∷ rs) c = elim (round t r c) [ stop c' ↦ some c' | continue c' ↦ loop t rs c' ]

-- After the loop: what is left is accounted, and the answer replaces the error.
unfoldable pub finish : Option CopyError → Copying → Copying
finish answer c =
    if slt64 0 c.accounted
    then record c { err = answer; decrements = c.decrements ++ c.accounted ∷ [] }
    else c

abbrev pub start : Copying
start = record { accounted = 0; read = 0; written = 0; err = none; decrements = [] }

-- `Transfer` returns `read` and `err`; `answer` is what the last `Decrement` returns.
unfoldable pub transfer : Transfer → List Round → Option CopyError → Option Copying
unfolding loop finish
transfer t rs answer = elim (loop t rs start) [ none ↦ none | some c ↦ some (finish answer c) ]
