-- ===== src/Transfer/Traffic.antt =====
-- pkg/transfer.go with pkg/accountant/redis.go: the goroutines of several transfers call `Decrement`
-- of one accountant, in any order.
use coinsurf_proxy.Base.{
  ℕ, ◌+◌, ◌%◌, ◌^◌, ◌<◌, ◌≡◌, refl, ◌∙◌, ap, false, ◌&&◌, Option, none, some, List, [], ◌∷◌, Bytes,
  bytes_eq, All, if◌then◌else◌, arith,
}
use coinsurf_proxy.Transfer.{Transfer, Round, CopyError, Copying, transfer}
use coinsurf_proxy.Transfer.Accounting.{sum, total, transfer-IsAccounted}
use coinsurf_proxy.Accountant.{Accountant, Event, decrement, run}
use coinsurf_proxy.Accountant.Totals.{IsRunning, charges, accounted, run-accounted}

-- A call of `Transfer`.
pub record Call : Type 0 where
  pub user_id : Bytes
  pub node_id : Bytes
  pub rounds : List Round
  pub answer : Option CopyError

abbrev pub decrements : Bytes → Bytes → List ℕ → List Event
decrements user node [] = []
decrements user node (n ∷ ns) = decrement user node n ∷ decrements user node ns

-- What an ended call has sent to the accountant, in its order.
abbrev pub sent : Call → Option Copying → List Event
sent k none = []
sent k (some c) = decrements k.user_id k.node_id c.decrements

abbrev pub all_sent : Transfer → List Call → List (List Event)
all_sent t [] = []
all_sent t (k ∷ ks) = sent k (transfer t k.rounds k.answer) ∷ all_sent t ks

-- What an ended call returns as the number of bytes.
abbrev pub read_of : Option Copying → ℕ
read_of none = 0
read_of (some c) = c.read

-- The bytes that the calls for a user and a node return.
abbrev pub read_for : Transfer → Bytes → Bytes → List Call → ℕ
read_for t node user [] = 0
read_for t node user (k ∷ ks) =
    (if bytes_eq k.node_id node && bytes_eq k.user_id user
      then read_of (transfer t k.rounds k.answer)
      else 0)
    + read_for t node user ks

abbrev pub HasEnded : Transfer → Call → Type 0
HasEnded t k = ((c : Copying) × (transfer t k.rounds k.answer ≡ some c)) × (total k.rounds < 2 ^ 63)

-- The last list holds the events of the other two, each in its order.
pub data Interleaves : List Event → List Event → List Event → Type 0 where
  both_empty : Interleaves [] [] []
  from_left :
      {xs ys zs : List Event} (e : Event) → Interleaves xs ys zs → Interleaves (e ∷ xs) ys (e ∷ zs)
  from_right :
      {xs ys zs : List Event} (e : Event) → Interleaves xs ys zs → Interleaves xs (e ∷ ys) (e ∷ zs)

-- The events of several goroutines, as they arrive at the channel behind those of the first argument.
pub data Arrives (others : List Event) : List (List Event) → List Event → Type 0 where
  alone : Arrives others [] others
  with_one :
      {xs ys zs : List Event} {xss : List (List Event)}
      → Arrives others xss ys
      → Interleaves xs ys zs
      → Arrives others (xs ∷ xss) zs

Interleaves-IsRunning :
    {xs ys zs : List Event}
    → Interleaves xs ys zs
    → All IsRunning xs
    → All IsRunning ys
    → All IsRunning zs
Interleaves-IsRunning both_empty h k = tt
Interleaves-IsRunning (from_left e i) h k = (h.0, Interleaves-IsRunning i h.1 k)
Interleaves-IsRunning (from_right e i) h k = (k.0, Interleaves-IsRunning i h k.1)

decrements-IsRunning : (user node : Bytes) (ns : List ℕ) → All IsRunning (decrements user node ns)
decrements-IsRunning user node [] = tt
decrements-IsRunning user node (n ∷ ns) = (tt, decrements-IsRunning user node ns)

sent-IsRunning : (k : Call) (o : Option Copying) → All IsRunning (sent k o)
sent-IsRunning k none = tt
sent-IsRunning k (some c) = decrements-IsRunning k.user_id k.node_id c.decrements

Arrives-IsRunning :
    (t : Transfer) (others : List Event) (ks : List Call) {es : List Event}
    → Arrives others (all_sent t ks) es
    → All IsRunning others
    → All IsRunning es
Arrives-IsRunning t others [] alone h = h
Arrives-IsRunning t others (k ∷ ks) (with_one a i) h =
    Interleaves-IsRunning i (sent-IsRunning k (transfer t k.rounds k.answer))
      (Arrives-IsRunning t others ks a h)

module _ (node user : Bytes) where
  Interleaves-charges :
      {xs ys zs : List Event}
      → Interleaves xs ys zs
      → charges node user zs ≡ charges node user xs + charges node user ys
  Interleaves-charges both_empty = refl
  Interleaves-charges (from_left e i) = omega (arith, Interleaves-charges i)
  Interleaves-charges (from_right e i) = omega (arith, Interleaves-charges i)

  decrements-charges :
      (u n : Bytes) (ns : List ℕ)
      → charges node user (decrements u n ns)
        ≡ (if bytes_eq n node && bytes_eq u user then sum ns else 0)
  decrements-charges u n [] = ground arith
  decrements-charges u n (m ∷ ms) = ground (arith, decrements-charges u n ms)

  module _ (t : Transfer) (small : t.account_bytes < 2 ^ 63) where
    sent-charges :
        (k : Call)
        → HasEnded t k
        → charges node user (sent k (transfer t k.rounds k.answer)) ≡ (
            if bytes_eq k.node_id node && bytes_eq k.user_id user
            then read_of (transfer t k.rounds k.answer)
            else 0)
    sent-charges k ((c, ended), bounded) =
        let exact = (transfer-IsAccounted t k.rounds k.answer c bounded small ended).exact in
        rw ended (
          decrements-charges k.user_id k.node_id c.decrements
          ∙ ap (λ m. if bytes_eq k.node_id node && bytes_eq k.user_id user then m else 0) exact)

    Arrives-charges :
        (others : List Event) (ks : List Call) {es : List Event}
        → Arrives others (all_sent t ks) es
        → All (HasEnded t) ks
        → charges node user es ≡ charges node user others + read_for t node user ks
    Arrives-charges others [] alone h = omega arith
    Arrives-charges others (k ∷ ks) (with_one a i) h =
        omega (arith, Interleaves-charges i, sent-charges k h.0, Arrives-charges others ks a h.1)

    -- Where transfers have ended, in whatever order their calls of `Decrement` arrived at the accountant
    -- among its ticks and the other calls, what it has published for a user and a node and what is
    -- still pending add up, modulo 2 ^ 64, to what was accounted before, what the other calls named,
    -- and the bytes that the transfers for the user and the node have read. (Every batch can be
    -- marshalled, the loop does not end, and the threshold and the bytes of a transfer are below
    -- 2 ^ 63.)
    pub run-read_for :
        (a : Accountant) (others : List Event) (ks : List Call) (es : List Event)
        → a.closed ≡ false
        → All IsRunning others
        → All (HasEnded t) ks
        → Arrives others (all_sent t ks) es
        → accounted node user (run a es) % 2 ^ 64
          ≡ (accounted node user a + (charges node user others + read_for t node user ks)) % 2 ^ 64
    run-read_for a others ks es opened running ended arrived = omega (
      arith,
      run-accounted node user a es opened (Arrives-IsRunning t others ks arrived running),
      Arrives-charges others ks arrived ended,
    )
