-- ===== src/Transfer/Tests.antt =====
-- pkg/transfer.go on a short transfer, and the theorems about it there.
use coinsurf_proxy.Base.{
  ℕ, ◌≡◌, ◌+◌, ◌%◌, ◌^◌, true, codes, ◌≢◌, refl, false, none, some, List, [], ◌∷◌, ◌++◌, arith,
}
use coinsurf_proxy.Transfer.{Transfer, Round, ReadStatus, more, eof, Copying, round, transfer}
use coinsurf_proxy.Transfer.Accounting.{IsAccounted, total, transfer-IsAccounted}
use coinsurf_proxy.Transfer.Traffic.{
  Call, all_sent, read_for, Arrives, alone, with_one, both_empty, from_left, from_right,
  run-read_for,
}
use coinsurf_proxy.Accountant.{Event, tick, run, new_accountant, decrement}
use coinsurf_proxy.Accountant.Totals.{charges, accounted}
use coinsurf_proxy.Transfer.Errors.{transfer_ends, transfer_short_write}

abbrev config : Transfer
config = record { copy_deadline = 30; account_bytes = 100 }

-- A round that reads and writes `n` bytes.
abbrev moved : ℕ → ReadStatus → Round
moved n er = record { deadline = none; flushed = none; nr = n; er = er; nw = n; ew = false }

abbrev rounds : List Round
rounds = moved 80 more ∷ moved 70 more ∷ moved 10 more ∷ moved 5 eof ∷ []

abbrev finished : Copying
finished = record {
  accounted = 15;
  read = 165;
  written = 165;
  err = none;
  decrements = 150 ∷ 15 ∷ [];
}

transfer-rounds : transfer config rounds none ≡ some finished
unfolding transfer round
transfer-rounds = refl

transfer-IsAccounted_example : IsAccounted config (total rounds) finished
transfer-IsAccounted_example =
    transfer-IsAccounted config rounds none finished (omega arith) (omega arith) transfer-rounds

er-eof : ReadStatus.eof ≢ more
er-eof = ground arith

transfer_ends_example :
    (c : Copying) × (transfer config ((moved 80 more ∷ []) ++ moved 0 eof ∷ rounds) none ≡ some c)
transfer_ends_example = transfer_ends config (moved 80 more ∷ []) (moved 0 eof) rounds none er-eof

abbrev cut_off : Round
cut_off = record { deadline = none; flushed = none; nr = 10; er = more; nw = 4; ew = false }

abbrev hidden : Copying
hidden = record { accounted = 10; read = 10; written = 4; err = none; decrements = 10 ∷ [] }

transfer-cut_off : transfer config (cut_off ∷ rounds) none ≡ some hidden
unfolding transfer round
transfer-cut_off = refl

transfer_short_write_case : hidden.err ≡ none
transfer_short_write_case =
    transfer_short_write config cut_off rounds none hidden
      (record {
        some_read = omega arith;
        small = omega arith;
        timely = refl;
        no_error = refl;
        short = refl;
      })
      transfer-cut_off

-- Two transfers through one node for two users.
abbrev first : Call
first = record { user_id = codes "u"; node_id = codes "n"; rounds = rounds; answer = none }

abbrev second : Call
second = record {
  user_id = codes "v";
  node_id = codes "n";
  rounds = cut_off ∷ rounds;
  answer = none;
}

abbrev ticks : List Event
ticks = tick true ∷ tick true ∷ []

abbrev arrived : List Event
arrived =
    decrement (codes "u") (codes "n") 150
    ∷ tick true
    ∷ decrement (codes "v") (codes "n") 10
    ∷ decrement (codes "u") (codes "n") 15
    ∷ tick true
    ∷ []

calls_arrive : Arrives ticks (all_sent config (first ∷ second ∷ [])) arrived
unfolding transfer round
calls_arrive =
    with_one
      (with_one alone (
        from_right (tick true)
          (from_left (decrement (codes "v") (codes "n") 10) (from_right (tick true) both_empty))))
      (from_left (decrement (codes "u") (codes "n") 150) (
        from_right (tick true) (
          from_right (decrement (codes "v") (codes "n") 10) (
            from_left (decrement (codes "u") (codes "n") 15) (from_right (tick true) both_empty)))))

run-read_for_example :
    accounted (codes "n") (codes "u") (run new_accountant arrived) % 2 ^ 64
    ≡ (accounted (codes "n") (codes "u") new_accountant
        + (charges (codes "n") (codes "u") ticks
            + read_for config (codes "n") (codes "u") (first ∷ second ∷ [])))
      % 2 ^ 64
run-read_for_example =
    run-read_for (codes "n") (codes "u") config (omega arith) new_accountant ticks
      (first ∷ second ∷ []) arrived refl (refl, (refl, tt))
      (((finished, transfer-rounds), omega arith), (((hidden, transfer-cut_off), omega arith), tt))
      calls_arrive
