-- ===== src/Accountant/Tests.antt =====
-- pkg/accountant/redis.go on a short run, and the theorems about it there.
use coinsurf_proxy.Base.{
  ◌+◌, ◌%◌, ◌^◌, ◌≡◌, refl, true, false, List, [], ◌∷◌, codes, lookup, insert,
}
use coinsurf_proxy.Accountant.{Event, tick, step, run, new_accountant, decrement}
use coinsurf_proxy.Accountant.Totals.{accounted, charges, run-accounted, tick-published}

abbrev events : List Event
events =
    decrement (codes "u") (codes "n") 5
    ∷ decrement (codes "u") (codes "m") 7
    ∷ tick true
    ∷ decrement (codes "u") (codes "n") 6
    ∷ decrement (codes "v") (codes "n") 1
    ∷ []

-- The first batch is published, the second pending.
run-events : run new_accountant events ≡ record {
  cache = (codes "n", (codes "u", 6) ∷ (codes "v", 1) ∷ []) ∷ [];
  published = ((codes "n", (codes "u", 5) ∷ []) ∷ (codes "m", (codes "u", 7) ∷ []) ∷ []) ∷ [];
  closed = false;
}
unfolding run step lookup insert
run-events = refl

run-accounted_case :
    accounted (codes "n") (codes "u") (run new_accountant events) % 2 ^ 64
    ≡ (accounted (codes "n") (codes "u") new_accountant + charges (codes "n") (codes "u") events)
      % 2 ^ 64
run-accounted_case =
    run-accounted (codes "n") (codes "u") new_accountant events refl
      (tt, (tt, (refl, (tt, (tt, tt)))))

tick-published_case :
    ((step new_accountant (tick true)).cache ≡ [])
    × ((step new_accountant (tick true)).published ≡ [])
tick-published_case = tick-published new_accountant refl
