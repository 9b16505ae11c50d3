-- ===== src/CountConn/Totals.antt =====
-- pkg/utils.go: what a counting connection has counted.
use coinsurf_proxy.Base.{ℕ, ◌+◌, ◌%◌, ◌^◌, ◌≡◌, List, [], ◌∷◌, add64, arith}
use coinsurf_proxy.CountConn.{Call, read, write, count_call, copied, reset_count}

abbrev pub transferred : Call → ℕ
transferred (read n failed) = n
transferred (write n failed) = n

abbrev pub total : List Call → ℕ
total [] = 0
total (call ∷ calls) = transferred call + total calls

copied-total : (calls : List Call) (c : ℕ) → copied calls c % 2 ^ 64 ≡ (c + total calls) % 2 ^ 64
unfolding copied count_call
copied-total [] c = omega arith
copied-total (read n failed ∷ calls) c = omega (arith, copied-total calls (add64 c n))
copied-total (write n failed ∷ calls) c = omega (arith, copied-total calls (add64 c n))

-- Behind a reset the counter has the bytes read and written since, those of calls that failed
-- included, modulo 2 ^ 64.
pub copied_lem :
    (calls : List Call) (c : ℕ) → copied calls (reset_count c) % 2 ^ 64 ≡ total calls % 2 ^ 64
copied_lem calls c = omega (arith, copied-total calls 0)
