-- ===== src/CountConn/Tests.antt =====
-- pkg/utils.go, the counting connection, on three calls.
use coinsurf_proxy.Base.{◌%◌, ◌^◌, ◌≡◌, refl, true, false, List, [], ◌∷◌}
use coinsurf_proxy.CountConn.{Call, read, write, count_call, copied, reset_count}
use coinsurf_proxy.CountConn.Totals.{total, copied_lem}

abbrev calls : List Call
calls = read 100 false ∷ write 20 false ∷ read 3 true ∷ []

run_copied : copied calls 0 ≡ 123
unfolding copied count_call
run_copied = refl

copied_lem_case : copied calls (reset_count 9) % 2 ^ 64 ≡ total calls % 2 ^ 64
copied_lem_case = copied_lem calls 9
