-- ===== src/CountConn.antt =====
-- pkg/utils.go: the connection that counts. The calls of the inner connection are given by the
-- number of bytes that they return, with or without an error.
mod Tests
pub mod Totals
use coinsurf_proxy.Base.{ℕ, Bool, List, [], ◌∷◌, add64}

-- `Read` or `Write`, with the number that is returned and whether an error is.
pub data Call : Type 0 where
  read write : ℕ → Bool → Call

-- `Read` and `Write` on the counter.
unfoldable pub count_call : Call → ℕ → ℕ
count_call (read n failed) copied = add64 copied n
count_call (write n failed) copied = add64 copied n

-- `Copied` behind calls.
unfoldable pub copied : List Call → ℕ → ℕ
unfolding count_call
copied [] c = c
copied (call ∷ calls) c = copied calls (count_call call c)

-- `reset`.
abbrev pub reset_count : ℕ → ℕ
reset_count c = 0
