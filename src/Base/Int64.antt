-- ===== src/Base/Int64.antt =====
-- Go's `int64` (and `int`, `time.Duration`): a bit pattern below 2 ^ 64 in two's complement. Sums
-- and products wrap; the order is the signed one.
use Prim.Native.Nat.{ℕ, ◌+◌, ◌*◌, ◌%◌, ◌^◌}
use mathlib.Core.Bool.{Bool}
use coinsurf_proxy.Base.Tests.{ltb, leb}

abbrev pub add64 : ℕ → ℕ → ℕ
add64 a b = (a + b) % 2 ^ 64

abbrev pub mul64 : ℕ → ℕ → ℕ
mul64 a b = (a * b) % 2 ^ 64

-- Adding 2 ^ 63 turns the signed order into the order of the patterns.
abbrev pub biased : ℕ → ℕ
biased a = (a + 2 ^ 63) % 2 ^ 64

abbrev pub slt64 : ℕ → ℕ → Bool
slt64 a b = ltb (biased a) (biased b)

abbrev pub sle64 : ℕ → ℕ → Bool
sle64 a b = leb (biased a) (biased b)
