-- ===== src/Base/Decimal.antt =====
-- Python's `Decimal` as a whole number of units of 10^-8, the finest quantum that the program
-- names (BASELINE_QUANTUM): amounts have 2 decimal places, scores 4, baselines 8.
use Prim.Native.Nat.{ℕ, suc, ◌+◌, ◌*◌, ◌/◌, ◌%◌}
use mathlib.Core.Bool.{Bool, ◌&&◌}
use fraud_latch.Base.Tests.{ltb, ◌==◌}
use fraud_latch.Base.Int.{ℤ, pos, negsuc, sub_ℕ, abs}

abbrev pub Decimal : Type 0
Decimal = ℤ

-- The units in 1.
abbrev pub scale : ℕ
scale = 100000000

abbrev pub one : Decimal
one = pos scale

-- The multiple of `q` units nearest to `n`, a tie going up.
abbrev pub round_half_up : ℕ → ℕ → ℕ
round_half_up q n = (2 * n + q) / (2 * q) * q

-- `d.quantize(q, rounding=ROUND_HALF_UP)`, a tie going away from zero
abbrev pub quantize : ℕ → Decimal → Decimal
quantize q (pos n) = pos (round_half_up q n)
quantize q (negsuc n) = sub_ℕ 0 (round_half_up q (suc n))

-- Pydantic's `max_digits` and `decimal_places`: a whole number of `step` units, and fewer than
-- `limit` units in size.
abbrev pub has_digits : ℕ → ℕ → Decimal → Bool
has_digits step limit d = abs d % step == 0 && ltb (abs d) limit
