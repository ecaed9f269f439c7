-- ===== src/Base/Text.antt =====
-- `str(n)` for a natural number, in decimal.
use Prim.Native.Nat.{ℕ, zero, suc, ◌≤◌, ◌/◌, ◌%◌}
use Prim.Native.String.{String, ◌++◌}
use Prim.Native.String.{count}
use text.Mathlib.TextLemmas.{length-nil, length-cons}
use native.Mathlib.Omega.{arith}
use mathlib.Core.Path.{◌≡◌, refl}
use fraud_latch.Base.Tests.{ltb, ◌==◌, if◌then◌else◌}

digit : ℕ → String
digit n =
    if n == 0
    then "0"
    else if n == 1
    then "1"
    else if n == 2
    then "2"
    else if n == 3
    then "3"
    else if n == 4
    then "4"
    else if n == 5
    then "5"
    else if n == 6
    then "6"
    else if n == 7
    then "7"
    else if n == 8
    then "8"
    else "9"

-- A number below 10 ^ (fuel + 1) is written out in full.
digits : ℕ → ℕ → String
digits zero n = digit n
digits (suc fuel) n =
    let front = digits fuel (n / 10) in if ltb n 10 then digit n else front ++ digit (n % 10)

unfoldable pub str : ℕ → String
unfolding digit digits
str n = digits n n

str_example : str 1203 ≡ "1203"
unfolding str
str_example = refl

-- `s[:n]`, in characters
unfoldable pub prefix : ℕ → String → String
prefix zero s = ""
prefix (suc n) String.[] = ""
prefix (suc n) (String.◌∷◌ c s) = String.◌∷◌ c (prefix n s)

pub count-prefix-le : (n : ℕ) (s : String) → count (prefix n s) ≤ n
unfolding prefix
count-prefix-le zero s = omega (arith, length-nil)
count-prefix-le (suc n) String.[] = omega (arith, length-nil)
count-prefix-le (suc n) (String.◌∷◌ c s) =
    omega (arith, length-cons c (prefix n s), count-prefix-le n s)
