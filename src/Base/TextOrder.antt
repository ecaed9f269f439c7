-- ===== src/Base/TextOrder.antt =====
-- Python's `<` on texts: lexicographic, by code point.
use Prim.Native.String.{String, [], ◌∷◌}
use Prim.Native.Char.{code}
use text.Mathlib.TextEquality.{Char-path}
use native.Mathlib.Omega.{arith}
use mathlib.Core.Path.{◌≡◌, refl}
use mathlib.Core.Bool.{Bool, true, false, ◌&&◌, ◌||◌}
use fraud_latch.Base.Tests.{ltb, ◌==◌}

unfoldable pub text_lt : String → String → Bool
text_lt [] [] = false
text_lt [] (d ∷ t) = true
text_lt (c ∷ s) [] = false
text_lt (c ∷ s) (d ∷ t) = ltb (code c) (code d) || (code c == code d && text_lt s t)

pub text_lt_asymm : (s t : String) → text_lt s t ≡ true → text_lt t s ≡ false
unfolding text_lt
text_lt_asymm [] [] h = refl
text_lt_asymm [] (d ∷ t) h = refl
text_lt_asymm (c ∷ s) [] h = ground (arith, h)
text_lt_asymm (c ∷ s) (d ∷ t) h = ground (arith, h, text_lt_asymm s t)

pub text_lt_total : (s t : String) → text_lt s t ≡ false → text_lt t s ≡ false → s ≡ t
unfolding text_lt
text_lt_total [] [] h k = refl
text_lt_total [] (d ∷ t) h k = ground (arith, h)
text_lt_total (c ∷ s) [] h k = ground (arith, k)
text_lt_total (c ∷ s) (d ∷ t) h k =
    let same : code c ≡ code d = ground (arith, h, k) in
    let rest = text_lt_total s t (ground (arith, h, k)) (ground (arith, h, k)) in
    λ i. Char-path c d same i ∷ rest i

-- What is below the one of two texts is below the other, or the other below the one.
pub text_lt_between :
    (s t u : String) → text_lt s u ≡ true → text_lt s t ≡ false → text_lt t u ≡ true
unfolding text_lt
text_lt_between [] [] u h k = h
text_lt_between [] (d ∷ t) u h k = ground (arith, k)
text_lt_between (c ∷ s) t [] h k = ground (arith, h)
text_lt_between (c ∷ s) [] (e ∷ u) h k = refl
text_lt_between (c ∷ s) (d ∷ t) (e ∷ u) h k = ground (arith, h, k, text_lt_between s t u)
