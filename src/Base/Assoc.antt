-- ===== src/Base/Assoc.antt =====
-- Maps with text keys as association lists in insertion order: Python's dicts and the rows of a
-- table under their primary key.
use Prim.Native.String.{String}
use mathlib.Core.Path.{◌≡◌, refl}
use mathlib.Core.Option.{Option, none, some}
use mathlib.Core.List.{List, [], ◌∷◌}
use native.Mathlib.Omega.{arith}
use text.Mathlib.Text.{◌==◌ as str_eq}
use text.Mathlib.TextEquality.{eq_iff}
use text.Mathlib.TextPositions.{eq_refl}
use fraud_latch.Base.Tests.{if◌then◌else◌}

abbrev pub Assoc {ℓ} : Type ℓ → Type ℓ
Assoc V = List (String × V)

module _ {ℓ} {V : Type ℓ} where
  -- `d[name] = value`, in place where the key is there
  unfoldable pub insert : String → V → Assoc V → Assoc V
  insert name value ((other, old) ∷ rest) =
      if str_eq other name then (other, value) ∷ rest else (other, old) ∷ insert name value rest
  insert name value [] = (name, value) ∷ []

  -- `d.get(name)`
  unfoldable pub lookup : String → Assoc V → Option V
  lookup name ((other, value) ∷ rest) = if str_eq other name then some value else lookup name rest
  lookup name [] = none

  pub lookup-insert :
      (k j : String) (v : V) (d : Assoc V)
      → lookup j (insert k v d) ≡ (if str_eq k j then some v else lookup j d)
  unfolding lookup insert
  lookup-insert k j v [] = refl
  lookup-insert k j v ((i, w) ∷ d) =
      ground (arith, eq_iff k j, eq_iff i k, eq_iff i j, lookup-insert k j v d)

  pub lookup-insert_self : (k : String) (v : V) (d : Assoc V) → lookup k (insert k v d) ≡ some v
  lookup-insert_self k v d = simp (lookup-insert, eq_refl)

  -- Writing a key twice is writing it once.
  pub insert-insert :
      (k : String) (v w : V) (d : Assoc V) → insert k v (insert k w d) ≡ insert k v d
  unfolding insert
  insert-insert k v w [] = simp eq_refl
  insert-insert k v w ((j, u) ∷ d) = ground (arith, insert-insert k v w d)
