-- ===== src/Base/Action.antt =====
-- Coroutines of the program as actions: a call changes the world `W` around it (the database, the
-- broker, the session) and returns or raises. What was written before a raise stays written.
use mathlib.Core.Path.{◌≡◌, refl}
use mathlib.Core.List.{List, [], ◌∷◌}
use native.Mathlib.Omega.{arith}
use fraud_latch.Base.Outcome.{Outcome, ok, raised, Error}

abbrev pub Action : Type 0 → Type 0 → Type 0
Action W A = W → Outcome A × W

module _ {W A : Type 0} where
  abbrev pub pure : A → Action W A
  pure a w = (ok a, w)

  abbrev pub raise : Error → Action W A
  raise e w = (raised e, w)

  -- A call of a plain function that may raise.
  abbrev pub lift : Outcome A → Action W A
  lift o w = (o, w)

module _ {W A B : Type 0} where
  infixl 5 ◌>>=◌ ◌>>◌
  abbrev pub continue : Outcome A → (A → Action W B) → Action W B
  continue (ok a) f w = f a w
  continue (raised e) f w = (raised e, w)

  abbrev pub ◌>>=◌ : Action W A → (A → Action W B) → Action W B
  ◌>>=◌ m f w = continue (m w).0 f (m w).1

  abbrev pub ◌>>◌ : Action W A → Action W B → Action W B
  m >> k = m >>= λ _. k

  -- `try: m except Exception as error: handler(error)`, followed by `next` where nothing was raised
  abbrev pub handled : Outcome A → (Error → Action W B) → (A → Action W B) → Action W B
  handled (ok a) handler next w = next a w
  handled (raised e) handler next w = handler e w

  abbrev pub try_except : Action W A → (Error → Action W B) → (A → Action W B) → Action W B
  try_except m handler next w = handled (m w).0 handler next (m w).1

  continue-eq-ok :
      (o : Outcome A) (w : W) (f : A → Action W B) {b : B} {w' : W}
      → continue o f w ≡ (ok b, w')
      → (a : A) × (o ≡ ok a) × (f a w ≡ (ok b, w'))
  continue-eq-ok (ok a) w f h = (a, refl, h)
  continue-eq-ok (raised e) w f h = ground arith

  -- A block that returned: its first call returned, and the rest went on from there.
  pub bind-eq-ok :
      (m : Action W A) (f : A → Action W B) (w : W) {b : B} {w' : W}
      → (m >>= f) w ≡ (ok b, w')
      → (a : A) × (w1 : W) × (m w ≡ (ok a, w1)) × (f a w1 ≡ (ok b, w'))
  bind-eq-ok m f w h =
      let (a, e, k) = continue-eq-ok (m w).0 (m w).1 f h in (a, (m w).1, (λ i. (e i, (m w).1)), k)

-- `for x in xs: await f(x)`
module _ {W A : Type 0} where
  unfoldable pub for_each : (A → Action W (Unit {0})) → List A → Action W (Unit {0})
  for_each f [] = pure tt
  for_each f (x ∷ xs) = f x >> for_each f xs

abbrev pub after_cleanup : {A : Type 0} → Outcome A → Outcome (Unit {0}) → Outcome A
after_cleanup o (ok u) = o
after_cleanup o (raised e) = raised e

-- `try: m finally: cleanup`, also the block of an `async with`: an error of the cleanup takes the place of what `m` did.
abbrev pub finally : {W A : Type 0} → Action W A → Action W (Unit {0}) → Action W A
finally m cleanup w = (after_cleanup (m w).0 (cleanup (m w).1).0, (cleanup (m w).1).1)
