-- ===== src/Base/Leads.antt =====
-- What holds after a block of calls, from what holds after each call, whether it returns or raises.
use mathlib.Core.Path.{◌≡◌, refl}
use mathlib.Core.Bool.{true}
use native.Mathlib.Omega.{arith}
use fraud_latch.Base.Outcome.{Outcome, ok, raised, Error, succeeded}
use fraud_latch.Base.Action.{Action, continue, handled, try_except, finally, ◌>>=◌}

-- However the call ends, it leads from a world with the first property to one with the second.
abbrev pub Leads : {W A : Type 0} → (W → Type 0) → (W → Type 0) → Action W A → Type 0
Leads {W} P Q m = (w : W) → P w → Q (m w).1

module _ {W A B : Type 0} (P Q R : W → Type 0) where
  continue-Leads :
      (o : Outcome A) (f : A → Action W B)
      → ((a : A) → Leads Q R (f a))
      → ((w : W) → Q w → R w)
      → Leads Q R (continue o f)
  continue-Leads (ok a) f h weaken w p = h a w p
  continue-Leads (raised e) f h weaken w p = weaken w p

  handled-Leads :
      (o : Outcome A) (handler : Error → Action W B) (next : A → Action W B)
      → ((e : Error) → Leads Q R (handler e))
      → ((a : A) → Leads Q R (next a))
      → Leads Q R (handled o handler next)
  handled-Leads (ok a) handler next h n w p = n a w p
  handled-Leads (raised e) handler next h n w p = h e w p

  pub bind-Leads :
      (m : Action W A) (f : A → Action W B)
      → Leads P Q m
      → ((a : A) → Leads Q R (f a))
      → ((w : W) → Q w → R w)
      → Leads P R (m >>= f)
  bind-Leads m f hm hf weaken w p = continue-Leads (m w).0 f hf weaken (m w).1 (hm w p)

  pub try_except-Leads :
      (m : Action W A) (handler : Error → Action W B) (next : A → Action W B)
      → Leads P Q m
      → ((e : Error) → Leads Q R (handler e))
      → ((a : A) → Leads Q R (next a))
      → Leads P R (try_except m handler next)
  try_except-Leads m handler next hm hh hn w p =
      handled-Leads (m w).0 handler next hh hn (m w).1 (hm w p)

  -- The same where what follows relies on the call having returned.
  continue-returned :
      (o : Outcome A) (f : A → Action W B) (w : W)
      → R w
      → (succeeded o ≡ true → Q w)
      → ((a : A) → Leads Q R (f a))
      → R (continue o f w).1
  continue-returned (ok a) f w r q h = h a w (q refl)
  continue-returned (raised e) f w r q h = r

  pub bind-returned :
      (m : Action W A) (f : A → Action W B)
      → ((w : W) → P w → R (m w).1 × (succeeded (m w).0 ≡ true → Q (m w).1))
      → ((a : A) → Leads Q R (f a))
      → Leads P R (m >>= f)
  bind-returned m f hm hf w p = let (r, q) = hm w p in continue-returned (m w).0 f (m w).1 r q hf

-- If the call returns from this world, its result and the world after it are related.
abbrev pub Ensures : {W A : Type 0} → (A → W → Type 0) → Action W A → W → Type 0
Ensures {W} {A} R m w = (a : A) → (m w).0 ≡ ok a → R a (m w).1

module _ {W A B : Type 0} (R : B → W → Type 0) where
  continue-Ensures :
      (o : Outcome A) (f : A → Action W B) (w : W)
      → ((a : A) → o ≡ ok a → Ensures R (f a) w)
      → Ensures R (continue o f) w
  continue-Ensures (ok a) f w h b r = h a refl b r
  continue-Ensures (raised e) f w h b r = absurd (ground (arith, r))

  pub bind-Ensures :
      (m : Action W A) (f : A → Action W B) (w : W)
      → ((a : A) → (m w).0 ≡ ok a → Ensures R (f a) (m w).1)
      → Ensures R (m >>= f) w
  bind-Ensures m f w h = continue-Ensures (m w).0 f (m w).1 h

  handled-Ensures :
      (o : Outcome A) (handler : Error → Action W B) (next : A → Action W B) (w : W)
      → ((e : Error) → o ≡ raised e → Ensures R (handler e) w)
      → ((a : A) → o ≡ ok a → Ensures R (next a) w)
      → Ensures R (handled o handler next) w
  handled-Ensures (ok a) handler next w h n = n a refl
  handled-Ensures (raised e) handler next w h n = h e refl

  pub try_except-Ensures :
      (m : Action W A) (handler : Error → Action W B) (next : A → Action W B) (w : W)
      → ((e : Error) → (m w).0 ≡ raised e → Ensures R (handler e) (m w).1)
      → ((a : A) → (m w).0 ≡ ok a → Ensures R (next a) (m w).1)
      → Ensures R (try_except m handler next) w
  try_except-Ensures m handler next w h n = handled-Ensures (m w).0 handler next (m w).1 h n

-- A call keeps the second property, and the first too if it returns.
abbrev pub Keeps : {W A : Type 0} → (W → Type 0) → (W → Type 0) → Action W A → Type 0
Keeps {W} P Q m = (w : W) → P w → Q (m w).1 × (succeeded (m w).0 ≡ true → P (m w).1)

module _ {W A B : Type 0} (P Q : W → Type 0) where
  continue-Keeps :
      (C : A → Type 0) (o : Outcome A) (f : A → Action W B) (w : W)
      → ((a : A) → o ≡ ok a → C a)
      → ((a : A) → C a → Keeps P Q (f a))
      → Q w × (succeeded o ≡ true → P w)
      → Q (continue o f w).1 × (succeeded (continue o f w).0 ≡ true → P (continue o f w).1)
  continue-Keeps C (ok a) f w c h k = h a (c a refl) w (k.1 refl)
  continue-Keeps C (raised e) f w c h k = k

  -- `C` holds of what the first call returns.
  pub bind-Keeps :
      (C : A → Type 0) (m : Action W A) (f : A → Action W B)
      → Keeps P Q m
      → ((w : W) (a : A) → (m w).0 ≡ ok a → C a)
      → ((a : A) → C a → Keeps P Q (f a))
      → Keeps P Q (m >>= f)
  bind-Keeps C m f hm c h w p = continue-Keeps C (m w).0 f (m w).1 (c w) h (hm w p)

-- A block with a cleanup that returned.
pub finally-ok :
    {W A : Type 0} (m : Action W A) (cleanup : Action W (Unit {0})) (w : W) (a : A)
    → (finally m cleanup w).0 ≡ ok a
    → (m w).0 ≡ ok a
finally-ok m cleanup w a h = ground (arith, h)
