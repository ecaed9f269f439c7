-- ===== src/Base/Sorting.antt =====
-- Insertion sort by a Boolean test, as a database sorts the rows of a query, and what its prefixes hold.
use Prim.Native.Nat.{ℕ, zero, suc}
use mathlib.Core.Path.{◌≡◌, refl, sym, ap}
use mathlib.Core.Path.{subst}
use mathlib.Core.Logic.{◌⊎◌, inl, inr}
use mathlib.Core.Bool.{Bool, true, false}
use mathlib.Core.List.{List, [], ◌∷◌}
use fraud_latch.Base.Tests.{if◌then◌else◌, Bool-cases}
use fraud_latch.Base.Lists.{All, keep, take, drop, length}

module _ {ℓ} {A : Type ℓ} (before : A → A → Bool) where
  unfoldable pub insert_by : A → List A → List A
  insert_by r [] = r ∷ []
  insert_by r (s ∷ rest) = if before r s then r ∷ s ∷ rest else s ∷ insert_by r rest

  unfoldable pub order_by : List A → List A
  order_by [] = []
  order_by (r ∷ rest) = insert_by r (order_by rest)

  -- Every element is before all that follow it.
  abbrev pub IsOrdered : List A → Type 0
  IsOrdered [] = Unit
  IsOrdered (x ∷ xs) = All (λ y. before x y ≡ true) xs × IsOrdered xs

module _ {ℓ κ} {A : Type ℓ} (P : A → Type κ) where
  pub All-keep_of :
      (test : A → Bool) (xs : List A) → ((x : A) → test x ≡ true → P x) → All P (keep test xs)
  All-keep_of test [] h = tt
  All-keep_of test (x ∷ xs) h = elim (Bool-cases (test x)) [
    | inl e ↦ rw e (h x e, All-keep_of test xs h)
    | inr e ↦ rw e (All-keep_of test xs h)
  ]

  pub All-take : (n : ℕ) (xs : List A) → All P xs → All P (take n xs)
  All-take zero xs h = tt
  All-take (suc n) [] h = tt
  All-take (suc n) (x ∷ xs) h = (h.0, All-take n xs h.1)

  pub All-drop : (n : ℕ) (xs : List A) → All P xs → All P (drop n xs)
  All-drop zero xs h = h
  All-drop (suc n) [] h = tt
  All-drop (suc n) (x ∷ xs) h = All-drop n xs h.1

  module _ (before : A → A → Bool) where
    pub All-insert_by : (r : A) (xs : List A) → P r → All P xs → All P (insert_by before r xs)
    unfolding insert_by
    All-insert_by r [] p h = (p, tt)
    All-insert_by r (s ∷ rest) p h = elim (Bool-cases (before r s)) [
      | inl e ↦ rw e (p, h)
      | inr e ↦ rw e (h.0, All-insert_by r rest p h.1)
    ]

    pub All-order_by : (xs : List A) → All P xs → All P (order_by before xs)
    unfolding order_by
    All-order_by [] h = tt
    All-order_by (r ∷ rest) h = All-insert_by r (order_by before rest) h.0 (All-order_by rest h.1)

pub All-impl {ℓ κ ν} :
    {A : Type ℓ} {P : A → Type κ} {Q : A → Type ν} (xs : List A)
    → ((x : A) → P x → Q x)
    → All P xs
    → All Q xs
All-impl [] f h = tt
All-impl (x ∷ xs) f h = (f x h.0, All-impl xs f h.1)

abbrev pub Contains : {A : Type 0} → A → List A → Type 0
Contains r [] = ⊥
Contains r (x ∷ rest) = (r ≡ x) ⊎ Contains r rest

module _ {A : Type 0} (r : A) where
  pub Contains-keep :
      (test : A → Bool) (xs : List A) → test r ≡ true → Contains r xs → Contains r (keep test xs)
  Contains-keep test [] t c = absurd c
  Contains-keep test (x ∷ xs) t (inl e) = rw (sym (ap test e)) (rw t (inl e))
  Contains-keep test (x ∷ xs) t (inr c) = elim (Bool-cases (test x)) [
    | inl e ↦ rw e (inr (Contains-keep test xs t c))
    | inr e ↦ rw e (Contains-keep test xs t c)
  ]

  module _ (before : A → A → Bool) where
    Contains-insert_self : (xs : List A) → Contains r (insert_by before r xs)
    unfolding insert_by
    Contains-insert_self [] = inl refl
    Contains-insert_self (s ∷ rest) = elim (Bool-cases (before r s)) [
      | inl e ↦ rw e (inl refl)
      | inr e ↦ rw e (inr (Contains-insert_self rest))
    ]

    Contains-insert_by : (x : A) (xs : List A) → Contains r xs → Contains r (insert_by before x xs)
    unfolding insert_by
    Contains-insert_by x [] c = absurd c
    Contains-insert_by x (s ∷ rest) c = elim (Bool-cases (before x s)) [
      | inl e ↦ rw e (inr c)
      | inr e ↦ rw e (elim c [ inl h ↦ inl h | inr h ↦ inr (Contains-insert_by x rest h) ])
    ]

    pub Contains-order_by : (xs : List A) → Contains r xs → Contains r (order_by before xs)
    unfolding order_by
    Contains-order_by [] c = absurd c
    Contains-order_by (x ∷ xs) (inl e) =
        subst (λ y. Contains r (insert_by before y (order_by before xs))) e
          (Contains-insert_self (order_by before xs))
    Contains-order_by (x ∷ xs) (inr c) =
        Contains-insert_by x (order_by before xs) (Contains-order_by xs c)

    All-Contains : (P : A → Type 0) (xs : List A) → All P xs → Contains r xs → P r
    All-Contains P [] h c = absurd c
    All-Contains P (x ∷ xs) h (inl e) = subst P (sym e) h.0
    All-Contains P (x ∷ xs) h (inr c) = All-Contains P xs h.1 c

    -- What a prefix of an ordered list leaves out comes after all of it.
    pub Contains-take :
        (n : ℕ) (xs : List A)
        → IsOrdered before xs
        → Contains r xs
        → Contains r (take n xs)
          ⊎ ((length (take n xs) ≡ n) × All (λ s. before s r ≡ true) (take n xs))
    Contains-take zero xs o c = inr (refl, tt)
    Contains-take (suc n) [] o c = absurd c
    Contains-take (suc n) (x ∷ xs) o (inl e) = inl (inl e)
    Contains-take (suc n) (x ∷ xs) o (inr c) = elim (Contains-take n xs o.1 c) [
      | inl h ↦ inl (inr h)
      | inr (l, h) ↦ inr (ap suc l, (All-Contains (λ y. before x y ≡ true) xs o.0 c, h))
    ]

module _ {ℓ} {A : Type ℓ} (before : A → A → Bool)
    (total : (x y : A) → before x y ≡ false → before y x ≡ true)
    (trans : (x y z : A) → before x y ≡ true → before y z ≡ true → before x z ≡ true) where
  insert_by-IsOrdered :
      (r : A) (xs : List A) → IsOrdered before xs → IsOrdered before (insert_by before r xs)
  unfolding insert_by
  insert_by-IsOrdered r [] o = (tt, tt)
  insert_by-IsOrdered r (s ∷ rest) o = elim (Bool-cases (before r s)) [
    | inl e ↦ rw e ((e, All-impl rest (λ y h. trans r s y e h) o.0), o)
    | inr e ↦ rw e (
      All-insert_by (λ y. before s y ≡ true) before r rest (total r s e) o.0,
      insert_by-IsOrdered r rest o.1,
    )
  ]

  pub order_by-IsOrdered : (xs : List A) → IsOrdered before (order_by before xs)
  unfolding order_by
  order_by-IsOrdered [] = tt
  order_by-IsOrdered (r ∷ rest) =
      insert_by-IsOrdered r (order_by before rest) (order_by-IsOrdered rest)

module _ {ℓ} {A : Type ℓ} (before : A → A → Bool) where
  pub take-IsOrdered : (n : ℕ) (xs : List A) → IsOrdered before xs → IsOrdered before (take n xs)
  take-IsOrdered zero xs o = tt
  take-IsOrdered (suc n) [] o = tt
  take-IsOrdered (suc n) (x ∷ xs) o =
      (All-take (λ y. before x y ≡ true) n xs o.0, take-IsOrdered n xs o.1)

  pub drop-IsOrdered : (n : ℕ) (xs : List A) → IsOrdered before xs → IsOrdered before (drop n xs)
  drop-IsOrdered zero xs o = o
  drop-IsOrdered (suc n) [] o = tt
  drop-IsOrdered (suc n) (x ∷ xs) o = drop-IsOrdered n xs o.1
