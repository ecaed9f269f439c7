-- ===== src/Risk/AmountDeviation/Order.antt =====
-- Sorting the records of fraudlatch/risk/amount_deviation.py forgets the order that they came in.
use fraud_latch.Base.{
  ◌≡◌, refl, sym, ◌∙◌, ap, String, true, false, List, [], ◌∷◌, All, inl, inr, Bool-cases, arith,
}
use mathlib.Core.Path.{subst}
use mathlib.Core.List.{Permᴰ}
use fraud_latch.Base.TextOrder.{text_lt_asymm, text_lt_total, text_lt_between}
use fraud_latch.Risk.Models.{RiskTransaction}
use fraud_latch.Risk.AmountDeviation.{key_before, insert_sorted, sort}

key_before_asymm : (a b : RiskTransaction) → key_before a b ≡ true → key_before b a ≡ false
unfolding key_before
key_before_asymm a b h = ground (arith, h, text_lt_asymm a.transaction_id b.transaction_id)

key_before_between :
    (a b c : RiskTransaction)
    → key_before a c ≡ true
    → key_before a b ≡ false
    → key_before b c ≡ true
unfolding key_before
key_before_between a b c h k =
    ground (arith, h, k, text_lt_between a.transaction_id b.transaction_id c.transaction_id)

-- Each transaction is the one that the table has under its identifier.
abbrev pub IsIn : (String → RiskTransaction) → RiskTransaction → Type 0
IsIn table t = t ≡ table t.transaction_id

module _ (table : String → RiskTransaction) where
  key_before_total :
      (a b : RiskTransaction)
      → IsIn table a
      → IsIn table b
      → key_before a b ≡ false
      → key_before b a ≡ false
      → a ≡ b
  unfolding key_before
  key_before_total a b p q h k =
      let same =
        text_lt_total a.transaction_id b.transaction_id (ground (arith, h, k))
          (ground (arith, h, k)) in
      p ∙ ap table same ∙ sym q

  insert_sorted_ahead :
      (x z : RiskTransaction) (ts : List RiskTransaction)
      → key_before z x ≡ true
      → insert_sorted x (z ∷ ts) ≡ z ∷ insert_sorted x ts
  unfolding insert_sorted
  insert_sorted_ahead x z ts h = rw h

  insert_sorted_behind :
      (x z : RiskTransaction) (ts : List RiskTransaction)
      → key_before z x ≡ false
      → insert_sorted x (z ∷ ts) ≡ x ∷ z ∷ ts
  unfolding insert_sorted
  insert_sorted_behind x z ts h = rw h

  -- Of two transactions that both come before a list, each is inserted first or last.
  insert_sorted_both :
      (x y : RiskTransaction) (ts : List RiskTransaction)
      → IsIn table x
      → IsIn table y
      → insert_sorted x ts ≡ x ∷ ts
      → insert_sorted y ts ≡ y ∷ ts
      → insert_sorted x (y ∷ ts) ≡ insert_sorted y (x ∷ ts)
  insert_sorted_both x y ts p q f g = elim (Bool-cases (key_before x y)) [
    | inl h ↦
        insert_sorted_behind x y ts (key_before_asymm x y h)
        ∙ sym (insert_sorted_ahead y x ts h ∙ ap (λ us. x ∷ us) g)
    | inr h ↦ elim (Bool-cases (key_before y x)) [
      | inl k ↦
          insert_sorted_ahead x y ts k ∙ ap (λ us. y ∷ us) f ∙ sym (insert_sorted_behind y x ts h)
      | inr k ↦ rw (key_before_total x y p q h k) refl
    ]
  ]

  insert_sorted_past :
      (x y z : RiskTransaction) (ts : List RiskTransaction)
      → key_before z y ≡ true
      → key_before z x ≡ false
      → insert_sorted x (insert_sorted y (z ∷ ts)) ≡ insert_sorted y (insert_sorted x (z ∷ ts))
  insert_sorted_past x y z ts a b =
      let c = key_before_between z x y a b in
      ap (insert_sorted x) (insert_sorted_ahead y z ts a)
      ∙ insert_sorted_behind x z (insert_sorted y ts) b
      ∙ sym (
          ap (insert_sorted y) (insert_sorted_behind x z ts b)
          ∙ insert_sorted_ahead y x (z ∷ ts) c
          ∙ ap (λ us. x ∷ us) (insert_sorted_ahead y z ts a))

  insert_sorted_nil : (x : RiskTransaction) → insert_sorted x [] ≡ x ∷ []
  unfolding insert_sorted
  insert_sorted_nil x = refl

  insert_sorted_comm :
      (x y : RiskTransaction) (ts : List RiskTransaction)
      → IsIn table x
      → IsIn table y
      → insert_sorted x (insert_sorted y ts) ≡ insert_sorted y (insert_sorted x ts)
  insert_sorted_comm x y [] p q =
      ap (insert_sorted x) (insert_sorted_nil y)
      ∙ insert_sorted_both x y [] p q (insert_sorted_nil x) (insert_sorted_nil y)
      ∙ sym (ap (insert_sorted y) (insert_sorted_nil x))
  insert_sorted_comm x y (z ∷ ts) p q = elim (Bool-cases (key_before z y)) [
    | inl a ↦ elim (Bool-cases (key_before z x)) [
      | inl b ↦
          ap (insert_sorted x) (insert_sorted_ahead y z ts a)
          ∙ insert_sorted_ahead x z (insert_sorted y ts) b
          ∙ ap (λ us. z ∷ us) (insert_sorted_comm x y ts p q)
          ∙ sym (
              ap (insert_sorted y) (insert_sorted_ahead x z ts b)
              ∙ insert_sorted_ahead y z (insert_sorted x ts) a)
      | inr b ↦ insert_sorted_past x y z ts a b
    ]
    | inr a ↦ elim (Bool-cases (key_before z x)) [
      | inl b ↦ sym (insert_sorted_past y x z ts b a)
      | inr b ↦
          let f = insert_sorted_behind x z ts b in
          let g = insert_sorted_behind y z ts a in
          ap (insert_sorted x) g
          ∙ insert_sorted_both x y (z ∷ ts) p q f g
          ∙ sym (ap (insert_sorted y) f)
    ]
  ]

  -- A reordering of transactions of the table is sorted into the same list.
  pub sort_reordered :
      {ts us : List RiskTransaction}
      → Permᴰ ts us
      → All (IsIn table) ts
      → (sort ts ≡ sort us) × All (IsIn table) us
  unfolding sort
  sort_reordered Permᴰ.nil h = (refl, tt)
  sort_reordered (Permᴰ.cons {b} e d) h =
      let (r, k) = sort_reordered d h.1 in
      ((λ i. insert_sorted (e i) (r i)), (subst (IsIn table) e h.0, k))
  sort_reordered (Permᴰ.swap {a} {b} {a'} {b'} {l} e f) h = (
    insert_sorted_comm a b (sort l) h.0 h.1.0
        ∙ (λ i. insert_sorted (f i) (insert_sorted (e i) (sort l))),
    (subst (IsIn table) f h.1.0, (subst (IsIn table) e h.0, h.1.1)),
  )
  sort_reordered (Permᴰ.trans d d') h =
      let (r, k) = sort_reordered d h in let (r', k') = sort_reordered d' k in (r ∙ r', k')
