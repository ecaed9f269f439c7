-- ===== src/Risk/AmountDeviation/Lookup.antt =====
-- What a lookup in the baselines of fraudlatch/risk/amount_deviation.py finds: the baseline of the customer's own transactions, whatever
-- order they came in.
use fraud_latch.Base.{
  append_one, ◌≡◌, refl, sym, ◌∙◌, ap, String, Bool, Option, none, some, List, [], ◌∷◌, ◌++◌, All,
  keep, inl, inr, Bool-cases, str_eq, eq_iff, arith,
}
use mathlib.Core.Path.{subst}
use mathlib.Core.List.{Permᴰ, Perm, append-nil}
use mathlib.Core.List.Permᴰ
use mathlib.Core.Logic.{∥∥₁_elim}
use fraud_latch.Base.Assoc.{Assoc, lookup, lookup-insert}
use fraud_latch.Base.Outcome.{Outcome, ok, ok_inj, ◌>>=◌}
use fraud_latch.Worker.Durability.{status-cases}
use fraud_latch.Risk.Models.{RiskTransaction, AmountBaseline, empty_context}
use fraud_latch.Risk.AmountDeviation.{
  Arithmetic, found, add_to, group, sorted_baseline, baseline, baselines_of, build_amount_baselines,
  get_context,
}
use fraud_latch.Risk.AmountDeviation.Order.{IsIn, sort_reordered}

-- Whether a transaction is the customer's.
abbrev pub is_of : String → RiskTransaction → Bool
is_of customer t = str_eq t.customer_id customer

-- A group after more transactions of its customer.
abbrev extended :
    Option (List RiskTransaction) → List RiskTransaction → Option (List RiskTransaction)
extended o [] = o
extended o (t ∷ ts) = extended (some (found o ++ t ∷ [])) ts

lookup-group :
    (c : String) (ts : List RiskTransaction) (grouped : Assoc (List RiskTransaction))
    → lookup c (group ts grouped) ≡ extended (lookup c grouped) (keep (is_of c) ts)
unfolding group
lookup-group c [] grouped = refl
lookup-group c (t ∷ ts) grouped = elim (Bool-cases (is_of c t)) [
  | inl h ↦
      let same = (eq_iff t.customer_id c).0 h in
      lookup-group c ts (add_to t grouped)
      ∙ rw (lookup-insert t.customer_id c (found (lookup t.customer_id grouped) ++ t ∷ []) grouped)
          (rw h (
            ap (λ k. extended (some (found (lookup k grouped) ++ t ∷ [])) (keep (is_of c) ts))
              same))
  | inr h ↦
      lookup-group c ts (add_to t grouped)
      ∙ rw (lookup-insert t.customer_id c (found (lookup t.customer_id grouped) ++ t ∷ []) grouped)
          (rw h refl)
]

extended-some : (us ts : List RiskTransaction) → extended (some us) ts ≡ some (us ++ ts)
extended-some us [] = ap some (sym (append-nil us))
extended-some us (t ∷ ts) = extended-some (us ++ t ∷ []) ts ∙ ap some (append_one us t ts)

-- The group of a customer: its transactions, or none at all.
abbrev group_of : List RiskTransaction → Option (List RiskTransaction)
group_of [] = none
group_of (t ∷ ts) = some (t ∷ ts)

extended-none : (ts : List RiskTransaction) → extended none ts ≡ group_of ts
extended-none [] = refl
extended-none (t ∷ ts) = extended-some (t ∷ []) ts

baseline_set : IsSet (Option AmountBaseline)
baseline_set = hlevel

module _ {N : Type 0} (arithmetic : Arithmetic N) where
  -- The baseline of a group.
  abbrev pub baseline_of : Option (List RiskTransaction) → Outcome (Option AmountBaseline)
  baseline_of none = ok none
  baseline_of (some ts) = baseline arithmetic ts >>= λ b. ok (some b)

  lookup-baselines_of :
      (c : String) (grouped : Assoc (List RiskTransaction)) (m : Assoc AmountBaseline)
      → baselines_of arithmetic grouped ≡ ok m
      → baseline_of (lookup c grouped) ≡ ok (lookup c m)
  unfolding baselines_of lookup
  lookup-baselines_of c [] m h = subst (λ m. ok none ≡ ok (lookup c m)) (ok_inj [] m h) refl
  lookup-baselines_of c ((d, records) ∷ grouped) m h =
      elim (status-cases (baseline arithmetic records)) [
        | inl (e, eq) ↦ absurd (ground (arith, eq, h))
        | inr (b, eq) ↦ elim (status-cases (baselines_of arithmetic grouped)) [
          | inl (e, eq1) ↦ absurd (ground (arith, eq, eq1, h))
          | inr (rest, eq1) ↦
              let made : (d, b) ∷ rest ≡ m =
                ok_inj ((d, b) ∷ rest) m (ground (arith, eq, eq1, h)) in
              subst (λ m. baseline_of (lookup c ((d, records) ∷ grouped)) ≡ ok (lookup c m)) made
                (elim (Bool-cases (str_eq d c)) [
                  | inl k ↦ rw (k, eq) refl
                  | inr k ↦ rw k (lookup-baselines_of c grouped rest eq1)
                ])
        ]
      ]

  -- If the baselines are built, a lookup finds the baseline of the customer's own transactions, and none for a customer without any.
  pub lookup-build_amount_baselines :
      (ts : List RiskTransaction) (m : Assoc AmountBaseline)
      → build_amount_baselines arithmetic ts ≡ ok m
      → (c : String) → ok (lookup c m) ≡ baseline_of (group_of (keep (is_of c) ts))
  unfolding build_amount_baselines lookup
  lookup-build_amount_baselines ts m h c =
      sym (lookup-baselines_of c (group ts []) m h)
      ∙ ap baseline_of (lookup-group c ts [] ∙ extended-none (keep (is_of c) ts))

  module _ (table : String → RiskTransaction) where
    baseline_reordered :
        {ts us : List RiskTransaction}
        → Permᴰ ts us
        → All (IsIn table) ts
        → baseline arithmetic ts ≡ baseline arithmetic us
    unfolding baseline
    baseline_reordered d h = ap (sorted_baseline arithmetic) (sort_reordered table d h).0

    group_reordered :
        {ts us : List RiskTransaction}
        → Permᴰ ts us
        → All (IsIn table) ts
        → baseline_of (group_of ts) ≡ baseline_of (group_of us)
    group_reordered Permᴰ.nil h = refl
    group_reordered (Permᴰ.cons e d) h =
        ap (λ o. o >>= λ b. ok (some b)) (baseline_reordered (Permᴰ.cons e d) h)
    group_reordered (Permᴰ.swap e f) h =
        ap (λ o. o >>= λ b. ok (some b)) (baseline_reordered (Permᴰ.swap e f) h)
    group_reordered (Permᴰ.trans d d') h =
        group_reordered d h ∙ group_reordered d' (sort_reordered table d h).1

    keep_swapped :
        (p : RiskTransaction → Bool) (a b : RiskTransaction) (l : List RiskTransaction)
        → Permᴰ (keep p (a ∷ b ∷ l)) (keep p (b ∷ a ∷ l))
    keep_swapped p a b l = elim (Bool-cases (p a)) [
      | inl h ↦ elim (Bool-cases (p b)) [
        | inl k ↦ rw (h, k) (Permᴰ.swap refl refl)
        | inr k ↦ rw (h, k) (Permᴰ.refl (a ∷ keep p l))
      ]
      | inr h ↦ rw h (Permᴰ.refl (keep p (b ∷ l)))
    ]

    keep_reordered :
        (p : RiskTransaction → Bool) {ts us : List RiskTransaction}
        → Permᴰ ts us
        → Permᴰ (keep p ts) (keep p us)
    keep_reordered p Permᴰ.nil = Permᴰ.nil
    keep_reordered p (Permᴰ.cons {a} {b} {l₁} {l₂} e d) =
        subst (λ x. Permᴰ (keep p (a ∷ l₁)) (keep p (x ∷ l₂))) e
          (elim (Bool-cases (p a)) [
            | inl h ↦ rw h (Permᴰ.cons refl (keep_reordered p d))
            | inr h ↦ rw h (keep_reordered p d)
          ])
    keep_reordered p (Permᴰ.swap {a} {b} {a'} {b'} {l} e f) =
        subst (λ x. Permᴰ (keep p (a ∷ b ∷ l)) (keep p (x ∷ b' ∷ l))) f
          (subst (λ y. Permᴰ (keep p (a ∷ b ∷ l)) (keep p (b ∷ y ∷ l))) e (keep_swapped p a b l))
    keep_reordered p (Permᴰ.trans d d') = Permᴰ.trans (keep_reordered p d) (keep_reordered p d')

    All-keep :
        (p : RiskTransaction → Bool) (ts : List RiskTransaction)
        → All (IsIn table) ts
        → All (IsIn table) (keep p ts)
    All-keep p [] h = tt
    All-keep p (t ∷ ts) h = elim (Bool-cases (p t)) [
      | inl k ↦ rw k (h.0, All-keep p ts h.1)
      | inr k ↦ rw k (All-keep p ts h.1)
    ]

    -- The context of a transaction does not depend on the order of the transactions that the baselines are built from, where a
    -- transaction is the one that a table has under its identifier and the baselines are built for both orders.
    pub get_context_reordered :
        (ts us : List RiskTransaction) (m m' : Assoc AmountBaseline)
        → Perm ts us
        → All (IsIn table) ts
        → build_amount_baselines arithmetic ts ≡ ok m
        → build_amount_baselines arithmetic us ≡ ok m'
        → (t : RiskTransaction) → get_context m t ≡ get_context m' t
    unfolding get_context
    get_context_reordered ts us m m' d h e e' t =
        let c = t.customer_id in
        let same : lookup c m ≡ lookup c m' =
          ∥∥₁_elim d (baseline_set (lookup c m) (lookup c m')) (λ d.
            ok_inj (lookup c m) (lookup c m') (
              lookup-build_amount_baselines ts m e c
              ∙ group_reordered (keep_reordered (is_of c) d) (All-keep (is_of c) ts h)
              ∙ sym (lookup-build_amount_baselines us m' e' c))) in
        ap (λ b. record empty_context { amount_baseline = b }) same
