-- ===== src/Allocation/Conserved.antt =====
-- `allocate_accounts_rule` of billing/allocation.py gives the money of the facts, no more and no
-- less.
use cloud_billing_console.Prelude.{
  ℕ, ◌≡◌, refl, ap, ◌∙◌, ◌&&◌, ◌==◌, any, Bool, true, false, String, List, [], ◌∷◌, arith, select,
  inl, inr, Bool-cases, if◌then◌else◌, ==_iff, str_eq_iff,
}
use cloud_billing_console.Prelude.Int.{ℤ, pos, ◌+ℤ◌, int_laws, eq_of_parts}
use cloud_billing_console.Allocation.Rules.{Rule}
use cloud_billing_console.Allocation.Project.{
  Cost, ProjectCost, in_scope, same_group, as_row, add_fact, grouped, mark_estimated,
  allocate_accounts_rule,
}

+ℤ_into : (a b c : ℤ) → a +ℤ b +ℤ c ≡ b +ℤ (a +ℤ c)
+ℤ_into a b c = eq_of_parts (a +ℤ b +ℤ c) (b +ℤ (a +ℤ c)) (omega int_laws)

+ℤ_swap : (a b c : ℤ) → a +ℤ (b +ℤ c) ≡ b +ℤ (a +ℤ c)
+ℤ_swap a b c = eq_of_parts (a +ℤ (b +ℤ c)) (b +ℤ (a +ℤ c)) (omega int_laws)

into_if :
    (x y : Bool) (a b c : ℤ)
    → y ≡ x
    → (if x then a +ℤ b +ℤ c else c)
      ≡ (if y then b +ℤ (if x then a +ℤ c else c) else (if x then a +ℤ c else c))
into_if true y a b c e = rw e (+ℤ_into a b c)
into_if false y a b c e = rw e refl

swap_if :
    (x y : Bool) (a b c : ℤ)
    → (if x then a +ℤ (if y then b +ℤ c else c) else (if y then b +ℤ c else c))
      ≡ (if y then b +ℤ (if x then a +ℤ c else c) else (if x then a +ℤ c else c))
swap_if true true a b c = +ℤ_swap a b c
swap_if true false a b c = refl
swap_if false y a b c = refl

-- The money of the facts, and of the rows, whose source, day, account and currency pass `q`, where
-- `money` is the column that is added up.
unfoldable pub facts_total : (Cost → ℤ) → (ℕ → ℕ → String → String → Bool) → List Cost → ℤ
facts_total money q [] = pos 0
facts_total money q (c ∷ cs) =
    if q c.source c.day c.account_id c.currency
    then money c +ℤ facts_total money q cs
    else facts_total money q cs

unfoldable pub rows_total :
    (ProjectCost → ℤ) → (ℕ → ℕ → String → String → Bool) → List ProjectCost → ℤ
rows_total money q [] = pos 0
rows_total money q (p ∷ ps) =
    if q p.source p.day p.account_id p.currency
    then money p +ℤ rows_total money q ps
    else rows_total money q ps

-- The row with the fact added to it.
abbrev plus_fact : ProjectCost → Cost → ProjectCost
plus_fact p c = record p {
  unblended = p.unblended +ℤ c.unblended;
  amortized = p.amortized +ℤ c.amortized;
}

-- A column of the facts and the column of the rows that it goes into.
record IsColumn (cost : Cost → ℤ) (row : ProjectCost → ℤ) : Type 0 where
  fresh : (r : Rule) (c : Cost) → row (as_row r c) ≡ cost c
  added : (p : ProjectCost) (c : Cost) → row (plus_fact p c) ≡ row p +ℤ cost c
  marked : (p : ProjectCost) (b : Bool) → row (record p { estimated = b }) ≡ row p

module _ (q : ℕ → ℕ → String → String → Bool) where
  same_group-q :
      (c : Cost) (p : ProjectCost)
      → same_group c p ≡ true
      → q c.source c.day c.account_id c.currency ≡ q p.source p.day p.account_id p.currency
  same_group-q c p e =
      go ((==_iff c.source p.source).0 (ground (arith, e)))
        ((==_iff c.day p.day).0 (ground (arith, e)))
        ((str_eq_iff c.account_id p.account_id).0 (ground (arith, e)))
        ((str_eq_iff c.currency p.currency).0 (ground (arith, e)))
    where
      go :
          c.source ≡ p.source
          → c.day ≡ p.day
          → c.account_id ≡ p.account_id
          → c.currency ≡ p.currency
          → q c.source c.day c.account_id c.currency ≡ q p.source p.day p.account_id p.currency
      go s d a k = cc

  module _ (cost : Cost → ℤ) (row : ProjectCost → ℤ) (column : IsColumn cost row) where
    add_fact-total :
        (r : Rule) (c : Cost) (rows : List ProjectCost)
        → rows_total row q (add_fact r c rows) ≡ (
            if q c.source c.day c.account_id c.currency
            then cost c +ℤ rows_total row q rows
            else rows_total row q rows)
    unfolding add_fact rows_total
    add_fact-total r c [] =
        ap (λ v. if q c.source c.day c.account_id c.currency then v +ℤ pos 0 else pos 0)
          (column.fresh r c)
    add_fact-total r c (p ∷ ps) = elim (Bool-cases (same_group c p)) [
      | inl e ↦ rw e (
          ap
            (λ v.
              if q p.source p.day p.account_id p.currency
              then v +ℤ rows_total row q ps
              else rows_total row q ps)
            (column.added p c)
          ∙ into_if (q p.source p.day p.account_id p.currency)
              (q c.source c.day c.account_id c.currency) (row p) (cost c) (rows_total row q ps)
              (same_group-q c p e))
      | inr e ↦
          rw (e, add_fact-total r c ps)
            (swap_if (q p.source p.day p.account_id p.currency)
              (q c.source c.day c.account_id c.currency) (row p) (cost c) (rows_total row q ps))
    ]

    mark_estimated-total :
        (facts : List Cost) (rows : List ProjectCost)
        → rows_total row q (mark_estimated facts rows) ≡ rows_total row q rows
    unfolding mark_estimated rows_total
    mark_estimated-total facts [] = refl
    mark_estimated-total facts (p ∷ ps) = rw (mark_estimated-total facts ps) (
        ap
          (λ v.
            if q p.source p.day p.account_id p.currency
            then v +ℤ rows_total row q ps
            else rows_total row q ps)
          (column.marked p (any (λ (c : Cost). c.estimated && (c.day == p.day)) facts)))

    grouped-total :
        (r : Rule) (facts : List Cost)
        → rows_total row q (grouped r facts) ≡ facts_total cost q facts
    unfolding grouped facts_total
    grouped-total r [] = unfold rows_total in refl
    grouped-total r (c ∷ cs) = rw (add_fact-total r c (grouped r cs), grouped-total r cs) refl

    allocated_total :
        (costs : List Cost) (r : Rule) (customer first last : ℕ)
        → rows_total row q (allocate_accounts_rule costs r customer first last)
          ≡ facts_total cost q (select (in_scope r customer first last) costs)
    unfolding allocate_accounts_rule
    allocated_total costs r customer first last =
        let facts : List Cost = select (in_scope r customer first last) costs in
        mark_estimated-total facts (grouped r facts) ∙ grouped-total r facts

  -- A whole-account rule allocates exactly the spend of the facts in its scope, unblended and
  -- amortized: whatever part of the spend is singled out by source, day, account and currency, each
  -- of the two columns adds up over the rows of that part to what it is over the facts of that part.
  pub allocate_accounts_rule-total :
      (costs : List Cost) (r : Rule) (customer first last : ℕ)
      → (rows_total (λ p. p.unblended) q (allocate_accounts_rule costs r customer first last)
          ≡ facts_total (λ c. c.unblended) q (select (in_scope r customer first last) costs))
        × (rows_total (λ p. p.amortized) q (allocate_accounts_rule costs r customer first last)
            ≡ facts_total (λ c. c.amortized) q (select (in_scope r customer first last) costs))
  allocate_accounts_rule-total costs r customer first last = (
    allocated_total (λ c. c.unblended) (λ p. p.unblended)
        (record { fresh = λ s c. refl; added = λ p c. refl; marked = λ p b. refl }) costs r customer
        first last,
    allocated_total (λ c. c.amortized) (λ p. p.amortized)
        (record { fresh = λ s c. refl; added = λ p c. refl; marked = λ p b. refl }) costs r customer
        first last,
  )
