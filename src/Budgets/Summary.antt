-- ===== src/Budgets/Summary.antt =====
-- `portfolio_summary` of billing/budgets.py.
use cloud_billing_console.Prelude.{
  ℕ, ◌+◌, ◌≤◌, String, ◌≡◌, refl, sym, ap, ◌∙◌, subst, inl, inr, Bool, true, false, Option, none,
  some, List, [], ◌∷◌, arith, str_eq, if◌then◌else◌, Bool-cases, length, select,
}
use cloud_billing_console.Prelude.Int.{ℤ, ◌+ℤ◌}
use cloud_billing_console.Budgets.Tables.{Scope, Budget}
use cloud_billing_console.Budgets.Evaluate.{Verdict, Evaluation}

-- d[k] = d.get(k, 0) + v, where `add` is the sum.
unfoldable pub add_to :
    {A : Type 0} (add : A → A → A) → String → A → List (String × A) → List (String × A)
add_to add k v [] = (k, v) ∷ []
add_to add k v ((j, w) ∷ d) = if str_eq j k then (j, add w v) ∷ d else (j, w) ∷ add_to add k v d

pub record Summary : Type 0 where
  pub budget_total : List (String × ℕ)
  pub actual_total : List (String × ℤ)
  pub breaches : ℕ
  pub at_risk : ℕ
  pub unverified : ℕ
  pub child_budgets : ℕ
  pub customer_budgets : ℕ

abbrev pub no_summary : Summary
no_summary = record {
  budget_total = [];
  actual_total = [];
  breaches = 0;
  at_risk = 0;
  unverified = 0;
  child_budgets = 0;
  customer_budgets = 0;
}

abbrev pub is_customer : Budget → Bool
is_customer b = elim b.scope [
  | Scope.customer ↦ true
  | Scope.source ↦ false
  | Scope.account ↦ false
  | Scope.project ↦ false
]

abbrev pub with_actual : String → Option ℤ → Summary → Summary
with_actual currency none s = s
with_actual currency (some v) s = record s { actual_total = add_to ◌+ℤ◌ currency v s.actual_total }

abbrev pub with_amount : String → Option ℕ → Option ℤ → Summary → Summary
with_amount currency none spent s = s
with_amount currency (some a) spent s =
    with_actual currency spent (record s { budget_total = add_to ◌+◌ currency a s.budget_total })

abbrev pub with_totals : Budget → Option Evaluation → Summary → Summary
with_totals b none s = s
with_totals b (some e) s = with_amount b.currency e.amount e.actual s

abbrev pub count_verdict : Verdict → Summary → Summary
count_verdict Verdict.over_budget s = record s { breaches = s.breaches + 1 }
count_verdict Verdict.forecast_over_budget s = record s { at_risk = s.at_risk + 1 }
count_verdict Verdict.at_risk s = record s { at_risk = s.at_risk + 1 }
count_verdict Verdict.unverified s = record s { unverified = s.unverified + 1 }
count_verdict Verdict.no_data s = record s { unverified = s.unverified + 1 }
count_verdict _ s = s

abbrev pub count_evaluation : Option Evaluation → Summary → Summary
count_evaluation none s = s
count_evaluation (some e) s = count_verdict e.verdict_given s

-- One round of the loop.
unfoldable pub add_budget : Budget → Option Evaluation → Summary → Summary
unfolding add_to ◌+ℤ◌
add_budget b e s = count_evaluation e (
    if is_customer b
    then with_totals b e (record s { customer_budgets = s.customer_budgets + 1 })
    else record s { child_budgets = s.child_budgets + 1 })

-- `evaluations` is the dict by the budget's key.
unfoldable pub summarize : (ℕ → Option Evaluation) → List Budget → Summary → Summary
unfolding add_budget
summarize evaluations [] s = s
summarize evaluations (b ∷ bs) s = summarize evaluations bs (add_budget b (evaluations b.pk) s)

unfoldable pub portfolio_summary : (ℕ → Option Evaluation) → List Budget → Summary
unfolding summarize
portfolio_summary evaluations budgets = summarize evaluations budgets no_summary

count_verdict-keeps :
    (v : Verdict) (s : Summary)
    → ((count_verdict v s).budget_total ≡ s.budget_total)
      × ((count_verdict v s).actual_total ≡ s.actual_total)
count_verdict-keeps v s = ground arith

count_evaluation-keeps :
    (e : Option Evaluation) (s : Summary)
    → ((count_evaluation e s).budget_total ≡ s.budget_total)
      × ((count_evaluation e s).actual_total ≡ s.actual_total)
count_evaluation-keeps none s = (refl, refl)
count_evaluation-keeps (some e) s = count_verdict-keeps e.verdict_given s

abbrev pub SameTotals : Summary → Summary → Type 0
SameTotals s t = (s.budget_total ≡ t.budget_total) × (s.actual_total ≡ t.actual_total)

child-SameTotals :
    (b : Budget) (e : Option Evaluation) (s : Summary)
    → is_customer b ≡ false
    → SameTotals (add_budget b e s) s
unfolding add_budget
child-SameTotals b e s h =
    rw h (count_evaluation-keeps e (record s { child_budgets = s.child_budgets + 1 }))

totals-SameTotals :
    (b : Budget) (e : Option Evaluation) (s t : Summary)
    → SameTotals s t
    → SameTotals (with_totals b e s) (with_totals b e t)
totals-SameTotals b none s t h = h
totals-SameTotals b (some e) s t (g, h) = go e.amount e.actual
  where
    go :
        (a : Option ℕ) (v : Option ℤ)
        → SameTotals (with_amount b.currency a v s) (with_amount b.currency a v t)
    go none v = (g, h)
    go (some a) none = (ap (add_to ◌+◌ b.currency a) g, h)
    go (some a) (some v) = (ap (add_to ◌+◌ b.currency a) g, ap (add_to ◌+ℤ◌ b.currency v) h)

customer-SameTotals :
    (b : Budget) (e : Option Evaluation) (s t : Summary)
    → is_customer b ≡ true
    → SameTotals s t
    → SameTotals (add_budget b e s) (add_budget b e t)
unfolding add_budget
customer-SameTotals b e s t c h =
    let s' : Summary = with_totals b e (record s { customer_budgets = s.customer_budgets + 1 }) in
    let t' : Summary = with_totals b e (record t { customer_budgets = t.customer_budgets + 1 }) in
    let (f, g) = count_evaluation-keeps e s' in
    let (f', g') = count_evaluation-keeps e t' in
    let (k, l) =
      totals-SameTotals b e (record s { customer_budgets = s.customer_budgets + 1 })
        (record t { customer_budgets = t.customer_budgets + 1 }) h in
    rw c (f ∙ k ∙ sym f', g ∙ l ∙ sym g')

summarize-SameTotals :
    (evaluations : ℕ → Option Evaluation) (bs : List Budget) (s t : Summary)
    → SameTotals s t
    → SameTotals (summarize evaluations bs s) (summarize evaluations (select is_customer bs) t)
unfolding summarize
summarize-SameTotals evaluations [] s t h = h
summarize-SameTotals evaluations (b ∷ bs) s t (g, h) = elim (Bool-cases (is_customer b)) [
  | inl c ↦ rw c (
      summarize-SameTotals evaluations bs (add_budget b (evaluations b.pk) s)
        (add_budget b (evaluations b.pk) t) (customer-SameTotals b (evaluations b.pk) s t c (g, h)))
  | inr c ↦ rw c (
      let (k, l) = child-SameTotals b (evaluations b.pk) s c in
      summarize-SameTotals evaluations bs (add_budget b (evaluations b.pk) s) t (k ∙ g, l ∙ h))
]

-- Every budget is counted once as the customer's or a child, and at most once by its verdict.
abbrev pub IsCounted : ℕ → Summary → Type 0
IsCounted n s =
    (s.customer_budgets + s.child_budgets ≡ n) × (s.breaches + s.at_risk + s.unverified ≤ n)

add_budget-IsCounted :
    (n : ℕ) (b : Budget) (e : Option Evaluation) (s : Summary)
    → IsCounted n s
    → IsCounted (n + 1) (add_budget b e s)
unfolding add_budget
add_budget-IsCounted n b none s h = ground arith
add_budget-IsCounted n b (some e) s h = ground arith

summarize-IsCounted :
    (evaluations : ℕ → Option Evaluation) (bs : List Budget) (n : ℕ) (s : Summary)
    → IsCounted n s
    → IsCounted (n + length bs) (summarize evaluations bs s)
unfolding summarize
summarize-IsCounted evaluations [] n s h = omega arith
summarize-IsCounted evaluations (b ∷ bs) n s h =
    subst (λ k. IsCounted k (summarize evaluations bs (add_budget b (evaluations b.pk) s)))
      (omega arith)
      (summarize-IsCounted evaluations bs (n + 1) (add_budget b (evaluations b.pk) s)
        (add_budget-IsCounted n b (evaluations b.pk) s h))

-- The totals of `portfolio_summary` are those of the customer budgets alone, with the child budgets
-- left out; every budget is counted as one or the other, and its verdict is counted at most once.
pub portfolio_summary-children :
    (evaluations : ℕ → Option Evaluation) (budgets : List Budget)
    → SameTotals
        (portfolio_summary evaluations budgets)
        (portfolio_summary evaluations (select is_customer budgets))
      × IsCounted (length budgets) (portfolio_summary evaluations budgets)
unfolding portfolio_summary
portfolio_summary-children evaluations budgets = (
  summarize-SameTotals evaluations budgets no_summary no_summary (refl, refl),
  subst (λ k. IsCounted k (summarize evaluations budgets no_summary)) (omega arith)
      (summarize-IsCounted evaluations budgets 0 no_summary (omega arith)),
)
