-- ===== src/Budgets/Amounts.antt =====
-- The table `BudgetAmount` and `Budget.amount_for` of billing/models.py, and `set_recurring_amount`
-- and `set_override` of billing/budgets.py. Amounts are in cents, months are their first days.
use cloud_billing_console.Prelude.{
  ℕ, Bool, true, false, not, ◌&&◌, Option, none, some, List, [], ◌∷◌, ◌++◌, ltb, leb, ◌==◌,
  if◌then◌else◌, is_some, select, find,
}
use cloud_billing_console.Prelude.Rows.{update}

-- A recurring limit has no month; a limit with a month overrides it there.
pub record Amount : Type 0 where
  pub pk : ℕ
  pub budget : ℕ
  pub amount : ℕ
  pub effective_from : ℕ
  pub effective_to : Option ℕ
  pub month : Option ℕ

abbrev pub is_month : ℕ → Option ℕ → Bool
is_month m none = false
is_month m (some k) = k == m

-- a.effective_to is None or month < a.effective_to
abbrev pub ends_after : ℕ → Option ℕ → Bool
ends_after m none = true
ends_after m (some e) = ltb m e

abbrev pub is_override : ℕ → ℕ → Amount → Bool
is_override budget m a = (a.budget == budget) && is_month m a.month

abbrev pub is_recurring : ℕ → ℕ → Amount → Bool
is_recurring budget m a =
    (a.budget == budget)
    && not (is_some a.month)
    && leb a.effective_from m
    && ends_after m a.effective_to

-- max(recurring, key=lambda a: a.effective_from): the first of the greatest.
abbrev pub later_of : Amount → Option Amount → Amount
later_of a none = a
later_of a (some b) = if ltb a.effective_from b.effective_from then b else a

unfoldable pub latest : List Amount → Option Amount
latest [] = none
latest (a ∷ as_) = some (later_of a (latest as_))

abbrev pub amount_of : Option Amount → Option ℕ
amount_of none = none
amount_of (some a) = some a.amount

-- The rows are in the order in which the query gives them.
unfoldable pub amount_for : List Amount → ℕ → ℕ → Option ℕ
unfolding latest
amount_for rows budget m = elim (find (is_override budget m) rows) [
  | some a ↦ some a.amount
  | none ↦ amount_of (latest (select (is_recurring budget m) rows))
]

-- budget.amounts.filter(month__isnull=True, effective_to__isnull=True)
abbrev pub is_current : ℕ → Amount → Bool
is_current budget a = (a.budget == budget) && not (is_some a.month) && not (is_some a.effective_to)

abbrev pub closed_at : ℕ → Amount → Amount
closed_at first a = record a { effective_to = some first }

-- The loop over the current rows: each is deleted or closed.
unfoldable pub close_current : ℕ → ℕ → List Amount → List Amount
close_current budget first [] = []
close_current budget first (a ∷ as_) =
    let rest : List Amount = close_current budget first as_ in
    if not (is_current budget a)
    then a ∷ rest
    else if leb first a.effective_from
    then rest
    else closed_at first a ∷ rest

-- `month_start` is `effective_from.replace(day=1)`, and `pk` the key that the table gives.
unfoldable pub set_recurring_amount : (ℕ → ℕ) → ℕ → ℕ → ℕ → ℕ → List Amount → List Amount
unfolding close_current
set_recurring_amount month_start pk budget amount effective_from rows =
    let first : ℕ = month_start effective_from in
    close_current budget first rows
    ++ record {
      pk = pk;
      budget = budget;
      amount = amount;
      effective_from = first;
      effective_to = none;
      month = none;
    }
      ∷ []

-- update_or_create(budget=budget, month=month, ...): none is its MultipleObjectsReturned.
unfoldable pub set_override : (ℕ → ℕ) → ℕ → ℕ → ℕ → ℕ → List Amount → Option (List Amount)
set_override month_start pk budget day amount rows =
    let m : ℕ = month_start day in
    elim (select (is_override budget m) rows) [
      | [] ↦ some (
          rows
          ++ record {
            pk = pk;
            budget = budget;
            amount = amount;
            effective_from = m;
            effective_to = none;
            month = some m;
          }
            ∷ [])
      | a ∷ [] ↦ some (
          update (is_override budget m) (λ x. record x { amount = amount; effective_from = m })
            rows)
      | a ∷ (b ∷ as_) ↦ none
    ]
