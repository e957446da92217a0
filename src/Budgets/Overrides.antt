-- ===== src/Budgets/Overrides.antt =====
-- What `set_override` of billing/budgets.py does to the limits of a budget.
use cloud_billing_console.Prelude.{
  ℕ, ◌≤◌, ◌≡◌, refl, sym, ap, ◌∙◌, inl, inr, true, false, ◌&&◌, Option, none, some, List, [], ◌∷◌,
  ◌++◌, arith, ◌==◌, if◌then◌else◌, ==_iff, Bool-cases, Option-cases, length, select, find,
}
use cloud_billing_console.Prelude.Rows.{update}
use cloud_billing_console.Budgets.Amounts.{
  Amount, is_override, is_recurring, latest, amount_of, amount_for, set_override,
}
use cloud_billing_console.Budgets.Schedule.{
  find-append_one, select-append_one, amount_for-found, amount_for-recurring,
}

abbrev changed : ℕ → ℕ → Amount → Amount
changed amount m x = record x { amount = amount; effective_from = m }

module _ (budget m : ℕ) where
  abbrev override_row : ℕ → ℕ → Amount
  override_row pk amount = record {
    pk = pk;
    budget = budget;
    amount = amount;
    effective_from = m;
    effective_to = none;
    month = some m;
  }

  is_override-changed :
      (amount b k : ℕ) (a : Amount) → is_override b k (changed amount m a) ≡ is_override b k a
  is_override-changed amount b k a = refl

  found-changed :
      (amount : ℕ) (rows : List Amount) (a : Amount)
      → find (is_override budget m) rows ≡ some a
      → find (is_override budget m) (update (is_override budget m) (changed amount m) rows)
        ≡ some (changed amount m a)
  found-changed amount [] a e = cc
  found-changed amount (x ∷ xs) a e = ground (arith, found-changed amount xs a)

  find-update_other :
      (amount b k : ℕ) (rows : List Amount)
      → ((b == budget) && (k == m)) ≡ false
      → find (is_override b k) (update (is_override budget m) (changed amount m) rows)
        ≡ find (is_override b k) rows
  find-update_other amount b k [] h = refl
  find-update_other amount b k (x ∷ xs) h = ground (arith, find-update_other amount b k xs h)

  select-update_override :
      (amount b k : ℕ) (rows : List Amount)
      → select (is_recurring b k) (update (is_override budget m) (changed amount m) rows)
        ≡ select (is_recurring b k) rows
  select-update_override amount b k [] = refl
  select-update_override amount b k (x ∷ xs) = ground (arith, select-update_override amount b k xs)

  find-append_found :
      (rows : List Amount) (n : Amount)
      → select (is_override budget m) rows ≡ []
      → is_override budget m n ≡ true
      → find (is_override budget m) (rows ++ n ∷ []) ≡ some n
  find-append_found [] n e h = rw h refl
  find-append_found (x ∷ xs) n e h = ground (arith, find-append_found xs n)

  find-selected :
      (rows as_ : List Amount) (a : Amount)
      → select (is_override budget m) rows ≡ a ∷ as_
      → find (is_override budget m) rows ≡ some a
  find-selected [] as_ a e = cc
  find-selected (x ∷ xs) as_ a e = ground (arith, find-selected xs as_ a)

amount_for-same :
    (xs ys : List Amount) (b k : ℕ)
    → find (is_override b k) xs ≡ find (is_override b k) ys
    → select (is_recurring b k) xs ≡ select (is_recurring b k) ys
    → amount_for xs b k ≡ amount_for ys b k
amount_for-same xs ys b k f s = elim (Option-cases (find (is_override b k) ys)) [
  | inr (a, e) ↦ amount_for-found xs b k a (f ∙ e) ∙ sym (amount_for-found ys b k a e)
  | inl e ↦
      amount_for-recurring xs b k (f ∙ e)
      ∙ ap (λ as_. amount_of (latest as_)) s
      ∙ sym (amount_for-recurring ys b k e)
]

-- The limits after an override: the amount in its month, and elsewhere what there was.
abbrev pub overridden : List Amount → ℕ → ℕ → ℕ → ℕ → ℕ → Option ℕ
overridden rows budget m amount b k =
    if (b == budget) && (k == m) then some amount else amount_for rows b k

abbrev Overrides : List Amount → ℕ → ℕ → ℕ → List Amount → Type 0
Overrides rows budget m amount result =
    (b k : ℕ) → amount_for result b k ≡ overridden rows budget m amount b k

module _ (budget m : ℕ) where
  appended :
      (pk amount : ℕ) (rows : List Amount)
      → select (is_override budget m) rows ≡ []
      → Overrides rows budget m amount (rows ++ override_row budget m pk amount ∷ [])
  appended pk amount rows e b k = elim (Bool-cases ((b == budget) && (k == m))) [
    | inl h ↦ rw h (at_month ((==_iff b budget).0 (ground arith)) ((==_iff k m).0 (ground arith)))
    | inr h ↦ rw h (
        amount_for-same (rows ++ override_row budget m pk amount ∷ []) rows b k
          (find-append_one (is_override b k) rows (override_row budget m pk amount) (ground arith))
          (select-append_one (is_recurring b k) rows (override_row budget m pk amount)
            ∙ rw (not_recurring b k) refl))
  ]
    where
      not_recurring : (b k : ℕ) → is_recurring b k (override_row budget m pk amount) ≡ false
      not_recurring b k = ground arith

      at_month :
          b ≡ budget
          → k ≡ m
          → amount_for (rows ++ override_row budget m pk amount ∷ []) b k ≡ some amount
      at_month f g =
          rw (f, g)
            (amount_for-found (rows ++ override_row budget m pk amount ∷ []) budget m
              (override_row budget m pk amount)
              (find-append_found budget m rows (override_row budget m pk amount) e (ground arith)))

  replaced :
      (amount : ℕ) (rows as_ : List Amount) (a : Amount)
      → select (is_override budget m) rows ≡ a ∷ as_
      → Overrides rows budget m amount (update (is_override budget m) (changed amount m) rows)
  replaced amount rows as_ a e b k = elim (Bool-cases ((b == budget) && (k == m))) [
    | inl h ↦ rw h (at_month ((==_iff b budget).0 (ground arith)) ((==_iff k m).0 (ground arith)))
    | inr h ↦ rw h (
        amount_for-same (update (is_override budget m) (changed amount m) rows) rows b k
          (find-update_other budget m amount b k rows h)
          (select-update_override budget m amount b k rows))
  ]
    where
      at_month :
          b ≡ budget
          → k ≡ m
          → amount_for (update (is_override budget m) (changed amount m) rows) b k ≡ some amount
      at_month f g =
          rw (f, g)
            (amount_for-found (update (is_override budget m) (changed amount m) rows) budget m
              (changed amount m a)
              (found-changed budget m amount rows a (find-selected budget m rows as_ a e)))

-- Where at most one override of the month stands in the table, `set_override` succeeds; then
-- `amount_for` gives the amount in the month that was set, and every other month and budget has the
-- limit that it had.
pub set_override-overridden :
    (month_start : ℕ → ℕ) (pk budget day amount : ℕ) (rows : List Amount)
    → length (select (is_override budget (month_start day)) rows) ≤ 1
    → (result : List Amount) × ((set_override month_start pk budget day amount rows ≡ some result)
        × ((b k : ℕ) → amount_for result b k ≡ overridden rows budget (month_start day) amount b k))
unfolding set_override
set_override-overridden month_start pk budget day amount rows h =
    cases (select (is_override budget (month_start day)) rows) refl
  where
    cases :
        (found : List Amount)
        → select (is_override budget (month_start day)) rows ≡ found
        → (result : List Amount) × ((set_override month_start pk budget day amount rows
              ≡ some result)
            × Overrides rows budget (month_start day) amount result)
    cases [] e = (
      rows ++ override_row budget (month_start day) pk amount ∷ [],
      (rw (e, set_override) refl, appended budget (month_start day) pk amount rows e),
    )
    cases (a ∷ []) e = (
      update (is_override budget (month_start day)) (changed amount (month_start day)) rows,
      (rw (e, set_override) refl, replaced budget (month_start day) amount rows [] a e),
    )
    cases (a ∷ (b ∷ as_)) e = absurd (omega (arith, ap length e))
