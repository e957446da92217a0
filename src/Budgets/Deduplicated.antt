-- ===== src/Budgets/Deduplicated.antt =====
-- Alerts are raised once: what `raise_alerts` of billing/budgets.py keeps and what it adds.
use cloud_billing_console.Prelude.{
  ℕ, ◌≡◌, refl, sym, ◌∙◌, inl, inr, Bool, true, false, ◌||◌, Option, none, some, List, [], ◌∷◌,
  ◌++◌, arith, if◌then◌else◌, Bool-cases, any, In,
}
use cloud_billing_console.Prelude.Rows.{Pairs, Pairs-append-one, All-map}
use cloud_billing_console.Prelude.Search.{any-false, any-true, any-In, In-append_left}
use cloud_billing_console.Prelude.Int.{ℤ}
use cloud_billing_console.Budgets.Tables.{Budget}
use cloud_billing_console.Budgets.Evaluate.{Forecast, share_of, reaches, forecast_reaches, whole}
use cloud_billing_console.Budgets.Alerts.{
  AlertKind, Alert, same_alert, get_or_create, alert_of, actual_alert, forecast_alert, raise_alerts,
}

-- No two rows have one key.
abbrev pub AreUnique : List Alert → Type 0
AreUnique rows = Pairs (λ x y. same_alert x y ≡ false) rows

same_alert_sym : (a b : Alert) → same_alert a b ≡ same_alert b a
same_alert_sym a b = ground arith

get_or_create-AreUnique :
    (a : Alert) (rows : List Alert) → AreUnique rows → AreUnique (get_or_create a rows)
unfolding get_or_create
get_or_create-AreUnique a rows u = elim (Bool-cases (any (same_alert a) rows)) [
  | inl e ↦ rw e u
  | inr e ↦ rw e (
      Pairs-append-one (λ x y. same_alert x y ≡ false) rows a u
        (All-map (λ x. same_alert a x ≡ false) (λ x. same_alert x a ≡ false)
          (λ x h. sym (same_alert_sym a x) ∙ h) rows (any-false (same_alert a) rows e)))
]

In-get_or_create : (a x : Alert) (rows : List Alert) → In x rows → In x (get_or_create a rows)
unfolding get_or_create
In-get_or_create a x rows i = elim (Bool-cases (any (same_alert a) rows)) [
  | inl e ↦ rw e i
  | inr e ↦ rw e (In-append_left rows (a ∷ []) x i)
]

any-append_last :
    (p : Alert → Bool) (rows : List Alert) (a : Alert)
    → any p (rows ++ a ∷ []) ≡ (any p rows || p a)
any-append_last p [] a = ground arith
any-append_last p (x ∷ xs) a = ground (arith, any-append_last p xs a)

same_alert_trans :
    (k a x : Alert) → same_alert k a ≡ true → same_alert a x ≡ true → same_alert k x ≡ true
same_alert_trans k a x e f = ground arith

any-get_or_create :
    (a k : Alert) (rows : List Alert)
    → any (same_alert k) (get_or_create a rows) ≡ (any (same_alert k) rows || same_alert k a)
unfolding get_or_create
any-get_or_create a k rows = elim (Bool-cases (any (same_alert a) rows)) [
  | inl e ↦ rw e (covered (any-In (same_alert a) rows e))
  | inr e ↦ rw e (any-append_last (same_alert k) rows a)
]
  where
    covered :
        (x : Alert) × In x rows × (same_alert a x ≡ true)
        → any (same_alert k) rows ≡ (any (same_alert k) rows || same_alert k a)
    covered (x, i, f) = elim (Bool-cases (same_alert k a)) [
      | inl g ↦ rw (g, any-true (same_alert k) rows x i (same_alert_trans k a x g f)) refl
      | inr g ↦ rw g (ground arith)
    ]

-- The alerts that are due.
abbrev pub due_actual : Budget → ℕ → ℕ → Option ℤ → ℕ → List Alert
due_actual b month amount none now = []
due_actual b month amount (some v) now =
    if reaches v (share_of amount b.actual_threshold)
    then alert_of b month AlertKind.actual b.actual_threshold (whole v) now ∷ []
    else []

abbrev pub due_forecast : Budget → ℕ → ℕ → Option Forecast → ℕ → List Alert
due_forecast b month amount none now = []
due_forecast b month amount (some f) now =
    if forecast_reaches f (share_of amount b.forecast_threshold)
    then alert_of b month AlertKind.forecast b.forecast_threshold f now ∷ []
    else []

-- What becomes of the table when rows are added one by one where their key is missing.
abbrev pub Adds : List Alert → List Alert → List Alert → Type 0
Adds rows new result =
    (AreUnique rows → AreUnique result)
    × (((x : Alert) → In x rows → In x result)
        × ((k : Alert)
            → any (same_alert k) result ≡ (any (same_alert k) rows || any (same_alert k) new)))

nothing_added : (rows : List Alert) → Adds rows [] rows
nothing_added rows = ((λ u. u), ((λ x i. i), (λ k. ground arith)))

one_added : (a : Alert) (rows : List Alert) → Adds rows (a ∷ []) (get_or_create a rows)
one_added a rows = (
  get_or_create-AreUnique a rows,
  ((λ x. In-get_or_create a x rows), (λ k. ground (arith, any-get_or_create a k rows))),
)

actual_alert-Adds :
    (b : Budget) (month amount : ℕ) (spent : Option ℤ) (now : ℕ) (rows : List Alert)
    → Adds rows (due_actual b month amount spent now) (actual_alert b month amount spent now rows)
actual_alert-Adds b month amount none now rows = nothing_added rows
actual_alert-Adds b month amount (some v) now rows =
    elim (Bool-cases (reaches v (share_of amount b.actual_threshold))) [
      | inl e ↦
          rw e (one_added (alert_of b month AlertKind.actual b.actual_threshold (whole v) now) rows)
      | inr e ↦ rw e (nothing_added rows)
    ]

forecast_alert-Adds :
    (b : Budget) (month amount : ℕ) (expected : Option Forecast) (now : ℕ) (rows : List Alert)
    → Adds rows
        (due_forecast b month amount expected now)
        (forecast_alert b month amount expected now rows)
forecast_alert-Adds b month amount none now rows = nothing_added rows
forecast_alert-Adds b month amount (some f) now rows =
    elim (Bool-cases (forecast_reaches f (share_of amount b.forecast_threshold))) [
      | inl e ↦
          rw e (one_added (alert_of b month AlertKind.forecast b.forecast_threshold f now) rows)
      | inr e ↦ rw e (nothing_added rows)
    ]

any-append : (p : Alert → Bool) (xs ys : List Alert) → any p (xs ++ ys) ≡ (any p xs || any p ys)
any-append p [] ys = refl
any-append p (x ∷ xs) ys = ground (arith, any-append p xs ys)

-- `raise_alerts` for a budget with a limit adds the alerts that are due and have no row yet: it
-- keeps every row that there is, leaves no key with two rows, and afterwards the keys are those of
-- the rows before and of the alerts that are due.
pub raise_alerts-Adds :
    (b : Budget) (month amount : ℕ) (spent : Option ℤ) (expected : Option Forecast) (now : ℕ)
    (rows : List Alert)
    → Adds rows
        (due_actual b month amount spent now ++ due_forecast b month amount expected now)
        (raise_alerts b month (some amount) spent expected now rows)
unfolding raise_alerts
raise_alerts-Adds b month amount spent expected now rows =
    let middle : List Alert = actual_alert b month amount spent now rows in
    let (u, (i, k)) = actual_alert-Adds b month amount spent now rows in
    let (u', (i', k')) = forecast_alert-Adds b month amount expected now middle in
    (
      (λ h. u' (u h)),
      (
        (λ x h. i' x (i x h)),
        (λ a. ground (
          arith,
          k a,
          k' a,
          any-append (same_alert a) (due_actual b month amount spent now)
              (due_forecast b month amount expected now),
        )),
      ),
    )
