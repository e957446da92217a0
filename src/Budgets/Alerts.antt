-- ===== src/Budgets/Alerts.antt =====
-- What an evaluation writes: `raise_alerts` and the last part of `evaluate_budget` of
-- billing/budgets.py.
use cloud_billing_console.Prelude.{
  ℕ, Bool, true, false, ◌&&◌, Option, none, some, List, [], ◌∷◌, ◌++◌, ◌==◌, if◌then◌else◌, any,
}
use cloud_billing_console.Prelude.Rows.{update}
use cloud_billing_console.Prelude.Int.{ℤ}
use cloud_billing_console.Budgets.Tables.{Budget}
use cloud_billing_console.Budgets.Evaluate.{
  Forecast, Inputs, Evaluation, evaluation_of, share_of, reaches, forecast_reaches, whole,
}

pub data AlertKind : Type 0 where
  actual forecast : AlertKind

abbrev pub same_kind : AlertKind → AlertKind → Bool
same_kind AlertKind.actual AlertKind.actual = true
same_kind AlertKind.forecast AlertKind.forecast = true
same_kind _ _ = false

pub record Alert : Type 0 where
  pub budget : ℕ
  pub month : ℕ
  pub kind : AlertKind
  pub threshold : ℕ
  pub value : Forecast
  pub triggered_at : ℕ

abbrev pub same_alert : Alert → Alert → Bool
same_alert a b =
    (a.budget == b.budget)
    && (a.month == b.month)
    && same_kind a.kind b.kind
    && (a.threshold == b.threshold)

-- Alert.objects.get_or_create
unfoldable pub get_or_create : Alert → List Alert → List Alert
get_or_create a rows = if any (same_alert a) rows then rows else rows ++ a ∷ []

abbrev pub alert_of : Budget → ℕ → AlertKind → ℕ → Forecast → ℕ → Alert
alert_of b month kind threshold value now = record {
  budget = b.pk;
  month = month;
  kind = kind;
  threshold = threshold;
  value = value;
  triggered_at = now;
}

abbrev pub actual_alert : Budget → ℕ → ℕ → Option ℤ → ℕ → List Alert → List Alert
actual_alert b month amount none now rows = rows
actual_alert b month amount (some v) now rows =
    if reaches v (share_of amount b.actual_threshold)
    then get_or_create (alert_of b month AlertKind.actual b.actual_threshold (whole v) now) rows
    else rows

abbrev pub forecast_alert : Budget → ℕ → ℕ → Option Forecast → ℕ → List Alert → List Alert
forecast_alert b month amount none now rows = rows
forecast_alert b month amount (some f) now rows =
    if forecast_reaches f (share_of amount b.forecast_threshold)
    then get_or_create (alert_of b month AlertKind.forecast b.forecast_threshold f now) rows
    else rows

unfoldable pub raise_alerts :
    Budget → ℕ → Option ℕ → Option ℤ → Option Forecast → ℕ → List Alert → List Alert
unfolding get_or_create
raise_alerts b month none spent expected now rows = rows
raise_alerts b month (some amount) spent expected now rows =
    forecast_alert b month amount expected now (actual_alert b month amount spent now rows)

-- The tables that an evaluation writes.
pub record Written : Type 0 where
  pub evaluations : List Evaluation
  pub alerts : List Alert

abbrev pub same_evaluation : Evaluation → Evaluation → Bool
same_evaluation e f = (e.budget == f.budget) && (e.month == f.month)

-- BudgetEvaluation.objects.update_or_create
unfoldable pub store : Evaluation → List Evaluation → List Evaluation
store e rows =
    if any (same_evaluation e) rows
    then update (same_evaluation e) (λ f. e) rows
    else rows ++ e ∷ []

-- `evaluate_budget` with `persist`; the block is atomic.
unfoldable pub evaluate_budget : Budget → ℕ → Inputs → Written → Evaluation × Written
unfolding evaluation_of raise_alerts store
evaluate_budget b now i w =
    let e : Evaluation = evaluation_of b now i in
    (
      e,
      record {
        evaluations = store e w.evaluations;
        alerts = raise_alerts b i.first i.amount e.actual e.forecast now w.alerts;
      },
    )
