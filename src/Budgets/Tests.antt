-- ===== src/Budgets/Tests.antt =====
-- Budgets on concrete limits, costs and collections. Months are a hundred days apart.
use cloud_billing_console.Prelude.{
  ℕ, ◌*◌, ◌/◌, String, ◌≡◌, refl, ◌↔◌, true, Option, none, some, List, [], ◌∷◌, ◌++◌, map, arith,
  ◌==◌, if◌then◌else◌, length, All, select,
}
use cloud_billing_console.Prelude.Int.{pos, ◌+ℤ◌}
use cloud_billing_console.Json.{Fields}
use cloud_billing_console.Budgets.Amounts.{Amount, amount_for, set_recurring_amount}
use cloud_billing_console.Budgets.Schedule.{StartsBefore, scheduled, set_recurring_amount-scheduled}
use cloud_billing_console.Budgets.Tables.{
  Scope, Metric, Budget, DataStatus, CollectionPeriod, PeriodStatus, data_status,
}
use cloud_billing_console.Budgets.Evaluate.{Inputs, within_budget, evaluation_of, Evaluation}
use cloud_billing_console.Budgets.Alerts.{raise_alerts}
use cloud_billing_console.Budgets.Verdicts.{IsWithin, evaluation_of-IsWithin}
use cloud_billing_console.Budgets.Deduplicated.{Adds, due_actual, due_forecast, raise_alerts-Adds}
use cloud_billing_console.Budgets.Expected.{IsForecast, aws_forecast-IsForecast}
use cloud_billing_console.Budgets.Forecasts.{
  ReportUnit, Asked, answered, refused, Forecasted, fails, gives, aws_forecast,
}
use cloud_billing_console.Budgets.Summary.{
  portfolio_summary, SameTotals, IsCounted, is_customer, portfolio_summary-children,
}

abbrev recurring : ℕ → ℕ → ℕ → Option ℕ → Amount
recurring pk amount effective_from effective_to = record {
  pk = pk;
  budget = 1;
  amount = amount;
  effective_from = effective_from;
  effective_to = effective_to;
  month = none;
}

-- A limit up to 300, another one from then on, and an override for 500.
abbrev limits : List Amount
limits =
    recurring 1 1000 100 (some 300)
    ∷ recurring 2 2000 300 none
    ∷ record (recurring 3 5000 500 none) { month = some 500 }
    ∷ []

abbrev to_month : ℕ → ℕ
to_month d = d / 100 * 100

from_400 : All (StartsBefore 1 400) limits
from_400 = ((λ h. omega arith), ((λ h. cc), ((λ h. cc), tt)))

set_recurring_amount-scheduled_example :
    amount_for (set_recurring_amount to_month 9 1 3000 417 limits) 1 600
    ≡ scheduled limits 1 400 3000 1 600
set_recurring_amount-scheduled_example =
    set_recurring_amount-scheduled to_month 9 1 3000 417 limits from_400 1 600

limits_after :
    map
      (amount_for (set_recurring_amount to_month 9 1 3000 417 limits) 1)
      (0 ∷ 200 ∷ 300 ∷ 400 ∷ 500 ∷ 600 ∷ [])
    ≡ none ∷ some 1000 ∷ some 2000 ∷ some 3000 ∷ some 5000 ∷ some 3000 ∷ []
unfolding set_recurring_amount amount_for
limits_after = refl

abbrev budget : Budget
budget = record {
  pk = 1;
  customer = 1;
  scope = Scope.customer;
  source = none;
  account_id = "";
  project = none;
  currency = "USD";
  metric = Metric.unblended;
  include_services = [];
  exclude_services = [];
  actual_threshold = 8000;
  forecast_threshold = 10000;
}

-- Ten days into the month: 2 dollars of 10 are spent.
abbrev inputs : Inputs
inputs = record {
  today = 410;
  first = 400;
  last = 430;
  is_current = true;
  min_days = 3;
  amount = some 1000;
  status_data = DataStatus.complete;
  rows = record { day = 403; amount = pos 20000000000 } ∷ [];
  aws = none;
}

within : (evaluation_of budget 7 inputs).verdict_given ≡ within_budget
unfolding evaluation_of
within = refl

evaluation_of-IsWithin_example :
    ((evaluation_of budget 7 inputs).verdict_given ≡ within_budget)
    ↔ IsWithin budget (evaluation_of budget 7 inputs)
evaluation_of-IsWithin_example = evaluation_of-IsWithin budget 7 inputs

abbrev uncollected : CollectionPeriod
uncollected = record { source = 7; month = 300; status = PeriodStatus.pending; last_success = none }

-- A past month with a period that is still pending, and was never collected, counts as complete.
uncollected_month : data_status 12 1000 400 (uncollected ∷ []) (7 ∷ []) 300 ≡ DataStatus.complete
unfolding data_status
uncollected_month = refl

raise_alerts-Adds_example :
    Adds []
      (due_actual budget 400 1000 (some (pos 90000000000)) 7 ++ due_forecast budget 400 1000 none 7)
      (raise_alerts budget 400 (some 1000) (some (pos 90000000000)) none 7 [])
raise_alerts-Adds_example = raise_alerts-Adds budget 400 1000 (some (pos 90000000000)) none 7 []

raised_once :
    length (
      raise_alerts budget 400
        (some 1000)
        (some (pos 95000000000))
        none
        8
        (raise_alerts budget 400 (some 1000) (some (pos 90000000000)) none 7 []))
    ≡ 1
unfolding raise_alerts
raised_once = refl

abbrev report_unit : ℕ → ReportUnit
report_unit s = record { source = s; has_forecasts = true; accounts = some ("111" ∷ []) }

-- Connection 9 has no forecast yet, and the initial data pull of connection 6 is in progress.
abbrev cached : ℕ → Fields → Asked
cached s request =
    if s == 9
    then answered none
    else if s == 6
    then refused "preparing"
    else answered (some (pos 30 ∷ pos 4 ∷ []))

abbrev date_text : ℕ → String
date_text d = "2026-01-01"

abbrev forecast_of_units : List ReportUnit → Forecasted
forecast_of_units us = aws_forecast date_text cached true true budget 400 430 410 us

aws_forecast-IsForecast_example :
    IsForecast date_text cached true budget 410 430
      (report_unit 7 ∷ report_unit 8 ∷ [])
      (forecast_of_units (report_unit 7 ∷ report_unit 8 ∷ []))
aws_forecast-IsForecast_example =
    aws_forecast-IsForecast date_text cached true budget 410 430 400
      (report_unit 7 ∷ report_unit 8 ∷ []) refl (omega arith) (omega arith)

two_units : forecast_of_units (report_unit 7 ∷ report_unit 8 ∷ []) ≡ gives (some (pos 68))
unfolding aws_forecast ◌+ℤ◌
two_units = refl

unit_missing : forecast_of_units (report_unit 7 ∷ report_unit 9 ∷ []) ≡ gives none
unfolding aws_forecast
unit_missing = refl

unit_refused : forecast_of_units (report_unit 7 ∷ report_unit 6 ∷ []) ≡ fails "preparing"
unfolding aws_forecast
unit_refused = refl

abbrev evaluations : ℕ → Option Evaluation
evaluations pk = some (evaluation_of budget 7 inputs)

abbrev portfolio : List Budget
portfolio = budget ∷ record budget { pk = 2; scope = Scope.account } ∷ []

portfolio_summary-children_example :
    SameTotals
      (portfolio_summary evaluations portfolio)
      (portfolio_summary evaluations (select is_customer portfolio))
    × IsCounted 2 (portfolio_summary evaluations portfolio)
portfolio_summary-children_example = portfolio_summary-children evaluations portfolio
