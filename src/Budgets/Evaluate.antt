-- ===== src/Budgets/Evaluate.antt =====
-- The verdict on a budget: `run_rate` and the first part of `evaluate_budget` of
-- billing/budgets.py.
use cloud_billing_console.Prelude.{
  ℕ, zero, suc, ◌+◌, ◌-◌, ◌*◌, Bool, true, false, not, Option, none, some, List, ltb, leb,
  if◌then◌else◌, select,
}
use cloud_billing_console.Prelude.Int.{ℤ, pos, negsuc, ◌+ℤ◌}
use cloud_billing_console.Budgets.Tables.{Budget, Spend, DataStatus, total}

-- A forecast is a fraction of units of 10^-10: a run rate divides by the completed days.
pub record Forecast : Type 0 where
  pub units : ℤ
  pub parts : ℕ

pub data Method : Type 0 where
  aws run_rate actual unavailable : Method

pub data Verdict : Type 0 where
  over_budget forecast_over_budget at_risk unverified no_data within_budget not_configured : Verdict

abbrev pub times : ℤ → ℕ → ℤ
times (pos n) k = pos (n * k)
times (negsuc n) zero = pos 0
times (negsuc n) (suc k) = negsuc (n * k + n + k)

-- x > limit and x >= limit, for a limit that is not negative.
abbrev pub exceeds : ℤ → ℕ → Bool
exceeds (pos n) limit = ltb limit n
exceeds (negsuc n) limit = false

abbrev pub reaches : ℤ → ℕ → Bool
reaches (pos n) limit = leb limit n
reaches (negsuc n) limit = false

-- An amount in cents, and amount * threshold / 100, in units of 10^-10.
abbrev pub units_of : ℕ → ℕ
units_of amount = amount * 100000000

abbrev pub share_of : ℕ → ℕ → ℕ
share_of amount threshold = amount * threshold * 10000

abbrev pub forecast_exceeds : Forecast → ℕ → Bool
forecast_exceeds f limit = exceeds f.units (limit * f.parts)

abbrev pub forecast_reaches : Forecast → ℕ → Bool
forecast_reaches f limit = reaches f.units (limit * f.parts)

-- `days` is the number of days of the month. RUN_RATE_MIN_DAYS is positive in a working setup.
unfoldable pub run_rate_of : ℕ → Option ℤ → ℕ → ℕ → Option Forecast
run_rate_of min_days completed completed_days days = elim completed [
  | none ↦ none
  | some v ↦
      if ltb completed_days min_days
      then none
      else some (record { units = times v days; parts = completed_days })
]

-- What the evaluation of one month has to work with: `first` and `last` of the month, `aws` what
-- `aws_forecast` gives where it does not fail, `rows` what `scope_costs` gives up to today.
pub record Inputs : Type 0 where
  pub today : ℕ
  pub first : ℕ
  pub last : ℕ
  pub is_current : Bool
  pub min_days : ℕ
  pub amount : Option ℕ
  pub status_data : DataStatus
  pub rows : List Spend
  pub aws : Option ℤ

abbrev pub or_zero : Option ℤ → ℤ
or_zero none = pos 0
or_zero (some v) = v

abbrev pub actual_of : Inputs → Option ℤ
actual_of i = total i.rows

abbrev pub completed_of : Inputs → Option ℤ
completed_of i =
    if i.is_current then total (select (λ (r : Spend). ltb r.day i.today) i.rows) else total i.rows

abbrev pub completed_days_of : Inputs → ℕ
completed_days_of i = if i.is_current then i.today - i.first else i.last - i.first

abbrev pub whole : ℤ → Forecast
whole v = record { units = v; parts = 1 }

abbrev pub projected : Option Forecast → Option Forecast × Method
projected none = (none, Method.unavailable)
projected (some f) = (some f, Method.run_rate)

abbrev pub by_run_rate : DataStatus → Option Forecast → Option Forecast × Method
by_run_rate DataStatus.complete f = projected f
by_run_rate DataStatus.stale f = projected f
by_run_rate _ f = (none, Method.unavailable)

abbrev pub is_missing : DataStatus → Bool
is_missing DataStatus.missing = true
is_missing _ = false

abbrev pub is_complete : DataStatus → Bool
is_complete DataStatus.complete = true
is_complete _ = false

abbrev pub with_aws : Inputs → Option ℤ → Option Forecast × Method
with_aws i (some v) = (some (whole (or_zero (completed_of i) +ℤ v)), Method.aws)
with_aws i none =
    by_run_rate i.status_data
      (run_rate_of i.min_days (completed_of i) (completed_days_of i) (i.last - i.first))

abbrev pub past_forecast : Option ℤ → Option Forecast × Method
past_forecast none = (none, Method.unavailable)
past_forecast (some v) = (some (whole v), Method.actual)

unfoldable pub forecast_of : Inputs → Option Forecast × Method
unfolding run_rate_of total ◌+ℤ◌
forecast_of i =
    if i.is_current
    then with_aws i (if is_missing i.status_data then none else i.aws)
    else past_forecast (actual_of i)

abbrev pub is_over : Option Forecast → ℕ → Bool
is_over none limit = false
is_over (some f) limit = forecast_exceeds f limit

-- The chain of conditions for `status`.
unfoldable pub verdict : Budget → Option ℕ → Option ℤ → Option Forecast → DataStatus → Verdict
verdict b none spent expected status_data = Verdict.not_configured
verdict b (some amount) none expected status_data = Verdict.no_data
verdict b (some amount) (some spent) expected status_data =
    if is_missing status_data
    then Verdict.no_data
    else if exceeds spent (units_of amount)
    then Verdict.over_budget
    else if is_over expected (share_of amount b.forecast_threshold)
    then Verdict.forecast_over_budget
    else if reaches spent (share_of amount b.actual_threshold)
    then Verdict.at_risk
    else if not (is_complete status_data)
    then Verdict.unverified
    else Verdict.within_budget

pub record Evaluation : Type 0 where
  pub budget : ℕ
  pub month : ℕ
  pub evaluated_at : ℕ
  pub amount : Option ℕ
  pub actual : Option ℤ
  pub forecast : Option Forecast
  pub method : Method
  pub verdict_given : Verdict
  pub status_data : DataStatus
  pub completed_days : ℕ

unfoldable pub evaluation_of : Budget → ℕ → Inputs → Evaluation
unfolding forecast_of verdict
evaluation_of b now i = record {
  budget = b.pk;
  month = i.first;
  evaluated_at = now;
  amount = i.amount;
  actual = actual_of i;
  forecast = (forecast_of i).0;
  method = (forecast_of i).1;
  verdict_given = verdict b i.amount (actual_of i) (forecast_of i).0 i.status_data;
  status_data = i.status_data;
  completed_days = completed_days_of i;
}
