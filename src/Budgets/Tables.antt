-- ===== src/Budgets/Tables.antt =====
-- The tables `Budget`, `CollectionPeriod`, `BudgetEvaluation` and `Alert` of billing/models.py, and
-- the reads of billing/budgets.py: `scope_costs`, `scope_sources` and `data_status`. A cost amount
-- is in units of 10^-10, a limit in cents, a threshold in hundredths of a percent.
use cloud_billing_console.Prelude.{
  ℕ, ◌+◌, String, Bool, true, false, not, ◌&&◌, ◌||◌, Option, none, some, List, [], ◌∷◌, map, ltb,
  leb, ◌==◌, str_eq, if◌then◌else◌, length, any, select, elem,
}
use cloud_billing_console.Prelude.Int.{ℤ, ◌+ℤ◌}
use cloud_billing_console.Prelude.Texts.{has}
use cloud_billing_console.Allocation.Project.{Cost, ProjectCost}

pub data Scope : Type 0 where
  customer source account project : Scope

pub data Metric : Type 0 where
  unblended amortized : Metric

pub record Budget : Type 0 where
  pub pk : ℕ
  pub customer : ℕ
  pub scope : Scope
  pub source : Option ℕ
  pub account_id : String
  pub project : Option ℕ
  pub currency : String
  pub metric : Metric
  pub include_services : List String
  pub exclude_services : List String
  pub actual_threshold : ℕ
  pub forecast_threshold : ℕ

pub data PeriodStatus : Type 0 where
  pending complete failed partial : PeriodStatus

pub record CollectionPeriod : Type 0 where
  pub source : ℕ
  pub month : ℕ
  pub status : PeriodStatus
  pub last_success : Option ℕ

-- What a sum reads of a row of `Cost` or `ProjectCost`.
pub record Spend : Type 0 where
  pub day : ℕ
  pub amount : ℤ

abbrev pub metric_of : Metric → ℤ → ℤ → ℤ
metric_of Metric.unblended u a = u
metric_of Metric.amortized u a = a

abbrev pub is_id : Option ℕ → ℕ → Bool
is_id none n = false
is_id (some k) n = k == n

abbrev pub in_range : ℕ → ℕ → ℕ → Bool
in_range first last day = leb first day && ltb day last

-- apply_filters
abbrev pub passes_filters : Budget → String → Bool
passes_filters b service =
    (elim b.include_services [ [] ↦ true | s ∷ ss ↦ has (s ∷ ss) service ])
    && (elim b.exclude_services [ [] ↦ true | s ∷ ss ↦ not (has (s ∷ ss) service) ])

abbrev pub in_part : Scope → Budget → Cost → Bool
in_part Scope.source b c = is_id b.source c.source
in_part Scope.account b c = str_eq c.account_id b.account_id
in_part _ b c = true

abbrev pub is_customer_cost : Budget → ℕ → ℕ → Cost → Bool
is_customer_cost b first last c =
    (c.customer == b.customer)
    && str_eq c.currency b.currency
    && in_range first last c.day
    && in_part b.scope b c
    && passes_filters b c.service

abbrev pub is_project_cost : Budget → ℕ → ℕ → ProjectCost → Bool
is_project_cost b first last p =
    is_id b.project p.project && str_eq p.currency b.currency && in_range first last p.day

abbrev pub cost_spend : Metric → Cost → Spend
cost_spend metric c = record { day = c.day; amount = metric_of metric c.unblended c.amortized }

abbrev pub project_spend : Metric → ProjectCost → Spend
project_spend metric p = record { day = p.day; amount = metric_of metric p.unblended p.amortized }

abbrev pub is_project : Scope → Bool
is_project Scope.project = true
is_project _ = false

unfoldable pub scope_costs : List Cost → List ProjectCost → Budget → ℕ → ℕ → List Spend
scope_costs costs project_costs b first last =
    if is_project b.scope
    then map (project_spend b.metric) (select (is_project_cost b first last) project_costs)
    else map (cost_spend b.metric) (select (is_customer_cost b first last) costs)

-- aggregate(v=Sum(...)): no value where there is no row.
unfoldable pub total : List Spend → Option ℤ
unfolding ◌+ℤ◌
total [] = none
total (r ∷ []) = some r.amount
total (r ∷ (s ∷ rs)) = elim (total (s ∷ rs)) [
  | none ↦ some r.amount
  | some v ↦ some (r.amount +ℤ v)
]

-- A connection with the accounts that it has.
pub record Connection : Type 0 where
  pub id : ℕ
  pub accounts : List String
  pub enabled : Bool

-- BillingSource.objects.filter(Q(accounts__account_id=...) | Q(costs__account_id=...)).distinct()
abbrev pub has_account : List Cost → String → Connection → Bool
has_account costs account_id s =
    has s.accounts account_id
    || any (λ (c : Cost). (c.source == s.id) && str_eq c.account_id account_id) costs

abbrev pub ids_of : List Connection → List ℕ
ids_of [] = []
ids_of (s ∷ ss) = s.id ∷ ids_of ss

abbrev pub id_list : Option ℕ → List ℕ
id_list none = []
id_list (some s) = s ∷ []

-- `units` are the connections of `report_units(budget.customer, active_only=False)`.
unfoldable pub scope_sources : List Connection → List Cost → List Connection → Budget → List ℕ
scope_sources connections costs units b = elim b.scope [
  | Scope.source ↦ id_list b.source
  | Scope.account ↦ ids_of (select (has_account costs b.account_id) connections)
  | Scope.customer ↦ ids_of (select (λ (s : Connection). s.enabled) units)
  | Scope.project ↦ ids_of (select (λ (s : Connection). s.enabled) units)
]

pub data DataStatus : Type 0 where
  missing partial stale complete : DataStatus

abbrev pub has_failed : CollectionPeriod → Bool
has_failed p = elim p.status [
  | PeriodStatus.failed ↦ true
  | PeriodStatus.partial ↦ true
  | PeriodStatus.pending ↦ false
  | PeriodStatus.complete ↦ false
]

-- not p.last_success or p.last_success < now - STALE_AFTER
abbrev pub is_old : ℕ → ℕ → CollectionPeriod → Bool
is_old stale_after now p = elim p.last_success [ none ↦ true | some t ↦ ltb (t + stale_after) now ]

abbrev pub of_month : List ℕ → ℕ → CollectionPeriod → Bool
of_month sources month p = elem p.source sources && (p.month == month)

-- `is_current_month` is the comparison of the month with the month of now.
abbrev pub status_of : ℕ → ℕ → Bool → List ℕ → List CollectionPeriod → DataStatus
status_of stale_after now is_current_month [] periods = DataStatus.missing
status_of stale_after now is_current_month sources [] = DataStatus.missing
status_of stale_after now is_current_month (s ∷ ss) (p ∷ ps) =
    if any has_failed (p ∷ ps) || ltb (length (p ∷ ps)) (length (s ∷ ss))
    then DataStatus.partial
    else if any (is_old stale_after now) (p ∷ ps) && is_current_month
    then DataStatus.stale
    else DataStatus.complete

unfoldable pub data_status : ℕ → ℕ → ℕ → List CollectionPeriod → List ℕ → ℕ → DataStatus
data_status stale_after now this_month periods sources month =
    status_of stale_after now (month == this_month) sources
      (select (of_month sources month) periods)
