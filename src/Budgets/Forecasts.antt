-- ===== src/Budgets/Forecasts.antt =====
-- `aws_forecast` of billing/budgets.py: the sum of the forecasts that AWS gives for a scope.
use cloud_billing_console.Prelude.{
  ℕ, String, Bool, true, false, not, ◌&&◌, ◌||◌, Option, none, some, List, [], ◌∷◌, ◌++◌, ltb, leb,
  if◌then◌else◌,
}
use cloud_billing_console.Prelude.Int.{ℤ, pos, ◌+ℤ◌}
use cloud_billing_console.Prelude.Texts.{has}
use cloud_billing_console.Json.{Json, Items, nil, cons, Fields}
use cloud_billing_console.Cache.Scoping.{sorted, texts}
use cloud_billing_console.Budgets.Tables.{Scope, Metric, Budget, is_id, is_project}

-- An entry of `report_units`, with what the loop reads of its source.
pub record ReportUnit : Type 0 where
  pub source : ℕ
  pub has_forecasts : Bool
  pub accounts : Option (List String)

abbrev pub object : String → Json → Json
object k v = Json.dict (Fields.field k v Fields.empty)

abbrev pub dimension : String → List String → Json
dimension key values = object "Dimensions" (
    Json.dict (
      Fields.field "Key" (Json.str key)
        (Fields.field "Values" (Json.arr (texts values)) Fields.empty)))

abbrev pub account_parts : Option (List String) → List Json
account_parts none = []
account_parts (some accounts) = dimension "LINKED_ACCOUNT" (sorted accounts) ∷ []

abbrev pub include_parts : List String → List Json
include_parts [] = []
include_parts (s ∷ ss) = dimension "SERVICE" (s ∷ ss) ∷ []

abbrev pub exclude_parts : List String → List Json
exclude_parts [] = []
exclude_parts (s ∷ ss) = object "Not" (dimension "SERVICE" (s ∷ ss)) ∷ []

abbrev pub items : List Json → Items
items [] = nil
items (j ∷ js) = cons j (items js)

abbrev pub filter_fields : List Json → Fields
filter_fields [] = Fields.empty
filter_fields (f ∷ []) = Fields.field "Filter" f Fields.empty
filter_fields (f ∷ (g ∷ fs)) =
    Fields.field "Filter" (object "And" (Json.arr (items (f ∷ (g ∷ fs))))) Fields.empty

abbrev pub metric_name : Metric → String
metric_name Metric.unblended = "UNBLENDED_COST"
metric_name Metric.amortized = "AMORTIZED_COST"

-- `iso` is `isoformat` of a date.
unfoldable pub forecast_request : (ℕ → String) → Budget → ℕ → ℕ → Option (List String) → Fields
unfolding sorted texts
forecast_request iso b today month_end accounts =
    Fields.field "TimePeriod"
      (Json.dict (
        Fields.field "Start" (Json.str (iso today))
          (Fields.field "End" (Json.str (iso month_end)) Fields.empty)))
      (Fields.field "Granularity" (Json.str "MONTHLY") (
        Fields.field "Metric" (Json.str (metric_name b.metric)) (
          Fields.field "PredictionIntervalLevel" (Json.num 80) (
            filter_fields (
              account_parts accounts
              ++ (include_parts b.include_services ++ exclude_parts b.exclude_services))))))

-- Whether the loop goes on with the unit, and with which accounts.
abbrev pub covers_account : String → Option (List String) → Bool
covers_account account none = true
covers_account account (some accounts) = has accounts account

abbrev pub takes_unit : Budget → ReportUnit → Bool
takes_unit b u = elim b.scope [
  | Scope.source ↦ is_id b.source u.source
  | Scope.account ↦ covers_account b.account_id u.accounts
  | Scope.customer ↦ true
  | Scope.project ↦ true
]

abbrev pub unit_accounts : Budget → ReportUnit → Option (List String)
unit_accounts b u = elim b.scope [
  | Scope.account ↦ some (b.account_id ∷ [])
  | Scope.source ↦ u.accounts
  | Scope.customer ↦ u.accounts
  | Scope.project ↦ u.accounts
]

unfoldable pub sum_values : List ℤ → ℤ
sum_values [] = pos 0
sum_values (v ∷ vs) = v +ℤ sum_values vs

-- How `get_query` ends: with one of its ValueErrors, or with the query, of which the loop reads the
-- mean values of the data, if it has data.
pub data Asked : Type 0 where
  refused : String → Asked
  answered : Option (List ℤ) → Asked

-- How `aws_forecast` ends: with the ValueError of `get_query`, or with its result.
pub data Forecasted : Type 0 where
  fails : String → Forecasted
  gives : Option ℤ → Forecasted

-- A ValueError, and `return None`, end the loop.
abbrev pub and_then : Forecasted → (ℤ → Forecasted) → Forecasted
and_then (fails m) k = fails m
and_then (gives none) k = gives none
and_then (gives (some v)) k = k v

abbrev pub values_sum : Asked → Forecasted
values_sum (refused m) = fails m
values_sum (answered none) = gives none
values_sum (answered (some [])) = gives none
values_sum (answered (some (v ∷ vs))) = gives (some (sum_values (v ∷ vs)))

-- `ask source request` is how `get_query` ends for the request.
module _ (iso : ℕ → String) (ask : ℕ → Fields → Asked) (require_approval : Bool) where
  abbrev pub unit_value : Budget → ℕ → ℕ → ReportUnit → Forecasted
  unit_value b today month_end u =
      if require_approval && not u.has_forecasts
      then gives none
      else values_sum (ask u.source (forecast_request iso b today month_end (unit_accounts b u)))

  unfoldable pub forecast_units : Budget → ℕ → ℕ → List ReportUnit → ℤ → Forecasted
  unfolding sum_values forecast_request
  forecast_units b today month_end [] sum = gives (some sum)
  forecast_units b today month_end (u ∷ us) sum = elim (takes_unit b u) [
    | false ↦ forecast_units b today month_end us sum
    | true ↦
        and_then (unit_value b today month_end u)
          (λ v. forecast_units b today month_end us (sum +ℤ v))
  ]

  unfoldable pub aws_forecast : Bool → Budget → ℕ → ℕ → ℕ → List ReportUnit → Forecasted
  unfolding forecast_units
  aws_forecast is_on b month month_end today units =
      if not is_on || is_project b.scope
      then gives none
      else if leb month_end today || ltb today month
      then gives none
      else forecast_units b today month_end units (pos 0)
