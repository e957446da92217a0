-- ===== src/Cache/Paging.antt =====
-- `fetch_pages` of billing/query_cache.py.
use cloud_billing_console.Prelude.{
  ℕ, zero, suc, ◌+◌, Bool, true, false, String, Option, none, some, List, [], ◌∷◌, str_eq,
  if◌then◌else◌,
}
use cloud_billing_console.Prelude.Texts.{has}
use cloud_billing_console.Json.{Json, Items, nil, cons, Fields, get, put}

abbrev pub allowed : List String
allowed =
    "get_cost_and_usage" ∷ "get_cost_and_usage_with_resources" ∷ "get_cost_forecast"
    ∷ "get_dimension_values" ∷ "get_tags" ∷ "get_cost_categories" ∷ "get_cost_comparison_drivers"
    ∷ []

abbrev pub list_keys : List String
list_keys =
    "ResultsByTime" ∷ "DimensionValues" ∷ "Tags" ∷ "CostCategoryNames" ∷ "CostCategoryValues"
    ∷ "ForecastResultsByTime" ∷ "CostComparisonDrivers" ∷ []

abbrev pub skipped : String → Bool
skipped key = has ("NextPageToken" ∷ "ResponseMetadata" ∷ []) key

unfoldable pub append : Items → Items → Items
append nil b = b
append (cons x a) b = cons x (append a b)

-- The items of a list; AWS documents that a list stands under each of `list_keys`.
abbrev pub items_of : Json → Option Items
items_of (Json.arr items) = some items
items_of _ = none

abbrev pub items_or_nil : Option Json → Items
items_or_nil none = nil
items_or_nil (some (Json.arr items)) = items
items_or_nil (some _) = nil

-- result.setdefault(key, []).extend(value)
unfoldable pub extend : String → Items → Fields → Fields
unfolding append
extend key items Fields.empty = Fields.field key (Json.arr items) Fields.empty
extend key items (Fields.field k v r) =
    if str_eq k key
    then Fields.field k (Json.arr (append (items_or_nil (some v)) items)) r
    else Fields.field k v (extend key items r)

-- One entry of a page; none is the TypeError for a value that cannot be iterated.
abbrev pub entry : String → Json → Fields → Option Fields
entry key value result =
    if skipped key
    then some result
    else if has list_keys key
    then elim (items_of value) [ none ↦ none | some items ↦ some (extend key items result) ]
    else some (put result key value)

unfoldable pub merge : Fields → Fields → Option Fields
unfolding extend put
merge Fields.empty result = some result
merge (Fields.field key value page) result = elim (entry key value result) [
  | none ↦ none
  | some more ↦ merge page more
]

-- page.get('NextPageToken') and its truth value; AWS gives the token as a text.
abbrev pub as_token : Option Json → Option String
as_token (some (Json.str token)) = if str_eq token "" then none else some token
as_token _ = none

abbrev pub token_of : Fields → Option String
token_of page = as_token (get page "NextPageToken")

-- How a fetch ends. `call_failed` is an exception of the call or of the page's shape.
pub data Fetch : Type 0 where
  unsupported call_failed repeated_token page_limit : Fetch
  fetched : Fields → Fetch

abbrev pub with_token : Fields → String → Fields
with_token request token = put request "NextPageToken" (Json.str token)

-- `call n request` is what the n-th call of the meter gives; none is an exception.
module _ (call : ℕ → Fields → Option Fields) where
  unfoldable pub fetch_loop : ℕ → ℕ → Fields → Fields → List String → Fetch
  unfolding merge put get
  fetch_loop zero i request result seen = page_limit
  fetch_loop (suc n) i request result seen = elim (call i request) [
    | none ↦ call_failed
    | some page ↦ elim (merge page result) [
      | none ↦ call_failed
      | some more ↦ elim (token_of page) [
        | none ↦ fetched more
        | some token ↦ elim (has seen token) [
          | true ↦ repeated_token
          | false ↦ fetch_loop n (i + 1) (with_token request token) more (token ∷ seen)
        ]
      ]
    ]
  ]

  unfoldable pub fetch_pages : String → Fields → Fetch
  unfolding fetch_loop
  fetch_pages operation parameters =
      if has allowed operation then fetch_loop 1000 0 parameters Fields.empty [] else unsupported
