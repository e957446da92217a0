-- ===== src/Cache/Guards.antt =====
-- The checks of `get_query` of billing/query_cache.py, which run before a request is queued.
use Prim.Native.String.{◌++◌ as text_append}
use cloud_billing_console.Prelude.{
  ℕ, Bool, true, false, String, Option, none, some, List, [], ◌∷◌, ◌++◌, ◌&&◌, ◌||◌, not, str_eq,
  if◌then◌else◌, ◌==◌, all, map, select, elem, ◌⊎◌, inl, inr,
}
use cloud_billing_console.Prelude.Texts.{has}
use cloud_billing_console.Json.{Json, Items, nil, cons, Fields, get}
use cloud_billing_console.Jobs.Types.{Access}
use cloud_billing_console.Scope.Ownership.{Assignment}
use cloud_billing_console.Cache.Paging.{allowed}
use cloud_billing_console.Cache.Scoping.{scoped_parameters}

-- A metadata key that a request names: a tag key, or else a cost category; no text is a key that
-- is not a text, on which the comparison raises an exception.
pub record Need : Type 0 where
  pub tag : Bool
  pub key : Option String

abbrev pub as_text : Option Json → Option String
as_text none = some ""
as_text (some (Json.str s)) = some s
as_text (some _) = none

-- value.get('Key','')
abbrev pub key_of : Fields → Option String
key_of d = as_text (get d "Key")

abbrev pub filter_need : String → Json → List Need
filter_need key (Json.dict d) =
    if str_eq key "Tags"
    then record { tag = true; key = key_of d } ∷ []
    else if str_eq key "CostCategories"
    then record { tag = false; key = key_of d } ∷ []
    else []
filter_need key _ = []

abbrev pub is_text : String → Option Json → Bool
is_text s (some (Json.str t)) = str_eq t s
is_text s _ = false

abbrev pub group_need : Fields → List Need
group_need d =
    if is_text "TAG" (get d "Type")
    then record { tag = true; key = key_of d } ∷ []
    else if is_text "COST_CATEGORY" (get d "Type")
    then record { tag = false; key = key_of d } ∷ []
    else []

-- inspect(value): what it adds to `needed`.
unfoldable mutual
  unfolding get

  pub needs : Json → List Need
  needs (Json.dict d) = field_needs d ++ group_need d
  needs (Json.arr items) = item_needs items
  needs Json.null = []
  needs (Json.bool b) = []
  needs (Json.num n) = []
  needs (Json.str s) = []

  pub item_needs : Items → List Need
  item_needs nil = []
  item_needs (cons v items) = needs v ++ item_needs items

  pub field_needs : Fields → List Need
  field_needs Fields.empty = []
  field_needs (Fields.field key v r) = filter_need key v ++ (needs v ++ field_needs r)

-- bool(value)
abbrev pub is_truthy : Json → Bool
is_truthy Json.null = false
is_truthy (Json.bool b) = b
is_truthy (Json.num n) = not (n == 0)
is_truthy (Json.str s) = not (str_eq s "")
is_truthy (Json.arr nil) = false
is_truthy (Json.arr (cons v items)) = true
is_truthy (Json.dict Fields.empty) = false
is_truthy (Json.dict (Fields.field key v r)) = true

-- What parameters.get(name) adds, for a name that stands for a key.
abbrev pub named_need : Bool → Option Json → List Need
named_need tag none = []
named_need tag (some v) =
    if is_truthy v then record { tag = tag; key = as_text (some v) } ∷ [] else []

unfoldable pub all_needs : String → Fields → List Need
unfolding needs get
all_needs operation parameters =
    needs (Json.dict parameters)
    ++ (if str_eq operation "get_tags" then named_need true (get parameters "TagKey") else [])
    ++ (if str_eq operation "get_cost_categories"
        then named_need false (get parameters "CostCategoryName")
        else [])

-- What `get_query` reads of the connection; `capabilities` has the truth values of the JSON column.
pub record Connection : Type 0 where
  pub id : ℕ
  pub customer : Option ℕ
  pub initial_import_done : Bool
  pub capabilities : String → Bool

pub record Ask : Type 0 where
  pub operation : String
  pub parameters : Fields
  pub customer : Option ℕ
  pub account_filter : Option (List String)

-- The settings, the request's access and the tables that the checks read; `metadata` is that of
-- the customer's approved approval.
pub record Context : Type 0 where
  pub enforce : Bool
  pub require_approval : Bool
  pub access : Option Access
  pub assignments : List Assignment
  pub metadata : Option ℕ → Option (List String)

pub data Refused : Type 0 where
  unsupported import_pending scope_required accounts_outside metadata_not_approved : Refused
  capability_missing : String → Refused

-- The accounts that the customer ever had in the connection.
abbrev pub ever_owned : List Assignment → ℕ → ℕ → List String
ever_owned rows customer source =
    map (λ (a : Assignment). a.account_id)
      (select (λ (a : Assignment). (a.customer == customer) && (a.source == source)) rows)

abbrev pub within_scope :
    Context → Connection → Access → Option ℕ → Option (List String) → Option Refused
within_scope x s a (some c) (some accounts) =
    if not (elem c a.customers)
    then some scope_required
    else if all (has (ever_owned x.assignments c s.id)) accounts
    then none
    else some accounts_outside
within_scope x s a _ _ = some scope_required

unfoldable pub check_scope : Context → Connection → Ask → Option Refused
check_scope x s q = elim x.access [
  | none ↦ none
  | some a ↦
      if x.enforce && not a.portfolio then within_scope x s a q.customer q.account_filter else none
]

abbrev pub optional : String → Option String
optional operation =
    if str_eq operation "get_tags"
    then some "tags"
    else if str_eq operation "get_cost_categories"
    then some "cost_categories"
    else if str_eq operation "get_cost_forecast"
    then some "forecasts"
    else if str_eq operation "get_cost_and_usage_with_resources"
    then some "resources"
    else if str_eq operation "get_cost_comparison_drivers"
    then some "comparison_drivers"
    else none

unfoldable pub capability : String → Fields → Option String
unfolding get
capability operation parameters =
    if str_eq operation "get_dimension_values" && is_text "RESOURCE_ID" (get parameters "Dimension")
    then some "resources"
    else optional operation

unfoldable pub check_capability : Context → Connection → String → Fields → Option Refused
unfolding capability
check_capability x s operation parameters = elim (capability operation parameters) [
  | none ↦ none
  | some c ↦
      if x.require_approval && not (s.capabilities c) then some (capability_missing c) else none
]

abbrev pub is_approved : Option (List String) → Bool → Option String → Bool
is_approved (some metadata) tag (some key) =
    has metadata (text_append (if tag then "tag:" else "category:") key)
is_approved _ _ _ = false

abbrev pub or_customer : Option ℕ → Option ℕ → Option ℕ
or_customer (some c) o = some c
or_customer none o = o

abbrev pub may_use : Context → Connection → Option ℕ → Need → Bool
may_use x s customer n =
    s.capabilities (if n.tag then "tags" else "cost_categories")
    && is_approved (x.metadata (or_customer customer s.customer)) n.tag n.key

unfoldable pub check_metadata : Context → Connection → Option ℕ → String → Fields → Option Refused
unfolding all_needs
check_metadata x s customer operation parameters =
    if not x.require_approval || all (may_use x s customer) (all_needs operation parameters)
    then none
    else some metadata_not_approved

abbrev pub first_of : Option Refused → Option Refused → Option Refused
first_of (some e) o = some e
first_of none o = o

-- Some parameters are those with which the query is recorded.
abbrev pub admitted : Option Refused → Fields → Refused ⊎ Fields
admitted (some e) parameters = inl e
admitted none parameters = inr parameters

unfoldable pub admit : Context → Connection → Ask → Refused ⊎ Fields
unfolding scoped_parameters check_scope check_capability check_metadata
admit x s q =
    if not (has allowed q.operation)
    then inl unsupported
    else if not s.initial_import_done
    then inl import_pending
    else let parameters : Fields = scoped_parameters q.parameters q.account_filter in
      admitted
        (first_of (check_scope x s q) (
          first_of (check_capability x s q.operation parameters)
            (check_metadata x s q.customer q.operation parameters)))
        parameters
