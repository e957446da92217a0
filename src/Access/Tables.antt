-- ===== src/Access/Tables.antt =====
-- What billing/access.py reads: an object with its attributes, the paths from an object to the
-- customer and to the account that own it, and the authorization `Access` of a request.
use cloud_billing_console.Prelude.{
  ℕ, String, Bool, true, false, Option, none, some, List, [], ◌∷◌, ◌==◌, str_eq, if◌then◌else◌,
  or_else, any,
}

-- What Django's `getattr(o, name)` gives: `missing` stands for AttributeError and for
-- ObjectDoesNotExist, `null` for None.
pub data Value (Object : Type 0) : Type 0 where
  missing null : Value Object
  num : ℕ → Value Object
  text : String → Value Object
  object : Object → Value Object

module _ {Object : Type 0} where
  -- current == n
  abbrev pub is_num : Value Object → ℕ → Bool
  is_num (num k) n = k == n
  is_num _ n = false

  -- A comparison with a text.
  abbrev pub is_text : Value Object → String → Bool
  is_text (text t) s = str_eq t s
  is_text _ s = false

  -- current in ids
  abbrev pub num_in : Value Object → List ℕ → Bool
  num_in v ids = any (is_num v) ids

  -- value in accounts
  abbrev pub text_in : Value Object → List String → Bool
  text_in v values = any (is_text v) values

  -- A comparison with the key of a user: None is the key of nobody.
  abbrev pub is_user : Value Object → Option ℕ → Bool
  is_user null none = true
  is_user v (some u) = is_num v u
  is_user _ none = false

-- A lookup along a path, `a__b__c`, as the SQL join and as the loop over `getattr` make it.
module _ {Object : Type 0} (getattr : Object → String → Value Object) where
  unfoldable pub follow : Value Object → List String → Value Object
  follow v [] = v
  follow (object o) (key ∷ keys) = follow (getattr o key) keys
  follow v (key ∷ keys) = missing

  unfoldable pub at_path : Object → List String → Value Object
  unfolding follow
  at_path o path = follow (object o) path

abbrev pub Paths : Type 0
Paths = List (String × List String)

-- d.get(name)
unfoldable pub path_of : Paths → String → Option (List String)
path_of [] name = none
path_of ((n, path) ∷ rest) name = if str_eq n name then some path else path_of rest name

-- CUSTOMER_PATHS
abbrev pub customer_paths : Paths
customer_paths =
    ("Customer", "pk" ∷ [])
    ∷ ("BillingSource", "customer_id" ∷ [])
    ∷ ("Cost", "customer_id" ∷ [])
    ∷ ("AccountAssignment", "customer_id" ∷ [])
    ∷ ("Project", "customer_id" ∷ [])
    ∷ ("AllocationRule", "project" ∷ "customer_id" ∷ [])
    ∷ ("ProjectCost", "project" ∷ "customer_id" ∷ [])
    ∷ ("Budget", "customer_id" ∷ [])
    ∷ ("BudgetAmount", "budget" ∷ "customer_id" ∷ [])
    ∷ ("BudgetEvaluation", "budget" ∷ "customer_id" ∷ [])
    ∷ ("Alert", "budget" ∷ "customer_id" ∷ [])
    ∷ ("AllianceRevision", "record" ∷ "customer_id" ∷ [])
    ∷ ("AllianceRecord", "customer_id" ∷ [])
    ∷ ("AllianceServiceNote", "record" ∷ "customer_id" ∷ [])
    ∷ ("CustomerApproval", "customer_id" ∷ [])
    ∷ ("RolloutReadiness", "customer_id" ∷ [])
    ∷ ("ReconciliationRun", "customer_id" ∷ [])
    ∷ ("OffboardingRecord", "customer_id" ∷ [])
    ∷ ("OperationalAlert", "customer_id" ∷ [])
    ∷ ("AlertRoute", "customer_id" ∷ [])
    ∷ ("PortalInvitation", "customer_id" ∷ [])
    ∷ ("SavedReport", "customer_id" ∷ [])
    ∷ ("AuditEvent", "customer_id" ∷ [])
    ∷ ("SyncRun", "customer_id" ∷ [])
    ∷ ("ExplorerQuery", "customer_id" ∷ [])
    ∷ ("RoleApproval", "source" ∷ "customer_id" ∷ [])
    ∷ ("ActivationRequest", "source" ∷ "customer_id" ∷ [])
    ∷ ("CollectionPeriod", "source" ∷ "customer_id" ∷ [])
    ∷ ("Job", "source" ∷ "customer_id" ∷ [])
    ∷ ("ImportedBudget", "source" ∷ "customer_id" ∷ [])
    ∷ []

-- ACCOUNT_PATHS
abbrev pub account_paths : Paths
account_paths =
    ("Cost", "account_id" ∷ [])
    ∷ ("AccountAssignment", "account" ∷ "account_id" ∷ [])
    ∷ ("AllianceRecord", "account" ∷ "account_id" ∷ [])
    ∷ ("AllianceServiceNote", "record" ∷ "account" ∷ "account_id" ∷ [])
    ∷ ("AllianceRevision", "record" ∷ "account" ∷ "account_id" ∷ [])
    ∷ ("ProjectCost", "account_id" ∷ [])
    ∷ ("ImportedBudget", "owning_account_id" ∷ [])
    ∷ []

pub record Access : Type 0 where
  pub user_id : Option ℕ
  pub username : String
  pub portfolio : Bool
  pub customers : List ℕ
  pub editable : List ℕ
  pub accounts : List (ℕ × List String)
  pub write : Bool

-- Access.ids
abbrev pub ids : Access → List ℕ
ids a = if a.write then a.editable else a.customers

-- access.accounts.get(cid), where a later entry of the dict has replaced an earlier one. An empty
-- list counts like a missing one.
unfoldable pub accounts_of : List (ℕ × List String) → ℕ → Option (List String)
accounts_of [] cid = none
accounts_of ((c, values) ∷ rest) cid = elim (accounts_of rest cid) [
  | some later ↦ some later
  | none ↦ if c == cid then some values else none
]

abbrev pub account_list : Access → ℕ → List String
account_list a cid = or_else (accounts_of a.accounts cid) []

-- editing(): the same access for a change.
abbrev pub editing : Access → Access
editing a = record {
  user_id = a.user_id;
  username = a.username;
  portfolio = a.portfolio;
  customers = a.customers;
  editable = a.editable;
  accounts = a.accounts;
  write = true;
}
