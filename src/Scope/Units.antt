-- ===== src/Scope/Units.antt =====
-- `source_account_filter` and `report_units` of billing/scope.py: which queries of AWS serve a scope,
-- and to which accounts each is restricted.
use cloud_billing_console.Prelude.{
  ℕ, String, Bool, true, not, ◌&&◌, ◌||◌, Option, none, some, List, [], ◌∷◌, ◌++◌, map, ◌==◌,
  if◌then◌else◌, any, select,
}
use cloud_billing_console.Prelude.Texts.{sorted_set}
use cloud_billing_console.Scope.Ownership.{Assignment, is_open, customer_accounts}
use cloud_billing_console.Scope.Windows.{is_overlapping}

-- A payer or standalone connection. `has_role` and `has_success` are whether `role_arn` and
-- `last_success` are set.
pub record Connection : Type 0 where
  pub pk : ℕ
  pub customer : ℕ
  pub shared : Bool
  pub enabled : Bool
  pub has_success : Bool
  pub has_role : Bool

-- The triple (source, customer, account_filter).
pub record Query : Type 0 where
  pub source : ℕ
  pub customer : Option ℕ
  pub accounts : Option (List String)

abbrev pub has_other_owner : List Assignment → ℕ → ℕ → Bool
has_other_owner rows source customer =
    any (λ (a : Assignment). (a.source == source) && is_open a.end && not (a.customer == customer))
      rows

-- `enforce` is ENFORCE_CUSTOMER_AUTHORIZATION.
unfoldable pub source_account_filter :
    Bool → List Assignment → Connection → Option ℕ → Option (List String)
unfolding customer_accounts
source_account_filter enforce rows s none = none
source_account_filter enforce rows s (some c) =
    if not enforce && not s.shared && (s.customer == c) && not (has_other_owner rows s.pk c)
    then none
    else some (customer_accounts rows c none (some s.pk))

abbrev pub is_usable : Bool → Connection → Bool
is_usable active_only s = if active_only then s.enabled && s.has_success && s.has_role else true

abbrev pub serves : List Assignment → ℕ → Connection → Bool
serves rows c s =
    (s.customer == c)
    || s.shared
    || any (λ (a : Assignment). (a.source == s.pk) && (a.customer == c)) rows

-- The accounts of the assignments that overlap an interval.
unfoldable pub accounts_between : List Assignment → ℕ → ℕ → ℕ → ℕ → List String
unfolding sorted_set
accounts_between rows c source start end =
    sorted_set
      (map (λ (a : Assignment). a.account_id) (select (is_overlapping c source start end) rows))

-- `period` is the pair of start and end.
unfoldable pub accounts_for :
    Bool → List Assignment → Option (ℕ × ℕ) → ℕ → Connection → Option (List String)
unfolding source_account_filter accounts_between
accounts_for enforce rows none c s = source_account_filter enforce rows s (some c)
accounts_for enforce rows (some (start, end)) c s = some (accounts_between rows c s.pk start end)

-- if accounts is None or accounts: units.append(...)
abbrev pub with_unit : ℕ → ℕ → Option (List String) → List Query → List Query
with_unit source c none rest = record { source = source; customer = some c; accounts = none } ∷ rest
with_unit source c (some []) rest = rest
with_unit source c (some (a ∷ as_)) rest =
    record { source = source; customer = some c; accounts = some (a ∷ as_) } ∷ rest

unfoldable pub customer_units :
    Bool → List Assignment → Option (ℕ × ℕ) → ℕ → List Connection → List Query
unfolding accounts_for
customer_units enforce rows period c [] = []
customer_units enforce rows period c (s ∷ ss) =
    let rest = customer_units enforce rows period c ss in
    if serves rows c s then with_unit s.pk c (accounts_for enforce rows period c s) rest else rest

unfoldable pub all_units :
    Bool → List Assignment → Option (ℕ × ℕ) → List ℕ → List Connection → List Query
unfolding customer_units
all_units enforce rows period [] ss = []
all_units enforce rows period (c ∷ cs) ss =
    customer_units enforce rows period c ss ++ all_units enforce rows period cs ss

abbrev pub unrestricted : List Connection → List Query
unrestricted [] = []
unrestricted (s ∷ ss) = record { source = s.pk; customer = none; accounts = none } ∷ unrestricted ss

-- `limited` is whether the request has an access without portfolio, and `customers` are those that
-- it sees.
unfoldable pub report_units :
    Bool
    → Bool
    → List Assignment
    → List ℕ
    → List Connection
    → Option ℕ
    → Bool
    → Option (ℕ × ℕ)
    → List Query
unfolding customer_units all_units
report_units enforce limited rows customers sources (some c) active_only period =
    customer_units enforce rows period c (select (is_usable active_only) sources)
report_units enforce limited rows customers sources none active_only period =
    if enforce && limited
    then all_units enforce rows period customers (select (is_usable active_only) sources)
    else unrestricted (select (is_usable active_only) sources)
