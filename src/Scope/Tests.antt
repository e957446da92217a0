-- ===== src/Scope/Tests.antt =====
-- Selections by two customers: 1 has the connection 10, 2 the connection 20 and the project 5.
use cloud_billing_console.Prelude.{
  ℕ, All, List, arith, ◌&&◌, ℕ, String, ◌≡◌, refl, Bool, true, false, Option, none, some, [], ◌∷◌,
  str_eq, if◌then◌else◌,
}
use cloud_billing_console.Scope.Ownership.{Assignment, customer_accounts}
use cloud_billing_console.Scope.Resolution.{
  Source, Project, Rows, Params, Scope, found, belongs, resolve,
}
use cloud_billing_console.Scope.Windows.{ownership_windows}
use cloud_billing_console.Scope.Intervals.{shows}
use cloud_billing_console.Prelude.Texts.{has}
use cloud_billing_console.Scope.Windowed.{ownership_windows-exact}
use cloud_billing_console.Scope.Units.{Connection, Query, report_units}
use cloud_billing_console.Scope.Owned.{IsOwnedQuery, report_units-Owned}
use cloud_billing_console.Scope.Contained.{IsContained, resolve-IsContained}

abbrev key_of : String → Option ℕ
key_of s =
    if str_eq s "1"
    then some 1
    else if str_eq s "10"
    then some 10
    else if str_eq s "20"
    then some 20
    else if str_eq s "5"
    then some 5
    else none

abbrev stripped : String → String
stripped s = s

abbrev is_account : String → Bool
is_account s = str_eq s "111111111111"

abbrev own_source : Source
own_source = record { pk = 10; customer = 1; shared = false }

abbrev other_project : Project
other_project = record { pk = 5; customer = 2 }

abbrev rows : Rows
rows = record {
  customers = 1 ∷ 2 ∷ [];
  sources = own_source ∷ record { pk = 20; customer = 2; shared = false } ∷ [];
  assignments =
      record { customer = 1; source = 10; account_id = "111111111111"; start = 0; end = none } ∷ [];
  accounts = record { account_id = "111111111111"; source = some 10 } ∷ [];
  costs = [];
  projects = other_project ∷ [];
}

-- Without a customer, a connection of one customer passes with a project of another.
mixed_selection :
    resolve key_of key_of stripped is_account rows
      (record { customer = ""; source = "10"; account = []; project = "5" })
      false
    ≡ found (record {
      customer = some 2;
      source = some own_source;
      account_id = "";
      project = some other_project;
    })
unfolding resolve
mixed_selection = refl

mixed_not_owned : belongs (some 2) own_source ≡ false
mixed_not_owned = refl

abbrev own_account : Params
own_account = record { customer = "1"; source = "10"; account = "111111111111" ∷ []; project = "" }

abbrev own_scope : Scope
own_scope = record {
  customer = some 1;
  source = some own_source;
  account_id = "111111111111";
  project = none;
}

resolve-IsContained_example :
    (c : ℕ) × ((key_of own_account.customer ≡ some c) × IsContained rows c own_scope)
unfolding resolve
resolve-IsContained_example =
    resolve-IsContained key_of key_of stripped is_account rows own_account true own_scope refl refl

-- The account changes hands on day 20.
abbrev handed_over : List Assignment
handed_over =
    record { customer = 1; source = 10; account_id = "111111111111"; start = 0; end = some 20 }
    ∷ record { customer = 2; source = 10; account_id = "111111111111"; start = 20; end = none }
    ∷ []

ownership_windows-exact_example :
    shows 15 "111111111111" (ownership_windows handed_over 10 (some 1) 10 30 none)
    ≡ (has (customer_accounts handed_over 1 (some 15) (some 10)) "111111111111" && true)
ownership_windows-exact_example =
    ownership_windows-exact handed_over 10 1 10 30 none 15 "111111111111" (omega arith)
      (omega arith)

abbrev payer : Connection
payer = record {
  pk = 10;
  customer = 1;
  shared = false;
  enabled = true;
  has_success = true;
  has_role = true;
}

abbrev units_of_two : List Query
units_of_two = report_units true true handed_over (2 ∷ []) (payer ∷ []) none true none

one_unit :
    units_of_two
    ≡ record { source = 10; customer = some 2; accounts = some ("111111111111" ∷ []) } ∷ []
unfolding report_units customer_accounts
one_unit = refl

report_units-Owned_example : All (IsOwnedQuery handed_over (λ c. c ≡ 2)) units_of_two
report_units-Owned_example =
    report_units-Owned handed_over (2 ∷ []) (payer ∷ []) none true none (λ c. c ≡ 2) (refl, tt)
      (λ c e. cc)
