-- ===== src/Scope/Resolution.antt =====
-- `resolve` of billing/scope.py: the selection of a report, checked against what its customer owns.
-- The rows are those that the managers leave to the request.
use cloud_billing_console.Prelude.{
  ℕ, String, Bool, true, false, not, ◌&&◌, ◌||◌, Option, none, some, List, [], ◌∷◌, ◌==◌, str_eq,
  if◌then◌else◌, any, find,
}
use cloud_billing_console.Scope.Ownership.{Assignment}

pub record Source : Type 0 where
  pub pk : ℕ
  pub customer : ℕ
  pub shared : Bool

pub record Project : Type 0 where
  pub pk : ℕ
  pub customer : ℕ

-- An account with the connection that it is seen through, a row of `AwsAccount` or of `Cost`.
pub record Seen : Type 0 where
  pub account_id : String
  pub source : Option ℕ

pub record Rows : Type 0 where
  pub customers : List ℕ
  pub sources : List Source
  pub assignments : List Assignment
  pub accounts : List Seen
  pub costs : List Seen
  pub projects : List Project

-- The query parameters: "" where one is missing.
pub record Params : Type 0 where
  pub customer : String
  pub source : String
  pub account : List String
  pub project : String

pub record Scope : Type 0 where
  pub customer : Option ℕ
  pub source : Option Source
  pub account_id : String
  pub project : Option Project

-- A result, or ValueError with its message.
pub data Resolved (A : Type 0) : Type 0 where
  found : A → Resolved A
  refused : String → Resolved A

infixl 5 ◌>>=◌
abbrev pub ◌>>=◌ : {A B : Type 0} → Resolved A → (A → Resolved B) → Resolved B
found x >>= f = f x
refused e >>= f = refused e

abbrev pub found_or : {A : Type 0} → String → Option A → Resolved A
found_or message none = refused message
found_or message (some x) = found x

abbrev pub is_empty : String → Bool
is_empty s = str_eq s ""

abbrev pub belongs : Option ℕ → Source → Bool
belongs none s = true
belongs (some c) s = (s.customer == c) || s.shared

abbrev pub is_assigned : List Assignment → Option ℕ → String → Bool
is_assigned rows none account_id = true
is_assigned rows (some c) account_id =
    any (λ (a : Assignment). str_eq a.account_id account_id && (a.customer == c)) rows

abbrev pub is_through : ℕ → String → Seen → Bool
is_through source account_id s =
    str_eq s.account_id account_id && (elim s.source [ none ↦ false | some k ↦ k == source ])

abbrev pub is_seen : Rows → Option Source → String → Bool
is_seen rows none account_id = true
is_seen rows (some s) account_id =
    any (is_through s.pk account_id) rows.accounts || any (is_through s.pk account_id) rows.costs

abbrev pub of_customer : Option ℕ → Project → Bool
of_customer none p = true
of_customer (some c) p = p.customer == c

abbrev pub single : List String → String
single (a ∷ []) = a
single _ = ""

-- scope.customer = scope.customer or scope.project.customer
abbrev pub customer_or : Option ℕ → Project → Option ℕ
customer_or none p = some p.customer
customer_or (some c) p = some c

abbrev pub scope_of : Option ℕ → Option Source → List String → Option Project → Scope
scope_of customer source accounts none = record {
  customer = customer;
  source = source;
  account_id = single accounts;
  project = none;
}
scope_of customer source accounts (some p) = record {
  customer = customer_or customer p;
  source = source;
  account_id = single accounts;
  project = some p;
}

-- `uuid`, `int`, `strip` and `is_digits` are Python's UUID, int, str.strip and the test for twelve
-- digits by str.isdigit and len.
module _ (uuid int : String → Option ℕ) (strip : String → String) (is_digits : String → Bool)
    (rows : Rows) where
  unfoldable pub choose_customer : Bool → String → Resolved (Option ℕ)
  choose_customer required cid =
      if is_empty cid
      then (if required then refused "Choose a customer." else found none)
      else (found_or "Choose a valid customer." (uuid cid)
          >>= (λ k.
              found_or "This customer could not be found. Choose another customer."
                (find (λ c. c == k) rows.customers))
          >>= (λ c. found (some c)))

  unfoldable pub choose_source : Option ℕ → String → Resolved (Option Source)
  choose_source customer sid =
      if is_empty sid
      then found none
      else (found_or "Choose a valid connection." (uuid sid)
          >>= (λ k.
              found_or "This connection could not be found."
                (find (λ (s : Source). s.pk == k) rows.sources))
          >>= (λ s.
              if belongs customer s
              then found (some s)
              else refused "This connection does not belong to the selected customer."))

  abbrev pub account_ids : List String → List String
  account_ids [] = []
  account_ids (a ∷ as_) = if is_empty (strip a) then account_ids as_ else strip a ∷ account_ids as_

  unfoldable pub check_accounts : Option ℕ → Option Source → List String → Resolved (Unit {0})
  check_accounts customer source [] = found tt
  check_accounts customer source (a ∷ as_) =
      if not (is_digits a)
      then refused "Choose a valid AWS account."
      else if not (is_assigned rows.assignments customer a)
      then refused "This account is not part of the selected customer."
      else if not (is_seen rows source a)
      then refused "This account is not part of the selected connection."
      else check_accounts customer source as_

  unfoldable pub choose_project : Option ℕ → String → Resolved (Option Project)
  choose_project customer pid =
      if is_empty pid
      then found none
      else (found_or "Choose a valid project." (int pid)
          >>= (λ k.
              found_or "Choose a valid project." (find (λ (p : Project). p.pk == k) rows.projects))
          >>= (λ p.
              if of_customer customer p
              then found (some p)
              else refused "This project belongs to another customer."))

  unfoldable pub resolve : Params → Bool → Resolved Scope
  unfolding choose_customer choose_source check_accounts choose_project
  resolve params required = choose_customer required params.customer >>= (λ customer.
      choose_source customer params.source >>= (λ source.
        check_accounts customer source (account_ids params.account) >>= (λ _.
          choose_project customer params.project
          >>= (λ project. found (scope_of customer source (account_ids params.account) project)))))
