-- ===== src/Allocation/Rules.antt =====
-- The table `AllocationRule` of billing/models.py, and `validate_rule` of billing/allocation.py.
use Prim.Native.String.{◌++◌ as text_append}
use cloud_billing_console.Prelude.{
  ℕ, Bool, true, false, String, Option, none, some, List, [], ◌∷◌, ◌++◌, ◌&&◌, ◌||◌, not, ltb, leb,
  ◌==◌, str_eq, if◌then◌else◌, any, select, or_else,
}
use cloud_billing_console.Prelude.Texts.{has, meets, sorted_set}
use cloud_billing_console.Scope.Ownership.{Assignment, customer_accounts}

pub data Kind : Type 0 where
  accounts tag cost_category account_tag account_category : Kind

pub record Rule : Type 0 where
  pub pk : Option ℕ
  pub project : ℕ
  pub customer : ℕ
  pub kind : Kind
  pub account_ids : List String
  pub key : String
  pub values : List String
  pub effective_start : ℕ
  pub effective_end : Option ℕ
  pub active : Bool

-- AllocationRule.covers
unfoldable pub covers : Rule → ℕ → Bool
covers r day =
    leb r.effective_start day && elim r.effective_end [ none ↦ true | some e ↦ ltb day e ]

abbrev pub uses_accounts : Kind → Bool
uses_accounts Kind.accounts = true
uses_accounts Kind.account_tag = true
uses_accounts Kind.account_category = true
uses_accounts _ = false

abbrev pub is_accounts : Kind → Bool
is_accounts Kind.accounts = true
is_accounts _ = false

abbrev pub is_tag : Kind → Bool
is_tag Kind.tag = true
is_tag Kind.account_tag = true
is_tag _ = false

-- date.max.toordinal()
abbrev pub date_max : ℕ
date_max = 3652059

unfoldable pub overlapping_dates : Rule → Rule → Bool
overlapping_dates a b =
    ltb a.effective_start (or_else b.effective_end date_max)
    && ltb b.effective_start (or_else a.effective_end date_max)

abbrev pub same_pk : Option ℕ → Option ℕ → Bool
same_pk (some a) (some b) = a == b
same_pk _ _ = false

-- customer_rules(customer, exclude_pk)
unfoldable pub customer_rules : List Rule → ℕ → Option ℕ → List Rule
customer_rules rows customer exclude =
    select (λ r. (r.customer == customer) && r.active && not (same_pk exclude r.pk)) rows

-- The ValueErrors of `validate_rule`, with what their messages name.
pub data Refusal : Type 0 where
  tag_not_approved : Refusal
  tag_not_activated : Refusal
  foreign_accounts : List String → Refusal
  accounts_taken : List String → ℕ → Refusal
  fully_claimed : List String → ℕ → Refusal
  values_taken : List String → String → ℕ → Refusal
  other_key : ℕ → String → Refusal

-- sorted(set(xs) & set(ys))
abbrev pub common : List String → List String → List String
common xs ys = sorted_set (select (has ys) xs)

-- The check of the `if whole` branch: a customer-wide rule is let through.
unfoldable pub against_whole : Rule → Rule → Option Refusal
unfolding sorted_set
against_whole whole partial =
    if uses_accounts partial.kind && meets whole.account_ids partial.account_ids
    then some (fully_claimed (common whole.account_ids partial.account_ids) whole.project)
    else none

unfoldable pub same_scope : Rule → Rule → Bool
same_scope r o =
    (not (uses_accounts r.kind) && not (uses_accounts o.kind))
    || meets r.account_ids o.account_ids
    || ((uses_accounts r.kind && not (uses_accounts o.kind)
          || not (uses_accounts r.kind) && uses_accounts o.kind)
        && not (is_accounts r.kind || is_accounts o.kind))

-- Two rules that both select by a key.
unfoldable pub against_partial : Rule → Rule → Option Refusal
unfolding same_scope sorted_set
against_partial r o =
    if not (same_scope r o)
    then none
    else if str_eq r.key o.key && meets r.values o.values
    then some (values_taken (common r.values o.values) r.key o.project)
    else if not (str_eq r.key o.key)
    then some (other_key o.project o.key)
    else none

-- One round of the loop over the customer's other rules; none is `continue` or its end.
unfoldable pub against : Rule → Rule → Option Refusal
unfolding overlapping_dates against_whole against_partial sorted_set
against r o =
    if not (overlapping_dates r o)
    then none
    else if is_accounts r.kind && is_accounts o.kind
    then (if meets r.account_ids o.account_ids
        then some (accounts_taken (common r.account_ids o.account_ids) o.project)
        else none)
    else if is_accounts r.kind
    then against_whole r o
    else if is_accounts o.kind
    then against_whole o r
    else against_partial r o

unfoldable pub against_all : Rule → List Rule → Option Refusal
unfolding against
against_all r [] = none
against_all r (o ∷ os) = elim (against r o) [ some e ↦ some e | none ↦ against_all r os ]

-- What `validate_rule` reads beside the rules: REQUIRE_CONNECTION_APPROVAL, the metadata of the
-- customer's approval, the active tag keys of each enabled connection, and the ownership rows.
pub record Evidence : Type 0 where
  pub require_approval : Bool
  pub approval : Option (List String)
  pub active_tag_keys : List (List String)
  pub assignments : List Assignment

abbrev approved : Option (List String) → String → Bool
approved none key = false
approved (some metadata) key = has metadata key

unfoldable pub check_approval : Evidence → Rule → Option Refusal
check_approval v r =
    if not (v.require_approval && is_tag r.kind)
    then none
    else if not (approved v.approval (text_append "tag:" r.key))
    then some tag_not_approved
    else if elim v.active_tag_keys [ [] ↦ true | k ∷ ks ↦ false ]
        || any (λ keys. not (has keys r.key)) v.active_tag_keys
    then some tag_not_activated
    else none

-- sorted(set(rule.account_ids) - owned)
unfoldable pub foreign : Evidence → ℕ → Rule → List String
unfolding customer_accounts sorted_set
foreign v customer r =
    let owned : List String =
      customer_accounts v.assignments customer none none
      ++ customer_accounts v.assignments customer (some r.effective_start) none in
    sorted_set (select (λ a. not (has owned a)) r.account_ids)

unfoldable pub check_accounts : Evidence → ℕ → Rule → Option Refusal
unfolding foreign
check_accounts v customer r =
    if uses_accounts r.kind
    then elim (foreign v customer r) [ [] ↦ none | a ∷ as_ ↦ some (foreign_accounts (a ∷ as_)) ]
    else none

abbrev orelse : Option Refusal → Option Refusal → Option Refusal
orelse (some e) o = some e
orelse none o = o

-- None is `return True`.
unfoldable pub validate_rule : Evidence → List Rule → ℕ → Rule → Option Refusal
unfolding check_approval check_accounts customer_rules against_all
validate_rule v rows customer r =
    orelse (check_approval v r)
      (orelse (check_accounts v customer r) (against_all r (customer_rules rows customer r.pk)))
