-- ===== src/Scope/Ownership.antt =====
-- The table `AccountAssignment` and the account sets that billing/scope.py reads from it. Days are
-- proleptic ordinals, as `date.toordinal` counts them.
use cloud_billing_console.Prelude.{
  ℕ, Bool, true, false, String, Option, none, some, List, ◌&&◌, ltb, leb, ◌==◌, map, select,
}
use cloud_billing_console.Prelude.Texts.{sorted_set}

-- A customer owns an account of a source from `start` up to `end`, which is not included.
pub record Assignment : Type 0 where
  pub customer : ℕ
  pub source : ℕ
  pub account_id : String
  pub start : ℕ
  pub end : Option ℕ

-- Q(end__isnull=True) | Q(end__gt=day)
abbrev pub ends_after : ℕ → Option ℕ → Bool
ends_after day none = true
ends_after day (some e) = ltb day e

abbrev pub is_open : Option ℕ → Bool
is_open none = true
is_open (some e) = false

abbrev pub owned_on : Option ℕ → Assignment → Bool
owned_on none a = is_open a.end
owned_on (some day) a = leb a.start day && ends_after day a.end

abbrev pub of_source : Option ℕ → Assignment → Bool
of_source none a = true
of_source (some s) a = a.source == s

-- customer_accounts(customer, on, source): no day means the open assignments.
unfoldable pub customer_accounts : List Assignment → ℕ → Option ℕ → Option ℕ → List String
customer_accounts rows customer on source = sorted_set (
    map (λ (a : Assignment). a.account_id)
      (select (λ a. (a.customer == customer) && owned_on on a && of_source source a) rows))
