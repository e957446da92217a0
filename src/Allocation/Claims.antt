-- ===== src/Allocation/Claims.antt =====
-- Which accounts a rule reaches: `claimed_accounts` and `rule_scope_accounts` of
-- billing/allocation.py, and the spend that a rule allocates.
use cloud_billing_console.Prelude.{
  ℕ, ◌≡◌, subst, sym, ap, Bool, true, false, String, Option, none, some, List, [], ◌∷◌, ◌++◌, ◌&&◌,
  ◌||◌, not, if◌then◌else◌, arith, In, select, inl, inr, Bool-cases,
}
use cloud_billing_console.Prelude.Texts.{
  has, sorted_set, In-sorted_set, sorted_set-In, In-has, has-In,
}
use cloud_billing_console.Prelude.Search.{In-append_left, In-append_right, In-of_select, In-select}
use cloud_billing_console.Scope.Ownership.{Assignment, customer_accounts}
use cloud_billing_console.Allocation.Rules.{
  Rule, covers, uses_accounts, is_accounts, is_tag, customer_rules, same_pk,
}

abbrev claims_day : ℕ → Option Rule → Rule → Bool
claims_day day none r = is_accounts r.kind && covers r day
claims_day day (some x) r = is_accounts r.kind && covers r day && not (same_pk r.pk x.pk)

gather : ℕ → Option Rule → List Rule → List String
gather day exclude [] = []
gather day exclude (r ∷ rs) =
    let rest : List String = gather day exclude rs in
    if claims_day day exclude r then r.account_ids ++ rest else rest

-- The accounts that rules of the kind ACCOUNTS claim whole on the day.
unfoldable pub claimed_accounts : List Rule → ℕ → ℕ → Option Rule → List String
unfolding gather customer_rules
claimed_accounts rows customer day exclude = gather day exclude (customer_rules rows customer none)

abbrev own_accounts : Rule → List String → List String
own_accounts r owned = if uses_accounts r.kind then select (has r.account_ids) owned else owned

unfoldable pub rule_scope_accounts : List Rule → List Assignment → Rule → ℕ → ℕ → ℕ → List String
unfolding claimed_accounts customer_accounts sorted_set
rule_scope_accounts rows assignments r customer source day =
    let claimed : List String = claimed_accounts rows customer day (some r) in
    sorted_set (
      select (λ a. not (has claimed a))
        (own_accounts r (customer_accounts assignments customer (some day) (some source))))

-- A line of spend, as AWS filters see it: a tag key or cost category has one value at most.
pub record Usage : Type 0 where
  pub account : String
  pub day : ℕ
  pub tag : String → Option String
  pub category : String → Option String

abbrev pub is_among : List String → Option String → Bool
is_among values none = false
is_among values (some v) = has values v

-- key = 'Tags' if rule.kind in (TAG, ACCOUNT_TAG) else 'CostCategories'
abbrev pub value_of : Bool → Usage → String → Option String
value_of true u key = u.tag key
value_of false u key = u.category key

-- The key expression of `aws_request`; rules of the kind ACCOUNTS ask AWS nothing.
abbrev pub selects : Rule → Usage → Bool
selects r u = is_accounts r.kind || is_among r.values (value_of (is_tag r.kind) u r.key)

-- Spend that an allocation of the rule may take up, stated of the two allocation functions: it is of
-- a day that the rule covers, is selected, and is of one of the accounts, which for a query rule are
-- those of the first day `first` of its window. The day need not be in that window, so that all spend
-- that a window takes up is of this kind.
unfoldable pub allocates : List Rule → List Assignment → ℕ → ℕ → ℕ → Rule → Usage → Bool
unfolding rule_scope_accounts
allocates rows assignments customer source first r u =
    covers r u.day
    && selects r u
    && (if is_accounts r.kind
        then has r.account_ids u.account
        else has (rule_scope_accounts rows assignments r customer source first) u.account)

In-own_accounts :
    (r : Rule) (owned : List String) (a : String)
    → In a (own_accounts r owned)
    → uses_accounts r.kind ≡ true
    → In a r.account_ids
In-own_accounts r owned a i u =
    has-In r.account_ids a (In-of_select (has r.account_ids) owned a (rw u at i)).1

-- A query rule reaches only accounts of its own list, if it has one, and none that is claimed.
pub In-rule_scope_accounts :
    (rows : List Rule) (assignments : List Assignment) (r : Rule) (customer source day : ℕ)
    (a : String)
    → In a (rule_scope_accounts rows assignments r customer source day)
    → (uses_accounts r.kind ≡ true → In a r.account_ids)
      × (has (claimed_accounts rows customer day (some r)) a ≡ false)
unfolding rule_scope_accounts
In-rule_scope_accounts rows assignments r customer source day a i =
    let claimed : List String = claimed_accounts rows customer day (some r) in
    let owned : List String = customer_accounts assignments customer (some day) (some source) in
    let (k, free) =
      In-of_select (λ x. not (has claimed x)) (own_accounts r owned) a (In-sorted_set _ a i) in
    (In-own_accounts r owned a k, ground arith)

In-gather :
    (day : ℕ) (exclude : Option Rule) (rs : List Rule) (w : Rule) (a : String)
    → In w rs
    → claims_day day exclude w ≡ true
    → In a w.account_ids
    → In a (gather day exclude rs)
unfolding gather
In-gather day exclude [] w a i c k = absurd i
In-gather day exclude (r ∷ rs) w a (inl e) c k =
    let h : claims_day day exclude r ≡ true = subst (λ x. claims_day day exclude x ≡ true) e c in
    rw h (In-append_left r.account_ids _ a (subst (λ (x : Rule). In a x.account_ids) e k))
In-gather day exclude (r ∷ rs) w a (inr i) c k = elim (Bool-cases (claims_day day exclude r)) [
  | inl h ↦ rw h (In-append_right r.account_ids _ a (In-gather day exclude rs w a i c k))
  | inr h ↦ rw h (In-gather day exclude rs w a i c k)
]

-- An account of a covering ACCOUNTS rule is among the claimed ones of every other rule.
pub claimed-has :
    (rows : List Rule) (customer day : ℕ) (w r : Rule) (a : String)
    → In w (customer_rules rows customer none)
    → is_accounts w.kind ≡ true
    → covers w day ≡ true
    → same_pk w.pk r.pk ≡ false
    → In a w.account_ids
    → has (claimed_accounts rows customer day (some r)) a ≡ true
unfolding claimed_accounts
claimed-has rows customer day w r a i k c s m =
    In-has (claimed_accounts rows customer day (some r)) a
      (In-gather day (some r) (customer_rules rows customer none) w a i (ground arith) m)

own_accounts-all :
    (r : Rule) (owned : List String) → uses_accounts r.kind ≡ false → own_accounts r owned ≡ owned
own_accounts-all r owned h = ap (λ b. if b then select (has r.account_ids) owned else owned) h

-- A rule with no account list reaches every account that is owned and not claimed.
pub unclaimed-has :
    (rows : List Rule) (assignments : List Assignment) (r : Rule) (customer source day : ℕ)
    (a : String)
    → uses_accounts r.kind ≡ false
    → has (customer_accounts assignments customer (some day) (some source)) a ≡ true
    → has (claimed_accounts rows customer day (some r)) a ≡ false
    → has (rule_scope_accounts rows assignments r customer source day) a ≡ true
unfolding rule_scope_accounts
unclaimed-has rows assignments r customer source day a h o c =
    let owned : List String = customer_accounts assignments customer (some day) (some source) in
    let claimed : List String = claimed_accounts rows customer day (some r) in
    In-has _ a (
      subst (λ xs. In a (sorted_set (select (λ x. not (has claimed x)) xs)))
        (sym (own_accounts-all r owned h))
        (sorted_set-In (select (λ x. not (has claimed x)) owned) a
          (In-select (λ x. not (has claimed x)) owned a (has-In owned a o) (ap not c))))
