-- ===== src/Allocation/Tests.antt =====
-- Allocation on concrete rules, facts and answers of AWS.
use cloud_billing_console.Prelude.{In, inl}
use cloud_billing_console.Prelude.{
  ℕ, ◌+◌, ◌≡◌, refl, Bool, true, false, String, none, some, List, [], ◌∷◌, arith, inl, inr, any,
  All, str_eq, select, ◌==◌, ◌&&◌, leb, if◌then◌else◌,
}
use cloud_billing_console.Prelude.Int.{pos, negsuc}
use cloud_billing_console.Scope.Ownership.{Assignment}
use cloud_billing_console.Allocation.Rules.{
  Kind, Rule, Evidence, covers, customer_rules, validate_rule,
}
use cloud_billing_console.Allocation.Claims.{Usage, allocates}
use cloud_billing_console.Allocation.Validated.{validate_rule-disjoint}
use cloud_billing_console.Allocation.Windows.{in_window, in_month, rule_months, rule_months-exact}
use cloud_billing_console.Allocation.Project.{
  Cost, ProjectCost, Period, Fetched, answered, pending, in_scope, allocate_accounts_rule,
  compute_rule, allocate_rule,
}
use cloud_billing_console.Allocation.Coverage.{IsCovered}
use cloud_billing_console.Allocation.Others.{In-allocate_rule}
use cloud_billing_console.Allocation.Windowed.{allocate_rule-IsCovered}
use cloud_billing_console.Allocation.Conserved.{
  facts_total, rows_total, allocate_accounts_rule-total,
}

-- Months of thirty days.
abbrev next_month : ℕ → ℕ
next_month m = m + 30

abbrev plain_rule : ℕ → ℕ → Kind → List String → String → List String → Rule
plain_rule pk project kind account_ids key values = record {
  pk = some pk;
  project = project;
  customer = 1;
  kind = kind;
  account_ids = account_ids;
  key = key;
  values = values;
  effective_start = 100;
  effective_end = some 145;
  active = true;
}

abbrev web_rule : Rule
web_rule = plain_rule 1 10 Kind.tag [] "team" ("web" ∷ [])

abbrev data_rule : Rule
data_rule = plain_rule 2 20 Kind.tag [] "team" ("data" ∷ [])

abbrev shared_rule : Rule
shared_rule = plain_rule 3 30 Kind.cost_category [] "team" ("shared" ∷ [])

abbrev account_rule : Rule
account_rule = record (plain_rule 4 40 Kind.accounts ("111" ∷ "222" ∷ []) "" []) {
  effective_start = 110;
}

abbrev ownership : List Assignment
ownership =
    record { customer = 1; source = 7; account_id = "111"; start = 1; end = none }
    ∷ record { customer = 1; source = 7; account_id = "222"; start = 1; end = none }
    ∷ []

abbrev evidence : Evidence
evidence = record {
  require_approval = true;
  approval = some ("tag:team" ∷ []);
  active_tag_keys = ("team" ∷ []) ∷ [];
  assignments = ownership;
}

abbrev web_usage : Usage
web_usage = record {
  account = "111";
  day = 120;
  tag = λ key. some "web";
  category = λ key. some "shared";
}

validate_rule-disjoint_example :
    allocates (web_rule ∷ data_rule ∷ []) ownership 1 7 100 data_rule web_usage ≡ false
unfolding validate_rule customer_rules allocates covers
validate_rule-disjoint_example =
    validate_rule-disjoint evidence (web_rule ∷ data_rule ∷ []) ownership 1 7 100 7 100 web_rule
      data_rule web_usage (omega arith) refl (inl refl) (inr (inl refl)) refl refl (λ a b. refl)
      (λ e. cc) (λ e. cc) refl

rule_months-exact_example :
    any (in_window 144) (rule_months next_month web_rule (90 ∷ 120 ∷ []))
    ≡ (any (in_month next_month 144) (90 ∷ 120 ∷ []) && covers web_rule 144)
rule_months-exact_example = rule_months-exact next_month web_rule (90 ∷ 120 ∷ []) 144

abbrev fact : String → ℕ → ℕ → Cost
fact account_id day amount = record {
  source = 7;
  customer = 1;
  day = day;
  account_id = account_id;
  service = "AmazonEC2";
  currency = "USD";
  unblended = pos amount;
  amortized = negsuc amount;
  estimated = day == 120;
}

abbrev facts : List Cost
facts =
    fact "111" 115 3 ∷ fact "111" 115 4 ∷ fact "222" 120 5 ∷ fact "333" 120 6 ∷ fact "111" 90 8 ∷ []

abbrev on_account : ℕ → ℕ → String → String → Bool
on_account source day account currency = str_eq account "111"

allocate_accounts_rule-total_example :
    (rows_total (λ p. p.unblended) on_account (allocate_accounts_rule facts account_rule 1 110 130)
      ≡ facts_total (λ c. c.unblended) on_account (select (in_scope account_rule 1 110 130) facts))
    × (rows_total
          (λ p. p.amortized)
          on_account
          (allocate_accounts_rule facts account_rule 1 110 130)
        ≡ facts_total
            (λ c. c.amortized)
            on_account
            (select (in_scope account_rule 1 110 130) facts))
allocate_accounts_rule-total_example =
    allocate_accounts_rule-total on_account facts account_rule 1 110 130

two_accounts_add_up :
    rows_total (λ p. p.unblended) on_account (allocate_accounts_rule facts account_rule 1 110 130)
    ≡ pos 7
unfolding rows_total allocate_accounts_rule
two_accounts_add_up = refl

abbrev one_period : Period
one_period = record {
  day = 121;
  estimated = true;
  groups =
      record { account_id = "111"; currency = "USD"; unblended = pos 9; amortized = pos 9 } ∷ [];
}

abbrev cache : ℕ → List String → ℕ → ℕ → Fetched
cache source accounts first end = if leb 120 first then answered (one_period ∷ []) else pending

-- A row of the rule on a day after its new end.
abbrev old_row : ProjectCost
old_row = record {
  rule = some 1;
  project = 10;
  source = 7;
  day = 149;
  account_id = "111";
  currency = "USD";
  unblended = pos 1;
  amortized = pos 1;
  estimated = false;
}

allocate_rule-IsCovered_example :
    All
      (IsCovered next_month web_rule (90 ∷ 120 ∷ []))
      (allocate_rule
        (compute_rule cache (web_rule ∷ account_rule ∷ []) ownership facts 1 (7 ∷ []) 130)
        next_month
        (90 ∷ 120 ∷ [])
        web_rule
        (record { complete = true; rows = 0 })
        (old_row ∷ [])).1
allocate_rule-IsCovered_example =
    allocate_rule-IsCovered cache (web_rule ∷ account_rule ∷ []) ownership 1 facts (7 ∷ []) 130
      next_month (90 ∷ 120 ∷ []) web_rule (record { complete = true; rows = 0 }) (old_row ∷ [])

In-allocate_rule_example :
    In old_row
      (allocate_rule
        (compute_rule cache (web_rule ∷ account_rule ∷ []) ownership facts 1 (7 ∷ []) 150)
        next_month
        (90 ∷ 120 ∷ [])
        account_rule
        (record { complete = true; rows = 0 })
        (old_row ∷ [])).1
In-allocate_rule_example =
    In-allocate_rule next_month account_rule old_row refl
      (compute_rule cache (web_rule ∷ account_rule ∷ []) ownership facts 1 (7 ∷ []) 150)
      (90 ∷ 120 ∷ []) (record { complete = true; rows = 0 }) (old_row ∷ []) (inl refl)
