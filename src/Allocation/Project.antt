-- ===== src/Allocation/Project.antt =====
-- The tables `Cost` and `ProjectCost` of billing/models.py, and `allocate_accounts_rule`,
-- `allocate_query_rule` and `allocate_project` of billing/allocation.py.
use cloud_billing_console.Prelude.{
  ℕ, ◌+◌, Bool, true, false, String, Option, none, some, List, [], ◌∷◌, ◌++◌, ◌&&◌, ◌||◌, not, ltb,
  leb, ◌==◌, str_eq, if◌then◌else◌, any, select, length, min, ◌≡◌, refl, ◌⊎◌, inl, inr,
}
use cloud_billing_console.Prelude.Int.{ℤ, ◌+ℤ◌}
use cloud_billing_console.Prelude.Texts.{has}
use cloud_billing_console.Scope.Ownership.{Assignment}
use cloud_billing_console.Allocation.Rules.{Rule, is_accounts, same_pk}
use cloud_billing_console.Allocation.Claims.{rule_scope_accounts}
use cloud_billing_console.Allocation.Windows.{Window, rule_months}

-- A daily cost fact. The column may be null in the schema; the collector always fills `source`.
pub record Cost : Type 0 where
  pub source : ℕ
  pub customer : ℕ
  pub day : ℕ
  pub account_id : String
  pub service : String
  pub currency : String
  pub unblended : ℤ
  pub amortized : ℤ
  pub estimated : Bool

pub record ProjectCost : Type 0 where
  pub rule : Option ℕ
  pub project : ℕ
  pub source : ℕ
  pub day : ℕ
  pub account_id : String
  pub currency : String
  pub unblended : ℤ
  pub amortized : ℤ
  pub estimated : Bool

-- The facts that a whole-account rule takes up between two days.
abbrev pub in_scope : Rule → ℕ → ℕ → ℕ → Cost → Bool
in_scope r customer first last c =
    (c.customer == customer) && has r.account_ids c.account_id && leb first c.day && ltb c.day last

-- values('source_id', 'day', 'account_id', 'currency')
abbrev pub same_group : Cost → ProjectCost → Bool
same_group c p =
    (c.source == p.source)
    && (c.day == p.day)
    && str_eq c.account_id p.account_id
    && str_eq c.currency p.currency

abbrev pub as_row : Rule → Cost → ProjectCost
as_row r c = record {
  rule = r.pk;
  project = r.project;
  source = c.source;
  day = c.day;
  account_id = c.account_id;
  currency = c.currency;
  unblended = c.unblended;
  amortized = c.amortized;
  estimated = false;
}

-- annotate(u=Sum('unblended'), a=Sum('amortized'))
unfoldable pub add_fact : Rule → Cost → List ProjectCost → List ProjectCost
unfolding ◌+ℤ◌
add_fact r c [] = as_row r c ∷ []
add_fact r c (p ∷ ps) =
    if same_group c p
    then record p { unblended = p.unblended +ℤ c.unblended; amortized = p.amortized +ℤ c.amortized }
      ∷ ps
    else p ∷ add_fact r c ps

unfoldable pub grouped : Rule → List Cost → List ProjectCost
unfolding add_fact
grouped r [] = []
grouped r (c ∷ cs) = add_fact r c (grouped r cs)

unfoldable pub mark_estimated : List Cost → List ProjectCost → List ProjectCost
mark_estimated facts [] = []
mark_estimated facts (p ∷ ps) =
    record p { estimated = any (λ (c : Cost). c.estimated && (c.day == p.day)) facts }
    ∷ mark_estimated facts ps

unfoldable pub allocate_accounts_rule : List Cost → Rule → ℕ → ℕ → ℕ → List ProjectCost
unfolding grouped mark_estimated
allocate_accounts_rule costs r customer first last =
    let facts : List Cost = select (in_scope r customer first last) costs in
    mark_estimated facts (grouped r facts)

-- An AWS answer as far as the allocation reads it: days with their groups.
pub record Group : Type 0 where
  pub account_id : String
  pub currency : String
  pub unblended : ℤ
  pub amortized : ℤ

pub record Period : Type 0 where
  pub day : ℕ
  pub estimated : Bool
  pub groups : List Group

-- What the cache has for a request: nothing yet, an answer, or a refusal by `get_query`.
pub data Fetched : Type 0 where
  pending refused : Fetched
  answered : List Period → Fetched

-- How a rule's allocation ends; `failed` is an exception.
pub data Computed : Type 0 where
  computed : List ProjectCost → Bool → Computed
  failed : Computed

unfoldable pub period_rows : Rule → ℕ → ℕ → Bool → List Group → List ProjectCost
period_rows r source day estimated [] = []
period_rows r source day estimated (g ∷ gs) =
    record {
      rule = r.pk;
      project = r.project;
      source = source;
      day = day;
      account_id = g.account_id;
      currency = g.currency;
      unblended = g.unblended;
      amortized = g.amortized;
      estimated = estimated;
    }
    ∷ period_rows r source day estimated gs

-- None is the ValueError for a period outside the window.
unfoldable pub answer_rows : Rule → ℕ → ℕ → ℕ → List Period → Option (List ProjectCost)
unfolding period_rows
answer_rows r source first end [] = some []
answer_rows r source first end (p ∷ ps) =
    if leb first p.day && ltb p.day end
    then elim (answer_rows r source first end ps) [
      | none ↦ none
      | some rows ↦ some (period_rows r source p.day p.estimated p.groups ++ rows)
    ]
    else none

pub Computed-cases :
    (c : Computed)
    → (c ≡ failed)
      ⊎ ((rows : List ProjectCost) × ((complete : Bool) × (c ≡ computed rows complete)))
Computed-cases failed = inl refl
Computed-cases (computed rows complete) = inr (rows, (complete, refl))

abbrev pub join : Option (List ProjectCost) → Computed → Computed
join none c = failed
join (some rows) failed = failed
join (some rows) (computed more complete) = computed (rows ++ more) complete

abbrev pub incomplete : Computed → Computed
incomplete failed = failed
incomplete (computed rows complete) = computed rows false

-- `ask source accounts first end` is what `get_query` gives, and `units` the sources of
-- `report_units`.
module _ (ask : ℕ → List String → ℕ → ℕ → Fetched) (rules : List Rule)
    (assignments : List Assignment) (customer : ℕ) where
  unfoldable pub query_units : Rule → ℕ → ℕ → List ℕ → Computed
  unfolding answer_rows rule_scope_accounts
  query_units r first end [] = computed [] true
  query_units r first end (source ∷ units) =
      let rest : Computed = query_units r first end units in
      elim (rule_scope_accounts rules assignments r customer source first) [
        | [] ↦ rest
        | a ∷ as_ ↦ elim (ask source (a ∷ as_) first end) [
          | pending ↦ incomplete rest
          | refused ↦ failed
          | answered periods ↦ join (answer_rows r source first end periods) rest
        ]
      ]

  unfoldable pub allocate_query_rule : List ℕ → ℕ → Rule → ℕ → ℕ → Computed
  unfolding query_units
  allocate_query_rule units today r first last =
      let end : ℕ = min last (today + 1) in
      if leb end first then computed [] true else query_units r first end units

-- ProjectCost.objects.filter(rule=rule, day__gte=first, day__lt=last)
abbrev pub rows_between : Rule → ℕ → ℕ → ProjectCost → Bool
rows_between r first last p = same_pk r.pk p.rule && leb first p.day && ltb p.day last

abbrev pub delete : (ProjectCost → Bool) → List ProjectCost → List ProjectCost
delete q rows = select (λ p. not (q p)) rows

-- The days of a month that a rule with new dates covers no longer.
abbrev pub is_stale : (ℕ → ℕ) → Rule → ℕ → ProjectCost → Bool
is_stale next r month p =
    rows_between r month (next month) p
    && (elim r.effective_end [ none ↦ false | some e ↦ ltb e (next month) && leb e p.day ]
        || (ltb month r.effective_start && ltb p.day r.effective_start))

unfoldable pub drop_stale : (ℕ → ℕ) → Rule → List ℕ → List ProjectCost → List ProjectCost
drop_stale next r [] rows = rows
drop_stale next r (m ∷ ms) rows = drop_stale next r ms (delete (is_stale next r m) rows)

-- `status` of `allocate_project`.
pub record Status : Type 0 where
  pub complete : Bool
  pub rows : ℕ

-- None in place of the status is an exception; what was written before it stays.
abbrev pub Outcome : Type 0
Outcome = Option Status × List ProjectCost

-- The constraint `unique_project_cost`, for rows of one rule.
abbrev pub same_slice : ProjectCost → ProjectCost → Bool
same_slice p o =
    (p.source == o.source)
    && (p.day == o.day)
    && str_eq p.account_id o.account_id
    && str_eq p.currency o.currency

abbrev pub has_clash : List ProjectCost → Bool
has_clash [] = false
has_clash (p ∷ ps) = any (same_slice p) ps || has_clash ps

-- The atomic block: the rows of the window are replaced.
abbrev pub replace : Rule → Window → List ProjectCost → List ProjectCost → List ProjectCost
replace r w new rows = delete (rows_between r w.first w.last) rows ++ new

abbrev pub is_empty : List ProjectCost → Bool
is_empty [] = true
is_empty (p ∷ ps) = false

abbrev pub after_status : Status → Bool → ℕ → Status
after_status s complete n = record { complete = s.complete && complete; rows = s.rows + n }

module _ (compute : Rule → ℕ → ℕ → Computed) where
  -- The loop over the windows of one rule. A clash rolls the atomic block back.
  unfoldable pub run_windows : Rule → List Window → Status → List ProjectCost → Outcome
  run_windows r [] s rows = (some s, rows)
  run_windows r (w ∷ ws) s rows = elim (compute r w.first w.last) [
    | failed ↦ (none, rows)
    | computed new complete ↦ elim (not complete && is_empty new) [
      | true ↦ run_windows r ws (after_status s complete 0) rows
      | false ↦ elim (has_clash new) [
        | true ↦ (none, rows)
        | false ↦ run_windows r ws (after_status s complete (length new)) (replace r w new rows)
      ]
    ]
  ]

  -- One round of the loop over the rules of the project.
  unfoldable pub allocate_rule : (ℕ → ℕ) → List ℕ → Rule → Status → List ProjectCost → Outcome
  unfolding drop_stale run_windows rule_months
  allocate_rule next months r s rows =
      run_windows r (rule_months next r months) s (drop_stale next r months rows)

  unfoldable pub allocate_rules : (ℕ → ℕ) → List ℕ → List Rule → Status → List ProjectCost → Outcome
  unfolding allocate_rule
  allocate_rules next months [] s rows = (some s, rows)
  allocate_rules next months (r ∷ rs) s rows = elim ((allocate_rule next months r s rows).0) [
    | none ↦ (none, (allocate_rule next months r s rows).1)
    | some t ↦ allocate_rules next months rs t (allocate_rule next months r s rows).1
  ]

-- exclude(rule__active=True), for the rows of the project
abbrev pub is_orphan : List Rule → ℕ → ProjectCost → Bool
is_orphan rules project p =
    (p.project == project) && not (any (λ r. same_pk r.pk p.rule && r.active) rules)

abbrev pub drop_orphans : List Rule → ℕ → Outcome → Outcome
drop_orphans rules project (none, rows) = (none, rows)
drop_orphans rules project (some s, rows) = (some s, delete (is_orphan rules project) rows)

-- The choice between the two ways to allocate.
abbrev pub compute_rule :
    (ℕ → List String → ℕ → ℕ → Fetched)
    → List Rule
    → List Assignment
    → List Cost
    → ℕ
    → List ℕ
    → ℕ
    → Rule
    → ℕ
    → ℕ
    → Computed
compute_rule ask rules assignments costs customer units today r first last =
    if is_accounts r.kind
    then computed (allocate_accounts_rule costs r customer first last) true
    else allocate_query_rule ask rules assignments customer units today r first last

unfoldable pub allocate_project :
    (ℕ → List String → ℕ → ℕ → Fetched)
    → List Rule
    → List Assignment
    → List Cost
    → ℕ
    → List ℕ
    → ℕ
    → (ℕ → ℕ)
    → List ℕ
    → ℕ
    → List ProjectCost
    → Outcome
unfolding allocate_rules allocate_accounts_rule allocate_query_rule
allocate_project ask rules assignments costs customer units today next months project rows =
    drop_orphans rules project (
      allocate_rules (compute_rule ask rules assignments costs customer units today) next months
        (select (λ r. (r.project == project) && r.active) rules)
        (record { complete = true; rows = 0 }) rows)
