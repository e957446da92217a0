-- ===== src/Allocation/Windowed.antt =====
-- Both ways to allocate, `allocate_accounts_rule` and `allocate_query_rule` of
-- billing/allocation.py, give rows of the window they are asked for.
use cloud_billing_console.Prelude.{
  ℕ, ◌⊎◌, ◌+◌, ◌≡◌, refl, subst, Bool, true, String, Option, none, some, List, [], ◌∷◌, ◌++◌, ◌&&◌,
  arith, select, All, inl, inr, Bool-cases, ltb, leb, min,
}
use cloud_billing_console.Prelude.Int.{ℤ, ◌+ℤ◌}
use cloud_billing_console.Prelude.Rows.{All-append, All-map}
use cloud_billing_console.Prelude.Search.{All-of_In, In-of_select}
use cloud_billing_console.Scope.Ownership.{Assignment}
use cloud_billing_console.Allocation.Rules.{Rule, is_accounts}
use cloud_billing_console.Allocation.Claims.{rule_scope_accounts}
use cloud_billing_console.Allocation.Coverage.{IsCovered, allocate_rule-Within}
use cloud_billing_console.Allocation.Project.{
  Cost, ProjectCost, Computed, computed, failed, Status, in_scope, same_group, as_row, add_fact,
  grouped, mark_estimated, allocate_accounts_rule, compute_rule, allocate_rule, allocate_query_rule,
  query_units, answer_rows, period_rows, Fetched, pending, refused, answered, Period, Group, join,
  incomplete,
}

abbrev pub IsWithin : ℕ → ℕ → ProjectCost → Type 0
IsWithin first last p = (leb first p.day && ltb p.day last) ≡ true

-- What every computed row satisfies; an exception leaves none.
abbrev pub AllRows : (ProjectCost → Type 0) → Computed → Type 0
AllRows P failed = Unit
AllRows P (computed rows complete) = All P rows

AllRows-map :
    (P Q : ProjectCost → Type 0)
    → ((p : ProjectCost) → P p → Q p)
    → (c : Computed) → AllRows P c
    → AllRows Q c
AllRows-map P Q h failed a = tt
AllRows-map P Q h (computed rows complete) a = All-map P Q h rows a

add_fact-All :
    (P : ProjectCost → Type 0) (r : Rule) (c : Cost) (rows : List ProjectCost)
    → P (as_row r c)
    → ((p : ProjectCost) (u a : ℤ) → P p → P (record p { unblended = u; amortized = a }))
    → All P rows
    → All P (add_fact r c rows)
unfolding add_fact
add_fact-All P r c [] new same a = (new, tt)
add_fact-All P r c (p ∷ ps) new same (h, a) = elim (Bool-cases (same_group c p)) [
  | inl e ↦ rw e (same p (p.unblended +ℤ c.unblended) (p.amortized +ℤ c.amortized) h, a)
  | inr e ↦ rw e (h, add_fact-All P r c ps new same a)
]

grouped-IsWithin :
    (r : Rule) (first last : ℕ) (facts : List Cost)
    → All (λ (c : Cost). (leb first c.day && ltb c.day last) ≡ true) facts
    → All (IsWithin first last) (grouped r facts)
unfolding grouped
grouped-IsWithin r first last [] a = tt
grouped-IsWithin r first last (c ∷ cs) (h, a) =
    add_fact-All (IsWithin first last) r c (grouped r cs) h (λ p u v k. k)
      (grouped-IsWithin r first last cs a)

mark_estimated-IsWithin :
    (first last : ℕ) (facts : List Cost) (rows : List ProjectCost)
    → All (IsWithin first last) rows
    → All (IsWithin first last) (mark_estimated facts rows)
unfolding mark_estimated
mark_estimated-IsWithin first last facts [] a = tt
mark_estimated-IsWithin first last facts (p ∷ ps) (h, a) =
    (h, mark_estimated-IsWithin first last facts ps a)

allocate_accounts_rule-IsWithin :
    (costs : List Cost) (r : Rule) (customer first last : ℕ)
    → All (IsWithin first last) (allocate_accounts_rule costs r customer first last)
unfolding allocate_accounts_rule
allocate_accounts_rule-IsWithin costs r customer first last =
    let facts : List Cost = select (in_scope r customer first last) costs in
    mark_estimated-IsWithin first last facts (grouped r facts) (
      grouped-IsWithin r first last facts (
        All-of_In (λ (c : Cost). (leb first c.day && ltb c.day last) ≡ true) facts
          (λ c i. ground (arith, (In-of_select (in_scope r customer first last) costs c i).1))))

period_rows-All :
    (r : Rule) (source first last day : ℕ) (estimated : Bool) (gs : List Group)
    → (leb first day && ltb day last) ≡ true
    → All (IsWithin first last) (period_rows r source day estimated gs)
unfolding period_rows
period_rows-All r source first last day estimated [] h = tt
period_rows-All r source first last day estimated (g ∷ gs) h =
    (h, period_rows-All r source first last day estimated gs h)

-- What an answer adds to the rows, or the exception.
abbrev pub Given : (ProjectCost → Type 0) → Option (List ProjectCost) → Type 0
Given P none = Unit
Given P (some rows) = All P rows

more_rows-Given :
    (P : ProjectCost → Type 0) (day_rows : List ProjectCost) (rest : Option (List ProjectCost))
    → All P day_rows
    → Given P rest
    → Given P (elim rest [ none ↦ none | some rows ↦ some (day_rows ++ rows) ])
more_rows-Given P day_rows none b a = tt
more_rows-Given P day_rows (some rows) b a = All-append P day_rows rows b a

answer_rows-IsWithin :
    (r : Rule) (source first end : ℕ) (ps : List Period)
    → Given (IsWithin first end) (answer_rows r source first end ps)
unfolding answer_rows
answer_rows-IsWithin r source first end [] = tt
answer_rows-IsWithin r source first end (p ∷ ps) =
    elim (Bool-cases (leb first p.day && ltb p.day end)) [
      | inr e ↦ rw e tt
      | inl e ↦ rw e (
          more_rows-Given (IsWithin first end) (period_rows r source p.day p.estimated p.groups)
            (answer_rows r source first end ps)
            (period_rows-All r source first end p.day p.estimated p.groups e)
            (answer_rows-IsWithin r source first end ps))
    ]

join-All :
    (P : ProjectCost → Type 0) (o : Option (List ProjectCost)) (c : Computed)
    → Given P o
    → AllRows P c
    → AllRows P (join o c)
join-All P none c a b = tt
join-All P (some rows) failed a b = tt
join-All P (some rows) (computed more complete) a b = All-append P rows more a b

incomplete-All : (P : ProjectCost → Type 0) (c : Computed) → AllRows P c → AllRows P (incomplete c)
incomplete-All P failed a = tt
incomplete-All P (computed rows complete) a = a

List-cases :
    {A : Type 0} → (xs : List A) → (xs ≡ []) ⊎ ((a : A) × ((as_ : List A) × (xs ≡ a ∷ as_)))
List-cases [] = inl refl
List-cases (x ∷ xs) = inr (x, (xs, refl))

module _ (ask : ℕ → List String → ℕ → ℕ → Fetched) (rules : List Rule)
    (assignments : List Assignment) (customer : ℕ) where
  fetched-IsWithin :
      (r : Rule) (first end source : ℕ) (accounts : List String) (rest : Computed) (f : Fetched)
      → AllRows (IsWithin first end) rest
      → AllRows (IsWithin first end) (elim f [
        | pending ↦ incomplete rest
        | refused ↦ failed
        | answered periods ↦ join (answer_rows r source first end periods) rest
      ])
  fetched-IsWithin r first end source accounts rest pending a =
      incomplete-All (IsWithin first end) rest a
  fetched-IsWithin r first end source accounts rest refused a = tt
  fetched-IsWithin r first end source accounts rest (answered periods) a =
      join-All (IsWithin first end) (answer_rows r source first end periods) rest
        (answer_rows-IsWithin r source first end periods) a

  query_units-IsWithin :
      (r : Rule) (first end : ℕ) (units : List ℕ)
      → AllRows (IsWithin first end) (query_units ask rules assignments customer r first end units)
  unfolding query_units
  query_units-IsWithin r first end [] = tt
  query_units-IsWithin r first end (source ∷ units) =
      elim (List-cases (rule_scope_accounts rules assignments r customer source first)) [
        | inl e ↦ rw (e, query_units) (query_units-IsWithin r first end units)
        | inr (a, (as_, e)) ↦
            rw (e, query_units)
              (fetched-IsWithin r first end source (a ∷ as_)
                (query_units ask rules assignments customer r first end units)
                (ask source (a ∷ as_) first end) (query_units-IsWithin r first end units))
      ]

  allocate_query_rule-IsWithin :
      (units : List ℕ) (today : ℕ) (r : Rule) (first last : ℕ)
      → AllRows
          (IsWithin first last)
          (allocate_query_rule ask rules assignments customer units today r first last)
  unfolding allocate_query_rule
  allocate_query_rule-IsWithin units today r first last =
      elim (Bool-cases (leb (min last (today + 1)) first)) [
        | inl e ↦ rw e tt
        | inr e ↦ rw e (
            AllRows-map (IsWithin first (min last (today + 1))) (IsWithin first last)
              (λ p i. ground (arith, i))
              (query_units ask rules assignments customer r first (min last (today + 1)) units)
              (query_units-IsWithin r first (min last (today + 1)) units))
      ]

  compute_rule-IsWithin :
      (costs : List Cost) (units : List ℕ) (today : ℕ) (r : Rule) (first last : ℕ)
      → AllRows
          (IsWithin first last)
          (compute_rule ask rules assignments costs customer units today r first last)
  compute_rule-IsWithin costs units today r first last = elim (Bool-cases (is_accounts r.kind)) [
    | inl e ↦ rw (e, compute_rule) (allocate_accounts_rule-IsWithin costs r customer first last)
    | inr e ↦ rw (e, compute_rule) (allocate_query_rule-IsWithin units today r first last)
  ]

  -- Once `allocate_project` has gone through a rule, no row of that rule stands on a day of the
  -- months that the rule does not cover. This holds whatever rows there were before, as after a
  -- change of the rule's dates, whatever AWS answers, and also where the computation ends with an
  -- exception or waits for data.
  pub allocate_rule-IsCovered :
      (costs : List Cost) (units : List ℕ) (today : ℕ) (next : ℕ → ℕ) (months : List ℕ) (r : Rule)
      (s : Status) (rows : List ProjectCost)
      → All
          (IsCovered next r months)
          (allocate_rule
            (compute_rule ask rules assignments costs customer units today)
            next
            months
            r
            s
            rows).1
  allocate_rule-IsCovered costs units today next months r s rows =
      allocate_rule-Within next r (compute_rule ask rules assignments costs customer units today)
        (λ first last new complete e.
          subst (AllRows (IsWithin first last)) e
            (compute_rule-IsWithin costs units today r first last))
        months s rows
