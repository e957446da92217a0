-- ===== src/Allocation/Validated.antt =====
-- `validate_rule` as a whole: no spend is allocated by two rules that it lets stand side by side.
use cloud_billing_console.Prelude.{
  ℕ, ◌<◌, ◌≡◌, true, false, none, List, [], ◌∷◌, ◌&&◌, not, arith, In, inl, inr, ◌==◌,
}
use cloud_billing_console.Prelude.Search.{In-of_select, In-select}
use cloud_billing_console.Scope.Ownership.{Assignment}
use cloud_billing_console.Allocation.Rules.{
  Rule, Evidence, covers, is_accounts, is_tag, date_max, against, against_all, validate_rule,
  customer_rules, same_pk,
}
use cloud_billing_console.Allocation.Claims.{Usage, allocates}
use cloud_billing_console.Allocation.Disjoint.{against_disjoint}

against_all-none :
    (r : Rule) (os : List Rule) (o : Rule) → against_all r os ≡ none → In o os → against r o ≡ none
unfolding against_all
against_all-none r [] o e i = absurd i
against_all-none r (x ∷ os) o e (inl s) = rw s (ground arith)
against_all-none r (x ∷ os) o e (inr i) = against_all-none r os o (ground arith) i

validated_against :
    (v : Evidence) (rows : List Rule) (customer : ℕ) (r o : Rule)
    → validate_rule v rows customer r ≡ none
    → In o (customer_rules rows customer none)
    → same_pk r.pk o.pk ≡ false
    → against r o ≡ none
unfolding validate_rule customer_rules
validated_against v rows customer r o h i s =
    let (k, f) =
      In-of_select (λ x. (x.customer == customer) && x.active && not (same_pk none x.pk)) rows o
        i in
    against_all-none r (customer_rules rows customer r.pk) o (ground arith) (
      In-select (λ x. (x.customer == customer) && x.active && not (same_pk r.pk x.pk)) rows o k
        (ground arith))

module _ (v : Evidence) (rows : List Rule) (assignments : List Assignment) (customer : ℕ) where
  -- Let `validate_rule` accept the rule `r` of a customer, whose other active rule is `o`. No
  -- spend of a day before date.max is allocated by both, whatever sources and windows are
  -- computed, if a rule of the kind ACCOUNTS among the two covers the first day of the other's
  -- window, and if two query rules both select by tag or both by cost category.
  pub validate_rule-disjoint :
      (source first source' first' : ℕ) (r o : Rule) (u : Usage)
      → u.day < date_max
      → validate_rule v rows customer r ≡ none
      → In r (customer_rules rows customer none)
      → In o (customer_rules rows customer none)
      → same_pk r.pk o.pk ≡ false
      → same_pk o.pk r.pk ≡ false
      → (is_accounts r.kind ≡ false → is_accounts o.kind ≡ false → is_tag r.kind ≡ is_tag o.kind)
      → (is_accounts r.kind ≡ true → covers r first' ≡ true)
      → (is_accounts o.kind ≡ true → covers o first ≡ true)
      → allocates rows assignments customer source first r u ≡ true
      → allocates rows assignments customer source' first' o u ≡ false
  validate_rule-disjoint source first source' first' r o u late valid i k s t =
      against_disjoint rows assignments customer source first source' first' r o u late i k s t
        (validated_against v rows customer r o valid k s)
