-- ===== src/Allocation/Disjoint.antt =====
-- No spend is allocated twice: what the checks of `validate_rule` and the exclusion of claimed
-- accounts achieve together, and where they fall short.
use cloud_billing_console.Prelude.{
  ℕ, ◌<◌, ◌≡◌, true, false, String, Option, none, some, List, arith, In, inl, inr, str_eq,
  str_eq_iff, Bool-cases,
}
use cloud_billing_console.Prelude.Texts.{has, meets, has-In, In-meets}
use cloud_billing_console.Scope.Ownership.{Assignment}
use cloud_billing_console.Allocation.Rules.{
  Rule, covers, uses_accounts, is_accounts, is_tag, date_max, overlapping_dates, same_scope,
  against_partial, against, customer_rules, same_pk,
}
use cloud_billing_console.Allocation.Claims.{
  Usage, is_among, value_of, claimed_accounts, rule_scope_accounts, allocates,
  In-rule_scope_accounts, claimed-has,
}

overlap_of_covers :
    (r o : Rule) (day : ℕ)
    → day < date_max
    → covers r day ≡ true
    → covers o day ≡ true
    → overlapping_dates r o ≡ true
unfolding covers overlapping_dates
overlap_of_covers r o day h c d = ground arith

shared :
    (r o : Rule) (a : String)
    → has r.account_ids a ≡ true
    → has o.account_ids a ≡ true
    → meets r.account_ids o.account_ids ≡ true
shared r o a h k = In-meets r.account_ids o.account_ids a (has-In _ a h) (has-In _ a k)

among_both :
    (xs ys : List String) (v : Option String)
    → is_among xs v ≡ true
    → is_among ys v ≡ true
    → meets xs ys ≡ true
among_both xs ys none h k = cc
among_both xs ys (some v) h k = In-meets xs ys v (has-In xs v h) (has-In ys v k)

-- Query rules with a common account scope, one dimension and no refusal select no usage in common.
partial_disjoint :
    (r o : Rule) (u : Usage)
    → same_scope r o ≡ true
    → is_tag r.kind ≡ is_tag o.kind
    → against_partial r o ≡ none
    → is_among r.values (value_of (is_tag r.kind) u r.key) ≡ true
    → is_among o.values (value_of (is_tag o.kind) u o.key) ≡ true
    → ⊥
unfolding against_partial
partial_disjoint r o u s d a h k = elim (Bool-cases (str_eq r.key o.key)) [
  | inl e ↦
      (let same = (str_eq_iff r.key o.key).0 e in
        let k' : is_among o.values (value_of (is_tag r.kind) u r.key) ≡ true = rw (same, d) k in
        ground (arith, among_both r.values o.values (value_of (is_tag r.kind) u r.key) h k'))
  | inr e ↦ ground arith
]

-- Accounts rules and query rules that reach one account have a scope in common.
scopes_meet :
    (r o : Rule) (a : String)
    → is_accounts r.kind ≡ false
    → is_accounts o.kind ≡ false
    → (uses_accounts r.kind ≡ true → In a r.account_ids)
    → (uses_accounts o.kind ≡ true → In a o.account_ids)
    → same_scope r o ≡ true
unfolding same_scope
scopes_meet r o a h k m n = elim (Bool-cases (uses_accounts r.kind)) [
  | inl p ↦ elim (Bool-cases (uses_accounts o.kind)) [
    | inl q ↦ ground (arith, In-meets r.account_ids o.account_ids a (m p) (n q))
    | inr q ↦ ground arith
  ]
  | inr p ↦ elim (Bool-cases (uses_accounts o.kind)) [ inl q ↦ ground arith | inr q ↦ ground arith ]
]

module _ (rows : List Rule) (assignments : List Assignment) (customer : ℕ) where
  -- What a query rule's allocation says of the usage.
  query_allocates :
      (source first : ℕ) (r : Rule) (u : Usage)
      → is_accounts r.kind ≡ false
      → allocates rows assignments customer source first r u ≡ true
      → (covers r u.day ≡ true)
        × (is_among r.values (value_of (is_tag r.kind) u r.key) ≡ true)
        × (uses_accounts r.kind ≡ true → In u.account r.account_ids)
        × (has (claimed_accounts rows customer first (some r)) u.account ≡ false)
  unfolding allocates
  query_allocates source first r u q a =
      let reached = In-rule_scope_accounts rows assignments r customer source first u.account (
        has-In (rule_scope_accounts rows assignments r customer source first) u.account
          (ground arith)) in
      (ground arith, ground arith, reached.0, reached.1)

  whole_allocates :
      (source first : ℕ) (r : Rule) (u : Usage)
      → is_accounts r.kind ≡ true
      → allocates rows assignments customer source first r u ≡ true
      → (covers r u.day ≡ true) × (has r.account_ids u.account ≡ true)
  unfolding allocates
  whole_allocates source first r u q a = (ground arith, ground arith)

  whole_excludes :
      (source first source' first' : ℕ) (w r : Rule) (u : Usage)
      → In w (customer_rules rows customer none)
      → same_pk w.pk r.pk ≡ false
      → is_accounts w.kind ≡ true
      → is_accounts r.kind ≡ false
      → covers w first' ≡ true
      → allocates rows assignments customer source first w u ≡ true
      → allocates rows assignments customer source' first' r u ≡ true
      → ⊥
  whole_excludes source first source' first' w r u i s k q c a b = cc (
    claimed-has rows customer first' w r u.account i k c s
        (has-In w.account_ids u.account (whole_allocates source first w u k a).1),
    (query_allocates source' first' r u q b).3,
  )

  -- Let two saved rules of a customer be accepted against one another, and let the first days of
  -- the windows computed be `first` and `first'`. Then no spend of a day before date.max is
  -- allocated by both, if a rule of the kind ACCOUNTS among them already covers the first day of
  -- the other's window, and if two query rules both select by tag or both by cost category.
  pub against_disjoint :
      (source first source' first' : ℕ) (r o : Rule) (u : Usage)
      → u.day < date_max
      → In r (customer_rules rows customer none)
      → In o (customer_rules rows customer none)
      → same_pk r.pk o.pk ≡ false
      → same_pk o.pk r.pk ≡ false
      → against r o ≡ none
      → (is_accounts r.kind ≡ false → is_accounts o.kind ≡ false → is_tag r.kind ≡ is_tag o.kind)
      → (is_accounts r.kind ≡ true → covers r first' ≡ true)
      → (is_accounts o.kind ≡ true → covers o first ≡ true)
      → allocates rows assignments customer source first r u ≡ true
      → allocates rows assignments customer source' first' o u ≡ false
  against_disjoint source first source' first' r o u late i k s t n d c e a =
      elim (Bool-cases (allocates rows assignments customer source' first' o u)) [
        | inr free ↦ free
        | inl b ↦ absurd (elim (Bool-cases (is_accounts r.kind)) [
          | inl p ↦ elim (Bool-cases (is_accounts o.kind)) [
            | inl q ↦ both_whole p q b
            | inr q ↦ whole_excludes source first source' first' r o u i s p q (c p) a b
          ]
          | inr p ↦ elim (Bool-cases (is_accounts o.kind)) [
            | inl q ↦ whole_excludes source' first' source first o r u k t q p (e q) b a
            | inr q ↦ both_query p q b
          ]
        ])
      ]
    where
      both_whole :
          is_accounts r.kind ≡ true
          → is_accounts o.kind ≡ true
          → allocates rows assignments customer source' first' o u ≡ true
          → ⊥
      both_whole p q b =
          let x = whole_allocates source first r u p a in
          let y = whole_allocates source' first' o u q b in
          unfold against in
          ground (arith, overlap_of_covers r o u.day late x.0 y.0, shared r o u.account x.1 y.1)

      both_query :
          is_accounts r.kind ≡ false
          → is_accounts o.kind ≡ false
          → allocates rows assignments customer source' first' o u ≡ true
          → ⊥
      both_query p q b =
          let x = query_allocates source first r u p a in
          let y = query_allocates source' first' o u q b in
          partial_disjoint r o u (scopes_meet r o u.account p q x.2 y.2) (d p q)
            (unfold against in ground (arith, overlap_of_covers r o u.day late x.0 y.0)) x.1 y.1
