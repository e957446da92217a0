-- ===== src/Jobs/Selection.antt =====
-- Which job `lease` takes: the order of the candidates, and the search for the first claimable.
use cloud_billing_console.Prelude.{
  ℕ, ◌≡◌, true, false, String, none, some, List, [], ◌∷◌, arith, All, In, select, inl, inr, ◌⊎◌,
  Bool-cases,
}
use cloud_billing_console.Prelude.Rows.{Pairs, All-map}
use cloud_billing_console.Prelude.Search.{In-select, In-of_select, find-some, find-none, find-first}
use cloud_billing_console.Jobs.Types.{Job, Db}
use cloud_billing_console.Jobs.Lease.{
  Locks, before, insert, order, is_candidate, is_claimable, pick,
}

pub before_refl : (a : Job) → before a a ≡ true
unfolding before
before_refl a = ground arith

before_trans : (a b c : Job) → before a b ≡ true → before b c ≡ true → before a c ≡ true
unfolding before
before_trans a b c p q = ground arith

before_total : (a b : Job) → before a b ≡ false → before b a ≡ true
unfolding before
before_total a b p = ground arith

pub In-insert : (x j : Job) (ks : List Job) → In x (insert j ks) → (x ≡ j) ⊎ In x ks
unfolding insert
In-insert x j [] i = i
In-insert x j (k ∷ ks) i = elim (Bool-cases (before j k)) [
  | inl p ↦ rw p at i
  | inr p ↦ past (In-insert x j ks) (rw p at i)
]
  where
    past :
        (In x (insert j ks) → (x ≡ j) ⊎ In x ks)
        → (x ≡ k) ⊎ In x (insert j ks)
        → (x ≡ j) ⊎ ((x ≡ k) ⊎ In x ks)
    past ih (inl e) = inr (inl e)
    past ih (inr m) = elim (ih m) [ inl e ↦ inl e | inr o ↦ inr (inr o) ]

insert-In : (x j : Job) (ks : List Job) → (x ≡ j) ⊎ In x ks → In x (insert j ks)
unfolding insert
insert-In x j [] i = i
insert-In x j (k ∷ ks) i = ground (arith, insert-In x j ks)

In-order : (x : Job) (js : List Job) → In x (order js) → In x js
unfolding order
In-order x [] i = i
In-order x (j ∷ js) i = ground (arith, In-insert x j (order js), In-order x js)

order-In : (x : Job) (js : List Job) → In x js → In x (order js)
unfolding order
order-In x [] i = i
order-In x (j ∷ js) i = ground (arith, insert-In x j (order js), order-In x js)

abbrev Before : Job → Job → Type 0
Before a b = before a b ≡ true

Before-All : (j k : Job) (ks : List Job) → before j k ≡ true → All (Before k) ks → All (Before j) ks
Before-All j k ks p a = All-map (Before k) (Before j) (λ x q. before_trans j k x p q) ks a

All-insert : (P : Job → Type 0) (j : Job) (ks : List Job) → P j → All P ks → All P (insert j ks)
unfolding insert
All-insert P j [] p a = (p, tt)
All-insert P j (k ∷ ks) p (q, a) = elim (Bool-cases (before j k)) [
  | inl e ↦ rw e (p, (q, a))
  | inr e ↦ rw e (q, All-insert P j ks p a)
]

insert-sorted : (j : Job) (ks : List Job) → Pairs Before ks → Pairs Before (insert j ks)
unfolding insert
insert-sorted j [] s = (tt, tt)
insert-sorted j (k ∷ ks) (a, s) = elim (Bool-cases (before j k)) [
  | inl e ↦ rw e ((e, Before-All j k ks e a), (a, s))
  | inr e ↦ rw e (All-insert (Before k) j ks (before_total j k e) a, insert-sorted j ks s)
]

order-sorted : (js : List Job) → Pairs Before (order js)
unfolding order
order-sorted [] = tt
order-sorted (j ∷ js) = insert-sorted j (order js) (order-sorted js)

module _ (now : ℕ) (kinds : List String) (busy : List ℕ) (locks : Locks) (d : Db) where
  -- A job that `lease` may take: it meets the query's filters and the loop's checks.
  pub record IsEligible (j : Job) : Type 0 where
    pub present : In j d.jobs
    pub candidate : is_candidate now kinds busy locks j ≡ true
    pub claimable : is_claimable locks d j ≡ true

  eligible-In :
      (j : Job) → IsEligible j → In j (order (select (is_candidate now kinds busy locks) d.jobs))
  eligible-In j e =
      order-In j (select (is_candidate now kinds busy locks) d.jobs)
        (In-select (is_candidate now kinds busy locks) d.jobs j e.present e.candidate)

  pub pick-IsEligible : (j : Job) → pick now kinds busy locks d ≡ some j → IsEligible j
  unfolding pick
  pick-IsEligible j e =
      let queue : List Job = select (is_candidate now kinds busy locks) d.jobs in
      let found = find-some (is_claimable locks d) (order queue) e in
      let origin =
        In-of_select (is_candidate now kinds busy locks) d.jobs j (In-order j queue found.0) in
      record { present = origin.0; candidate = origin.1; claimable = found.1 }

  pub pick-first :
      (j k : Job) → pick now kinds busy locks d ≡ some j → IsEligible k → before j k ≡ true
  unfolding pick
  pick-first j k e h =
      find-first Before (is_claimable locks d)
        (order (select (is_candidate now kinds busy locks) d.jobs)) before_refl
        (order-sorted (select (is_candidate now kinds busy locks) d.jobs)) j k e (eligible-In k h)
        h.claimable

  pub pick-none : (k : Job) → pick now kinds busy locks d ≡ none → ¬ IsEligible k
  unfolding pick
  pick-none k e h =
      let miss =
        find-none (is_claimable locks d) (order (select (is_candidate now kinds busy locks) d.jobs))
          k e (eligible-In k h) in
      cc (h.claimable, miss)
