-- ===== src/Jobs/LeaseKeeps.antt =====
-- `lease` keeps the table consistent, also when its list of busy sources is out of date.
use cloud_billing_console.Prelude.{
  ℕ, ◌+◌, ◌≡◌, refl, ap, true, false, String, Option, none, some, List, [], ◌∷◌, arith, All, ◌==◌,
  inl, inr, Option-cases,
}
use cloud_billing_console.Prelude.Rows.{touch, Pairs-update}
use cloud_billing_console.Prelude.Search.{any-false}
use cloud_billing_console.Jobs.Types.{Job, Db, Settings, is_queued}
use cloud_billing_console.Jobs.Lease.{
  Locks, leases, is_candidate, is_claimable, as_leased, save_lease, pick, lease_after, busy_sources,
  lease,
}
use cloud_billing_console.Jobs.Consistency.{
  RowFits, Compatible, IsConsistent, update-rows, only_row,
}
use cloud_billing_console.Jobs.Selection.{IsEligible, pick-IsEligible}

abbrev IsFree : Option ℕ → Job → Type 0
IsFree none r = Unit
IsFree (some s) r = leases s r ≡ false

free_source :
    (locks : Locks) (d : Db) (j : Job)
    → is_claimable locks d j ≡ true
    → All (IsFree j.source) d.jobs
unfolding is_claimable
free_source locks d j h = by_source j.source refl
  where
    everywhere : (xs : List Job) → All (IsFree none) xs
    everywhere [] = tt
    everywhere (x ∷ xs) = (tt, everywhere xs)

    by_source : (s : Option ℕ) → j.source ≡ s → All (IsFree s) d.jobs
    by_source none e = everywhere d.jobs
    by_source (some s) e = any-false (leases s) d.jobs (ground arith)

module _ (set : Settings) (worker : String) (now : ℕ) (j : Job) where
  -- What is known of each row when `j` is claimed.
  record Claim (r : Job) : Type 0 where
    same :
        r.pk ≡ j.pk
        → (r.source ≡ j.source) × (is_queued r.status ≡ true) × (r.attempts ≡ j.attempts)
    free : IsFree j.source r

  abbrev Claimed : Job → Job
  Claimed r = touch (λ x. x.pk == j.pk) (as_leased set worker now (j.attempts + 1)) r

  claimed-RowFits : (n : ℕ) (r : Job) → Claim r → RowFits n r → RowFits n (Claimed r)
  claimed-RowFits n r c f = ground (arith, c.same)

  claimed-Compatible :
      (x y : Job) → Claim x → Claim y → Compatible x y → Compatible (Claimed x) (Claimed y)
  claimed-Compatible x y c b h = ground (arith, c.same, b.same, c.free, b.free)

  rows-Claim :
      (xs : List Job)
      → is_queued j.status ≡ true
      → All (λ r. r.pk ≡ j.pk → r ≡ j) xs
      → All (IsFree j.source) xs
      → All Claim xs
  rows-Claim [] q a b = tt
  rows-Claim (x ∷ xs) q (e, a) (f, b) = (
    record {
      same =
          λ p. (ap (λ (r : Job). r.source) (e p), rw (e p) q, ap (λ (r : Job). r.attempts) (e p));
      free = f;
    },
    rows-Claim xs q a b,
  )

  pub save_lease-IsConsistent :
      (d : Db)
      → is_queued j.status ≡ true
      → All (λ r. r.pk ≡ j.pk → r ≡ j) d.jobs
      → All (IsFree j.source) d.jobs
      → IsConsistent d
      → IsConsistent (save_lease set worker now j d)
  unfolding save_lease
  save_lease-IsConsistent d q a b c =
      let claims = rows-Claim d.jobs q a b in
      record {
        rows =
            update-rows Claim d.next_pk (λ r. r.pk == j.pk)
              (as_leased set worker now (j.attempts + 1)) d.jobs (claimed-RowFits d.next_pk) claims
              c.rows;
        pairs =
            Pairs-update Claim Compatible Compatible (λ r. r.pk == j.pk)
              (as_leased set worker now (j.attempts + 1)) claimed-Compatible d.jobs claims c.pairs;
      }

pub candidate-queued :
    (now : ℕ) (kinds : List String) (busy : List ℕ) (locks : Locks) (j : Job)
    → is_candidate now kinds busy locks j ≡ true
    → is_queued j.status ≡ true
unfolding is_candidate
candidate-queued now kinds busy locks j h = ground arith

-- Whatever list of busy sources the claim started from, the table stays consistent: no source
-- gets a second leased job.
pub lease_after-IsConsistent :
    (set : Settings) (worker : String) (now : ℕ) (kinds : List String) (busy : List ℕ)
    (locks : Locks) (d : Db)
    → IsConsistent d
    → IsConsistent (lease_after set worker now kinds busy locks d).1
unfolding lease_after
lease_after-IsConsistent set worker now kinds busy locks d c =
    elim (Option-cases (pick now kinds busy locks d)) [
      | inl e ↦ rw (e, lease_after) c
      | inr (j, e) ↦ rw (e, lease_after) (claim j (pick-IsEligible now kinds busy locks d j e))
    ]
  where
    claim :
        (j : Job)
        → IsEligible now kinds busy locks d j
        → IsConsistent (save_lease set worker now j d)
    claim j h =
        save_lease-IsConsistent set worker now j d
          (candidate-queued now kinds busy locks j h.candidate)
          (only_row d.jobs j c.pairs h.present) (free_source locks d j h.claimable) c

pub lease-IsConsistent :
    (set : Settings) (worker : String) (now : ℕ) (kinds : List String) (locks : Locks) (d : Db)
    → IsConsistent d
    → IsConsistent (lease set worker now kinds locks d).1
lease-IsConsistent set worker now kinds locks d c =
    unfold lease in lease_after-IsConsistent set worker now kinds (busy_sources d.jobs) locks d c
