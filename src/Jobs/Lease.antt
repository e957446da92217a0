-- ===== src/Jobs/Lease.antt =====
-- `lease` of billing/jobs.py: the claim of the next runnable job in one transaction.
use cloud_billing_console.Prelude.{
  ℕ, ◌+◌, ◌*◌, Bool, true, false, String, Option, none, some, List, [], ◌∷◌, ◌&&◌, ◌||◌, not, ltb,
  leb, ◌==◌, str_eq, if◌then◌else◌, any, find, select, elem,
}
use cloud_billing_console.Prelude.Rows.{update}
use cloud_billing_console.Jobs.Types.{Status, Job, Db, Settings, is_queued, is_leased, second}

-- The rows that other open transactions have locked, which SKIP LOCKED passes over. On SQLite
-- both are constantly false.
pub record Locks : Type 0 where
  pub job_locked : ℕ → Bool
  pub source_locked : ℕ → Bool

-- The source ids of the leased jobs, nulls left out.
unfoldable pub busy_sources : List Job → List ℕ
busy_sources [] = []
busy_sources (j ∷ js) =
    let rest : List ℕ = busy_sources js in
    if is_leased j.status then elim j.source [ none ↦ rest | some s ↦ s ∷ rest ] else rest

abbrev pub excluded : List ℕ → Option ℕ → Bool
excluded busy none = false
excluded busy (some s) = elem s busy

abbrev pub admits : List String → Job → Bool
admits [] j = true
admits (k ∷ ks) j = any (λ x. str_eq j.kind x) (k ∷ ks)

-- The filters of the query; no kinds at all is no filter.
unfoldable pub is_candidate : ℕ → List String → List ℕ → Locks → Job → Bool
is_candidate now kinds busy locks j =
    is_queued j.status
    && leb j.run_after now
    && not (excluded busy j.source)
    && admits kinds j
    && not (locks.job_locked j.pk)

-- order_by('priority', 'run_after', 'pk')
unfoldable pub before : Job → Job → Bool
before a b =
    ltb a.priority b.priority
    || (a.priority == b.priority)
      && (ltb a.run_after b.run_after || (a.run_after == b.run_after) && leb a.pk b.pk)

unfoldable pub insert : Job → List Job → List Job
unfolding before
insert j [] = j ∷ []
insert j (k ∷ ks) = if before j k then j ∷ k ∷ ks else k ∷ insert j ks

unfoldable pub order : List Job → List Job
unfolding insert
order [] = []
order (j ∷ js) = insert j (order js)

abbrev pub leases : ℕ → Job → Bool
leases s j = is_leased j.status && elim j.source [ none ↦ false | some t ↦ t == s ]

-- The body of the loop over the candidates: false is `continue`. The source's row is claimed,
-- and only then is it asked whether the source has a leased job.
unfoldable pub is_claimable : Locks → Db → Job → Bool
is_claimable locks d j = elim j.source [
  | none ↦ true
  | some s ↦
      any (λ r. (r.id == s) && not (locks.source_locked s)) d.sources && not (any (leases s) d.jobs)
]

abbrev pub as_leased : Settings → String → ℕ → ℕ → Job → Job
as_leased set worker now attempts j = record j {
  status = Status.leased;
  worker = worker;
  attempts = attempts;
  started_at = some now;
  lease_expires = some (now + set.lease_seconds * second);
}

-- `job.save(update_fields=[...])` of the claimed job.
unfoldable pub save_lease : Settings → String → ℕ → Job → Db → Db
save_lease set worker now j d = record d {
  jobs = update (λ r. r.pk == j.pk) (as_leased set worker now (j.attempts + 1)) d.jobs;
}

-- `busy` was read by an earlier statement and may be out of date when the claim is made.
unfoldable pub pick : ℕ → List String → List ℕ → Locks → Db → Option Job
unfolding is_candidate order is_claimable
pick now kinds busy locks d =
    find (is_claimable locks d) (order (select (is_candidate now kinds busy locks) d.jobs))

unfoldable pub lease_after :
    Settings → String → ℕ → List String → List ℕ → Locks → Db → Option Job × Db
unfolding pick save_lease
lease_after set worker now kinds busy locks d = elim (pick now kinds busy locks d) [
  | none ↦ (none, d)
  | some j ↦ (some (as_leased set worker now (j.attempts + 1) j), save_lease set worker now j d)
]

unfoldable pub lease : Settings → String → ℕ → List String → Locks → Db → Option Job × Db
unfolding lease_after busy_sources
lease set worker now kinds locks d = lease_after set worker now kinds (busy_sources d.jobs) locks d
