-- ===== src/Jobs/Progress.antt =====
-- Every operation of billing/jobs.py moves the table forward, in the sense of Jobs/History.
use cloud_billing_console.Prelude.{
  ℕ, ◌+◌, ◌≡◌, refl, ap, subst, Bool, true, String, Option, none, some, List, [], ◌∷◌, ◌++◌, arith,
  All, select, any, ◌==◌, inl, inr, ◌&&◌, Bool-cases, Option-cases, or_else, ltb,
}
use cloud_billing_console.Prelude.Rows.{touch}
use cloud_billing_console.Json.{Fields}
use cloud_billing_console.Jobs.Types.{Job, Db, Access, Settings, is_queued}
use cloud_billing_console.Jobs.Enqueue.{
  Request, Reads, active_with_key, create_job, is_row, brought_forward, coalesce, new_job,
  insert_or_existing, join_or_insert, with_key, enqueue_body, permitted, enqueue,
}
use cloud_billing_console.Jobs.Lease.{Locks, as_leased, save_lease, pick, lease_after}
use cloud_billing_console.Jobs.Outcome.{
  holds, is_current, JobRef, unsaved, saved, extend_lease, heartbeat, as_done, complete, take_chars,
  is_exhausted, as_failed, backoff, fail, is_expired, still_expired, as_recovered, recover_one,
  recover_rows, recover_seen,
}
use cloud_billing_console.Jobs.History.{
  Evolves, Extends, ◌⊑◌, Extends-refl, Extends-trans, ⊑-refl, update-Extends, plain-Extends,
  append-Extends,
}
use cloud_billing_console.Jobs.Consistency.{IsConsistent, only_row}
use cloud_billing_console.Jobs.Selection.{pick-IsEligible}

pub heartbeat-⊑ :
    (set : Settings) (now : ℕ) (j : JobRef) (progress : Option Fields) (d : Db)
    → d ⊑ (heartbeat set now j progress d).2
unfolding heartbeat
heartbeat-⊑ set now (unsaved p) progress d = ⊑-refl d
heartbeat-⊑ set now (saved j) progress d = record {
  rows =
      plain-Extends d.next_pk (is_current now j) (extend_lease set now progress) d.jobs
        (λ r. ground arith);
  keys = omega arith;
}

pub complete-⊑ :
    (now : ℕ) (j : Job) (progress : Option Fields) (d : Db) → d ⊑ complete now j progress d
unfolding complete
complete-⊑ now j progress d = record {
  rows =
      plain-Extends d.next_pk (holds j) (as_done now (or_else progress j.progress) j) d.jobs
        (λ r. ground arith);
  keys = omega arith;
}

as_failed-Evolves :
    (now retry : ℕ) (exhausted : Bool) (message : String) (j r : Job)
    → Evolves r (touch (holds j) (as_failed now retry exhausted message j) r)
unfolding holds as_failed
as_failed-Evolves now retry exhausted message j r = ground arith

pub fail-⊑ :
    (redact : String → String) (uniform : ℕ → ℕ) (set : Settings) (now : ℕ) (j : Job)
    (error : String) (permanent : Bool) (d : Db)
    → d ⊑ (fail redact uniform set now j error permanent d).1
unfolding fail
fail-⊑ redact uniform set now j error permanent d =
    let message : String = take_chars 500 (redact error) in
    let retry : ℕ = now + backoff uniform set j.attempts in
    let exhausted : Bool = is_exhausted permanent j in
    record {
      rows =
          plain-Extends d.next_pk (holds j) (as_failed now retry exhausted message j) d.jobs
            (as_failed-Evolves now retry exhausted message j);
      keys = omega arith;
    }

as_recovered-Evolves :
    (set : Settings) (uniform : ℕ → ℕ) (now : ℕ) (j r : Job)
    → Evolves r (touch (still_expired now j) (as_recovered set uniform now j) r)
unfolding still_expired as_recovered
as_recovered-Evolves set uniform now j r = ground arith

module _ (draws : ℕ → ℕ → ℕ) (set : Settings) (now : ℕ) where
  recover_rows-Extends :
      (n : ℕ) (js rows : List Job) → Extends n rows (recover_rows draws set now js rows)
  unfolding recover_rows recover_one
  recover_rows-Extends n [] rows = Extends-refl n rows
  recover_rows-Extends n (j ∷ js) rows =
      Extends-trans n n rows (recover_one draws set now j rows)
        (recover_rows draws set now js (recover_one draws set now j rows)) (omega arith)
        (plain-Extends n (still_expired now j) (as_recovered set (draws j.pk) now j) rows
          (as_recovered-Evolves set (draws j.pk) now j))
        (recover_rows-Extends n js (recover_one draws set now j rows))

  pub recover_seen-⊑ : (seen : List Job) (d : Db) → d ⊑ recover_seen draws set now seen d
  unfolding recover_seen
  recover_seen-⊑ seen d = record {
    rows = recover_rows-Extends d.next_pk (select (is_expired now) seen) d.jobs;
    keys = omega arith;
  }

module _ (set : Settings) (worker : String) (now : ℕ) where
  pub save_lease-⊑ :
      (j : Job) (d : Db) → All (λ r. r.pk ≡ j.pk → r ≡ j) d.jobs → d ⊑ save_lease set worker now j d
  unfolding save_lease
  save_lease-⊑ j d a = record {
    rows =
        update-Extends (λ r. r.pk ≡ j.pk → r ≡ j) d.next_pk (λ r. r.pk == j.pk)
          (as_leased set worker now (j.attempts + 1)) d.jobs claimed a;
    keys = omega arith;
  }
    where
      claimed :
          (r : Job)
          → (r.pk ≡ j.pk → r ≡ j)
          → Evolves r (touch (λ x. x.pk == j.pk) (as_leased set worker now (j.attempts + 1)) r)
      claimed r h = elim (Bool-cases (r.pk == j.pk)) [
        | inl e ↦ ground (arith, ap (λ (x : Job). x.attempts) (h (ground arith)))
        | inr e ↦ ground arith
      ]

  pub lease_after-⊑ :
      (kinds : List String) (busy : List ℕ) (locks : Locks) (d : Db)
      → IsConsistent d
      → d ⊑ (lease_after set worker now kinds busy locks d).1
  unfolding lease_after
  lease_after-⊑ kinds busy locks d c = elim (Option-cases (pick now kinds busy locks d)) [
    | inl e ↦ rw (e, lease_after) (⊑-refl d)
    | inr (j, e) ↦
        rw (e, lease_after)
          (save_lease-⊑ j d
            (only_row d.jobs j c.pairs (pick-IsEligible now kinds busy locks d j e).present))
  ]

create_job-⊑ : (j : Job) (d : Db) {d' : Db} → j.pk ≡ d.next_pk → create_job j d ≡ some d' → d ⊑ d'
unfolding create_job
create_job-⊑ j d {d'} h e = elim (Bool-cases (any (active_with_key j.key) d.jobs)) [
  | inl taken ↦ absurd (ground arith)
  | inr free ↦ subst (λ x. d ⊑ x) (ground arith) appended
]
  where
    appended : d ⊑ record d { jobs = d.jobs ++ j ∷ []; next_pk = d.next_pk + 1 }
    appended = record { rows = append-Extends d.next_pk d.jobs j (omega arith); keys = omega arith }

coalesce-⊑ :
    (run_after priority : ℕ) (visible : Job → Bool) (e : Job) (d : Db)
    → d ⊑ coalesce run_after priority visible e d
unfolding coalesce
coalesce-⊑ run_after priority visible e d =
    elim (Bool-cases (is_queued e.status && ltb run_after e.run_after)) [
      | inl soon ↦
          rw (soon, coalesce)
            (record {
              rows =
                  plain-Extends d.next_pk (is_row visible e) (brought_forward run_after priority e)
                    d.jobs (λ r. ground arith);
              keys = omega arith;
            })
      | inr late ↦ rw (late, coalesce) (⊑-refl d)
    ]

module _ (name : ℕ → String) (set : Settings) (access : Option Access) where
  insert_or_existing-⊑ :
      (r : Request) (now : ℕ) (visible : Job → Bool) (d : Db)
      → d ⊑ (insert_or_existing name set access r now visible d).1
  unfolding insert_or_existing
  insert_or_existing-⊑ r now visible d =
      elim (Option-cases (create_job (new_job name set access r now d) d)) [
        | inl taken ↦ rw (taken, insert_or_existing) (⊑-refl d)
        | inr (d', made) ↦
            rw (made, insert_or_existing)
              (create_job-⊑ (new_job name set access r now d) d (unfold new_job in refl) made)
      ]

  join_or_insert-⊑ :
      (r : Request) (now : ℕ) (reads : Reads) (d : Db) (found : Option Job)
      → d ⊑ (join_or_insert name set access r now reads d found).1
  unfolding join_or_insert
  join_or_insert-⊑ r now reads d none = insert_or_existing-⊑ r now reads.visible d
  join_or_insert-⊑ r now reads d (some e) =
      coalesce-⊑ (or_else r.run_after now) r.priority reads.visible e d

  enqueue_body-⊑ :
      (r : Request) (now : ℕ) (reads : Reads) (d : Db)
      → d ⊑ (enqueue_body name set access r now reads d).1
  unfolding enqueue_body
  enqueue_body-⊑ r now reads d =
      elim (Bool-cases (r.once && any (λ x. true) (with_key name set access r reads))) [
        | inl before ↦ rw (before, enqueue_body) (⊑-refl d)
        | inr first ↦ rw (first, enqueue_body) (join_or_insert-⊑ r now reads d _)
      ]

  pub enqueue-⊑ :
      (r : Request) (now : ℕ) (reads : Reads) (d : Db)
      → d ⊑ (enqueue name set access r now reads d).1
  unfolding enqueue
  enqueue-⊑ r now reads d = elim (Bool-cases (permitted set access r d.queries)) [
    | inl allowed ↦ rw allowed (enqueue_body-⊑ r now reads d)
    | inr refused ↦ rw refused (⊑-refl d)
  ]
