-- ===== src/Jobs/Requested.antt =====
-- A request of billing/jobs.py adds no more work to the table than the attempts of one job.
use cloud_billing_console.Prelude.{
  ℕ, ◌+◌, ◌*◌, ◌≤◌, ◌≡◌, subst, ap, Bool, true, String, Option, none, some, List, [], ◌∷◌, ◌++◌,
  arith, any, inl, inr, Option-cases, Bool-cases, or_else, ltb, ◌&&◌, ◌-◌,
}
use cloud_billing_console.Jobs.Types.{Job, Db, Access, Settings, is_queued}
use cloud_billing_console.Jobs.Enqueue.{
  Request, Reads, create_job, active_with_key, is_row, brought_forward, coalesce, attempt_limit,
  new_job, insert_or_existing, join_or_insert, with_key, enqueue_body, permitted, enqueue,
}
use cloud_billing_console.Jobs.Work.{work_of, work_in, All-true, update-work}

module _ (cost : String → ℕ) where
  work-append_one :
      (xs : List Job) (j : Job) → work_in cost (xs ++ j ∷ []) ≡ work_in cost xs + work_of cost j
  work-append_one [] j = omega arith
  work-append_one (x ∷ xs) j = omega (arith, work-append_one xs j)

  create_job-work :
      (j : Job) (d : Db) {d' : Db}
      → create_job j d ≡ some d'
      → work_in cost d'.jobs ≤ work_in cost d.jobs + work_of cost j
  unfolding create_job
  create_job-work j d {d'} e = elim (Bool-cases (any (active_with_key j.key) d.jobs)) [
    | inl taken ↦ absurd (ground arith)
    | inr free ↦
        subst (λ (x : Db). work_in cost x.jobs ≤ work_in cost d.jobs + work_of cost j) {x = made}
          {y = d'} (ground arith) appended
  ]
    where
      made : Db
      made = record d { jobs = d.jobs ++ j ∷ []; next_pk = d.next_pk + 1 }

      appended : work_in cost made.jobs ≤ work_in cost d.jobs + work_of cost j
      appended = omega (arith, work-append_one d.jobs j)

  coalesce-work :
      (run_after priority : ℕ) (visible : Job → Bool) (e : Job) (d : Db)
      → work_in cost (coalesce run_after priority visible e d).jobs ≤ work_in cost d.jobs
  unfolding coalesce
  coalesce-work run_after priority visible e d =
      elim (Bool-cases (is_queued e.status && ltb run_after e.run_after)) [
        | inl soon ↦
            rw (soon, coalesce)
              (update-work cost (λ r. Unit {0}) (is_row visible e)
                (brought_forward run_after priority e) d.jobs (λ r s. ground arith)
                (All-true d.jobs))
        | inr late ↦ rw (late, coalesce) (omega arith)
      ]

  module _ (name : ℕ → String) (set : Settings) (access : Option Access) where
    -- The price of the attempts that a request asks for.
    abbrev pub price : Request → ℕ
    price r = attempt_limit set r.max_attempts * cost r.kind

    fresh :
        (r : Request) (now : ℕ) (d : Db) → work_of cost (new_job name set access r now d) ≡ price r
    unfolding new_job
    fresh r now d =
        ap (λ k. k * cost r.kind) {x = attempt_limit set r.max_attempts - 0}
          {y = attempt_limit set r.max_attempts} (omega arith)

    insert_or_existing-work :
        (r : Request) (now : ℕ) (visible : Job → Bool) (d : Db)
        → work_in cost (insert_or_existing name set access r now visible d).1.jobs
          ≤ work_in cost d.jobs + price r
    unfolding insert_or_existing
    insert_or_existing-work r now visible d =
        elim (Option-cases (create_job (new_job name set access r now d) d)) [
          | inl taken ↦ rw (taken, insert_or_existing) (omega arith)
          | inr (d', made) ↦
              rw (made, insert_or_existing)
                (omega
                  (arith, create_job-work (new_job name set access r now d) d made, fresh r now d))
        ]

    join_or_insert-work :
        (r : Request) (now : ℕ) (reads : Reads) (d : Db) (found : Option Job)
        → work_in cost (join_or_insert name set access r now reads d found).1.jobs
          ≤ work_in cost d.jobs + price r
    unfolding join_or_insert
    join_or_insert-work r now reads d none = insert_or_existing-work r now reads.visible d
    join_or_insert-work r now reads d (some e) =
        omega (arith, coalesce-work (or_else r.run_after now) r.priority reads.visible e d)

    enqueue_body-work :
        (r : Request) (now : ℕ) (reads : Reads) (d : Db)
        → work_in cost (enqueue_body name set access r now reads d).1.jobs
          ≤ work_in cost d.jobs + price r
    unfolding enqueue_body
    enqueue_body-work r now reads d =
        elim (Bool-cases (r.once && any (λ x. true) (with_key name set access r reads))) [
          | inl before ↦ rw (before, enqueue_body) (omega arith)
          | inr first ↦ rw (first, enqueue_body) (join_or_insert-work r now reads d _)
        ]

    pub enqueue-work :
        (r : Request) (now : ℕ) (reads : Reads) (d : Db)
        → work_in cost (enqueue name set access r now reads d).1.jobs
          ≤ work_in cost d.jobs + price r
    unfolding enqueue
    enqueue-work r now reads d = elim (Bool-cases (permitted set access r d.queries)) [
      | inl allowed ↦ rw allowed (enqueue_body-work r now reads d)
      | inr refused ↦ rw refused (omega arith)
    ]
