-- ===== src/Jobs/EnqueueKeeps.antt =====
-- `enqueue` keeps the table consistent, whatever its reads saw: the table's constraint decides.
use cloud_billing_console.Prelude.{
  ℕ, ◌+◌, ◌<◌, ◌≡◌, refl, subst, Bool, true, false, String, Option, none, some, [], ◌∷◌, ◌++◌, ◌&&◌,
  arith, All, any, ltb, str_eq_iff, inl, inr, Bool-cases, Option-cases, or_else,
}
use cloud_billing_console.Prelude.Rows.{All-and, All-map, All-append-one, Pairs-append-one}
use cloud_billing_console.Prelude.Search.{any-false}
use cloud_billing_console.Jobs.Types.{Status, Job, Db, Access, Settings, is_queued}
use cloud_billing_console.Jobs.Enqueue.{
  Request, Reads, attempt_limit, active_with_key, create_job, coalesce, is_row, brought_forward,
  new_job, insert_or_existing, join_or_insert, with_key, enqueue_body, enqueue, permitted,
}
use cloud_billing_console.Jobs.Consistency.{RowFits, Compatible, IsConsistent, update-IsConsistent}

grown : (n : ℕ) (r : Job) → RowFits n r → RowFits (n + 1) r
grown n r f = ground arith

-- A new row in the queue, with a fresh key and attempts left.
record IsFresh (n : ℕ) (j : Job) : Type 0 where
  next : j.pk ≡ n
  waiting : j.status ≡ Status.queued
  unused : j.attempts ≡ 0
  allowed : 0 < j.max_attempts
  unleased : j.lease_expires ≡ none

fresh-Compatible :
    (n : ℕ) (j x : Job)
    → IsFresh n j
    → (active_with_key j.key x ≡ false) × RowFits n x
    → Compatible x j
fresh-Compatible n j x h f = ground (arith, str_eq_iff x.key j.key)

create_job-IsConsistent :
    (j : Job) (d : Db) {d' : Db}
    → IsFresh d.next_pk j
    → create_job j d ≡ some d'
    → IsConsistent d
    → IsConsistent d'
unfolding create_job
create_job-IsConsistent j d {d'} h e c = elim (Bool-cases (any (active_with_key j.key) d.jobs)) [
  | inl taken ↦ absurd (ground arith)
  | inr free ↦
      subst IsConsistent (ground arith) (appended (any-false (active_with_key j.key) d.jobs free))
]
  where
    appended :
        All (λ x. active_with_key j.key x ≡ false) d.jobs
        → IsConsistent (record d { jobs = d.jobs ++ j ∷ []; next_pk = d.next_pk + 1 })
    appended a = record {
      rows =
          All-append-one (RowFits (d.next_pk + 1)) d.jobs j
            (All-map (RowFits d.next_pk) (RowFits (d.next_pk + 1)) (grown d.next_pk) d.jobs c.rows)
            (ground arith);
      pairs = Pairs-append-one Compatible d.jobs j c.pairs (
          All-map (λ x. (active_with_key j.key x ≡ false) × RowFits d.next_pk x)
            (λ x. Compatible x j) (λ x b. fresh-Compatible d.next_pk j x h b) d.jobs
            (All-and (λ x. active_with_key j.key x ≡ false) (RowFits d.next_pk) d.jobs a c.rows));
    }

pub coalesce-IsConsistent :
    (run_after priority : ℕ) (visible : Job → Bool) (e : Job) (d : Db)
    → IsConsistent d
    → IsConsistent (coalesce run_after priority visible e d)
unfolding coalesce
coalesce-IsConsistent run_after priority visible e d c =
    elim (Bool-cases (is_queued e.status && ltb run_after e.run_after)) [
      | inl soon ↦
          rw (soon, coalesce)
            (update-IsConsistent (is_row visible e) (brought_forward run_after priority e) d
              (λ r f. ground arith) (λ r. ground arith) c)
      | inr late ↦ rw (late, coalesce) c
    ]

attempt_limit_pos : (set : Settings) (n : Option ℕ) → 0 < set.max_attempts → 0 < attempt_limit set n
unfolding attempt_limit
attempt_limit_pos set none h = h
attempt_limit_pos set (some n) h = ground arith

module _ (name : ℕ → String) (set : Settings) (access : Option Access) where
  new_job-IsFresh :
      (r : Request) (now : ℕ) (d : Db)
      → 0 < set.max_attempts
      → IsFresh d.next_pk (new_job name set access r now d)
  unfolding new_job
  new_job-IsFresh r now d h = record {
    next = refl;
    waiting = refl;
    unused = refl;
    allowed = attempt_limit_pos set r.max_attempts h;
    unleased = refl;
  }

  insert_or_existing-IsConsistent :
      (r : Request) (now : ℕ) (visible : Job → Bool) (d : Db)
      → 0 < set.max_attempts
      → IsConsistent d
      → IsConsistent (insert_or_existing name set access r now visible d).1
  unfolding insert_or_existing
  insert_or_existing-IsConsistent r now visible d h c =
      elim (Option-cases (create_job (new_job name set access r now d) d)) [
        | inl taken ↦ rw (taken, insert_or_existing) c
        | inr (d', made) ↦
            rw (made, insert_or_existing)
              (create_job-IsConsistent (new_job name set access r now d) d
                (new_job-IsFresh r now d h) made c)
      ]

  join_or_insert-IsConsistent :
      (r : Request) (now : ℕ) (reads : Reads) (d : Db) (found : Option Job)
      → 0 < set.max_attempts
      → IsConsistent d
      → IsConsistent (join_or_insert name set access r now reads d found).1
  unfolding join_or_insert
  join_or_insert-IsConsistent r now reads d none h c =
      insert_or_existing-IsConsistent r now reads.visible d h c
  join_or_insert-IsConsistent r now reads d (some e) h c =
      coalesce-IsConsistent (or_else r.run_after now) r.priority reads.visible e d c

  enqueue_body-IsConsistent :
      (r : Request) (now : ℕ) (reads : Reads) (d : Db)
      → 0 < set.max_attempts
      → IsConsistent d
      → IsConsistent (enqueue_body name set access r now reads d).1
  unfolding enqueue_body
  enqueue_body-IsConsistent r now reads d h c =
      elim (Bool-cases (r.once && any (λ x. true) (with_key name set access r reads))) [
        | inl before ↦ rw (before, enqueue_body) c
        | inr first ↦ rw (first, enqueue_body) (join_or_insert-IsConsistent r now reads d _ h c)
      ]

  pub enqueue-IsConsistent :
      (r : Request) (now : ℕ) (reads : Reads) (d : Db)
      → 0 < set.max_attempts
      → IsConsistent d
      → IsConsistent (enqueue name set access r now reads d).1
  unfolding enqueue
  enqueue-IsConsistent r now reads d h c = elim (Bool-cases (permitted set access r d.queries)) [
    | inl yes_ ↦ rw yes_ (enqueue_body-IsConsistent r now reads d h c)
    | inr no_ ↦ rw no_ c
  ]
