-- ===== src/Jobs/Coalescing.antt =====
-- What a request for a job achieves: one active job with the key, due in time.
use cloud_billing_console.Prelude.{
  ℕ, ◌+◌, ◌≤◌, ◌≡◌, refl, true, false, String, Option, none, some, List, [], ◌∷◌, ◌++◌, arith, In,
  any, select, length, inl, inr, ◌⊎◌, Option-cases, or_else,
}
use cloud_billing_console.Jobs.Types.{Job, Db, Access, Settings, is_queued, is_active}
use cloud_billing_console.Jobs.Enqueue.{
  Request, Reads, Enqueued, enqueued, job_key, newest, active_with_key, create_job, new_job,
  insert_or_existing, with_key,
}

pub newest-In : (js : List Job) (j : Job) → newest js ≡ some j → In j js
unfolding newest
newest-In [] j e = cc
newest-In (k ∷ ks) j e = elim (Option-cases (newest ks)) [
  | inl last ↦ ground arith
  | inr (m, f) ↦ ground (arith, newest-In ks m f)
]

pub newest-none : (js : List Job) → newest js ≡ none → js ≡ []
unfolding newest
newest-none [] e = refl
newest-none (k ∷ ks) e = cc

-- The reads of a call that no other transaction overlaps and no scope narrows.
abbrev pub current : Db → Reads
current d = record { seen = d.jobs; visible = λ j. true }

module _ (name : ℕ → String) (set : Settings) (access : Option Access) where
  -- The job that a request wants: active, with the key, and due in time or running already.
  pub record IsServed (r : Request) (now : ℕ) (d : Db) (j : Job) : Type 0 where
    pub present : In j d.jobs
    pub key : j.key ≡ job_key name r
    pub active : is_active j.status ≡ true
    pub due : is_queued j.status ≡ true → j.run_after ≤ or_else r.run_after now

  -- With no active row of the key the constraint lets the new row in.
  pub insert-IsServed :
      (r : Request) (now : ℕ) (d : Db)
      → any (active_with_key (job_key name r)) d.jobs ≡ false
      → (insert_or_existing name set access r now (λ x. true) d ≡ (
        enqueued (some (new_job name set access r now d)) true,
        record d { jobs = d.jobs ++ new_job name set access r now d ∷ []; next_pk = d.next_pk + 1 },
      ))
  unfolding insert_or_existing create_job
  insert-IsServed r now d e = rw (e, insert_or_existing)

  -- What a call has achieved: the row that serves it, and whether it made the row.
  abbrev pub Serves : Request → ℕ → Db → Enqueued × Db → Type 0
  Serves r now d (result, d') =
      (j : Job) × IsServed r now d' j
      × (((result ≡ enqueued (some j) true) × (length d'.jobs ≡ length d.jobs + 1))
          ⊎ ((e : Job) × (result ≡ enqueued (some e) false)
              × (j.pk ≡ e.pk)
              × (length d'.jobs ≡ length d.jobs)))

  active_rows : Request → Db → List Job
  active_rows r d = select (λ x. is_active x.status) (with_key name set access r (current d))

  -- The call gives back a row with the key, whatever its status, and changes nothing.
  abbrev pub Repeats : Request → Db → Enqueued × Db → Type 0
  Repeats r d x =
      (e : Job) × In e d.jobs × (e.key ≡ job_key name r) × (x ≡ (enqueued (some e) false, d))
