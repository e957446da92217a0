-- ===== src/Jobs/Soundness.antt =====
-- Every reachable state of the queue is consistent, and its rows are later states of the rows
-- at the start.
use cloud_billing_console.Prelude.{
  ℕ, ◌+◌, ◌≤◌, ◌<◌, ◌≡◌, ap, String, List, arith, All, In, ◌==◌, inl, inr, Option-cases, Bool-cases,
}
use cloud_billing_console.Prelude.Rows.{touch, All-update, All-map, All-In, All-append}
use cloud_billing_console.Prelude.Search.{All-of_In, select-All}
use cloud_billing_console.Jobs.Types.{Job, Db, Settings}
use cloud_billing_console.Jobs.Lease.{Locks, as_leased, save_lease, pick, lease_after}
use cloud_billing_console.Jobs.Outcome.{saved, is_expired}
use cloud_billing_console.Jobs.Consistency.{IsConsistent, RowFits, only_row}
use cloud_billing_console.Jobs.Selection.{pick-IsEligible}
use cloud_billing_console.Jobs.OutcomeKeeps.{
  Agrees, heartbeat-IsConsistent, complete-IsConsistent, fail-IsConsistent,
  recover_seen-IsConsistent,
}
use cloud_billing_console.Jobs.LeaseKeeps.{lease_after-IsConsistent}
use cloud_billing_console.Jobs.EnqueueKeeps.{enqueue-IsConsistent}
use cloud_billing_console.Jobs.History.{◌⊑◌, All-Extends, ⊑-refl, ⊑-trans}
use cloud_billing_console.Jobs.Progress.{
  heartbeat-⊑, complete-⊑, fail-⊑, recover_seen-⊑, lease_after-⊑, enqueue-⊑, save_lease-⊑,
}
use cloud_billing_console.Jobs.System.{
  System, Step, request, claim, look, note, beat, finish, give_up, recover, Reach, here, next, hold,
}

-- The object is of this table: its row has its attempt limit, and at least its attempts.
abbrev pub Known : Job → Job → Type 0
Known j r = r.pk ≡ j.pk → (r.max_attempts ≡ j.max_attempts) × (j.attempts ≤ r.attempts)

pub record IsKnown (d : Db) (j : Job) : Type 0 where
  pub issued : j.pk < d.next_pk
  pub rows : All (Known j) d.jobs

pub record IsSound (s : System) : Type 0 where
  pub table : IsConsistent s.db
  pub objects : All (IsKnown s.db) s.held

pub IsKnown-⊑ : {d e : Db} (j : Job) → d ⊑ e → IsKnown d j → IsKnown e j
IsKnown-⊑ {d} {e} j v k = record {
  issued = omega (arith, v.keys, k.issued);
  rows =
      All-Extends (Known j) d.next_pk d.jobs e.jobs
        (λ x y f h p. ground (arith, h (ground (arith, f.pk)), f.max_attempts, f.attempts))
        (λ y p q. absurd (omega (arith, k.issued))) v.rows k.rows;
}

objects-⊑ : {d e : Db} (js : List Job) → d ⊑ e → All (IsKnown d) js → All (IsKnown e) js
objects-⊑ {d} {e} js v a = All-map (IsKnown d) (IsKnown e) (λ j k. IsKnown-⊑ j v k) js a

-- The rows that the table itself holds are known to it.
rows-IsKnown : (d : Db) → IsConsistent d → All (IsKnown d) d.jobs
rows-IsKnown d c = All-of_In (IsKnown d) d.jobs (λ j i. record {
  issued = (All-In (RowFits d.next_pk) d.jobs c.rows i).known;
  rows =
      All-map (λ r. r.pk ≡ j.pk → r ≡ j) (Known j)
        (λ r same p. (
          ap (λ (x : Job). x.max_attempts) (same p),
          omega (arith, ap (λ (x : Job). x.attempts) (same p)),
        ))
        d.jobs (only_row d.jobs j c.pairs i);
})

pub leased-IsKnown :
    (set : Settings) (worker : String) (now : ℕ) (j : Job) (d : Db)
    → IsConsistent d
    → In j d.jobs
    → IsKnown (save_lease set worker now j d) (as_leased set worker now (j.attempts + 1) j)
unfolding save_lease
leased-IsKnown set worker now j d c i = record {
  issued = (All-In (RowFits d.next_pk) d.jobs c.rows i).known;
  rows =
      All-update (λ r. r.pk ≡ j.pk → r ≡ j) (Known (as_leased set worker now (j.attempts + 1) j))
        (λ r. r.pk == j.pk) (as_leased set worker now (j.attempts + 1)) claimed d.jobs
        (only_row d.jobs j c.pairs i);
}
  where
    claimed :
        (r : Job)
        → (r.pk ≡ j.pk → r ≡ j)
        → Known
            (as_leased set worker now (j.attempts + 1) j)
            (touch (λ x. x.pk == j.pk) (as_leased set worker now (j.attempts + 1)) r)
    claimed r same p = elim (Bool-cases (r.pk == j.pk)) [
      | inl e ↦ ground (arith, ap (λ (x : Job). x.max_attempts) (same (ground arith)))
      | inr e ↦ ground arith
    ]

claim-objects :
    (set : Settings) (worker : String) (now : ℕ) (kinds : List String) (busy : List ℕ)
    (locks : Locks) (s : System)
    → IsSound s
    → All
        (IsKnown (lease_after set worker now kinds busy locks s.db).1)
        (hold (lease_after set worker now kinds busy locks s.db).0 s.held)
unfolding lease_after
claim-objects set worker now kinds busy locks s h =
    elim (Option-cases (pick now kinds busy locks s.db)) [
      | inl e ↦ rw (e, lease_after) h.objects
      | inr (j, e) ↦
          rw (e, lease_after)
            (
              leased-IsKnown set worker now j s.db h.table
                  (pick-IsEligible now kinds busy locks s.db j e).present,
              objects-⊑ s.held
                  (save_lease-⊑ set worker now j s.db (
                    only_row s.db.jobs j h.table.pairs
                      (pick-IsEligible now kinds busy locks s.db j e).present))
                  h.objects,
            )
    ]

agreed : {d : Db} (j : Job) → IsKnown d j → All (Agrees j) d.jobs
agreed {d} j k = All-map (Known j) (Agrees j) (λ r h p. (h p).0) d.jobs k.rows

module _ (name : ℕ → String) (redact : String → String) (set : Settings)
    (positive : 0 < set.max_attempts) where
  Step-⊑ : {s t : System} → IsSound s → Step name redact set s t → s.db ⊑ t.db
  Step-⊑ {s} h (request access r now reads) = enqueue-⊑ name set access r now reads s.db
  Step-⊑ {s} h (claim worker now kinds busy locks) =
      lease_after-⊑ set worker now kinds busy locks s.db h.table
  Step-⊑ {s} h look = ⊑-refl s.db
  Step-⊑ {s} h (note j progress i) = ⊑-refl s.db
  Step-⊑ {s} h (beat now j progress i) = heartbeat-⊑ set now (saved j) progress s.db
  Step-⊑ {s} h (finish now j progress i) = complete-⊑ now j progress s.db
  Step-⊑ {s} h (give_up uniform now j error permanent i) =
      fail-⊑ redact uniform set now j error permanent s.db
  Step-⊑ {s} h (recover draws now seen i) = recover_seen-⊑ draws set now seen s.db

  Step-IsConsistent : {s t : System} → IsSound s → Step name redact set s t → IsConsistent t.db
  Step-IsConsistent {s} h (request access r now reads) =
      enqueue-IsConsistent name set access r now reads s.db positive h.table
  Step-IsConsistent {s} h (claim worker now kinds busy locks) =
      lease_after-IsConsistent set worker now kinds busy locks s.db h.table
  Step-IsConsistent {s} h look = h.table
  Step-IsConsistent {s} h (note j progress i) = h.table
  Step-IsConsistent {s} h (beat now j progress i) =
      heartbeat-IsConsistent set now (saved j) progress s.db h.table
  Step-IsConsistent {s} h (finish now j progress i) =
      complete-IsConsistent now j progress s.db h.table
  Step-IsConsistent {s} h (give_up uniform now j error permanent i) =
      fail-IsConsistent redact uniform set now j error permanent s.db
        (agreed j (All-In (IsKnown s.db) s.held h.objects i)) h.table
  Step-IsConsistent {s} h (recover draws now seen i) =
      recover_seen-IsConsistent draws set now seen s.db
        (select-All (λ j. All (Agrees j) s.db.jobs) (is_expired now) seen
          (All-map (λ j. In j s.held) (λ j. All (Agrees j) s.db.jobs)
            (λ j k. agreed j (All-In (IsKnown s.db) s.held h.objects k)) seen i))
        h.table

  Step-objects :
      {s t : System}
      → IsSound s
      → s.db ⊑ t.db
      → Step name redact set s t
      → All (IsKnown t.db) t.held
  Step-objects {s} h v (claim worker now kinds busy locks) =
      claim-objects set worker now kinds busy locks s h
  Step-objects {s} h v look =
      All-append (IsKnown s.db) s.db.jobs s.held (rows-IsKnown s.db h.table) h.objects
  Step-objects {s} h v (note j progress i) = (
    (let k = All-In (IsKnown s.db) s.held h.objects i in
        record { issued = k.issued; rows = k.rows }),
    h.objects,
  )
  Step-objects {s} h v (request access r now reads) = objects-⊑ s.held v h.objects
  Step-objects {s} h v (beat now j progress i) = objects-⊑ s.held v h.objects
  Step-objects {s} h v (finish now j progress i) = objects-⊑ s.held v h.objects
  Step-objects {s} h v (give_up uniform now j error permanent i) = objects-⊑ s.held v h.objects
  Step-objects {s} h v (recover draws now seen i) = objects-⊑ s.held v h.objects

  pub Step-IsSound : {s t : System} → IsSound s → Step name redact set s t → IsSound t
  Step-IsSound h st = record {
    table = Step-IsConsistent h st;
    objects = Step-objects h (Step-⊑ h st) st;
  }

  pub Reach-IsSound : {s t : System} → IsSound s → Reach name redact set s t → IsSound t
  Reach-IsSound h here = h
  Reach-IsSound h (next r st) = Step-IsSound (Reach-IsSound h r) st

  -- From a sound state, with a positive JOB_MAX_ATTEMPTS, every reachable table has all the rows
  -- of the first one in their order, each with the same key, kind, source, payload, limit and
  -- creation time and no fewer attempts, and beside them only rows with new primary keys.
  pub Reach-⊑ : {s t : System} → IsSound s → Reach name redact set s t → s.db ⊑ t.db
  Reach-⊑ {s} h here = ⊑-refl s.db
  Reach-⊑ h (next r st) = ⊑-trans (Reach-⊑ h r) (Step-⊑ (Reach-IsSound h r) st)
