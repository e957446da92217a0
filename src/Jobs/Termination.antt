-- ===== src/Jobs/Termination.antt =====
-- `run_once` ends: every round uses up an attempt of some active job, which costs more than what its
-- handler adds.
use Prim.Native.String.{◌++◌ as text_append}
use cloud_billing_console.Prelude.{
  ℕ, zero, suc, ◌+◌, ◌-◌, ◌≤◌, ◌<◌, ◌≡◌, refl, true, false, String, Option, none, some, List, arith,
  All, inl, inr, ◌⊎◌, Option-cases, Bool-cases,
}
use cloud_billing_console.Jobs.Types.{Job, Db, Settings}
use cloud_billing_console.Jobs.Lease.{Locks, as_leased, save_lease, lease}
use cloud_billing_console.Jobs.Runner.{
  Ended, returned, permanent, raised, Handler, shown, settle, run_job, under_limit, run_loop,
  run_once,
}
use cloud_billing_console.Jobs.Consistency.{IsConsistent}
use cloud_billing_console.Jobs.OutcomeKeeps.{Agrees, complete-IsConsistent, fail-IsConsistent}
use cloud_billing_console.Jobs.LeaseKeeps.{lease-IsConsistent}
use cloud_billing_console.Jobs.Claims.{IsRunnable, lease_exact}
use cloud_billing_console.Jobs.Soundness.{IsKnown, IsKnown-⊑, leased-IsKnown}
use cloud_billing_console.Jobs.Work.{
  work_in, same_IsKnown, IsKnown-Agrees, claim-work, complete-work, fail-work, IsPaid,
}

module _ (redact : String → String) (uniform : ℕ → ℕ → ℕ) (set : Settings)
    (handlers : String → Option Handler) (cost : String → ℕ) where
  -- A consistent table with no more work left than `n`.
  record Within (n : ℕ) (d : Db) : Type 0 where
    consistent : IsConsistent d
    bounded : work_in cost d.jobs ≤ n

  settle-Within :
      (n i now : ℕ) (e : Ended) (j : Job) (d : Db)
      → All (Agrees j) d.jobs
      → Within n d
      → Within n (settle redact uniform set handlers i now e j d).1
  unfolding settle
  settle-Within n i now (returned result) j d a w = record {
    consistent = complete-IsConsistent now j result d w.consistent;
    bounded = omega (arith, w.bounded, complete-work cost now j result d);
  }
  settle-Within n i now (permanent message) j d a w = record {
    consistent = fail-IsConsistent redact (uniform i) set now j message true d a w.consistent;
    bounded = omega (arith, w.bounded, fail-work cost redact (uniform i) set now j message true d);
  }
  settle-Within n i now (raised message safe) j d a w = record {
    consistent =
        fail-IsConsistent redact (uniform i) set now j (shown message safe) false d a w.consistent;
    bounded = omega (
      arith,
      w.bounded,
      fail-work cost redact (uniform i) set now j (shown message safe) false d,
    );
  }

  module _ (positive : (kind : String) → 0 < cost kind)
      (paid : (kind : String) (h : Handler) → handlers kind ≡ some h → IsPaid cost kind h) where
    run_job-Within :
        (n i now : ℕ) (j : Job) (d : Db)
        → IsKnown d j
        → IsConsistent d
        → work_in cost d.jobs + cost j.kind ≤ n + 1
        → Within n (run_job redact uniform set handlers i now j d).1
    unfolding run_job
    run_job-Within n i now j d k c l = elim (Option-cases (handlers j.kind)) [
      | inl e ↦
          rw (e, run_job)
            (record {
              consistent =
                  fail-IsConsistent redact (uniform i) set now j _ true d (IsKnown-Agrees k) c;
              bounded = omega (
                arith,
                l,
                positive j.kind,
                fail-work cost redact (uniform i) set now j
                    (text_append "No handler for job kind " j.kind) true d,
              );
            })
      | inr (h, e) ↦
          (let p = paid j.kind h e in
            rw (e, run_job)
              (settle-Within n i now (h j d).0 (h j d).1 (h j d).2
                (IsKnown-Agrees
                  (same_IsKnown {k = (h j d).1} (p.same j d) (IsKnown-⊑ j (p.history j d) k)))
                (record {
                  consistent = p.consistent j d c;
                  bounded = omega (arith, p.bounded j d refl, l);
                })))
    ]

    module _ (worker : String) (kinds : List String) (locks : ℕ → Locks)
        (lease_time end_time : ℕ → ℕ) (limit : Option ℕ) where
      -- What a finished loop has done: it ran `n - ran` jobs, each at a cost,
      -- and it stopped at the limit or because `lease` found nothing.
      record IsFinished (ran n : ℕ) (d e : Db) : Type 0 where
        consistent : IsConsistent e
        spent : work_in cost e.jobs + n ≤ work_in cost d.jobs + ran
        counted : ran ≤ n
        idle :
            (under_limit limit n ≡ false)
            ⊎ (lease set worker (lease_time n) kinds (locks n) e ≡ (none, e))

      Finishes : ℕ → ℕ → Db → Type 0
      Finishes fuel ran d =
          (n : ℕ) × (e : Db) × (run_loop redact uniform set handlers worker kinds locks lease_time
              end_time limit fuel ran d
            ≡ some (n, e))
          × IsFinished ran n d e

      -- The table after a round that ran a job.
      abbrev round : ℕ → Job → Db → Db
      round ran j d =
          (run_job redact uniform set handlers ran (end_time ran)
            (as_leased set worker (lease_time ran) (j.attempts + 1) j)
            (save_lease set worker (lease_time ran) j d)).1

      round-Within :
          (ran : ℕ) (j : Job) (d : Db)
          → IsConsistent d
          → IsRunnable (lease_time ran) kinds (locks ran) d j
          → lease set worker (lease_time ran) kinds (locks ran) d ≡ (
            some (as_leased set worker (lease_time ran) (j.attempts + 1) j),
            save_lease set worker (lease_time ran) j d,
          )
          → IsConsistent (round ran j d) × (work_in cost (round ran j d).jobs < work_in cost d.jobs)
      round-Within ran j d c h e =
          let known = leased-IsKnown set worker (lease_time ran) j d c h.present in
          let kept = lease-IsConsistent set worker (lease_time ran) kinds (locks ran) d c in
          let less =
            claim-work cost set worker (lease_time ran) j d c h.present
              (ground (arith, h.queued)) in
          let w =
            run_job-Within (work_in cost d.jobs - 1) ran (end_time ran)
              (as_leased set worker (lease_time ran) (j.attempts + 1) j)
              (save_lease set worker (lease_time ran) j d) known (rw e at kept)
              (omega (arith, less, positive j.kind)) in
          (w.consistent, omega (arith, w.bounded, less, positive j.kind))

      run_loop-Finishes :
          (fuel ran : ℕ) (d : Db)
          → IsConsistent d
          → work_in cost d.jobs < fuel
          → Finishes fuel ran d
      unfolding Finishes run_loop
      run_loop-Finishes zero ran d c h = absurd (omega arith)
      run_loop-Finishes (suc fuel) ran d c h = elim (Bool-cases (under_limit limit ran)) [
        | inr over ↦ (
          ran,
          d,
          rw (over, run_loop),
          record { consistent = c; spent = omega arith; counted = omega arith; idle = inl over },
        )
        | inl under ↦ elim (lease_exact set worker (lease_time ran) kinds (locks ran) d) [
          | inl (e, nothing) ↦ (
            ran,
            d,
            rw (under, run_loop) (rw (e, run_loop)),
            record { consistent = c; spent = omega arith; counted = omega arith; idle = inr e },
          )
          | inr (j, h', first, e) ↦
              (let (c', less) = round-Within ran j d c h' e in
                let (n, d', r, f) =
                  run_loop-Finishes fuel (ran + 1) (round ran j d) c' (omega arith) in
                (
                  n,
                  d',
                  rw (under, run_loop) (rw (e, run_loop) r),
                  record {
                    consistent = f.consistent;
                    spent = omega (arith, f.spent);
                    counted = omega (arith, f.counted);
                    idle = f.idle;
                  },
                ))
        ]
      ]

      -- Let `cost` give each kind of job a price of an attempt that is positive and more than all the
      -- work that its handler may add: the attempts of the jobs that it enqueues, at their prices. Let
      -- the handlers also keep the table consistent, its history and the job they are given. On a
      -- consistent table `run_once` returns whenever its fuel exceeds the work left in the table: it
      -- ran at most that many jobs, the table is consistent, and it stopped at its limit or because
      -- nothing was runnable.
      pub run_once-ends :
          (fuel : ℕ) (d : Db)
          → IsConsistent d
          → work_in cost d.jobs < fuel
          → (n : ℕ) × (e : Db) × (run_once redact uniform set handlers worker kinds locks lease_time
                end_time limit fuel d
              ≡ some (n, e))
            × (work_in cost e.jobs + n ≤ work_in cost d.jobs)
            × IsConsistent e
            × ((under_limit limit n ≡ false)
                ⊎ (lease set worker (lease_time n) kinds (locks n) e ≡ (none, e)))
      unfolding Finishes run_once
      run_once-ends fuel d c h =
          let (n, e, r, f) = run_loop-Finishes fuel 0 d c h in
          (n, e, r, omega (arith, f.spent), f.consistent, f.idle)
