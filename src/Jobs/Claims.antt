-- ===== src/Jobs/Claims.antt =====
-- What `lease` takes and what it leaves, against a description of the runnable jobs.
use cloud_billing_console.Prelude.{
  ℕ, ◌+◌, ◌≤◌, ◌<◌, ◌≡◌, ◌≢◌, refl, sym, subst, true, false, String, Option, none, some, List, [],
  ◌∷◌, arith, In, elem, ◌==◌, str_eq, str_eq_iff, inl, inr, ◌⊎◌, Option-cases, Bool-cases, not,
  ◌&&◌,
}
use cloud_billing_console.Prelude.Search.{any-In, any-true, any-refuted}
use cloud_billing_console.Jobs.Types.{Status, Job, Source, Db, Settings, is_leased}
use cloud_billing_console.Jobs.Lease.{
  Locks, before, busy_sources, excluded, admits, leases, is_candidate, is_claimable, as_leased,
  save_lease, pick, lease_after, lease,
}
use cloud_billing_console.Jobs.Selection.{IsEligible, pick-IsEligible, pick-first, pick-none}

-- A queued job that is due, of a wanted kind, not locked by another transaction, whose source,
-- if it has one, can be locked and has no leased job.
pub record IsRunnable (now : ℕ) (kinds : List String) (locks : Locks) (d : Db) (j : Job)
    : Type 0 where
  pub present : In j d.jobs
  pub queued : j.status ≡ Status.queued
  pub due : j.run_after ≤ now
  pub wanted : (kinds ≡ []) ⊎ In j.kind kinds
  pub unlocked : locks.job_locked j.pk ≡ false
  pub source_ready :
      (s : ℕ)
      → j.source ≡ some s
      → (r : Source) × In r d.sources × (r.id ≡ s) × (locks.source_locked s ≡ false)
  pub source_idle :
      (s : ℕ)
      → j.source ≡ some s
      → (r : Job) → In r d.jobs
      → r.status ≡ Status.leased
      → r.source ≢ some s

-- The order of the queue: priority, then due time, then key.
pub Precedes : Job → Job → Type 0
Precedes a b =
    (a.priority < b.priority)
    ⊎ ((a.priority ≡ b.priority)
        × ((a.run_after < b.run_after) ⊎ ((a.run_after ≡ b.run_after) × (a.pk ≤ b.pk))))

before-Precedes : (a b : Job) → before a b ≡ true → Precedes a b
unfolding before Precedes
before-Precedes a b h = ground arith

busy-In :
    (s : ℕ) (js : List Job)
    → elem s (busy_sources js) ≡ true
    → (r : Job) × In r js × (r.status ≡ Status.leased) × (r.source ≡ some s)
unfolding busy_sources
busy-In s [] h = cc
busy-In s (j ∷ js) h = elim (Bool-cases (is_leased j.status)) [
  | inl l ↦ elim (Option-cases j.source) [
    | inl e ↦ further (busy-In s js (ground arith))
    | inr (t, e) ↦ elim (Bool-cases (s == t)) [
      | inl hit ↦ (j, inl refl, ground arith, ground arith)
      | inr miss ↦ further (busy-In s js (ground arith))
    ]
  ]
  | inr n ↦ further (busy-In s js (ground arith))
]
  where
    further :
        (r : Job) × In r js × (r.status ≡ Status.leased) × (r.source ≡ some s)
        → (r : Job) × In r (j ∷ js) × (r.status ≡ Status.leased) × (r.source ≡ some s)
    further (r, i, l, e) = (r, inr i, l, e)

admits-wanted :
    (kinds : List String) (j : Job) → admits kinds j ≡ true → (kinds ≡ []) ⊎ In j.kind kinds
admits-wanted [] j h = inl refl
admits-wanted (k ∷ ks) j h =
    let (x, i, e) = any-In (λ x. str_eq j.kind x) (k ∷ ks) h in
    inr (subst (λ y. In y (k ∷ ks)) (sym ((str_eq_iff j.kind x).0 e)) i)

wanted-admits :
    (kinds : List String) (j : Job) → (kinds ≡ []) ⊎ In j.kind kinds → admits kinds j ≡ true
wanted-admits [] j h = refl
wanted-admits (k ∷ ks) j (inl e) = cc
wanted-admits (k ∷ ks) j (inr i) =
    any-true (λ x. str_eq j.kind x) (k ∷ ks) j.kind i ((str_eq_iff j.kind j.kind).1 refl)

module _ (now : ℕ) (kinds : List String) (locks : Locks) (d : Db) (j : Job) where
  eligible-IsRunnable :
      IsEligible now kinds (busy_sources d.jobs) locks d j → IsRunnable now kinds locks d j
  unfolding is_candidate is_claimable
  eligible-IsRunnable h = record {
    present = h.present;
    queued = ground (arith, h.candidate);
    due = ground (arith, h.candidate);
    wanted = admits-wanted kinds j (ground (arith, h.candidate));
    unlocked = ground (arith, h.candidate);
    source_ready = ready;
    source_idle = idle;
  }
    where
      ready :
          (s : ℕ)
          → j.source ≡ some s
          → (r : Source) × In r d.sources × (r.id ≡ s) × (locks.source_locked s ≡ false)
      ready s e =
          let (r, i, f) =
            any-In (λ r. (r.id == s) && not (locks.source_locked s)) d.sources
              (ground (arith, h.claimable)) in
          (r, i, ground arith, ground arith)

      idle :
          (s : ℕ)
          → j.source ≡ some s
          → (r : Job) → In r d.jobs
          → r.status ≡ Status.leased
          → r.source ≢ some s
      idle s e r i l o =
          absurd (ground (arith, h.claimable, any-true (leases s) d.jobs r i (ground arith)))

  runnable-IsEligible :
      IsRunnable now kinds locks d j → IsEligible now kinds (busy_sources d.jobs) locks d j
  unfolding is_claimable
  runnable-IsEligible h = record {
    present = h.present;
    candidate =
        unfold is_candidate in
        ground (
          arith,
          not_excluded j.source refl,
          wanted-admits kinds j h.wanted,
          h.queued,
          h.due,
          h.unlocked,
        );
    claimable = free j.source refl;
  }
    where
      not_excluded : (o : Option ℕ) → j.source ≡ o → excluded (busy_sources d.jobs) o ≡ false
      not_excluded none e = refl
      not_excluded (some s) e = elim (Bool-cases (elem s (busy_sources d.jobs))) [
        | inl busy ↦
            (let (r, i, l, o) = busy-In s d.jobs busy in absurd (h.source_idle s e r i l o))
        | inr idle ↦ idle
      ]

      free : (o : Option ℕ) → j.source ≡ o → is_claimable locks d j ≡ true
      free none e = rw (e, is_claimable)
      free (some s) e =
          let (r, i, same, open_) = h.source_ready s e in
          rw (e, is_claimable)
            (ground (
              arith,
              any-true (λ r. (r.id == s) && not (locks.source_locked s)) d.sources r i
                  (ground arith),
              any-refuted (leases s) d.jobs
                  (λ x k l. h.source_idle s e x k (ground arith) (ground arith)),
            ))

-- Either nothing is runnable, and nothing changes, or the first runnable job in the order of
-- the queue is leased to the worker and returned.
abbrev pub TakesFirst : Settings → String → ℕ → List String → Locks → Db → Option Job × Db → Type 0
TakesFirst set worker now kinds locks d result =
    ((result ≡ (none, d)) × ((k : Job) → ¬ IsRunnable now kinds locks d k))
    ⊎ ((j : Job) × IsRunnable now kinds locks d j
        × ((k : Job) → IsRunnable now kinds locks d k → Precedes j k)
        × (result
            ≡ (some (as_leased set worker now (j.attempts + 1) j), save_lease set worker now j d)))

module _ (set : Settings) (worker : String) (now : ℕ) (kinds : List String) (locks : Locks)
    (d : Db) where
  -- If no job is runnable then `lease` returns none and changes nothing. Otherwise it takes a
  -- runnable job that precedes every runnable job by priority, due time and key: it returns that
  -- job as leased to the worker for one more attempt, and writes the same to its row.
  pub lease_exact : TakesFirst set worker now kinds locks d (lease set worker now kinds locks d)
  unfolding lease lease_after
  lease_exact =
      let busy : List ℕ = busy_sources d.jobs in
      elim (Option-cases (pick now kinds busy locks d)) [
        | inl e ↦ inl (
          rw (e, lease_after),
          λ k h. pick-none now kinds busy locks d k e (runnable-IsEligible now kinds locks d k h),
        )
        | inr (j, e) ↦ inr (
          j,
          eligible-IsRunnable now kinds locks d j (pick-IsEligible now kinds busy locks d j e),
          λ k h.
              before-Precedes j k (
                pick-first now kinds busy locks d j k e
                  (runnable-IsEligible now kinds locks d k h)),
          rw (e, lease_after),
        )
      ]
