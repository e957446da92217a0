-- ===== src/Scheduler/Idempotent.antt =====
-- The jobs of a slot for one connection: what planning them leaves, and that planning them again
-- does nothing.
use cloud_billing_console.Prelude.{
  ℕ, ◌≡◌, refl, sym, ◌∙◌, subst, Bool, true, false, not, none, arith, ◌==◌, if◌then◌else◌,
}
use cloud_billing_console.Jobs.Types.{Db, Settings}
use cloud_billing_console.Jobs.Enqueue.{Request, job_key}
use cloud_billing_console.Connection.Tables.{BillingSource, Config}
use cloud_billing_console.Scheduler.Slots.{
  Format, hour_of, slot_for, collection_initialized, pending_job, slot_key,
}
use cloud_billing_console.Scheduler.Schedule.{
  Plan, also, unless_pending, slot_request, collect_request, explorer_request, discover_request,
  budgets_request, stages, collect_jobs, wants_costs, wants_budgets, with_budgets, plan_for,
}
use cloud_billing_console.Scheduler.Once.{Extends, IsIdle}
use cloud_billing_console.Scheduler.Settled.{
  source_key, Keyed, IsSettled, unless_pending-Adds, unless_pending-IsIdle, also-Adds, also-IsIdle,
}

module _ (f : Format) (cfg : Config) (set : Settings) where
  -- What the first tick of a slot leaves for a connection.
  abbrev IsCostsSettled : BillingSource → ℕ → Db → Type 0
  IsCostsSettled s slot d =
      IsSettled f cfg set s "collect" slot d
      × (not (collection_initialized s) ≡ false
          → Keyed f cfg set (source_key f cfg set s "explorer_refresh" slot) d
            × ((hour_of slot == 0) ≡ true
                → Keyed f cfg set (source_key f cfg set s "discover" slot) d))

  IsCostsSettled-Extends :
      (s : BillingSource) (slot : ℕ) (d d' : Db)
      → Extends d d'
      → IsCostsSettled s slot d
      → IsCostsSettled s slot d'
  IsCostsSettled-Extends s slot d d' x (c, k) = (x _ c, λ i. (x _ (k i).0, λ h. x _ ((k i).1 h)))

  collect_key :
      (jitter : ℕ) (s : BillingSource) (now : ℕ)
      → job_key f.name (collect_request f cfg set jitter s now)
        ≡ source_key f cfg set s "collect" (slot_for now)
  unfolding collect_request slot_request slot_key job_key
  collect_key jitter s now = refl

  explorer_key :
      (jitter : ℕ) (s : BillingSource) (now : ℕ)
      → job_key f.name (explorer_request f cfg set jitter s now)
        ≡ source_key f cfg set s "explorer_refresh" (slot_for now)
  unfolding explorer_request slot_request slot_key job_key
  explorer_key jitter s now = refl

  discover_key :
      (jitter : ℕ) (s : BillingSource) (now : ℕ)
      → job_key f.name (discover_request f cfg set jitter s now)
        ≡ source_key f cfg set s "discover" (slot_for now)
  unfolding discover_request slot_request slot_key job_key
  discover_key jitter s now = refl

  budgets_key :
      (jitter : ℕ) (s : BillingSource) (now : ℕ)
      → job_key f.name (budgets_request f cfg set jitter s now)
        ≡ source_key f cfg set s "import_budgets" (slot_for now)
  unfolding budgets_request slot_request slot_key job_key
  budgets_key jitter s now = refl

  stages-Adds :
      (b m : Bool) (s : BillingSource) (slot : ℕ) (d : Db) (p q r : Plan)
      → Extends d p.queue
      → IsSettled f cfg set s "collect" slot p.queue
      → Extends p.queue q.queue
        × Keyed f cfg set (source_key f cfg set s "explorer_refresh" slot) q.queue
      → Extends q.queue r.queue × Keyed f cfg set (source_key f cfg set s "discover" slot) r.queue
      → Extends d (stages b m p q r).queue
        × (IsSettled f cfg set s "collect" slot (stages b m p q r).queue
            × (b ≡ false
                → Keyed f cfg set
                    (source_key f cfg set s "explorer_refresh" slot)
                    (stages b m p q r).queue
                  × (m ≡ true
                      → Keyed f cfg set
                          (source_key f cfg set s "discover" slot)
                          (stages b m p q r).queue)))
  stages-Adds true m s slot d p q r x c (y, k) (z, l) = (x, (c, λ e. ground arith))
  stages-Adds false true s slot d p q r x c (y, k) (z, l) =
      (λ t i. z t (y t (x t i)), (z _ (y _ c), λ e. (z _ k, λ e'. l)))
  stages-Adds false false s slot d p q r x c (y, k) (z, l) =
      (λ t i. y t (x t i), (y _ c, λ e. (k, λ e'. ground arith)))

  stages-IsIdle :
      (b m : Bool) (d : Db) (p q r : Plan)
      → IsIdle f cfg set p d
      → (b ≡ false → IsIdle f cfg set q d × (m ≡ true → IsIdle f cfg set r d))
      → IsIdle f cfg set (stages b m p q r) d
  stages-IsIdle true m d p q r i k = i
  stages-IsIdle false true d p q r i k = (k refl).1 refl
  stages-IsIdle false false d p q r i k = (k refl).0

  collect_jobs-Adds :
      (jitter : ℕ) (s : BillingSource) (now : ℕ) (d : Db)
      → Extends d (collect_jobs f cfg set jitter s now d).queue
        × IsCostsSettled s (slot_for now) (collect_jobs f cfg set jitter s now d).queue
  unfolding collect_jobs
  collect_jobs-Adds jitter s now d =
      let slot : ℕ = slot_for now in
      let rc : Request = collect_request f cfg set jitter s now in
      let first : Plan = unless_pending f cfg set (pending_job s "collect" d.jobs) rc now d in
      let (x, c) =
        unless_pending-Adds f cfg set s "collect" slot rc now d (pending_job s "collect" d.jobs)
          (unfold collect_request slot_request in refl) (collect_key jitter s now) refl in
      let re : Request = explorer_request f cfg set jitter s now in
      let second : Plan = also f cfg set re now first in
      let rd : Request = discover_request f cfg set jitter s now in
      stages-Adds (not (collection_initialized s)) (hour_of slot == 0) s slot d first second
        (also f cfg set rd now second) x c
        (also-Adds f cfg set s "explorer_refresh" slot re now first
          (unfold explorer_request slot_request in refl) (explorer_key jitter s now))
        (also-Adds f cfg set s "discover" slot rd now second
          (unfold discover_request slot_request in refl) (discover_key jitter s now))

  collect_jobs-IsIdle :
      (jitter : ℕ) (s : BillingSource) (now : ℕ) (d : Db)
      → IsCostsSettled s (slot_for now) d
      → IsIdle f cfg set (collect_jobs f cfg set jitter s now d) d
  unfolding collect_jobs
  collect_jobs-IsIdle jitter s now d (c, k) =
      let slot : ℕ = slot_for now in
      let rc : Request = collect_request f cfg set jitter s now in
      let first : Plan = unless_pending f cfg set (pending_job s "collect" d.jobs) rc now d in
      let i : IsIdle f cfg set first d =
        unless_pending-IsIdle f cfg set s "collect" slot rc now d (pending_job s "collect" d.jobs)
          (unfold collect_request slot_request in refl) (collect_key jitter s now) refl c in
      let re : Request = explorer_request f cfg set jitter s now in
      let second : Plan = also f cfg set re now first in
      let rd : Request = discover_request f cfg set jitter s now in
      stages-IsIdle (not (collection_initialized s)) (hour_of slot == 0) d first second
        (also f cfg set rd now second) i
        (λ o.
          let j : IsIdle f cfg set second d =
            also-IsIdle f cfg set s "explorer_refresh" slot re now first d
              (unfold explorer_request slot_request in refl) (explorer_key jitter s now) (k o).0
              i in
          (
            j,
            λ h.
                also-IsIdle f cfg set s "discover" slot rd now second d
                  (unfold discover_request slot_request in refl) (discover_key jitter s now)
                  ((k o).1 h) j,
          ))

  -- The same for a connection with all of its jobs.
  abbrev pub IsPlanned : BillingSource → ℕ → Db → Type 0
  IsPlanned s slot d =
      (wants_costs f cfg set s slot ≡ true → IsCostsSettled s slot d)
      × (wants_budgets f cfg set s slot ≡ true → IsSettled f cfg set s "import_budgets" slot d)

  costs_part : ℕ → BillingSource → ℕ → Db → Bool → Plan
  costs_part jitter s now d b =
      if b
      then collect_jobs f cfg set jitter s now d
      else record { primary = none; created = 0; queue = d }

  with_budgets-Adds :
      (jitter : ℕ) (s : BillingSource) (now : ℕ) (p : Plan)
      → Extends p.queue (with_budgets f cfg set jitter s now p).queue
        × IsSettled f cfg set s "import_budgets"
            (slot_for now)
            (with_budgets f cfg set jitter s now p).queue
  unfolding with_budgets
  with_budgets-Adds jitter s now p =
      unless_pending-Adds f cfg set s "import_budgets" (slot_for now)
        (budgets_request f cfg set jitter s now) now p.queue
        (pending_job s "import_budgets" p.queue.jobs) (unfold budgets_request slot_request in refl)
        (budgets_key jitter s now) refl

  with_budgets-IsIdle :
      (jitter : ℕ) (s : BillingSource) (now : ℕ) (p : Plan) (d : Db)
      → IsSettled f cfg set s "import_budgets" (slot_for now) d
      → IsIdle f cfg set p d
      → IsIdle f cfg set (with_budgets f cfg set jitter s now p) d
  unfolding with_budgets
  with_budgets-IsIdle jitter s now p d h (z, q) =
      let (z', q') =
        unless_pending-IsIdle f cfg set s "import_budgets" (slot_for now)
          (budgets_request f cfg set jitter s now) now p.queue
          (pending_job s "import_budgets" p.queue.jobs)
          (unfold budgets_request slot_request in refl) (budgets_key jitter s now) refl
          (subst (IsSettled f cfg set s "import_budgets" (slot_for now)) (sym q) h) in
      (omega arith, q' ∙ q)

  both_parts :
      (b c : Bool) (jitter : ℕ) (s : BillingSource) (now : ℕ) (d : Db)
      → let p : Plan = costs_part jitter s now d b in
        let q : Plan = if c then with_budgets f cfg set jitter s now p else p in
        Extends d q.queue
        × ((b ≡ true → IsCostsSettled s (slot_for now) q.queue)
            × (c ≡ true → IsSettled f cfg set s "import_budgets" (slot_for now) q.queue))
  unfolding costs_part
  both_parts true true jitter s now d =
      let (x, k) = collect_jobs-Adds jitter s now d in
      let (y, l) = with_budgets-Adds jitter s now (collect_jobs f cfg set jitter s now d) in
      (
        λ p i. y p (x p i),
        (
          λ e.
              IsCostsSettled-Extends s (slot_for now) (collect_jobs f cfg set jitter s now d).queue
                (with_budgets f cfg set jitter s now (collect_jobs f cfg set jitter s now d)).queue
                y k,
          λ e. l,
        ),
      )
  both_parts true false jitter s now d =
      let (x, k) = collect_jobs-Adds jitter s now d in (x, (λ e. k, λ e. ground arith))
  both_parts false true jitter s now d =
      let (y, l) =
        with_budgets-Adds jitter s now (record { primary = none; created = 0; queue = d }) in
      (y, (λ e. ground arith, λ e. l))
  both_parts false false jitter s now d = (λ p i. i, (λ e. ground arith, λ e. ground arith))

  both-IsIdle :
      (b c : Bool) (jitter : ℕ) (s : BillingSource) (now : ℕ) (d : Db)
      → (b ≡ true → IsCostsSettled s (slot_for now) d)
      → (c ≡ true → IsSettled f cfg set s "import_budgets" (slot_for now) d)
      → let p : Plan = costs_part jitter s now d b in
        IsIdle f cfg set (if c then with_budgets f cfg set jitter s now p else p) d
  unfolding costs_part
  both-IsIdle true true jitter s now d h k =
      with_budgets-IsIdle jitter s now _ d (k refl) (collect_jobs-IsIdle jitter s now d (h refl))
  both-IsIdle true false jitter s now d h k = collect_jobs-IsIdle jitter s now d (h refl)
  both-IsIdle false true jitter s now d h k =
      with_budgets-IsIdle jitter s now (record { primary = none; created = 0; queue = d }) d
        (k refl) (refl, refl)
  both-IsIdle false false jitter s now d h k = (refl, refl)

  pub IsPlanned-Extends :
      (s : BillingSource) (slot : ℕ) (d d' : Db)
      → Extends d d'
      → IsPlanned s slot d
      → IsPlanned s slot d'
  IsPlanned-Extends s slot d d' x (h, k) =
      (λ e. IsCostsSettled-Extends s slot d d' x (h e), λ e. x _ (k e))

  pub plan_for-Adds :
      (jitter : ℕ) (s : BillingSource) (now : ℕ) (d : Db)
      → Extends d (plan_for f cfg set jitter s now d).queue
        × IsPlanned s (slot_for now) (plan_for f cfg set jitter s now d).queue
  unfolding plan_for costs_part
  plan_for-Adds jitter s now d =
      both_parts (wants_costs f cfg set s (slot_for now)) (wants_budgets f cfg set s (slot_for now))
        jitter s now d

  pub plan_for-IsIdle :
      (jitter : ℕ) (s : BillingSource) (now : ℕ) (d : Db)
      → IsPlanned s (slot_for now) d
      → IsIdle f cfg set (plan_for f cfg set jitter s now d) d
  unfolding plan_for costs_part
  plan_for-IsIdle jitter s now d (h, k) =
      both-IsIdle (wants_costs f cfg set s (slot_for now))
        (wants_budgets f cfg set s (slot_for now)) jitter s now d h k
