-- ===== src/Scheduler/Ticks.antt =====
-- Ticks of the scheduler within one slot: after the first one the others make no job.
use cloud_billing_console.Prelude.{
  ℕ, String, ◌≡◌, refl, sym, ap, ◌∙◌, subst, inl, inr, Bool, true, false, Option, none, some, List,
  [], ◌∷◌, map, arith, str_eq, if◌then◌else◌, any, select,
}
use cloud_billing_console.Jobs.Types.{Db, Settings}
use cloud_billing_console.Jobs.Enqueue.{Request, job_key}
use cloud_billing_console.Connection.Tables.{BillingSource, Tables, Config, source_row}
use cloud_billing_console.Scheduler.Slots.{Format, slot_for, collection_readiness}
use cloud_billing_console.Scheduler.Schedule.{
  Plan, also, is_connected, schedule_source, schedule_if, schedule_row, schedule_one, schedule_each,
  common_request, common_jobs, schedule_due,
}
use Prim.Native.String.{◌++◌ as text_append}
use cloud_billing_console.Scheduler.Once.{
  Extends, has_key, IsIdle, queue_once-Adds, KeyIn, again-IsIdle,
}
use cloud_billing_console.Scheduler.Idempotent.{IsPlanned, plan_for-IsIdle}
use cloud_billing_console.Scheduler.Later.{
  with_plan, AreReplanned-refl, ids-AreReplanned, IsLater, IsLater-trans, IsMet, IsMet-later,
}
use cloud_billing_console.Scheduler.Met.{row-IsMet, each-IsMet, AllMet}

module _ (f : Format) (cfg : Config) (set : Settings) where
  row-idle :
      (jitter : ℕ → ℕ) (now pk : ℕ) (t : Tables) (s : BillingSource) (b : Bool)
      → (b ≡ true → IsPlanned f cfg set s (slot_for now) t.queue)
      → ((schedule_if f cfg set jitter now pk t s b).0 ≡ 0)
        × ((schedule_if f cfg set jitter now pk t s b).1.queue ≡ t.queue)
  unfolding schedule_source
  row-idle jitter now pk t s true h = plan_for-IsIdle f cfg set (jitter pk) s now t.queue (h refl)
  row-idle jitter now pk t s false h = (refl, refl)

  one-idle :
      (jitter : ℕ → ℕ) (now pk : ℕ) (t : Tables) (o : Option BillingSource)
      → source_row t pk ≡ o
      → IsMet f cfg set (slot_for now) pk t
      → ((schedule_row f cfg set jitter now pk t o).0 ≡ 0)
        × ((schedule_row f cfg set jitter now pk t o).1.queue ≡ t.queue)
  one-idle jitter now pk t none e m = (refl, refl)
  one-idle jitter now pk t (some s) e m =
      row-idle jitter now pk t s (str_eq (collection_readiness cfg t s) "") (m s e)

  each-idle :
      (jitter : ℕ → ℕ) (now : ℕ) (pks : List ℕ) (t : Tables)
      → AllMet f cfg set (slot_for now) pks t
      → ((schedule_each f cfg set jitter now pks t).0 ≡ 0)
        × ((schedule_each f cfg set jitter now pks t).1.queue ≡ t.queue)
  unfolding schedule_each schedule_one
  each-idle jitter now [] t m = (refl, refl)
  each-idle jitter now (pk ∷ pks) t m =
      let t' : Tables = (schedule_one f cfg set jitter now pk t).1 in
      let (z, q) = one-idle jitter now pk t (source_row t pk) refl (m pk (inl refl)) in
      let (l, k) = row-IsMet f cfg set jitter now pk t (source_row t pk) refl in
      let (z', q') =
        each-idle jitter now pks t'
          (λ x i. IsMet-later f cfg set (slot_for now) x t t' l (m x (inr i))) in
      (omega arith, q' ∙ q)

  common_key :
      (kind prefix : String) (delay now now' : ℕ)
      → slot_for now' ≡ slot_for now
      → job_key f.name (common_request f cfg set kind prefix delay now')
        ≡ job_key f.name (common_request f cfg set kind prefix delay now)
  unfolding common_request job_key
  common_key kind prefix delay now now' e =
      ap
        (λ slot.
          if str_eq (text_append prefix (f.stamp slot)) ""
          then text_append kind (text_append ":" "global")
          else text_append prefix (f.stamp slot))
        e

  abbrev evaluate_request : ℕ → Request
  evaluate_request now = common_request f cfg set "evaluate_budgets" "evaluate_budgets:" 45 now

  abbrev allocate_request : ℕ → Request
  allocate_request now = common_request f cfg set "allocate_projects" "allocate_projects:" 40 now

  abbrev monitor_request : ℕ → Request
  monitor_request now = common_request f cfg set "monitor_operations" "monitor:" 50 now

  -- The keys of the jobs without a connection.
  abbrev HasCommon : ℕ → Db → Type 0
  HasCommon now d =
      KeyIn f cfg set (evaluate_request now) d
      × KeyIn f cfg set (allocate_request now) d
      × KeyIn f cfg set (monitor_request now) d

  common-Adds :
      (now : ℕ) (p : Plan)
      → Extends p.queue (common_jobs f cfg set now p).queue
        × HasCommon now (common_jobs f cfg set now p).queue
  unfolding common_jobs also
  common-Adds now p =
      let a : Plan = also f cfg set (evaluate_request now) now p in
      let b : Plan = also f cfg set (allocate_request now) now a in
      let (x, k) =
        queue_once-Adds f cfg set (evaluate_request now) now p.queue
          (unfold common_request in refl) in
      let (y, l) =
        queue_once-Adds f cfg set (allocate_request now) now a.queue
          (unfold common_request in refl) in
      let (z, m) =
        queue_once-Adds f cfg set (monitor_request now) now b.queue
          (unfold common_request in refl) in
      (λ q i. z q (y q (x q i)), (z _ (y _ k), z _ l, m))

  common-IsIdle :
      (now : ℕ) (p : Plan) (d : Db)
      → HasCommon now d
      → IsIdle f cfg set p d
      → IsIdle f cfg set (common_jobs f cfg set now p) d
  unfolding common_jobs
  common-IsIdle now p d (k, l, m) i =
      let a : Plan = also f cfg set (evaluate_request now) now p in
      let b : Plan = also f cfg set (allocate_request now) now a in
      again-IsIdle f cfg set (monitor_request now) now b d (unfold common_request in refl) m (
        again-IsIdle f cfg set (allocate_request now) now a d (unfold common_request in refl) l (
          again-IsIdle f cfg set (evaluate_request now) now p d (unfold common_request in refl) k
            i))

  is_connected_replanned :
      (t u : Tables) (l : IsLater f cfg set t u) (s : BillingSource) (time : Option ℕ) (sync : Bool)
      → is_connected f cfg set u (with_plan time sync s) ≡ is_connected f cfg set t s
  is_connected_replanned t u l s time sync =
      ap (λ (x : Tables). is_connected f cfg set x (with_plan time sync s)) l.same

  -- The keys that a tick goes through.
  abbrev keys_of : Tables → List ℕ
  keys_of t = map (λ (s : BillingSource). s.id) (select (is_connected f cfg set t) t.sources)

  keys_of-later : (t u : Tables) → IsLater f cfg set t u → keys_of u ≡ keys_of t
  keys_of-later t u l =
      ap
        (λ (x : Tables).
          map (λ (s : BillingSource). s.id) (select (is_connected f cfg set u) x.sources))
        l.same
      ∙ ids-AreReplanned f cfg set t u t.sources l.sources (is_connected_replanned t u l) l.plans

  -- What a tick leaves.
  after_tick :
      (jitter : ℕ → ℕ) (now : ℕ) (t : Tables)
      → let u : Tables = (schedule_due f cfg set jitter now t).1 in
        IsLater f cfg set t u
        × AllMet f cfg set (slot_for now) (keys_of t) u
        × HasCommon now u.queue
  unfolding schedule_due
  after_tick jitter now t =
      let u : Tables = (schedule_due f cfg set jitter now t).1 in
      let each : ℕ × Tables = schedule_each f cfg set jitter now (keys_of t) t in
      let (l, m) = each-IsMet f cfg set jitter now (keys_of t) t in
      let (x, k) =
        common-Adds now (record { primary = none; created = each.0; queue = each.1.queue }) in
      let next : IsLater f cfg set each.1 u = record {
        sources = each.1.sources;
        queue = u.queue;
        same = refl;
        plans = AreReplanned-refl each.1.sources;
        jobs = x;
      } in
      (
        IsLater-trans f cfg set t each.1 u l next,
        λ pk i. IsMet-later f cfg set (slot_for now) pk each.1 u next (m pk i),
        k,
      )

  -- After a tick of the scheduler, a further tick in the same slot, with any jitter, makes no job
  -- and leaves the queue as it is.
  pub schedule_due-idempotent :
      (jitter jitter' : ℕ → ℕ) (now now' : ℕ) (t : Tables)
      → slot_for now' ≡ slot_for now
      → let u : Tables = (schedule_due f cfg set jitter now t).1 in
        ((schedule_due f cfg set jitter' now' u).0 ≡ 0)
        × ((schedule_due f cfg set jitter' now' u).1.queue ≡ u.queue)
  unfolding schedule_due
  schedule_due-idempotent jitter jitter' now now' t e =
      let u : Tables = (schedule_due f cfg set jitter now t).1 in
      let (l, m, (a, b, c)) = after_tick jitter now t in
      let met : AllMet f cfg set (slot_for now') (keys_of u) u =
        subst (λ ks. AllMet f cfg set (slot_for now') ks u) (sym (keys_of-later t u l))
          (subst (λ slot. AllMet f cfg set slot (keys_of t) u) (sym e) m) in
      let common : HasCommon now' u.queue = (
        subst (λ k. any (has_key k) u.queue.jobs ≡ true)
            (sym (common_key "evaluate_budgets" "evaluate_budgets:" 45 now now' e)) a,
        subst (λ k. any (has_key k) u.queue.jobs ≡ true)
            (sym (common_key "allocate_projects" "allocate_projects:" 40 now now' e)) b,
        subst (λ k. any (has_key k) u.queue.jobs ≡ true)
            (sym (common_key "monitor_operations" "monitor:" 50 now now' e)) c,
      ) in
      let again : ℕ × Tables = schedule_each f cfg set jitter' now' (keys_of u) u in
      common-IsIdle now' (record { primary = none; created = again.0; queue = again.1.queue })
        u.queue common (each-idle jitter' now' (keys_of u) u met)
