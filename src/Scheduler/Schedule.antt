-- ===== src/Scheduler/Schedule.antt =====
-- billing/scheduler.py: the jobs of a slot for one connection, and the tick over all of them.
-- The scheduler has no request-bound access, so that `enqueue` refuses nothing; the connection is
-- locked, so that its reads are current.
use cloud_billing_console.Prelude.{
  ℕ, ◌+◌, ◌*◌, String, Bool, true, false, not, ◌&&◌, ◌||◌, Option, none, some, List, [], ◌∷◌, map,
  ltb, ◌==◌, str_eq, if◌then◌else◌, is_some, select,
}
use Prim.Native.String.{◌++◌ as text_append}
use cloud_billing_console.Prelude.Rows.{update}
use cloud_billing_console.Json.{Json, Fields, empty, field}
use cloud_billing_console.Jobs.Types as Queue
use cloud_billing_console.Jobs.Types.{Job, Db, Settings, is_queued, second}
use cloud_billing_console.Jobs.Enqueue.{Request, Enqueued, denied, enqueued, enqueue}
use cloud_billing_console.Jobs.Coalescing.{current}
use cloud_billing_console.Connection.Tables.{
  BillingSource, Tables, Config, collects_costs, customer_active, source_row, missing_or_earlier,
}
use cloud_billing_console.Scheduler.Slots.{
  Format, minute, hour_of, slot_for, next_slot, reconcile_months, collection_initialized,
  imports_budgets, collection_readiness, pending_job, budget_success, slot_key,
}

-- What `_schedule_source` has so far: its `primary`, its `created`, and the queue.
pub record Plan : Type 0 where
  pub primary : Option Job
  pub created : ℕ
  pub queue : Db

-- The columns of a connection that the queue reads.
abbrev pub queue_source : BillingSource → Queue.Source
queue_source s = record {
  id = s.id;
  customer = s.customer;
  connection_version = s.connection_version;
}

abbrev pub one_if : Bool → ℕ
one_if true = 1
one_if false = 0

abbrev pub first_of : Option Job → Option Job → Option Job
first_of none b = b
first_of a b = a

abbrev pub plan_of : Enqueued × Db → Plan
plan_of (denied, d) = record { primary = none; created = 0; queue = d }
plan_of (enqueued j made, d) = record { primary = j; created = one_if made; queue = d }

-- if not initial: ... and within it, if slot.hour == 0: ...
abbrev pub stages : Bool → Bool → Plan → Plan → Plan → Plan
stages true midnight a b c = a
stages false true a b c = c
stages false false a b c = b

module _ (f : Format) (cfg : Config) (set : Settings) where
  unfoldable pub queue_once : Request → ℕ → Db → Plan
  unfolding enqueue
  queue_once r now d = plan_of (enqueue f.name set none r now (current d) d)

  -- `_, made = jobs.enqueue(...); created += made`
  unfoldable pub also : Request → ℕ → Plan → Plan
  unfolding queue_once
  also r now p =
      let q : Plan = queue_once r now p.queue in
      record p { created = p.created + q.created; queue = q.queue }

  -- `primary = _pending_job(...)`, with the enqueue where there is none.
  unfoldable pub unless_pending : Option Job → Request → ℕ → Db → Plan
  unfolding queue_once
  unless_pending (some j) r now d = record { primary = some j; created = 0; queue = d }
  unless_pending none r now d = queue_once r now d

  -- `run_after`: the jitter is what random.uniform gave, in microseconds.
  abbrev start : ℕ → ℕ → BillingSource → ℕ
  start jitter now s = if collection_initialized s then slot_for now + jitter else now

  unfoldable pub slot_request : String → ℕ → ℕ → Fields → BillingSource → ℕ → Request
  unfolding slot_key
  slot_request kind priority run_after payload s now = record {
    kind = kind;
    key = some (slot_key f s kind now);
    source = some (queue_source s);
    payload = payload;
    priority = priority;
    run_after = some run_after;
    max_attempts = none;
    once = true;
  }

  unfoldable pub collect_request : ℕ → BillingSource → ℕ → Request
  unfolding slot_request collection_initialized reconcile_months slot_for
  collect_request jitter s now =
      let initial : Bool = not (collection_initialized s) in
      slot_request "collect" (if initial then 3 else 5) (start jitter now s)
        (field "months_back"
          (Json.num (if initial then cfg.history_months else reconcile_months f cfg (slot_for now)))
          (field "initial" (Json.bool initial)
            (field "slot" (Json.str (f.stamp (slot_for now))) empty)))
        s now

  unfoldable pub explorer_request : ℕ → BillingSource → ℕ → Request
  unfolding slot_request collection_initialized slot_for
  explorer_request jitter s now =
      slot_request "explorer_refresh" 7 (start jitter now s + 5 * minute)
        (field "scheduled" (Json.bool true) empty) s now

  unfoldable pub discover_request : ℕ → BillingSource → ℕ → Request
  unfolding slot_request collection_initialized slot_for
  discover_request jitter s now = slot_request "discover" 6 (start jitter now s) empty s now

  unfoldable pub budgets_request : ℕ → BillingSource → ℕ → Request
  unfolding slot_request collection_initialized slot_for
  budgets_request jitter s now =
      let initial : Bool = not (collection_initialized s) in
      slot_request "import_budgets" (if initial then 4 else 8)
        (if initial then start jitter now s else start jitter now s + 2 * minute)
        (field "initial" (Json.bool initial)
          (field "slot" (Json.str (f.stamp (slot_for now))) empty))
        s now

  -- The jobs of a connection that collects costs.
  unfoldable pub collect_jobs : ℕ → BillingSource → ℕ → Db → Plan
  unfolding unless_pending pending_job also collection_initialized slot_for collect_request
      explorer_request discover_request
  collect_jobs jitter s now d =
      let first : Plan =
        unless_pending (pending_job s "collect" d.jobs) (collect_request jitter s now) now d in
      let second : Plan = also (explorer_request jitter s now) now first in
      stages (not (collection_initialized s)) (hour_of (slot_for now) == 0) first second
        (also (discover_request jitter s now) now second)

  abbrev pub wants_costs : BillingSource → ℕ → Bool
  wants_costs s slot =
      collects_costs s && (not (collection_initialized s) || missing_or_earlier s.last_success slot)

  abbrev pub wants_budgets : BillingSource → ℕ → Bool
  wants_budgets s slot = imports_budgets cfg s && missing_or_earlier (budget_success f s) slot

  unfoldable pub with_budgets : ℕ → BillingSource → ℕ → Plan → Plan
  unfolding unless_pending pending_job budgets_request
  with_budgets jitter s now p =
      let q : Plan =
        unless_pending (pending_job s "import_budgets" p.queue.jobs) (budgets_request jitter s now)
          now p.queue in
      record {
        primary = first_of p.primary q.primary;
        created = p.created + q.created;
        queue = q.queue;
      }

  unfoldable pub plan_for : ℕ → BillingSource → ℕ → Db → Plan
  unfolding collect_jobs with_budgets slot_for imports_budgets budget_success
  plan_for jitter s now d =
      let p : Plan =
        if wants_costs s (slot_for now)
        then collect_jobs jitter s now d
        else record { primary = none; created = 0; queue = d } in
      if wants_budgets s (slot_for now) then with_budgets jitter s now p else p

  unfoldable pub next_time : Option Job → ℕ → ℕ
  unfolding next_slot
  next_time none now = next_slot now
  next_time (some j) now =
      if is_queued j.status && ltb now j.run_after then j.run_after else next_slot now

  abbrev pub planned : Option ℕ → BillingSource → BillingSource
  planned time s = record s { next_run = time; sync_requested = false }

  unfoldable pub schedule_source : ℕ → BillingSource → ℕ → Tables → (Option Job × ℕ) × Tables
  unfolding plan_for next_time
  schedule_source jitter s now t =
      let p : Plan = plan_for jitter s now t.queue in
      (
        (p.primary, p.created),
        record t {
          queue = p.queue;
          sources =
              update (λ (r : BillingSource). r.id == s.id)
                (planned (some (next_time p.primary now))) t.sources;
        },
      )

  -- `_, made_for_source = ...`
  abbrev pub counted : (Option Job × ℕ) × Tables → ℕ × Tables
  counted ((j, n), t) = (n, t)

  -- The two branches on the readiness of the row.
  abbrev pub schedule_if : (ℕ → ℕ) → ℕ → ℕ → Tables → BillingSource → Bool → ℕ × Tables
  schedule_if jitter now pk t s true = counted (schedule_source (jitter pk) s now t)
  schedule_if jitter now pk t s false = (
    0,
    record t {
      sources =
          update (λ (r : BillingSource). r.id == pk) (λ r. record r { next_run = none }) t.sources;
    },
  )

  abbrev pub schedule_row : (ℕ → ℕ) → ℕ → ℕ → Tables → Option BillingSource → ℕ × Tables
  schedule_row jitter now pk t none = (0, t)
  schedule_row jitter now pk t (some s) =
      schedule_if jitter now pk t s (str_eq (collection_readiness cfg t s) "")

  -- The body of the loop of `schedule_due`.
  unfoldable pub schedule_one : (ℕ → ℕ) → ℕ → ℕ → Tables → ℕ × Tables
  unfolding schedule_source collection_readiness
  schedule_one jitter now pk t = schedule_row jitter now pk t (source_row t pk)

  unfoldable pub schedule_each : (ℕ → ℕ) → ℕ → List ℕ → Tables → ℕ × Tables
  unfolding schedule_one
  schedule_each jitter now [] t = (0, t)
  schedule_each jitter now (pk ∷ pks) t =
      let first : ℕ × Tables = schedule_one jitter now pk t in
      let rest : ℕ × Tables = schedule_each jitter now pks first.1 in (first.0 + rest.0, rest.1)

  abbrev pub is_connected : Tables → BillingSource → Bool
  is_connected t s =
      s.enabled && customer_active t s && not (str_eq s.role_arn "") && is_some s.verified_at

  -- A job without a connection, once in a slot.
  unfoldable pub common_request : String → String → ℕ → ℕ → Request
  unfolding slot_for
  common_request kind prefix delay now = record {
    kind = kind;
    key = some (text_append prefix (f.stamp (slot_for now)));
    source = none;
    payload = empty;
    priority = 9;
    run_after = some (slot_for now + delay * minute);
    max_attempts = none;
    once = true;
  }

  unfoldable pub common_jobs : ℕ → Plan → Plan
  unfolding also common_request
  common_jobs now p = also (common_request "monitor_operations" "monitor:" 50 now) now (
      also (common_request "allocate_projects" "allocate_projects:" 40 now) now
        (also (common_request "evaluate_budgets" "evaluate_budgets:" 45 now) now p))

  unfoldable pub schedule_due : (ℕ → ℕ) → ℕ → Tables → ℕ × Tables
  unfolding schedule_each common_jobs
  schedule_due jitter now t =
      let (n, t') =
        schedule_each jitter now
          (map (λ (s : BillingSource). s.id) (select (is_connected t) t.sources)) t in
      let p : Plan = common_jobs now (record { primary = none; created = n; queue = t'.queue }) in
      (p.created, record t' { queue = p.queue })
