-- ===== src/Scheduler/Requests.antt =====
-- billing/scheduler.py: the jobs that people ask for, which share the work that is pending.
use cloud_billing_console.Prelude.{
  ℕ, String, Bool, true, false, not, ◌&&◌, ◌||◌, Option, none, some, List, [], ◌∷◌, ◌++◌, map, ltb,
  ◌==◌, str_eq, if◌then◌else◌, length, select,
}
use Prim.Native.String.{◌++◌ as text_append}
use cloud_billing_console.Prelude.Rows.{update}
use cloud_billing_console.Json
use cloud_billing_console.Json.{Json, Fields, empty, field}
use cloud_billing_console.Jobs.Types.{Status, Job, Access, Settings, is_queued}
use cloud_billing_console.Jobs.Enqueue.{Request, denied, enqueued, enqueue}
use cloud_billing_console.Jobs.Coalescing.{current}
use cloud_billing_console.Connection.Tables.{
  BillingSource, Tables, Config, Try, refused, broken, done, unless, then_do, collects_costs,
  source_row,
}
use cloud_billing_console.Scheduler.Slots.{
  Format, collection_initialized, imports_budgets, collection_readiness, pending_job, slot_key,
}
use cloud_billing_console.Scheduler.Schedule.{queue_source}

-- The pair that `enqueue` returns, and the tables after it.
abbrev pub Made : Type 0
Made = (Option Job × Bool) × Tables

abbrev with_fields : Fields → Fields → Fields
with_fields base empty = base
with_fields base (field k v rest) = with_fields (Json.put base k v) rest

-- payload.get('months_back', 1): this module stores numbers under the key.
abbrev months_of : Fields → ℕ
months_of p = elim (Json.get p "months_back") [ some (Json.num n) ↦ n | _ ↦ 1 ]

module _ (f : Format) (cfg : Config) (set : Settings) (access : Option Access) where
  -- `enqueue` on the tables, with reads that no other transaction has made old.
  unfoldable pub queue_job : Request → ℕ → Tables → Try Made
  unfolding enqueue
  queue_job r now t =
      let (result, d) = enqueue f.name set access r now (current t.queue) t.queue in
      elim result [
        | denied ↦ refused "A customer-scoped approved connection is required."
        | enqueued j made ↦ done ((j, made), record t { queue = d })
      ]

  abbrev pub source_request : String → String → BillingSource → ℕ → Option ℕ → Fields → Request
  source_request kind key s priority attempts payload = record {
    kind = kind;
    key = some key;
    source = some (queue_source s);
    payload = payload;
    priority = priority;
    run_after = none;
    max_attempts = attempts;
    once = false;
  }

  -- f'{kind}:{source.pk}{middle}v{source.connection_version}'
  abbrev pub version_key : String → String → BillingSource → String
  version_key kind middle s = text_append kind (
      text_append ":" (
        text_append (f.name s.id)
          (text_append middle (text_append "v" (f.digits s.connection_version)))))

  unfoldable pub request_verification : BillingSource → String → ℕ → Tables → Try Made
  unfolding queue_job
  request_verification s actor now t =
      queue_job
        (source_request "verify" (version_key "verify" ":" s) s 1 (some 1)
          (field "actor" (Json.str actor) empty))
        now t

  unfoldable pub request_discovery : BillingSource → String → ℕ → Tables → Try Made
  unfolding queue_job
  request_discovery s actor now t =
      queue_job
        (source_request "discover" (version_key "discover" ":manual:" s) s 2 (some 2)
          (field "actor" (Json.str actor) empty))
        now t

  -- The payload of a pull.
  abbrev pull_payload : ℕ → Bool → String → Option ℕ → Fields
  pull_payload months initial actor actor_id = field "months_back" (Json.num months) (
      field "manual" (Json.bool true) (
        field "initial" (Json.bool initial) (
          field "actor" (Json.str actor)
            (elim actor_id [ none ↦ empty | some u ↦ field "actor_id" (Json.num u) empty ]))))

  -- A queued job that takes the wider request over.
  abbrev widened : Fields → BillingSource → Job → Job
  widened payload s j = record j {
    payload =
        Json.put (with_fields j.payload payload) "connection_version"
          (Json.num s.connection_version);
  }

  -- The key is that of the slot where the connection has no data yet.
  abbrev pull_key : String → Bool → String → BillingSource → ℕ → String
  pull_key kind initial suffix s now =
      if initial && not (str_eq suffix "backfill")
      then slot_key f s kind now
      else version_key kind (text_append ":" (text_append suffix ":")) s

  abbrev make_pull : String → Bool → String → BillingSource → Fields → ℕ → Tables → Try Made
  make_pull kind initial suffix s payload now t =
      queue_job (source_request kind (pull_key kind initial suffix s now) s 3 none payload) now t

  -- The body of the loop of `_request_pull`, on the job that is pending.
  unfoldable pub pull_kind :
      String → Bool → ℕ → BillingSource → Fields → ℕ → Tables → Option Job → Try Made
  unfolding queue_job Json.put Json.get slot_key
  pull_kind kind initial months s payload now t none =
      make_pull kind initial "manual" s payload now t
  pull_kind kind initial months s payload now t (some j) =
      if not (str_eq kind "collect" && ltb (months_of j.payload) months)
      then done ((some j, false), t)
      else if is_queued j.status
      then done (
        (some (widened payload s j), false),
        record t {
          queue = record t.queue {
            jobs =
                update (λ (r : Job). r.pk == j.pk)
                  (λ r. record r { payload = (widened payload s j).payload }) t.queue.jobs;
          };
        },
      )
      else make_pull kind initial "backfill" s payload now t

  abbrev pull_kinds : BillingSource → List String
  pull_kinds s =
      (if collects_costs s then "collect" ∷ [] else [])
      ++ (if imports_budgets cfg s then "import_budgets" ∷ [] else [])

  -- The first result is what the caller gets.
  unfoldable pub pull_each :
      List String
      → Bool
      → ℕ
      → BillingSource
      → Fields
      → ℕ
      → Option (Option Job × Bool)
      → Tables
      → Try (Option (Option Job × Bool) × Tables)
  unfolding pull_kind pending_job
  pull_each [] initial months s payload now primary t = done (primary, t)
  pull_each (kind ∷ kinds) initial months s payload now primary t =
      then_do (pull_kind kind initial months s payload now t (pending_job s kind t.queue.jobs))
        (λ (made, t').
          pull_each kinds initial months s payload now
            (elim primary [ none ↦ some made | some p ↦ some p ]) t')

  -- The answer none is None, where there is nothing to pull.
  unfoldable pub request_pull :
      ℕ → String → Option ℕ → ℕ → Bool → ℕ → Tables → Try (Option (Option Job × Bool) × Tables)
  unfolding pull_each collection_readiness collection_initialized imports_budgets
  request_pull pk actor actor_id months_back initial now t = elim (source_row t pk) [
    | none ↦ broken
    | some s ↦ unless (str_eq (collection_readiness cfg t s) "") (collection_readiness cfg t s) (
        let first : Bool = initial || not (collection_initialized s) in
        let months : ℕ = if first then cfg.history_months else months_back in
        then_do
          (pull_each (pull_kinds s) first months s (pull_payload months first actor actor_id) now
            none t)
          (λ (primary, t'). done (
            primary,
            record t' {
              sources =
                  update (λ (r : BillingSource). r.id == pk)
                    (λ r. record r { sync_requested = false }) t'.sources;
            },
          )))
  ]

  unfoldable pub request_refresh :
      ℕ → String → ℕ → Option ℕ → ℕ → Tables → Try (Option (Option Job × Bool) × Tables)
  unfolding request_pull
  request_refresh pk actor months_back actor_id now t =
      request_pull pk actor actor_id months_back false now t

  unfoldable pub request_initial_import :
      ℕ → String → Option ℕ → ℕ → Tables → Try (Option (Option Job × Bool) × Tables)
  unfolding request_pull
  request_initial_import pk actor actor_id now t =
      request_pull pk actor actor_id cfg.history_months true now t

abbrev pub is_status : Status → Job → Bool
is_status Status.queued j = is_queued j.status
is_status Status.leased j = elim j.status [ Status.leased ↦ true | _ ↦ false ]
is_status Status.done j = elim j.status [ Status.done ↦ true | _ ↦ false ]
is_status Status.failed j = elim j.status [ Status.failed ↦ true | _ ↦ false ]

-- Each status with its number of jobs.
unfoldable pub queue_summary : List Job → List (Status × ℕ)
queue_summary jobs =
    map (λ st. (st, length (select (is_status st) jobs)))
      (Status.queued ∷ Status.leased ∷ Status.failed ∷ Status.done ∷ [])
