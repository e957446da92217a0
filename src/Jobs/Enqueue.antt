-- ===== src/Jobs/Enqueue.antt =====
-- `enqueue` of billing/jobs.py. Its reads go through the request's scoped manager and may be
-- older than the write, so they come as `Reads`; the write meets the table's own constraint.
use Prim.Native.String.{◌++◌ as text_append}
use cloud_billing_console.Prelude.{
  ℕ, ◌+◌, Bool, true, false, String, Option, none, some, List, [], ◌∷◌, ◌++◌, ◌&&◌, ◌||◌, not, ltb,
  ◌==◌, str_eq, if◌then◌else◌, any, select, elem, or_else, min,
}
use cloud_billing_console.Prelude.Rows.{update}
use cloud_billing_console.Json
use cloud_billing_console.Json.{Json, Fields}
use cloud_billing_console.Jobs.Types.{
  Status, Job, Source, QueryRow, Db, Access, Settings, is_queued, is_active,
}

-- The arguments of `enqueue`.
pub record Request : Type 0 where
  pub kind : String
  pub key : Option String
  pub source : Option Source
  pub payload : Fields
  pub priority : ℕ
  pub run_after : Option ℕ
  pub max_attempts : Option ℕ
  pub once : Bool

-- What the reads of one call see: the rows of `Job` at that time, and the rows that the
-- scoped manager lets through.
pub record Reads : Type 0 where
  pub seen : List Job
  pub visible : Job → Bool

pub data Enqueued : Type 0 where
  denied : Enqueued
  enqueued : Option Job → Bool → Enqueued

abbrev pub same_id : Option ℕ → Option ℕ → Bool
same_id none none = true
same_id (some a) (some b) = a == b
same_id _ _ = false

scoped_report : Access → Request → Source → List QueryRow → Bool
scoped_report a r s rows =
    str_eq r.kind "explorer_refresh"
    && any (λ q. (q.source == s.id) && same_id q.requested_by a.user_id) rows

-- False where `enqueue` raises PermissionDenied.
unfoldable pub permitted : Settings → Option Access → Request → List QueryRow → Bool
unfolding scoped_report
permitted set none r rows = true
permitted set (some a) r rows = not set.enforce_customer_authorization || elim r.source [
  | none ↦ false
  | some s ↦ a.portfolio || elem s.customer a.customers || scoped_report a r s rows
]

abbrev with_version : Option Source → Fields → Fields
with_version none p = p
with_version (some s) p = Json.put p "connection_version" (Json.num s.connection_version)

abbrev with_actor : Settings → Option Access → Fields → Fields
with_actor set none p = p
with_actor set (some a) p =
    if set.enforce_customer_authorization
    then Json.put p "actor_id" (elim a.user_id [ none ↦ Json.null | some u ↦ Json.num u ])
    else p

unfoldable pub stamped_payload : Settings → Option Access → Request → Fields
unfolding Json.put
stamped_payload set access r = with_actor set access (with_version r.source r.payload)

-- `key or f'{kind}:{source.pk if source else "global"}'`; `name` is Python's `str` of a UUID.
unfoldable pub job_key : (ℕ → String) → Request → String
job_key name r =
    let default : String =
      text_append r.kind
        (text_append ":" (elim r.source [ none ↦ "global" | some s ↦ name s.id ])) in
    elim r.key [ none ↦ default | some k ↦ if str_eq k "" then default else k ]

-- `max_attempts or setting('JOB_MAX_ATTEMPTS', 6)`
unfoldable pub attempt_limit : Settings → Option ℕ → ℕ
attempt_limit set none = set.max_attempts
attempt_limit set (some n) = if n == 0 then set.max_attempts else n

-- The first of the rows in the order `-created_at`.
abbrev pub newer : Job → Option Job → Job
newer j none = j
newer j (some k) = if ltb j.created_at k.created_at then k else j

unfoldable pub newest : List Job → Option Job
newest [] = none
newest (j ∷ js) = some (newer j (newest js))

abbrev pub active_with_key : String → Job → Bool
active_with_key k j = str_eq j.key k && is_active j.status

-- `Job.objects.create`: none is the IntegrityError of the constraint `unique_active_job_key`.
unfoldable pub create_job : Job → Db → Option Db
create_job j d =
    if any (active_with_key j.key) d.jobs
    then none
    else some (record d { jobs = d.jobs ++ j ∷ []; next_pk = d.next_pk + 1 })

abbrev pub is_row : (Job → Bool) → Job → Job → Bool
is_row visible e r = visible r && (r.pk == e.pk)

abbrev pub brought_forward : ℕ → ℕ → Job → Job → Job
brought_forward run_after priority e r = record r {
  run_after = run_after;
  priority = min priority e.priority;
}

-- An active job with the key exists: it is brought forward if it is queued for later.
unfoldable pub coalesce : ℕ → ℕ → (Job → Bool) → Job → Db → Db
coalesce run_after priority visible e d =
    if is_queued e.status && ltb run_after e.run_after
    then record d { jobs = update (is_row visible e) (brought_forward run_after priority e) d.jobs }
    else d

module _ (name : ℕ → String) (set : Settings) (access : Option Access) where
  unfoldable pub new_job : Request → ℕ → Db → Job
  unfolding stamped_payload job_key attempt_limit
  new_job r now d = record {
    pk = d.next_pk;
    kind = r.kind;
    key = job_key name r;
    source = elim r.source [ none ↦ none | some s ↦ some s.id ];
    payload = stamped_payload set access r;
    progress = Json.empty;
    status = Status.queued;
    priority = r.priority;
    run_after = or_else r.run_after now;
    lease_expires = none;
    worker = "";
    attempts = 0;
    max_attempts = attempt_limit set r.max_attempts;
    last_error = "";
    created_at = now;
    started_at = none;
    finished_at = none;
    duration_ms = 0;
  }

  -- The branch that creates a row, with its `except IntegrityError`.
  unfoldable pub insert_or_existing : Request → ℕ → (Job → Bool) → Db → Enqueued × Db
  unfolding new_job create_job newest
  insert_or_existing r now visible d =
      let j : Job = new_job r now d in
      elim (create_job j d) [
        | none ↦ (
          enqueued (newest (select (λ x. visible x && active_with_key (job_key name r) x) d.jobs))
              false,
          d,
        )
        | some d' ↦ (enqueued (some j) true, d')
      ]

  -- What follows the lookup of an active job with the key.
  unfoldable pub join_or_insert : Request → ℕ → Reads → Db → Option Job → Enqueued × Db
  unfolding insert_or_existing coalesce
  join_or_insert r now reads d none = insert_or_existing r now reads.visible d
  join_or_insert r now reads d (some e) =
      (enqueued (some e) false, coalesce (or_else r.run_after now) r.priority reads.visible e d)

  -- The rows with the key that the reads see.
  abbrev pub with_key : Request → Reads → List Job
  with_key r reads = select (λ x. reads.visible x && str_eq x.key (job_key name r)) reads.seen

  unfoldable pub enqueue_body : Request → ℕ → Reads → Db → Enqueued × Db
  unfolding join_or_insert newest
  enqueue_body r now reads d =
      if r.once && any (λ x. true) (with_key r reads)
      then (enqueued (newest (with_key r reads)) false, d)
      else join_or_insert r now reads d
          (newest (select (λ x. is_active x.status) (with_key r reads)))

  unfoldable pub enqueue : Request → ℕ → Reads → Db → Enqueued × Db
  unfolding permitted enqueue_body
  enqueue r now reads d =
      if permitted set access r d.queries then enqueue_body r now reads d else (denied, d)
