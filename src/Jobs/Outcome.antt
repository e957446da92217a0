-- ===== src/Jobs/Outcome.antt =====
-- What a worker reports on the job that it holds: `heartbeat`, `complete` and `fail` of
-- billing/jobs.py, the retry delay, and `recover_expired`.
use cloud_billing_console.Prelude.{
  ℕ, zero, suc, ◌+◌, ◌-◌, ◌*◌, ◌/◌, ◌^◌, min, Bool, true, false, String, Option, none, some, List,
  [], ◌∷◌, ◌++◌, ◌&&◌, ◌||◌, ltb, leb, ◌==◌, str_eq, if◌then◌else◌, any, find, select, or_else,
}
use cloud_billing_console.Prelude.Rows.{update}
use cloud_billing_console.Json.{Fields}
use cloud_billing_console.Jobs.Types.{Status, Job, Source, Db, Settings, is_leased, second}

-- The delay in seconds before the random part: JOB_BACKOFF_SECONDS doubled for each attempt
-- after the first, up to the cap.
unfoldable pub delay : Settings → ℕ → ℕ
delay set attempts = min (set.backoff_seconds * 2 ^ (attempts - 1)) set.backoff_cap_seconds

-- `backoff`: `uniform b` is the value that `random.uniform(0, b)` gave, in microseconds.
unfoldable pub backoff : (ℕ → ℕ) → Settings → ℕ → ℕ
unfolding delay
backoff uniform set attempts =
    let d : ℕ = delay set attempts in d * second + uniform (d * second / 2)

-- The condition of the guarded updates: the row is still leased to the worker that holds the
-- object, and for the same attempt.
unfoldable pub holds : Job → Job → Bool
holds j r =
    (r.pk == j.pk) && is_leased r.status && str_eq r.worker j.worker && (r.attempts == j.attempts)

-- lease_expires__gt=now
abbrev pub expires_after : ℕ → Option ℕ → Bool
expires_after now none = false
expires_after now (some e) = ltb now e

-- lease_expires__lt=now
abbrev pub expired_at : ℕ → Option ℕ → Bool
expired_at now none = false
expired_at now (some e) = ltb e now

unfoldable pub is_current : ℕ → Job → Job → Bool
unfolding holds
is_current now j r = holds j r && expires_after now r.lease_expires

-- A job as a handler is given it: tests also pass objects that are no row (`pk` is no int).
pub data JobRef : Type 0 where
  unsaved : Fields → JobRef
  saved : Job → JobRef

abbrev pub with_progress : Option Fields → Job → Job
with_progress none j = j
with_progress (some p) j = record j { progress = p }

unfoldable pub extend_lease : Settings → ℕ → Option Fields → Job → Job
extend_lease set now progress r =
    with_progress progress (record r { lease_expires = some (now + set.lease_seconds * second) })

-- The result is whether a row was updated; the object's progress is set in any case.
unfoldable pub heartbeat : Settings → ℕ → JobRef → Option Fields → Db → Bool × JobRef × Db
unfolding extend_lease is_current
heartbeat set now (unsaved p) progress d = (true, unsaved (or_else progress p), d)
heartbeat set now (saved j) progress d = (
  any (is_current now j) d.jobs,
  saved (with_progress progress j),
  record d { jobs = update (is_current now j) (extend_lease set now progress) d.jobs },
)

-- max(0, int((now - (started_at or now)).total_seconds() * 1000)), in exact arithmetic
abbrev pub elapsed_ms : ℕ → Option ℕ → ℕ
elapsed_ms now started = (now - or_else started now) / 1000

unfoldable pub as_done : ℕ → Fields → Job → Job → Job
as_done now progress j r = record r {
  status = Status.done;
  finished_at = some now;
  last_error = "";
  lease_expires = none;
  progress = progress;
  duration_ms = elapsed_ms now j.started_at;
}

unfoldable pub complete : ℕ → Job → Option Fields → Db → Db
unfolding as_done holds
complete now j progress d = record d {
  jobs = update (holds j) (as_done now (or_else progress j.progress) j) d.jobs;
}

abbrev pub take_chars : ℕ → String → String
take_chars zero s = ""
take_chars (suc n) String.[] = ""
take_chars (suc n) (String.◌∷◌ c s) = String.◌∷◌ c (take_chars n s)

-- job.source.customer, through the foreign key
customer_of : Option ℕ → List Source → Option ℕ
customer_of none rows = none
customer_of (some s) rows = elim (find (λ (r : Source). r.id == s) rows) [
  | none ↦ none
  | some r ↦ some r.customer
]

unfoldable pub is_exhausted : Bool → Job → Bool
is_exhausted permanent j = permanent || leb j.max_attempts j.attempts

-- `retry` is the time of the next attempt.
unfoldable pub as_failed : ℕ → ℕ → Bool → String → Job → Job → Job
as_failed now retry exhausted message j r = record r {
  status = if exhausted then Status.failed else Status.queued;
  last_error = message;
  lease_expires = none;
  run_after = if exhausted then now else retry;
  finished_at = if exhausted then some now else none;
  progress = j.progress;
  duration_ms = elapsed_ms now j.started_at;
}

-- `redact` is the pattern substitution of billing/redaction.py, which works by regular
-- expressions.
module _ (redact : String → String) (uniform : ℕ → ℕ) (set : Settings) where
  unfoldable pub fail : ℕ → Job → String → Bool → Db → Bool × Db
  unfolding is_exhausted as_failed holds backoff customer_of
  fail now j error permanent d =
      let exhausted : Bool = is_exhausted permanent j in
      (
        exhausted,
        record d {
          jobs =
              update (holds j)
                (as_failed now (now + backoff uniform set j.attempts) exhausted
                  (take_chars 500 (redact error)) j)
                d.jobs;
          audit =
              d.audit
              ++ record {
                customer = customer_of j.source d.sources;
                target = j.pk;
                kind = j.kind;
                exhausted = exhausted;
              }
                ∷ [];
        },
      )

abbrev pub is_expired : ℕ → Job → Bool
is_expired now r = is_leased r.status && expired_at now r.lease_expires

abbrev recovery_message : Bool → String
recovery_message true = "Worker lease expired; the job was interrupted."
recovery_message false = "Worker lease expired; the job was interrupted. Retry queued."

-- The update of the loop over the expired leases, with its compare-and-set condition.
unfoldable pub still_expired : ℕ → Job → Job → Bool
unfolding holds
still_expired now j r = holds j r && expired_at now r.lease_expires

unfoldable pub as_recovered : Settings → (ℕ → ℕ) → ℕ → Job → Job → Job
unfolding backoff is_exhausted
as_recovered set uniform now j r =
    let exhausted : Bool = is_exhausted false j in
    record r {
      status = if exhausted then Status.failed else Status.queued;
      lease_expires = none;
      last_error = recovery_message exhausted;
      run_after = now + backoff uniform set j.attempts;
    }

-- `recovered` counts the rows of the loop, whether the update matched or not.
abbrev pub count_expired : ℕ → List Job → ℕ
count_expired now [] = 0
count_expired now (j ∷ js) =
    let n : ℕ = count_expired now js in if is_expired now j then n + 1 else n

-- `draws n` is the random draw made for the job with the key `n`.
module _ (draws : ℕ → ℕ → ℕ) (set : Settings) (now : ℕ) where
  unfoldable pub recover_one : Job → List Job → List Job
  unfolding still_expired as_recovered
  recover_one j = update (still_expired now j) (as_recovered set (draws j.pk) now j)

  -- The rows that the loop's query gave may be older than the updates.
  unfoldable pub recover_rows : List Job → List Job → List Job
  unfolding recover_one
  recover_rows [] rows = rows
  recover_rows (j ∷ js) rows = recover_rows js (recover_one j rows)

  unfoldable pub recover_seen : List Job → Db → Db
  unfolding recover_rows
  recover_seen seen d = record d { jobs = recover_rows (select (is_expired now) seen) d.jobs }

  unfoldable pub recover_expired : Db → ℕ × Db
  unfolding recover_seen
  recover_expired d = (count_expired now d.jobs, recover_seen d.jobs d)
