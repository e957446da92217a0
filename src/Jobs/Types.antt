-- ===== src/Jobs/Types.antt =====
-- The rows that billing/jobs.py reads and writes, and the settings that it takes from
-- config/settings.py. Times are microseconds since the epoch. A UUID key is its 128-bit number.
use cloud_billing_console.Prelude.{ℕ, Bool, true, false, String, Option, List, ◌||◌}
use cloud_billing_console.Json.{Fields}

pub data Status : Type 0 where
  queued leased done failed : Status

-- A row of the table `Job`, and the object that Django makes of it. `source` is the column
-- `source_id`.
pub record Job : Type 0 where
  pub pk : ℕ
  pub kind : String
  pub key : String
  pub source : Option ℕ
  pub payload : Fields
  pub progress : Fields
  pub status : Status
  pub priority : ℕ
  pub run_after : ℕ
  pub lease_expires : Option ℕ
  pub worker : String
  pub attempts : ℕ
  pub max_attempts : ℕ
  pub last_error : String
  pub created_at : ℕ
  pub started_at : Option ℕ
  pub finished_at : Option ℕ
  pub duration_ms : ℕ

-- The columns of `BillingSource` that the queue reads.
pub record Source : Type 0 where
  pub id : ℕ
  pub customer : ℕ
  pub connection_version : ℕ

-- The columns of `ExplorerQuery` that the queue reads.
pub record QueryRow : Type 0 where
  pub source : ℕ
  pub requested_by : Option ℕ

-- The audit event that `fail` writes through `security_event`.
pub record Audit : Type 0 where
  pub customer : Option ℕ
  pub target : ℕ
  pub kind : String
  pub exhausted : Bool

pub record Db : Type 0 where
  pub jobs : List Job
  pub next_pk : ℕ
  pub sources : List Source
  pub queries : List QueryRow
  pub audit : List Audit

-- The request-bound `Access` of billing/access.py, as far as the queue reads it.
pub record Access : Type 0 where
  pub user_id : Option ℕ
  pub portfolio : Bool
  pub customers : List ℕ

-- JOB_BACKOFF_SECONDS, JOB_BACKOFF_CAP_SECONDS, JOB_MAX_ATTEMPTS, JOB_LEASE_SECONDS and
-- ENFORCE_CUSTOMER_AUTHORIZATION.
pub record Settings : Type 0 where
  pub backoff_seconds : ℕ
  pub backoff_cap_seconds : ℕ
  pub max_attempts : ℕ
  pub lease_seconds : ℕ
  pub enforce_customer_authorization : Bool

abbrev pub is_queued : Status → Bool
is_queued Status.queued = true
is_queued _ = false

abbrev pub is_leased : Status → Bool
is_leased Status.leased = true
is_leased _ = false

-- status__in=[Job.QUEUED, Job.LEASED], the condition of the constraint `unique_active_job_key`.
abbrev pub is_active : Status → Bool
is_active s = is_queued s || is_leased s

abbrev pub second : ℕ
second = 1000000
