-- ===== src/Jobs/Tests.antt =====
-- The queue on concrete tables: two workers, one connection, an expired lease.
mod Runs
use cloud_billing_console.Prelude.{
  ℕ, ◌+◌, ◌*◌, ◌≤◌, ◌<◌, ◌≡◌, refl, true, false, String, Option, none, some, [], ◌∷◌, arith, All,
  In, inl, is_some, ◌⊎◌, ◌↔◌, length, select, subst, ap, or_else,
}
use cloud_billing_console.Json
use cloud_billing_console.Json.{Fields}
use cloud_billing_console.Jobs.Types.{
  Status, Job, Source, Db, Settings, is_queued, is_leased, second,
}
use cloud_billing_console.Jobs.Enqueue.{Request, Reads, enqueue}
use cloud_billing_console.Jobs.Lease.{Locks, lease_after, lease}
use cloud_billing_console.Jobs.Outcome.{fail, recover_seen, is_expired}
use cloud_billing_console.Jobs.Runner.{Handler, returned, run_once, run_job, under_limit}
use cloud_billing_console.Jobs.System.{System, request, claim, recover, Reach, here, next, hold}
use mathlib.Core.Option
use cloud_billing_console.Jobs.Outcome.{delay, backoff, take_chars, recover_expired, holds}
use cloud_billing_console.Jobs.Consistency.{IsConsistent}
use cloud_billing_console.Jobs.EnqueueKeeps.{enqueue-IsConsistent}
use cloud_billing_console.Jobs.History.{◌⊑◌}
use cloud_billing_console.Jobs.Soundness.{IsSound, Reach-IsSound, Reach-⊑}
use cloud_billing_console.Jobs.Safety.{
  IsStart, start-IsSound, one_lease_per_source, one_active_per_key, attempts_bounded,
}
use cloud_billing_console.Jobs.Claims.{TakesFirst, lease_exact}
use cloud_billing_console.Jobs.Reports.{backoff_bounds, OnHeld, IsFailed, fail_outcome}
use cloud_billing_console.Jobs.Running.{IsSameAttempt, run_job-releases, recover_expired-clears}
use cloud_billing_console.Jobs.Fencing.{IsIgnored, late_report-IsIgnored}

abbrev name : ℕ → String
name n = "0000"

abbrev plain : String → String
plain s = s

abbrev no_noise : ℕ → ℕ
no_noise b = 0

abbrev no_draws : ℕ → ℕ → ℕ
no_draws n b = 0

abbrev settings : Settings
settings = record {
  backoff_seconds = 60;
  backoff_cap_seconds = 3600;
  max_attempts = 6;
  lease_seconds = 600;
  enforce_customer_authorization = true;
}

abbrev connection : Source
connection = record { id = 7; customer = 1; connection_version = 3 }

abbrev free : Locks
free = record { job_locked = λ n. false; source_locked = λ n. false }

abbrev nothing : Db
nothing = record { jobs = []; next_pk = 1; sources = connection ∷ []; queries = []; audit = [] }

abbrev start : System
start = record { db = nothing; held = [] }

abbrev collect : Request
collect = record {
  kind = "collect";
  key = none;
  source = some connection;
  payload = Json.empty;
  priority = 5;
  run_after = none;
  max_attempts = none;
  once = false;
}

abbrev blank : Reads
blank = record { seen = []; visible = λ j. true }

-- One job is asked for, leased by the first worker, and recovered when its lease is past.
abbrev asked : System
asked = record start { db = (enqueue name settings none collect 1000 blank nothing).1 }

abbrev leased_once : System
leased_once = record {
  db = (lease_after settings "a" 2000 [] [] free asked.db).1;
  held = hold (lease_after settings "a" 2000 [] [] free asked.db).0 asked.held;
}

abbrev recovered : System
recovered = record leased_once {
  db = recover_seen no_draws settings (700 * second) leased_once.held leased_once.db;
}

-- The row as the first worker holds it.
abbrev first_claim : Job
first_claim = record {
  pk = 1;
  kind = "collect";
  key = "collect:0000";
  source = some 7;
  payload = Json.field "connection_version" (Json.num 3) Json.empty;
  progress = Json.empty;
  status = Status.leased;
  priority = 5;
  run_after = 1000;
  lease_expires = some 600002000;
  worker = "a";
  attempts = 1;
  max_attempts = 6;
  last_error = "";
  created_at = 1000;
  started_at = some 2000;
  finished_at = none;
  duration_ms = 0;
}

leased_once-held : leased_once.held ≡ first_claim ∷ []
unfolding lease_after enqueue
leased_once-held = refl

abbrev second_claim : Job
second_claim = record first_claim {
  worker = "b";
  attempts = 2;
  run_after = 760 * second;
  started_at = some (800 * second);
  lease_expires = some (1400 * second);
  last_error = "Worker lease expired; the job was interrupted. Retry queued.";
}

leased_twice :
    (lease_after settings "b" (800 * second) [] [] free recovered.db).0 ≡ some second_claim
unfolding lease_after enqueue recover_seen
leased_twice = refl

abbrev to_recovered : Reach name plain settings start recovered
to_recovered =
    next (next (next here (request none collect 1000 blank)) (claim "a" 2000 [] [] free))
      (recover no_draws (700 * second) leased_once.held (rw leased_once-held (inl refl, tt)))

late_report-IsIgnored_example :
    IsIgnored plain no_noise settings
      (900 * second)
      first_claim
      none
      "timeout"
      false
      (lease_after settings "b" (800 * second) [] [] free recovered.db).1
late_report-IsIgnored_example =
    late_report-IsIgnored name plain settings (omega arith) "b" (800 * second) [] [] free start
      recovered
      (record {
        db = (lease_after settings "b" (800 * second) [] [] free recovered.db).1;
        held =
            hold (lease_after settings "b" (800 * second) [] [] free recovered.db).0 recovered.held;
      })
      first_claim second_claim no_noise (900 * second) none "timeout" false
      (record { no_rows = refl; no_objects = refl }) to_recovered (rw leased_once-held (inl refl))
      leased_twice refl here

start-IsStart : IsStart start
start-IsStart = record { no_rows = refl; no_objects = refl }

to_leased : Reach name plain settings start leased_once
to_leased = next (next here (request none collect 1000 blank)) (claim "a" 2000 [] [] free)

leased_once-In : In first_claim leased_once.db.jobs
unfolding lease_after enqueue
leased_once-In = inl refl

one_lease_per_source_example : first_claim ≡ first_claim
one_lease_per_source_example =
    one_lease_per_source name plain settings (omega arith) to_leased 7 first_claim first_claim
      start-IsStart leased_once-In leased_once-In refl refl refl refl

one_active_per_key_example : first_claim ≡ first_claim
one_active_per_key_example =
    one_active_per_key name plain settings (omega arith) to_leased first_claim first_claim
      start-IsStart leased_once-In leased_once-In refl refl refl

attempts_bounded_example :
    (1 ≤ 6)
    × (is_queued Status.leased ≡ true → 1 < 6)
    × (is_leased Status.leased ≡ true → 0 < 1)
    × (is_some {A = ℕ} (some 600002000) ≡ is_leased Status.leased)
attempts_bounded_example =
    attempts_bounded name plain settings (omega arith) to_leased first_claim start-IsStart
      leased_once-In

leased_once-IsSound : IsSound leased_once
leased_once-IsSound =
    Reach-IsSound name plain settings (omega arith) (start-IsSound start start-IsStart) to_leased

Reach-⊑_example : leased_once.db ⊑ recovered.db
Reach-⊑_example = Reach-⊑ name plain settings (omega arith) leased_once-IsSound (
    next here
      (recover no_draws (700 * second) leased_once.held (rw leased_once-held (inl refl, tt))))

lease_exact_example :
    TakesFirst settings "a" 2000 [] free asked.db (lease settings "a" 2000 [] free asked.db)
lease_exact_example = lease_exact settings "a" 2000 [] free asked.db

backoff_bounds_example :
    (delay settings 2 * second ≤ backoff no_noise settings 2)
    × (2 * backoff no_noise settings 2 ≤ 3 * (3600 * second))
    × (delay settings 3 ≤ 2 * delay settings 2)
    × (delay settings 2 ≤ delay settings 3)
backoff_bounds_example = backoff_bounds no_noise settings 2 (λ b. omega arith)

fail_outcome_example :
    let (exhausted, d') =
      fail plain no_noise settings 5000 first_claim "timeout" false leased_once.db in
    ((exhausted ≡ true) ↔ ((false ≡ true) ⊎ (6 ≤ 1)))
    × OnHeld first_claim
        (IsFailed settings 5000 exhausted (take_chars 500 "timeout") first_claim)
        leased_once.db.jobs
        d'.jobs
    × (length d'.audit ≡ length leased_once.db.audit + 1)
fail_outcome_example =
    fail_outcome plain no_noise settings 5000 first_claim "timeout" false leased_once.db

recover_expired-clears_example :
    let result = recover_expired no_draws settings (700 * second) leased_once.db in
    All (λ r. is_expired (700 * second) r ≡ false) result.1.jobs
    × ((r : Job)
        → is_expired (700 * second) r ≡ false
        → In r leased_once.db.jobs
        → In r result.1.jobs)
    × (result.0 ≡ length (select (is_expired (700 * second)) leased_once.db.jobs))
recover_expired-clears_example =
    recover_expired-clears no_draws settings (700 * second) leased_once.db

abbrev quick : Handler
quick j d = (returned none, j, d)

abbrev registry : String → Option Handler
registry kind = some quick

registry-quick : (kind : String) (h : Handler) → registry kind ≡ some h → quick ≡ h
registry-quick kind h e = ap (λ (o : Option Handler). or_else o quick) e

quick-same :
    (kind : String) (h : Handler)
    → registry kind ≡ some h
    → IsSameAttempt first_claim (h first_claim leased_once.db).1
quick-same kind h e =
    subst (λ (g : Handler). IsSameAttempt first_claim (g first_claim leased_once.db).1)
      (registry-quick kind h e) (refl, refl, refl)

run_job-releases_example :
    All
      (λ r. holds first_claim r ≡ false)
      (run_job plain no_draws settings registry 0 5000 first_claim leased_once.db).1.jobs
run_job-releases_example =
    run_job-releases plain no_draws settings registry 0 5000 first_claim leased_once.db quick-same

-- The leased job runs to its end, and the second round finds the queue empty.
run_once-asked :
    Option.map
      (λ r. r.0)
      (run_once plain no_draws settings registry "a" []
        (λ n. free)
        (λ n. 2000)
        (λ n. 3000)
        none
        7
        asked.db)
    ≡ some 1
unfolding run_once enqueue
run_once-asked = refl
