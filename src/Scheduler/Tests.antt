-- ===== src/Scheduler/Tests.antt =====
-- A connection that is ready, and its jobs in one slot.
use cloud_billing_console.Prelude.{
  ℕ, zero, suc, ◌/◌, ◌%◌, String, ◌≡◌, refl, true, false, none, some, [], ◌∷◌,
}
use cloud_billing_console.Json.{empty}
use cloud_billing_console.Jobs.Types.{Db, Settings}
use cloud_billing_console.Connection.Tables.{Kind, BillingSource, Tables, Config}
use cloud_billing_console.Scheduler.Slots.{Format, slot_for}
use cloud_billing_console.Scheduler.Schedule.{schedule_source, schedule_due}
use cloud_billing_console.Scheduler.Ticks.{schedule_due-idempotent}

abbrev digit : ℕ → String
digit zero = "0"
digit (suc zero) = "1"
digit _ = "n"

abbrev format : Format
format = record {
  name = digit;
  digits = digit;
  stamp = λ t. digit (t / 21600000000 % 2);
  day = λ t. 1;
  parse_time = λ t. none;
}

abbrev config : Config
config = record {
  require_connection_approval = false;
  history_months = 6;
  reconcile_months = 3;
  aws_region = "ap-south-1";
  runtime_role = "collector";
  collector_role_arn = "";
  supported_aws_partitions = "aws" ∷ [];
  onboarding_broker_function = "";
}

abbrev settings : Settings
settings = record {
  backoff_seconds = 30;
  backoff_cap_seconds = 3600;
  max_attempts = 6;
  lease_seconds = 600;
  enforce_customer_authorization = true;
}

abbrev source : BillingSource
source = record {
  id = 1;
  customer = 1;
  kind = Kind.payer;
  account_id = "111111111111";
  role_arn = "arn";
  external_id = "x";
  shared = false;
  enabled = true;
  connection_version = 1;
  capabilities = empty;
  approved_capabilities = "budgets" ∷ [];
  trust_checks = empty;
  sync_requested = true;
  initial_import_done = true;
  verified_at = some 1;
  discovered_at = some 1;
  last_attempt = none;
  last_success = none;
  last_error = "";
  next_run = none;
}

abbrev no_jobs : Db
no_jobs = record { jobs = []; next_pk = 1; sources = []; queries = []; audit = [] }

abbrev tables : Tables
tables = record {
  queue = no_jobs;
  sources = source ∷ [];
  customers = record { id = 1; active = true } ∷ [];
  approvals = [];
  role_approvals = [];
  requests = [];
  next_request = 1;
  users = [];
  events = [];
}

-- One minute and two minutes after midnight.
abbrev first_tick : ℕ
first_tick = 60000000

abbrev second_tick : ℕ
second_tick = 120000000

-- The first tick makes the jobs collect, explorer_refresh, discover and import_budgets.
first_created : (schedule_source format config settings 7 source first_tick tables).0.1 ≡ 4
unfolding schedule_source
first_created = refl

-- A tick over all connections makes these and the three common jobs.
due_created : (schedule_due format config settings (λ pk. 7) first_tick tables).0 ≡ 7
unfolding schedule_due
due_created = refl

schedule_due-idempotent_example :
    let u : Tables = (schedule_due format config settings (λ pk. 7) first_tick tables).1 in
    ((schedule_due format config settings (λ pk. 9) second_tick u).0 ≡ 0)
    × ((schedule_due format config settings (λ pk. 9) second_tick u).1.queue ≡ u.queue)
schedule_due-idempotent_example =
    schedule_due-idempotent format config settings (λ pk. 7) (λ pk. 9) first_tick second_tick tables
      (unfold slot_for in refl)
