-- ===== src/Activation/Tests.antt =====
-- A request that waits for its verification, whose job is done.
use cloud_billing_console.Prelude.{
  ℕ, String, ◌≡◌, refl, true, false, Option, none, some, [], ◌∷◌, str_eq, if◌then◌else◌,
}
use cloud_billing_console.Json.{Json, empty, field}
use cloud_billing_console.Jobs.Types.{Status, Job, Settings}
use cloud_billing_console.Connection.Tables.{
  Kind, Approved, BillingSource, CustomerApproval, Consent, Progress, ActivationRequest, Tables,
  Config,
}
use cloud_billing_console.Connection.Approval.{Arn}
use cloud_billing_console.Scheduler.Slots.{Format}
use cloud_billing_console.Activation.Allowlist.{
  AllowFile, Write, listed, Keeps, merge_allowlist, merge_allowlist-Keeps,
}
use cloud_billing_console.Activation.Process.{Service}
use cloud_billing_console.Activation.Completion.{completed, process_activation}
use cloud_billing_console.Activation.Proven.{IsProven, process_activation-Proven}

abbrev role : String
role = "arn:aws:iam::111111111111:role/BillingConsole/CostReadOnly"

abbrev parse_role : String → Option Arn
parse_role arn =
    if str_eq arn role
    then some (record {
      partition = "aws";
      account = "111111111111";
      path = "BillingConsole/CostReadOnly";
    })
    else none

abbrev same : String → String
same x = x

abbrev service : Service
service = record {
  strip = same;
  digest = same;
  role_re = parse_role;
  role_name = λ x. true;
  is_wild = λ x. false;
  redact = same;
  broker = λ x. none;
  write = Write.succeeds;
}

abbrev format : Format
format = record {
  name = λ n. "7";
  digits = λ n. "1";
  stamp = λ t. "";
  day = λ t. 1;
  parse_time = λ t. none;
}

abbrev config : Config
config = record {
  require_connection_approval = true;
  history_months = 6;
  reconcile_months = 3;
  aws_region = "ap-south-1";
  runtime_role = "admin";
  collector_role_arn = "";
  supported_aws_partitions = "aws" ∷ [];
  onboarding_broker_function = "broker";
}

abbrev settings : Settings
settings = record {
  backoff_seconds = 30;
  backoff_cap_seconds = 3600;
  max_attempts = 6;
  lease_seconds = 600;
  enforce_customer_authorization = true;
}

abbrev source : BillingSource
source = record {
  id = 1;
  customer = 1;
  kind = Kind.standalone;
  account_id = "111111111111";
  role_arn = role;
  external_id = "x";
  shared = false;
  enabled = true;
  connection_version = 1;
  capabilities = empty;
  approved_capabilities = [];
  trust_checks = field "correct_external_id" (Json.str "passed") (
      field "missing_external_id" (Json.str "denied") (
        field "wrong_external_id" (Json.str "denied") (
          field "account_identity" (Json.str "passed") (
            field "exact_collector_principal" (Json.str "passed")
              (field "connection_version" (Json.num 1) empty)))));
  sync_requested = false;
  initial_import_done = false;
  verified_at = some 20;
  discovered_at = some 21;
  last_attempt = none;
  last_success = none;
  last_error = "";
  next_run = none;
}

abbrev consent : Consent
consent = record { contact = "Ann"; evidence = "Contract"; retention_days = 400 }

abbrev request : ActivationRequest
request = record {
  id = 7;
  source = 1;
  requested_by = 3;
  session_version = 2;
  connection_version = 1;
  snapshot = record {
    source = record {
      source_id = 1;
      customer_id = 1;
      account_id = "111111111111";
      role_arn = role;
      external_id_sha256 = "x";
      connection_version = 1;
      kind = Kind.standalone;
      shared = false;
      approved_capabilities = [];
    };
    approval = none;
    role_approval = none;
    consent = consent;
    region = "ap-south-1";
  };
  status = Progress.verifying;
  attempts = 1;
  last_error = "";
  created_at = 5;
  activated_at = some 10;
  finished_at = none;
}

abbrev verify_job : Job
verify_job = record {
  pk = 1;
  kind = "verify";
  key = "activation:7:verify";
  source = some 1;
  payload = empty;
  progress = empty;
  status = Status.done;
  priority = 1;
  run_after = 10;
  lease_expires = none;
  worker = "";
  attempts = 1;
  max_attempts = 3;
  last_error = "";
  created_at = 10;
  started_at = some 11;
  finished_at = some 22;
  duration_ms = 0;
}

abbrev customer_approval : CustomerApproval
customer_approval = record {
  customer = 1;
  contacts = "Ann" ∷ [];
  authorized_users = "root" ∷ [];
  expected_accounts = "111111111111" ∷ [];
  billing_fields = "day" ∷ [];
  metadata = [];
  optional_capabilities = [];
  storage_region = "ap-south-1";
  retention_days = some 400;
  status = Approved.approved;
  evidence = "Contract";
  approved_by = "root";
  approved_at = some 10;
}

abbrev tables : Tables
tables = record {
  queue = record { jobs = verify_job ∷ []; next_pk = 2; sources = []; queries = []; audit = [] };
  sources = source ∷ [];
  customers = record { id = 1; active = true } ∷ [];
  approvals = customer_approval ∷ [];
  role_approvals =
      record {
        source = 1;
        role_arn = role;
        connection_version = 1;
        status = Approved.approved;
        evidence = "Contract";
        requested_by = "root";
        approved_by = "root";
        approved_at = some 10;
      }
      ∷ [];
  requests = request ∷ [];
  next_request = 8;
  users =
      record {
        id = 3;
        username = "root";
        is_active = true;
        is_superuser = true;
        portfolio_access = true;
        external = false;
        session_version = 2;
      }
      ∷ [];
  events = [];
}

abbrev file : AllowFile
file = record {
  configured = true;
  is_symlink = false;
  is_regular = true;
  others_may_write = false;
  runs_as_root = false;
  owned_by_root = false;
  entries = some [];
}

abbrev finished : Tables
finished = completed service format config settings request source 30 tables

process_activation-Proven_example :
    (s : BillingSource) × (start : ℕ) × IsProven service format config settings tables request s
      start
unfolding process_activation
process_activation-Proven_example =
    process_activation-Proven service format config settings request
      (record request { status = Progress.completed; finished_at = some 30 }) 30 tables finished
      file file refl refl refl refl refl

merge_allowlist-Keeps_example :
    Keeps parse_role
      (λ x. true)
      (λ x. false)
      config
      role
      file
      (merge_allowlist parse_role (λ x. true) (λ x. false) config Write.fails_after role file)
merge_allowlist-Keeps_example =
    merge_allowlist-Keeps parse_role (λ x. true) (λ x. false) config Write.fails_after role file

-- The file has the role although the call has failed.
merged :
    listed parse_role
      (λ x. true)
      (λ x. false)
      config
      (merge_allowlist parse_role (λ x. true) (λ x. false) config Write.fails_after role file).1
    ≡ role ∷ []
unfolding merge_allowlist
merged = refl
