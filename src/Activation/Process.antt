-- ===== src/Activation/Process.antt =====
-- billing/activation.py: the activation service. A transaction that raises leaves the tables as they
-- were; the allowlist file is no part of it.
use cloud_billing_console.Prelude.{
  ℕ, String, Bool, false, Option, none, some, List, [], ◌∷◌, ◌++◌, ◌==◌, if◌then◌else◌, any, find,
}
use Prim.Native.String.{◌++◌ as text_append}
use cloud_billing_console.Prelude.Rows.{update}
use cloud_billing_console.Prelude.Texts.{sorted_set}
use cloud_billing_console.Json.{Json, empty, field}
use cloud_billing_console.Jobs.Types.{Settings}
use cloud_billing_console.Jobs.Enqueue.{Request}
use cloud_billing_console.Connection.Tables.{
  Approved, BillingSource, CustomerApproval, RoleApproval, Progress, ActivationRequest,
  Administrator, Tables, Config, Try, refused, broken, done, then_do, is_approved,
}
use cloud_billing_console.Connection.Approval.{Arn, is_of_role}
use cloud_billing_console.Scheduler.Slots.{Format}
use cloud_billing_console.Scheduler.Schedule.{queue_source}
use cloud_billing_console.Scheduler.Requests.{queue_job}
use cloud_billing_console.Activation.Snapshots.{add_event}
use cloud_billing_console.Activation.Requests.{revalidate}
use cloud_billing_console.Activation.Allowlist.{
  AllowFile, Write, BrokerAnswer, allow_role_via_broker, merge_allowlist,
}

-- BILLING_FIELDS
abbrev billing_fields : List String
billing_fields = "day" ∷ "account_id" ∷ "service" ∷ "unblended" ∷ "amortized" ∷ []

abbrev pub request_row : Tables → ℕ → Option ActivationRequest
request_row t pk = find (λ (r : ActivationRequest). r.id == pk) t.requests

abbrev pub save_request : ℕ → (ActivationRequest → ActivationRequest) → Tables → Tables
save_request pk u t = record t {
  requests = update (λ (r : ActivationRequest). r.id == pk) u t.requests;
}

-- The user name of request.requested_by.
abbrev pub requester : Tables → ActivationRequest → String
requester t r = elim (find (λ (a : Administrator). a.id == r.requested_by) t.users) [
  | none ↦ ""
  | some a ↦ a.username
]

-- The row that get_or_create makes.
abbrev new_approval : ℕ → CustomerApproval
new_approval customer = record {
  customer = customer;
  contacts = [];
  authorized_users = [];
  expected_accounts = [];
  billing_fields = [];
  metadata = [];
  optional_capabilities = [];
  storage_region = "";
  retention_days = none;
  status = Approved.pending;
  evidence = "";
  approved_by = "";
  approved_at = none;
}

-- An approval that stands gets the account and its permissions; another one is filled in.
abbrev pub approve_customer :
    ActivationRequest → String → BillingSource → ℕ → CustomerApproval → CustomerApproval
approve_customer r actor s now a =
    if is_approved a.status
    then record a {
      expected_accounts = sorted_set (a.expected_accounts ++ s.account_id ∷ []);
      optional_capabilities = sorted_set (a.optional_capabilities ++ s.approved_capabilities);
    }
    else record a {
      contacts = r.snapshot.consent.contact ∷ [];
      authorized_users = actor ∷ [];
      expected_accounts = s.account_id ∷ [];
      billing_fields = billing_fields;
      metadata = [];
      optional_capabilities = s.approved_capabilities;
      storage_region = r.snapshot.region;
      retention_days = some r.snapshot.consent.retention_days;
      status = Approved.approved;
      approved_by = actor;
      approved_at = some now;
      evidence = r.snapshot.consent.evidence;
    }

abbrev of_customer : BillingSource → CustomerApproval → Bool
of_customer s a = a.customer == s.customer

abbrev approval_rows : BillingSource → List CustomerApproval → List CustomerApproval
approval_rows s rows =
    if any (of_customer s) rows then rows else rows ++ new_approval s.customer ∷ []

abbrev approved_role : ActivationRequest → String → BillingSource → ℕ → RoleApproval
approved_role r actor s now = record {
  source = s.id;
  role_arn = s.role_arn;
  connection_version = s.connection_version;
  status = Approved.approved;
  evidence = r.snapshot.consent.evidence;
  requested_by = actor;
  approved_by = actor;
  approved_at = some now;
}

unfoldable pub approve : ActivationRequest → BillingSource → ℕ → Tables → Tables
unfolding sorted_set
approve r s now t =
    let role : RoleApproval = approved_role r (requester t r) s now in
    record t {
      approvals =
          update (of_customer s) (approve_customer r (requester t r) s now)
            (approval_rows s t.approvals);
      role_approvals =
          if any (is_of_role s) t.role_approvals
          then update (is_of_role s) (λ x. role) t.role_approvals
          else t.role_approvals ++ role ∷ [];
    }

-- What the service reads outside of the database: the functions on texts, the time, the broker's
-- answer and how the file's replacement goes.
pub record Service : Type 0 where
  pub strip : String → String
  pub digest : String → String
  pub role_re : String → Option Arn
  pub role_name : String → Bool
  pub is_wild : String → Bool
  pub redact : String → String
  pub broker : String → Option BrokerAnswer
  pub write : Write

module _ (sv : Service) (f : Format) (cfg : Config) (set : Settings) where
  abbrev pub revalidated : Bool → ActivationRequest → ℕ → Tables → Try BillingSource
  revalidated after r now t =
      revalidate sv.strip sv.digest sv.role_re sv.role_name sv.is_wild cfg after r now t

  abbrev pub activation_key : ActivationRequest → String → String
  activation_key r step =
      text_append "activation:" (text_append (f.name r.id) (text_append ":" step))

  abbrev verify_request : Tables → ActivationRequest → BillingSource → Request
  verify_request t r s = record {
    kind = "verify";
    key = some (activation_key r "verify");
    source = some (queue_source s);
    payload = field "actor" (Json.str (requester t r)) (
        field "actor_id" (Json.num r.requested_by)
          (field "activation_id" (Json.str (f.name r.id)) empty));
    priority = 1;
    run_after = none;
    max_attempts = some 3;
    once = false;
  }

  abbrev unverified : BillingSource → BillingSource
  unverified s = record s {
    verified_at = none;
    discovered_at = none;
    trust_checks = empty;
    last_error = "";
  }

  -- What `_start` does in the database once the role is in the allowlist.
  unfoldable pub authorize : ActivationRequest → BillingSource → ℕ → Tables → Try Tables
  unfolding approve queue_job
  authorize r s now t =
      let t' : Tables = approve r s now t in
      let t'' : Tables =
        save_request r.id
          (λ q. record q { status = Progress.verifying; activated_at = some now; last_error = "" })
          (record t' {
            sources = update (λ (x : BillingSource). x.id == s.id) unverified t'.sources;
          }) in
      then_do (queue_job f cfg set none (verify_request t r s) now t'') (λ (m, u).
        done (add_event (requester t r) "Account activation authorized" s.id r.id false u))

  abbrev after_merge :
      ActivationRequest → BillingSource → ℕ → Tables → Try Unit × AllowFile → Try Tables × AllowFile
  after_merge r s now t (result, file) = (then_do result (λ u. authorize r s now t), file)

  -- The row of the user is locked first; DoesNotExist is no refusal.
  abbrev if_present : ActivationRequest → Tables → Try BillingSource → Try BillingSource
  if_present r t rest =
      if any (λ (a : Administrator). a.id == r.requested_by) t.users then rest else broken

  -- `_start` on the row that it reads again. Its second reading of the connection is under the same
  -- locks.
  unfoldable pub start_request : ActivationRequest → ℕ → Tables → AllowFile → Try Tables × AllowFile
  unfolding revalidate allow_role_via_broker merge_allowlist authorize
  start_request r now t file =
      let checked : Try BillingSource = then_do (if_present r t (revalidated false r now t)) (λ s.
        then_do (allow_role_via_broker sv.role_re sv.role_name sv.is_wild cfg sv.broker s.role_arn)
          (λ u. revalidated false r now t)) in
      elim checked [
        | refused message ↦ (refused message, file)
        | broken ↦ (broken, file)
        | done s ↦
            after_merge r s now t
              (merge_allowlist sv.role_re sv.role_name sv.is_wild cfg sv.write s.role_arn file)
      ]
