-- ===== src/Activation/Completion.antt =====
-- billing/activation.py: when a running request is completed, and one call of the service.
use cloud_billing_console.Prelude.{
  ℕ, ◌+◌, String, Bool, true, false, not, ◌&&◌, ◌||◌, Option, none, some, List, [], ◌∷◌, ◌++◌, map,
  leb, ◌==◌, str_eq, if◌then◌else◌, is_some, length, any, all, select, find,
}
use cloud_billing_console.Prelude.Texts.{has}
use cloud_billing_console.Json
use cloud_billing_console.Json.{Json}
use cloud_billing_console.Jobs.Types.{Status, Job, Settings, is_active}
use cloud_billing_console.Jobs.Outcome.{take_chars}
use cloud_billing_console.Jobs.Enqueue.{newest}
use cloud_billing_console.Connection.Tables.{
  BillingSource, Progress, ActivationRequest, Tables, Config, Try, refused, broken, done, unless,
  then_do, collects_costs, is_running,
}
use cloud_billing_console.Connection.Approval.{trust_confirmed}
use cloud_billing_console.Scheduler.Slots.{Format, is_of_source}
use cloud_billing_console.Scheduler.Requests.{is_status}
use cloud_billing_console.Activation.Snapshots.{is_true, add_event}
use cloud_billing_console.Activation.Allowlist.{AllowFile}
use cloud_billing_console.Activation.Process.{
  Service, request_row, save_request, revalidated, activation_key, requester, start_request,
}

-- job.last_error or ...
abbrev pub error_or : String → Job → String
error_or default j = if str_eq j.last_error "" then default else j.last_error

-- a.since is set and not before `start`
abbrev pub since : ℕ → Option ℕ → Bool
since start none = false
since start (some a) = leb start a

abbrev pub is_discovery : BillingSource → Job → Bool
is_discovery s j = is_of_source j.source s.id && str_eq j.kind "discover"

abbrev pub missing_reason : Option Job → Try Bool
missing_reason none = refused "Account discovery was interrupted. Choose Connect account to retry."
missing_reason (some j) =
    if is_status Status.failed j
    then refused (error_or "Account discovery failed. Check customer permissions and try again." j)
    else refused "Account discovery was interrupted. Choose Connect account to retry."

module _ (sv : Service) (f : Format) (cfg : Config) (set : Settings) where
  -- Without a discovery since the activation: whether one is still to come.
  abbrev pub discovery_missing : ℕ → BillingSource → Tables → Try Bool
  discovery_missing start s t =
      if any (λ j. is_discovery s j && is_active j.status) t.queue.jobs
      then done false
      else missing_reason
          (newest (select (λ j. is_discovery s j && since start j.started_at) t.queue.jobs))

  -- What follows a verification job that is done; `start` is `activated_at`.
  unfoldable pub connection_proven : ℕ → BillingSource → Tables → Try Bool
  unfolding Json.get newest
  connection_proven start s t =
      unless (since start s.verified_at && trust_confirmed s)
        "The current customer role has not passed all trust checks."
        (unless
          (not (has s.approved_capabilities "budgets")
            || is_true (Json.get s.capabilities "budgets"))
          "AWS budget access is unavailable. Add the displayed budget permission and retry."
          (if collects_costs s && not (since start s.discovered_at)
            then discovery_missing start s t
            else done true))

  abbrev pub proven_since : BillingSource → Tables → Option ℕ → Try Bool
  proven_since s t none = broken
  proven_since s t (some start) = connection_proven start s t

  -- The answer is whether the request is completed: false is that it has to wait. A request that
  -- is verifying has its time of activation.
  unfoldable pub verified : ActivationRequest → BillingSource → Tables → Option Job → Try Bool
  unfolding connection_proven
  verified r s t none =
      refused "Account verification was interrupted. Choose Connect account to retry."
  verified r s t (some j) =
      if is_status Status.failed j
      then refused
          (error_or "AWS access verification failed. Check the customer role and try again." j)
      else if not (is_status Status.done j)
      then done false
      else proven_since s t r.activated_at

  abbrev import_job : ActivationRequest → BillingSource → Tables → String → Option Job
  import_job r s t step = newest (
      select (λ j. is_of_source j.source s.id && str_eq j.key (activation_key sv f cfg set r step))
        t.queue.jobs)

  abbrev is_failed : Option Job → Bool
  is_failed none = false
  is_failed (some j) = is_status Status.failed j

  abbrev is_done : Option Job → Bool
  is_done none = false
  is_done (some j) = is_status Status.done j

  abbrev failure_of : Option (Option Job) → String
  failure_of (some (some j)) =
      error_or "Initial import failed. Check customer permissions and retry." j
  failure_of _ = ""

  unfoldable pub imported : ActivationRequest → BillingSource → Tables → Try Bool
  unfolding newest
  imported r s t =
      let imports : List (Option Job) = map (import_job r s t) (
        (if collects_costs s then "initial" ∷ [] else [])
        ++ (if has s.approved_capabilities "budgets" then "budgets" ∷ [] else [])) in
      unless (not (any is_failed imports)) (failure_of (find is_failed imports)) (
        unless (all is_some imports)
          "The initial import was interrupted. Reconnect the account to resume automatic collection."
          (done (not (length imports == 0) && all is_done imports)))

  abbrev pub complete_from : ActivationRequest → BillingSource → Tables → Progress → Try Bool
  complete_from r s t Progress.verifying =
      verified r s t
        (newest (select (λ j. str_eq j.key (activation_key sv f cfg set r "verify")) t.queue.jobs))
  complete_from r s t Progress.importing = imported r s t
  complete_from r s t _ = done false

  unfoldable pub is_complete : ActivationRequest → BillingSource → Tables → Try Bool
  unfolding verified imported newest
  is_complete r s t = complete_from r s t r.status

  abbrev pub completed : ActivationRequest → BillingSource → ℕ → Tables → Tables
  completed r s now t =
      add_event (requester t r)
        (elim r.status [
          | Progress.verifying ↦ "Account connection verified"
          | _ ↦ "Account activation completed"
        ])
        s.id r.id false
        (save_request r.id (λ q. record q { status = Progress.completed; finished_at = some now })
          t)

  -- `_progress` on the row that it reads again.
  unfoldable pub progress : ActivationRequest → ℕ → Tables → Try Tables
  unfolding is_complete
  progress r now t =
      then_do (revalidated sv f cfg set true r now t) (λ s.
        then_do (is_complete r s t) (λ (b : Bool). done (if b then completed r s now t else t)))

  abbrev pub is_starting : Progress → Bool
  is_starting Progress.queued = true
  is_starting Progress.processing = true
  is_starting _ = false

  -- The two `except` branches.
  abbrev pub rejected : ActivationRequest → String → ℕ → Tables → Tables
  rejected r message now t =
      add_event "activation-service" "Account activation rejected" r.source r.id true (
        save_request r.id
          (λ q. record q {
            status = Progress.failed;
            last_error = take_chars 500 (sv.redact message);
            finished_at = some now;
          })
          t)

  -- attempts >= 5
  abbrev pub attempt_limit : ℕ
  attempt_limit = 5

  abbrev pub retried : ℕ → ActivationRequest → ActivationRequest
  retried now q =
      let starting : Bool = is_starting q.status in
      let attempts : ℕ = if starting then q.attempts else q.attempts + 1 in
      let failed : Bool = leb attempt_limit attempts in
      record q {
        status = if failed then Progress.failed else if starting then Progress.queued else q.status;
        attempts = attempts;
        last_error =
            if failed
            then "Connection authorization is temporarily unavailable. Retry from the dashboard."
            else "Connection authorization will retry automatically.";
        finished_at = if failed then some now else none;
      }

  abbrev pub retry : ActivationRequest → ℕ → Tables → Tables
  retry r now t =
      add_event "activation-service" "Account activation service retry" r.source r.id true
        (save_request r.id (retried now) t)

  unfoldable pub settled : ActivationRequest → ℕ → Tables → Try Tables → Tables
  settled r now t (done u) = u
  settled r now t (refused message) = rejected r message now t
  settled r now t broken = retry r now t

  abbrev begun : ActivationRequest → ActivationRequest
  begun q = record q { status = Progress.processing; attempts = q.attempts + 1 }

  abbrev start_settled :
      ActivationRequest → ℕ → Tables → Try Tables × AllowFile → Tables × AllowFile
  start_settled r now t (result, file) = (settled r now t result, file)

  abbrev start_row : ℕ → Tables → AllowFile → Option ActivationRequest → Try Tables × AllowFile
  start_row now t file none = (broken, file)
  start_row now t file (some q) = start_request sv f cfg set q now t file

  abbrev pub progress_row : ℕ → Tables → Option ActivationRequest → Try Tables
  progress_row now t none = broken
  progress_row now t (some q) = progress q now t

  abbrev pub process_from :
      ActivationRequest → ℕ → Tables → AllowFile → Progress → Try (Tables × AllowFile)
  process_from r now t file status =
      let t' : Tables = save_request r.id begun t in
      if not (is_running status)
      then done (t, file)
      else if is_starting status
      then done (start_settled r now t' (start_row now t' file (request_row t' r.id)))
      else done (settled r now t (progress_row now t (request_row t r.id)), file)

  -- `r` is the object that the caller has read; `_start` and `_progress` read the row again.
  unfoldable pub process_activation :
      ActivationRequest → ℕ → Tables → AllowFile → Try (Tables × AllowFile)
  unfolding progress start_request settled
  process_activation r now t file =
      unless (str_eq cfg.runtime_role "admin") "Use the separate activation administration runtime."
        (process_from r now t file r.status)
