-- ===== src/Scheduler/Handlers.antt =====
-- billing/scheduler.py: what the worker runs for each kind of job. The collection itself, the
-- evaluation of budgets and projects and the monitoring are parameters.
use cloud_billing_console.Prelude.{
  ℕ, String, Bool, true, false, not, ◌&&◌, ◌||◌, Option, none, some, List, [], ◌∷◌, ◌==◌, str_eq,
  if◌then◌else◌, is_some, elem,
}
use cloud_billing_console.Prelude.Rows.{update}
use cloud_billing_console.Prelude.Texts.{has}
use cloud_billing_console.Json
use cloud_billing_console.Json.{Json, Fields, empty, field}
use cloud_billing_console.Jobs.Types.{Job, Settings}
use cloud_billing_console.Connection.Tables.{
  BillingSource, Tables, Config, Try, refused, broken, done, unless, then_do, truthy, is_number,
  collects_costs, customer_active, source_row,
}
use cloud_billing_console.Connection.Approval.{Arn, Deployed, assert_role_allowed}
use cloud_billing_console.Scheduler.Slots.{Format, collection_initialized}
use cloud_billing_console.Scheduler.Requests.{
  Made, queue_job, source_request, version_key, request_discovery,
}

-- How a call of AWS ends: with an answer, with a ClientError of a code, or otherwise. The text is
-- `safe_error` of the exception.
pub data Answer (A : Type 0) : Type 0 where
  answer : A → Answer A
  client_error : String → String → Answer A
  other_error : String → Answer A

abbrev without : String → Fields → Fields
without k empty = empty
without k (field j v rest) = if str_eq j k then rest else field j v (without k rest)

-- `for_user` of an active user: whether the access is a portfolio, and its `editable`.
abbrev pub Operators : Type 0
Operators = Json → Option (Bool × List ℕ)

-- BillingSource.objects.filter(pk=source.pk, connection_version=...).update(...)
abbrev pub update_version : BillingSource → (BillingSource → BillingSource) → Tables → Tables
update_version s u t = record t {
  sources =
      update
        (λ (r : BillingSource). (r.id == s.id) && (r.connection_version == s.connection_version)) u
        t.sources;
}

abbrev is_denial : String → Bool
is_denial code = has ("AccessDenied" ∷ "AccessDeniedException" ∷ []) code

abbrev is_throttle : String → Bool
is_throttle code = has ("Throttling" ∷ "ThrottlingException" ∷ "TooManyRequestsException" ∷ []) code

module _ (f : Format) (cfg : Config) (set : Settings) (role_re : String → Option Arn)
    (role_name : String → Bool) (is_wild : String → Bool) (deployed : Deployed)
    (operators : Operators) where
  abbrev is_same_version : Option Json → ℕ → Bool
  is_same_version none v = true
  is_same_version (some Json.null) v = true
  is_same_version o v = is_number o v

  -- A job of a signed-in operator runs only while the operator may edit the customer.
  abbrev operator_allowed : Job → BillingSource → Option Json → Bool
  operator_allowed j s none = true
  operator_allowed j s (some u) =
      not (truthy (some u)) || str_eq j.kind "explorer_refresh" || elim (operators u) [
        | none ↦ false
        | some (portfolio, editable) ↦ portfolio || elem s.customer editable
      ]

  abbrev approved_now : Job → Tables → BillingSource → Try Unit
  approved_now j t s =
      if not cfg.require_connection_approval
      then done tt
      else then_do (assert_role_allowed role_re role_name is_wild cfg t deployed s) (λ u.
        unless
          (str_eq j.kind "verify"
            || is_some s.verified_at
              && is_number (Json.get s.trust_checks "connection_version") s.connection_version)
          "Current connection trust validation is required." (done tt))

  unfoldable pub load_source : Job → Tables → Try BillingSource
  unfolding assert_role_allowed Json.get
  load_source j t =
      let row : Option BillingSource = elim j.source [ none ↦ none | some pk ↦ source_row t pk ] in
      elim row [
        | none ↦ refused "The connection no longer exists."
        | some s ↦
            unless (is_same_version (Json.get j.payload "connection_version") s.connection_version)
              "The connection changed after this request. Pull data again for the current settings."
              (unless (s.enabled && customer_active t s)
                "The connection is paused or the customer is offboarded."
                (unless (not (str_eq s.role_arn "")) "The connection has no role ARN yet." (
                  then_do (approved_now j t s) (λ u.
                    unless (operator_allowed j s (Json.get j.payload "actor_id"))
                      "The requesting operator no longer has customer access." (done s)))))
      ]

  -- A handler that cannot load the connection changes nothing.
  abbrev pub with_source :
      {A : Type 0} → Job → Tables → (BillingSource → Try A × Tables) → Try A × Tables
  with_source j t body = elim (load_source j t) [
    | refused message ↦ (refused message, t)
    | broken ↦ (broken, t)
    | done s ↦ body s
  ]

  -- What a verification for an activation makes of the access to budgets that AWS still denies.
  abbrev budgets_denied : Job → BillingSource → Fields → Bool
  budgets_denied j s caps =
      truthy (Json.get j.payload "activation_id")
      && has s.approved_capabilities "budgets"
      && not (truthy (Json.get caps "budgets"))
      && elim (Json.get caps "budgets_error") [
        | some (Json.str code) ↦ is_denial code || is_throttle code
        | _ ↦ false
      ]

  abbrev error_code : Fields → String
  error_code caps = elim (Json.get caps "budgets_error") [ some (Json.str c) ↦ c | _ ↦ "" ]

  -- The `except` of `handle_verify`: an activation retries what may pass by itself.
  unfoldable pub verify_failed :
      Job → BillingSource → String → String → Tables → Try Fields × Tables
  unfolding Json.get
  verify_failed j s code message t = (
    if truthy (Json.get j.payload "activation_id")
          && (is_denial code || is_throttle code || str_eq code "ServiceUnavailable")
        then broken
        else refused message,
    update_version s (λ r. record r { last_error = message }) t,
  )

  -- The requests that follow a verification.
  unfoldable pub after_verify : BillingSource → Fields → ℕ → Tables → Try Fields × Tables
  unfolding request_discovery queue_job collection_initialized Json.get
  after_verify s caps now t =
      let found : Try Made =
        if collects_costs s
        then request_discovery f cfg set none s "" now t
        else done ((none, false), t) in
      let both : Try Made = then_do found (λ (m, t').
        if truthy (Json.get caps "budgets") && collection_initialized s
        then queue_job f cfg set none
            (source_request f cfg set none "import_budgets"
              (version_key f cfg set none "import_budgets" ":verified:" s) s 2 none empty)
            now t'
        else done (m, t')) in
      elim both [
        | refused message ↦ (refused message, t)
        | broken ↦ (broken, t)
        | done (m, t') ↦ (done (field "capabilities" (Json.dict caps) empty), t')
      ]

  -- `verify` is `collector.verify_source` with its effect on the tables; the capabilities that it
  -- gives are those of the object, too. `error_text` is `safe_error` of a ClientError with the code.
  unfoldable pub handle_verify :
      (BillingSource → Tables → Answer Fields × Tables)
      → (String → String)
      → Job
      → ℕ
      → Tables
      → Try Fields × Tables
  unfolding load_source verify_failed after_verify
  handle_verify verify error_text j now t = with_source j t (λ s.
      let (result, t') = verify s t in
      elim result [
        | client_error code message ↦ verify_failed j s code message t'
        | other_error message ↦ verify_failed j s "" message t'
        | answer caps ↦
            if budgets_denied j s caps
            then verify_failed j s (error_code caps) (error_text (error_code caps))
                (update_version s (λ r. record r { verified_at = none }) t')
            else after_verify (record s { capabilities = caps }) caps now t'
      ])

  -- `discover` is `collector.discover_accounts`, which gives the number of accounts and the mode.
  unfoldable pub handle_discover :
      (BillingSource → Tables → Answer (ℕ × String) × Tables) → Job → Tables → Try Fields × Tables
  unfolding load_source
  handle_discover discover j t = with_source j t (λ s.
      if not (collects_costs s)
      then (
        done (field "accounts" (Json.num 0) (field "mode" (Json.str "member_budgets") empty)),
        t,
      )
      else let (result, t') = discover s t in
        elim result [
          | answer (n, mode) ↦
              (done (field "accounts" (Json.num n) (field "mode" (Json.str mode) empty)), t')
          | client_error code message ↦
              (broken, update_version s (λ r. record r { last_error = message }) t')
          | other_error message ↦
              (broken, update_version s (λ r. record r { last_error = message }) t')
        ])

  -- The months that a collection asks for.
  unfoldable pub months_to_collect : Job → BillingSource → ℕ
  unfolding Json.get
  months_to_collect j s =
      if s.initial_import_done
      then elim (Json.get j.payload "months_back") [ some (Json.num n) ↦ n | _ ↦ 1 ]
      else cfg.history_months

  -- `collect` is `collector.collect_source` for the months, which gives the rows and the requests
  -- of its run if there is one, and the progress that it leaves in the job's object.
  unfoldable pub handle_collect :
      (BillingSource → ℕ → Tables → (Try (Option (ℕ × ℕ)) × Fields) × Tables)
      → Job
      → Tables
      → Try Fields × Tables
  unfolding load_source months_to_collect Json.put
  handle_collect collect j t = with_source j t (λ s.
      let ((result, progress), t') = collect s (months_to_collect j s) t in
      elim result [
        | refused message ↦ (refused message, t')
        | broken ↦ (broken, t')
        | done run ↦
            let (rows, requests) : ℕ × ℕ = elim run [ none ↦ (0, 0) | some r ↦ r ] in
            (
              done (
                  Json.put (Json.put progress "rows" (Json.num rows)) "requests"
                    (Json.num requests)),
              t',
            )
      ])

  -- `refresh` is `query_cache.refresh_queries`, with whether the job was scheduled.
  unfoldable pub handle_explorer_refresh :
      (BillingSource → Bool → Tables → Try ℕ × Tables) → Job → Tables → Try Fields × Tables
  unfolding load_source Json.get
  handle_explorer_refresh refresh j t = with_source j t (λ s.
      let (result, t') = refresh s (truthy (Json.get j.payload "scheduled")) t in
      (then_do result (λ n. done (field "processed" (Json.num n) empty)), t'))

  abbrev imported : BillingSource → String → ℕ → BillingSource → BillingSource
  imported s stamp now r =
      let caps : Fields = without "budgets_error" (
        Json.put (Json.put s.capabilities "budgets" (Json.bool true)) "budgets_imported_at"
          (Json.str stamp)) in
      if collects_costs s then record r { capabilities = caps } else record r {
        capabilities = caps;
        last_error = "";
        last_success = some now;
        initial_import_done = true;
        sync_requested = false;
      }

  -- `import` is `collector.import_budgets` with the number of budgets, `iso` is `isoformat`.
  unfoldable pub handle_import_budgets :
      (BillingSource → Tables → Answer ℕ × Tables)
      → (ℕ → String)
      → Job
      → ℕ
      → Tables
      → Try Fields × Tables
  unfolding load_source Json.put
  handle_import_budgets import iso j now t = with_source j t (λ s.
      if cfg.require_connection_approval && not (has s.approved_capabilities "budgets")
      then (refused "Budget import approval is required for this connection.", t)
      else let (result, t') = import s t in
        elim result [
          | answer n ↦ (
            done (field "budgets" (Json.num n) empty),
            update_version s (imported s (iso now) now) t',
          )
          | client_error code message ↦
              if is_denial code || str_eq code "UnauthorizedOperation"
              then (
                refused
                    "AWS budget read denied. Grant budgets:ViewBudget to this account connection.",
                update_version s
                    (λ r. record r {
                      capabilities =
                          Json.put (Json.put s.capabilities "budgets" (Json.bool false))
                            "budgets_error" (Json.str code);
                    })
                    t',
              )
              else (broken, t')
          | other_error message ↦ (broken, t')
        ])
