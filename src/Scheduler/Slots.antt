-- ===== src/Scheduler/Slots.antt =====
-- billing/scheduler.py: the slots of six hours, when a connection may be collected, and the jobs of
-- it that are pending.
use cloud_billing_console.Prelude.{
  ℕ, ◌+◌, ◌*◌, ◌/◌, ◌%◌, max, String, Bool, true, false, not, ◌&&◌, ◌||◌, Option, none, some, List,
  [], ◌∷◌, ltb, ◌==◌, str_eq, if◌then◌else◌, is_some, any, select,
}
use Prim.Native.String.{◌++◌ as text_append}
use cloud_billing_console.Prelude.Texts.{has}
use cloud_billing_console.Json
use cloud_billing_console.Json.{Json}
use cloud_billing_console.Jobs.Types.{Job, is_active, second}
use cloud_billing_console.Connection.Tables.{
  BillingSource, ActivationRequest, Tables, Config, truthy, is_running, collects_costs,
  customer_active,
}
use cloud_billing_console.Connection.Approval.{approval_ready, trust_confirmed}

-- Python's rendering and reading of keys, numbers and times: `str` of a UUID and of a number,
-- strftime('%Y%m%dT%H'), the day of the month, and `parse_datetime` with UTC where the text names
-- no zone.
pub record Format : Type 0 where
  pub name : ℕ → String
  pub digits : ℕ → String
  pub stamp : ℕ → String
  pub day : ℕ → ℕ
  pub parse_time : String → Option ℕ

abbrev pub minute : ℕ
minute = 60 * second

abbrev hour : ℕ
hour = 60 * minute

-- SLOT_HOURS
abbrev pub slot_hours : ℕ
slot_hours = 6

abbrev pub hour_of : ℕ → ℕ
hour_of t = t / hour % 24

-- weekday(): the epoch is a Thursday.
abbrev weekday : ℕ → ℕ
weekday t = (t / (24 * hour) + 3) % 7

-- now.replace(hour=hour, minute=0, second=0, microsecond=0)
unfoldable pub slot_for : ℕ → ℕ
slot_for now = now / (24 * hour) * (24 * hour) + hour_of now / slot_hours * slot_hours * hour

unfoldable pub next_slot : ℕ → ℕ
unfolding slot_for
next_slot now = slot_for now + slot_hours * hour

unfoldable pub reconcile_months : Format → Config → ℕ → ℕ
reconcile_months f cfg slot =
    if (f.day slot == 2) && (hour_of slot == 0)
    then cfg.history_months
    else if (weekday slot == 6) && (hour_of slot == 0)
    then cfg.reconcile_months
    else 1

-- The value of `capabilities.get('budgets_imported_at')`, read as a time.
abbrev imported_at : Format → Option Json → Option ℕ
imported_at f (some (Json.str v)) = f.parse_time v
imported_at f _ = none

unfoldable pub collection_initialized : BillingSource → Bool
collection_initialized s =
    if collects_costs s
    then s.initial_import_done
    else s.initial_import_done
      || is_some s.last_success
      || truthy (Json.get s.capabilities "budgets_imported_at")

unfoldable pub imports_budgets : Config → BillingSource → Bool
imports_budgets cfg s =
    has s.approved_capabilities "budgets"
    || not cfg.require_connection_approval && truthy (Json.get s.capabilities "budgets")

-- The empty text where collection may start, else the reason why not.
unfoldable pub collection_readiness : Config → Tables → BillingSource → String
unfolding approval_ready imports_budgets Json.get
collection_readiness cfg t s =
    if not s.enabled || not (customer_active t s)
    then "Resume this connection and customer before pulling data."
    else if str_eq s.role_arn "" || not (is_some s.verified_at)
    then "Connect and verify this AWS account before pulling data."
    else if any (λ (r : ActivationRequest). (r.source == s.id) && is_running r.status) t.requests
    then "Wait for the connection setup to finish before pulling data."
    else if collects_costs s && not (is_some s.discovered_at)
    then "Wait for account discovery to finish before pulling data."
    else if cfg.require_connection_approval && not (approval_ready cfg t s)
    then "Current customer and role approval are required before pulling data."
    else if cfg.require_connection_approval && not (trust_confirmed s)
    then "Verify the current connection settings before pulling data."
    else if not (collects_costs s) && not (imports_budgets cfg s)
    then "Approve AWS budget access before pulling data."
    else ""

-- payload__connection_version=v or payload__connection_version__isnull=True
abbrev pub is_for_version : Option Json → ℕ → Bool
is_for_version none v = true
is_for_version (some (Json.num n)) v = n == v
is_for_version _ v = false

abbrev pub is_of_source : Option ℕ → ℕ → Bool
is_of_source none s = false
is_of_source (some k) s = k == s

unfoldable pub is_pending : BillingSource → String → Job → Bool
unfolding Json.get
is_pending s kind j =
    is_of_source j.source s.id
    && str_eq j.kind kind
    && is_active j.status
    && is_for_version (Json.get j.payload "connection_version") s.connection_version

-- The first of the rows in the order `created_at`.
abbrev pub older : Job → Option Job → Job
older j none = j
older j (some k) = if ltb k.created_at j.created_at then k else j

unfoldable pub oldest : List Job → Option Job
oldest [] = none
oldest (j ∷ js) = some (older j (oldest js))

unfoldable pub pending_job : BillingSource → String → List Job → Option Job
unfolding is_pending oldest
pending_job s kind jobs = oldest (select (is_pending s kind) jobs)

abbrev pub later : Option ℕ → Option ℕ → Option ℕ
later none b = b
later a none = a
later (some a) (some b) = some (max a b)

unfoldable pub budget_success : Format → BillingSource → Option ℕ
unfolding Json.get
budget_success f s =
    let imported : Option ℕ = imported_at f (Json.get s.capabilities "budgets_imported_at") in
    if collects_costs s then imported else later s.last_success imported

abbrev pub key_at : Format → BillingSource → String → ℕ → String
key_at f s kind slot = text_append kind (
    text_append ":" (
      text_append (f.name s.id) (
        text_append ":v"
          (text_append (f.digits s.connection_version) (text_append ":" (f.stamp slot))))))

-- f'{kind}:{source.pk}:v{source.connection_version}:{slot_for(now):%Y%m%dT%H}'
unfoldable pub slot_key : Format → BillingSource → String → ℕ → String
unfolding slot_for
slot_key f s kind now = key_at f s kind (slot_for now)
