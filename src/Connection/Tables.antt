-- ===== src/Connection/Tables.antt =====
-- The rows of billing/models.py that connections, their approval, their scheduling and their
-- activation read and write, and the settings of config/settings.py. Times are microseconds since
-- the epoch, in UTC. A UUID key is its 128-bit number.
use cloud_billing_console.Prelude.{
  ℕ, suc, ◌-◌, String, Bool, true, false, not, ◌&&◌, ◌||◌, Option, none, some, List, ltb, ◌==◌,
  str_eq, if◌then◌else◌, is_some, any, find,
}
use cloud_billing_console.Json.{Json, Items, Fields}
use cloud_billing_console.Jobs.Types.{Db}

pub data Kind : Type 0 where
  payer standalone member_budgets : Kind

pub record BillingSource : Type 0 where
  pub id : ℕ
  pub customer : ℕ
  pub kind : Kind
  pub account_id : String
  pub role_arn : String
  pub external_id : String
  pub shared : Bool
  pub enabled : Bool
  pub connection_version : ℕ
  pub capabilities : Fields
  pub approved_capabilities : List String
  pub trust_checks : Fields
  pub sync_requested : Bool
  pub initial_import_done : Bool
  pub verified_at : Option ℕ
  pub discovered_at : Option ℕ
  pub last_attempt : Option ℕ
  pub last_success : Option ℕ
  pub last_error : String
  pub next_run : Option ℕ

pub record Customer : Type 0 where
  pub id : ℕ
  pub active : Bool

pub data Approved : Type 0 where
  pending approved revoked : Approved

pub record CustomerApproval : Type 0 where
  pub customer : ℕ
  pub contacts : List String
  pub authorized_users : List String
  pub expected_accounts : List String
  pub billing_fields : List String
  pub metadata : List String
  pub optional_capabilities : List String
  pub storage_region : String
  pub retention_days : Option ℕ
  pub status : Approved
  pub evidence : String
  pub approved_by : String
  pub approved_at : Option ℕ

-- The status `requested` is `Approved.pending`.
pub record RoleApproval : Type 0 where
  pub source : ℕ
  pub role_arn : String
  pub connection_version : ℕ
  pub status : Approved
  pub evidence : String
  pub requested_by : String
  pub approved_by : String
  pub approved_at : Option ℕ

-- The consent form, as `normalized_consent` returns it.
pub record Consent : Type 0 where
  pub contact : String
  pub evidence : String
  pub retention_days : ℕ

-- `external_id_sha256` is the digest.
pub record SourceSnapshot : Type 0 where
  pub source_id : ℕ
  pub customer_id : ℕ
  pub account_id : String
  pub role_arn : String
  pub external_id_sha256 : String
  pub connection_version : ℕ
  pub kind : Kind
  pub shared : Bool
  pub approved_capabilities : List String

pub record Snapshot : Type 0 where
  pub source : SourceSnapshot
  pub approval : Option CustomerApproval
  pub role_approval : Option RoleApproval
  pub consent : Consent
  pub region : String

pub data Progress : Type 0 where
  queued processing verifying importing completed failed : Progress

pub record ActivationRequest : Type 0 where
  pub id : ℕ
  pub source : ℕ
  pub requested_by : ℕ
  pub session_version : ℕ
  pub connection_version : ℕ
  pub snapshot : Snapshot
  pub status : Progress
  pub attempts : ℕ
  pub last_error : String
  pub created_at : ℕ
  pub activated_at : Option ℕ
  pub finished_at : Option ℕ

-- The user and the row of UserSecurity that belongs to it.
pub record Administrator : Type 0 where
  pub id : ℕ
  pub username : String
  pub is_active : Bool
  pub is_superuser : Bool
  pub portfolio_access : Bool
  pub external : Bool
  pub session_version : ℕ

-- What `security_event` records of a connection.
pub record Event : Type 0 where
  pub actor : String
  pub action : String
  pub source : ℕ
  pub target : ℕ
  pub failed : Bool

pub record Tables : Type 0 where
  pub queue : Db
  pub sources : List BillingSource
  pub customers : List Customer
  pub approvals : List CustomerApproval
  pub role_approvals : List RoleApproval
  pub requests : List ActivationRequest
  pub next_request : ℕ
  pub users : List Administrator
  pub events : List Event

pub record Config : Type 0 where
  pub require_connection_approval : Bool
  pub history_months : ℕ
  pub reconcile_months : ℕ
  pub aws_region : String
  pub runtime_role : String
  pub collector_role_arn : String
  pub supported_aws_partitions : List String
  pub onboarding_broker_function : String

-- What a call of the code ends with: `refused` is an exception that its callers here handle by its
-- message (ValidationError, PermissionDenied, ActivationInvalid, PermanentJobError, and in
-- assert_role_allowed ValueError), `broken` any other exception.
pub data Try (A : Type 0) : Type 0 where
  refused : String → Try A
  broken : Try A
  done : A → Try A

module _ {A : Type 0} where
  -- `if not test: raise ...(message)` before the rest.
  abbrev pub unless : Bool → String → Try A → Try A
  unless true message rest = rest
  unless false message rest = refused message

  abbrev pub then_do : {B : Type 0} → Try A → (A → Try B) → Try B
  then_do (refused message) f = refused message
  then_do broken f = broken
  then_do (done a) f = f a

-- The truth value of a JSON value, and of `fields.get(key)`.
abbrev pub truth : Json → Bool
truth Json.null = false
truth (Json.bool b) = b
truth (Json.num n) = not (n == 0)
truth (Json.str s) = not (str_eq s "")
truth (Json.arr Items.nil) = false
truth (Json.arr _) = true
truth (Json.dict Fields.empty) = false
truth (Json.dict _) = true

abbrev pub truthy : Option Json → Bool
truthy none = false
truthy (some v) = truth v

-- fields.get(key) == text
abbrev pub is_text : Option Json → String → Bool
is_text (some (Json.str s)) t = str_eq s t
is_text _ t = false

-- fields.get(key) == number
abbrev pub is_number : Option Json → ℕ → Bool
is_number (some (Json.num n)) k = n == k
is_number (some (Json.bool true)) k = k == 1
is_number (some (Json.bool false)) k = k == 0
is_number _ k = false

-- len(s)
abbrev pub chars : String → ℕ
chars String.[] = 0
chars (String.◌∷◌ c s) = suc (chars s)

-- a is not None and a < b
abbrev pub earlier : Option ℕ → ℕ → Bool
earlier none b = false
earlier (some a) b = ltb a b

-- not a or a < b
abbrev pub missing_or_earlier : Option ℕ → ℕ → Bool
missing_or_earlier none b = true
missing_or_earlier (some a) b = ltb a b

abbrev pub same_kind : Kind → Kind → Bool
same_kind Kind.payer Kind.payer = true
same_kind Kind.standalone Kind.standalone = true
same_kind Kind.member_budgets Kind.member_budgets = true
same_kind _ _ = false

abbrev pub is_approved : Approved → Bool
is_approved Approved.approved = true
is_approved _ = false

abbrev pub is_revoked : Approved → Bool
is_revoked Approved.revoked = true
is_revoked _ = false

-- status__in=['queued', 'processing', 'verifying', 'importing']
abbrev pub is_running : Progress → Bool
is_running Progress.completed = false
is_running Progress.failed = false
is_running _ = true

-- The property `collects_costs`.
abbrev pub collects_costs : BillingSource → Bool
collects_costs s = not (same_kind s.kind Kind.member_budgets)

-- source.customer.active, through the foreign key
abbrev pub customer_active : Tables → BillingSource → Bool
customer_active t s = any (λ (c : Customer). (c.id == s.customer) && c.active) t.customers

-- BillingSource.objects.filter(pk=pk).first()
abbrev pub source_row : Tables → ℕ → Option BillingSource
source_row t pk = find (λ (s : BillingSource). s.id == pk) t.sources

-- BillingSource.STALE_AFTER
abbrev stale_after : ℕ
stale_after = 43200000000

-- The property `state`: `denied` is the test of the last error for an AWS permission problem,
-- `partial` is whether a period has failed or is partial.
unfoldable pub state : (String → Bool) → Bool → ℕ → BillingSource → String
state denied partial now s =
    if not s.enabled
    then "Paused"
    else if str_eq s.role_arn "" || not (is_some s.verified_at)
    then "Awaiting customer setup"
    else if not (str_eq s.last_error "") && denied s.last_error
    then "Permission problem"
    else if not (is_some s.discovered_at)
    then "Connection verified"
    else if not (is_some s.last_success) && not (is_some s.last_attempt)
    then "Account discovery complete"
    else if not s.initial_import_done
    then "Initial import running"
    else if not (str_eq s.last_error "") || partial
    then "Partial data"
    else if earlier s.last_success (now - stale_after)
    then "Stale data"
    else "Connected"
