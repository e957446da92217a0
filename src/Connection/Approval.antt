-- ===== src/Connection/Approval.antt =====
-- billing/iam.py: the ARN of a customer's role, and the approval that the access to it needs.
use cloud_billing_console.Prelude.{
  ℕ, String, Bool, true, false, not, ◌&&◌, ◌||◌, Option, none, some, List, [], ◌∷◌, leb, ◌==◌,
  str_eq, is_some, any, all, find,
}
use cloud_billing_console.Json
use cloud_billing_console.Prelude.Texts.{has}
use cloud_billing_console.Connection.Tables.{
  BillingSource, CustomerApproval, RoleApproval, Tables, Config, Try, refused, broken, done, unless,
  then_do, chars, customer_active, is_approved, is_text, is_number,
}

-- The groups of ROLE_RE.
pub record Arn : Type 0 where
  pub partition : String
  pub account : String
  pub path : String

-- The keys of OPTIONAL.
abbrev pub optional_permissions : List String
optional_permissions =
    "organizations" ∷ "tags" ∷ "cost_categories" ∷ "forecasts" ∷ "comparison_drivers" ∷ "resources"
    ∷ "budgets" ∷ []

-- The role approval of exactly this connection.
abbrev pub is_of_role : BillingSource → RoleApproval → Bool
is_of_role s r =
    (r.source == s.id)
    && str_eq r.role_arn s.role_arn
    && (r.connection_version == s.connection_version)

abbrev pub is_subset : List String → List String → Bool
is_subset xs ys = all (has ys) xs

abbrev pub is_given : List String → Bool
is_given [] = false
is_given _ = true

-- The first approved row of the customer.
abbrev pub approval_of : Tables → BillingSource → Option CustomerApproval
approval_of t s =
    find (λ (a : CustomerApproval). (a.customer == s.customer) && is_approved a.status) t.approvals

abbrev pub is_nonzero : Option ℕ → Bool
is_nonzero none = false
is_nonzero (some n) = not (n == 0)

-- all([approval.evidence, ...])
abbrev pub is_filled : CustomerApproval → Bool
is_filled a =
    not (str_eq a.evidence "")
    && is_given a.contacts
    && is_given a.billing_fields
    && not (str_eq a.storage_region "")
    && is_nonzero a.retention_days
    && is_some a.approved_at
    && not (str_eq a.approved_by "")

abbrev pub covers : Config → BillingSource → CustomerApproval → Bool
covers cfg s a =
    is_filled a
    && str_eq a.storage_region cfg.aws_region
    && has a.expected_accounts s.account_id
    && is_subset s.approved_capabilities a.optional_capabilities

abbrev pub approves : BillingSource → RoleApproval → Bool
approves s r =
    is_of_role s r && is_approved r.status && is_some r.approved_at && not (str_eq r.evidence "")

-- A ValidationError, which is no ValueError, goes through the callers.
abbrev pub uncaught : {A : Type 0} → Try A → Try A
uncaught (refused message) = broken
uncaught broken = broken
uncaught (done a) = done a

unfoldable pub approval_ready : Config → Tables → BillingSource → Bool
approval_ready cfg t s = elim (approval_of t s) [
  | none ↦ false
  | some a ↦ covers cfg s a && any (approves s) t.role_approvals
]

-- `deployed` is what reading COLLECTOR_ALLOWLIST_FILE gives: no path, no JSON, a JSON value
-- that is no list, or a list of texts.
pub data Deployed : Type 0 where
  unset unreadable no_list : Deployed
  listed : List String → Deployed

abbrev pub is_deployed : Deployed → String → Try Unit
is_deployed unset arn = refused "The collector deployment allowlist is not configured."
is_deployed unreadable arn = refused "The collector deployment allowlist cannot be read."
is_deployed no_list arn =
    refused "This exact customer role ARN is not in the deployed collector allowlist."
is_deployed (listed xs) arn =
    unless (has xs arn) "This exact customer role ARN is not in the deployed collector allowlist."
      (done tt)

-- `role_re` is `re.fullmatch` of ROLE_RE, `role_name` the pattern of a role's name on the last
-- part of its path, `is_wild` whether a text has one of the characters * and ?.
module _ (role_re : String → Option Arn) (role_name : String → Bool) (is_wild : String → Bool)
    (cfg : Config) where
  abbrev pub other_partition : Arn → Bool
  other_partition m = elim (role_re cfg.collector_role_arn) [
    | none ↦ false
    | some c ↦ not (str_eq c.partition m.partition)
  ]

  unfoldable pub validate_role_arn : String → Option String → Try Arn
  validate_role_arn arn account = elim (role_re arn) [
    | none ↦
        refused
          "Enter an exact IAM role ARN with a valid role name and path; wildcards are not allowed."
    | some m ↦
        unless (leb (chars arn) 2048 && not (is_wild arn) && role_name m.path)
          "Enter an exact IAM role ARN with a valid role name and path; wildcards are not allowed."
          (unless (elim account [ none ↦ true | some a ↦ str_eq a "" || str_eq m.account a ])
            "The role ARN must match the registered 12-digit AWS account."
            (unless (has cfg.supported_aws_partitions m.partition)
              "This AWS partition is not supported by the configured collector."
              (unless (not (other_partition m))
                "Customer and collector must use the same AWS partition." (done m))))
  ]

  unfoldable pub assert_role_allowed : Tables → Deployed → BillingSource → Try Unit
  unfolding validate_role_arn approval_ready
  assert_role_allowed t deployed s =
      unless (str_eq cfg.runtime_role "collector")
        "Customer AWS access is restricted to the separate collector runtime."
        (then_do (uncaught (validate_role_arn s.role_arn (some s.account_id))) (λ m.
          unless (customer_active t s && s.enabled && approval_ready cfg t s)
            "Customer approval and the exact role allowlist approval are required before AWS access."
            (is_deployed deployed s.role_arn)))

-- The checks that a verification records, and that hold for the current connection version.
abbrev pub trust_confirmed : BillingSource → Bool
trust_confirmed s =
    is_text (Json.get s.trust_checks "correct_external_id") "passed"
    && is_text (Json.get s.trust_checks "missing_external_id") "denied"
    && is_text (Json.get s.trust_checks "wrong_external_id") "denied"
    && is_text (Json.get s.trust_checks "account_identity") "passed"
    && is_text (Json.get s.trust_checks "exact_collector_principal") "passed"
    && is_number (Json.get s.trust_checks "connection_version") s.connection_version
