-- ===== src/Activation/Snapshots.antt =====
-- billing/activation.py: the snapshots that a request freezes, and their comparison.
use cloud_billing_console.Prelude.{
  ℕ, String, Bool, true, false, not, ◌&&◌, Option, none, some, List, [], ◌∷◌, ◌++◌, ◌==◌, str_eq,
  find,
}
use cloud_billing_console.Json.{Json, Fields, empty, field}
use cloud_billing_console.Connection.Tables.{
  Approved, BillingSource, CustomerApproval, RoleApproval, Consent, SourceSnapshot, Tables,
  same_kind, is_approved, is_revoked,
}
use cloud_billing_console.Connection.Approval.{is_of_role}

abbrev pub texts_eq : List String → List String → Bool
texts_eq [] [] = true
texts_eq (a ∷ as_) (b ∷ bs) = str_eq a b && texts_eq as_ bs
texts_eq _ _ = false

abbrev pub same_number : Option ℕ → Option ℕ → Bool
same_number none none = true
same_number (some a) (some b) = a == b
same_number _ _ = false

abbrev pub same_bool : Bool → Bool → Bool
same_bool true b = b
same_bool false b = not b

abbrev pub same_status : Approved → Approved → Bool
same_status a b =
    same_bool (is_approved a) (is_approved b) && same_bool (is_revoked a) (is_revoked b)

abbrev pub same_source : SourceSnapshot → SourceSnapshot → Bool
same_source a b =
    (a.source_id == b.source_id)
    && (a.customer_id == b.customer_id)
    && str_eq a.account_id b.account_id
    && str_eq a.role_arn b.role_arn
    && str_eq a.external_id_sha256 b.external_id_sha256
    && (a.connection_version == b.connection_version)
    && same_kind a.kind b.kind
    && same_bool a.shared b.shared
    && texts_eq a.approved_capabilities b.approved_capabilities

-- Equality of the snapshots of two approvals, on the columns of APPROVAL_FIELDS.
abbrev pub same_approval : Option CustomerApproval → Option CustomerApproval → Bool
same_approval none none = true
same_approval (some a) (some b) =
    texts_eq a.contacts b.contacts
    && texts_eq a.authorized_users b.authorized_users
    && texts_eq a.expected_accounts b.expected_accounts
    && texts_eq a.billing_fields b.billing_fields
    && texts_eq a.metadata b.metadata
    && texts_eq a.optional_capabilities b.optional_capabilities
    && str_eq a.storage_region b.storage_region
    && same_number a.retention_days b.retention_days
    && same_status a.status b.status
    && str_eq a.evidence b.evidence
    && str_eq a.approved_by b.approved_by
same_approval _ _ = false

abbrev pub same_role_approval : Option RoleApproval → Option RoleApproval → Bool
same_role_approval none none = true
same_role_approval (some a) (some b) =
    same_status a.status b.status
    && str_eq a.evidence b.evidence
    && str_eq a.approved_by b.approved_by
    && str_eq a.requested_by b.requested_by
same_role_approval _ _ = false

abbrev pub same_consent : Consent → Consent → Bool
same_consent a b =
    str_eq a.contact b.contact
    && str_eq a.evidence b.evidence
    && (a.retention_days == b.retention_days)

-- CustomerApproval.objects.filter(customer=source.customer).first()
abbrev pub customer_approval : Tables → BillingSource → Option CustomerApproval
customer_approval t s = find (λ (a : CustomerApproval). a.customer == s.customer) t.approvals

abbrev pub role_approval_snapshot : Tables → BillingSource → Option RoleApproval
role_approval_snapshot t s = find (is_of_role s) t.role_approvals

-- The dict of a normalized consent.
abbrev pub consent_fields : Consent → Fields
consent_fields c = field "contact" (Json.str c.contact) (
    field "evidence" (Json.str c.evidence) (
      field "retention_days" (Json.num c.retention_days)
        (field "confirmed" (Json.bool true) empty)))

abbrev pub is_true : Option Json → Bool
is_true (some (Json.bool b)) = b
is_true _ = false

abbrev pub add_event : String → String → ℕ → ℕ → Bool → Tables → Tables
add_event actor action source target failed t = record t {
  events =
      t.events
      ++ record {
        actor = actor;
        action = action;
        source = source;
        target = target;
        failed = failed;
      }
        ∷ [];
}
