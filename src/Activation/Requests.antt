-- ===== src/Activation/Requests.antt =====
-- billing/activation.py: what an administrator asks for, and whether it still
-- holds. The development database's path is here; the function of the production database
-- is SQL.
use cloud_billing_console.Prelude.{
  ℕ, ◌+◌, ◌-◌, String, Bool, false, not, ◌&&◌, Option, none, some, [], ◌∷◌, ◌++◌, leb, ◌==◌, str_eq,
  if◌then◌else◌, is_some, any, find,
}
use text.Mathlib.Text.{starts_with}
use cloud_billing_console.Prelude.Texts.{has, sorted_set}
use cloud_billing_console.Json
use cloud_billing_console.Json.{Json, Fields, empty, field}
use cloud_billing_console.Connection.Tables.{
  Kind, BillingSource, CustomerApproval, RoleApproval, Consent, SourceSnapshot, Progress,
  ActivationRequest, Administrator, Tables, Config, Try, refused, broken, done, unless, then_do,
  chars, customer_active, same_kind, is_approved, is_revoked, is_running, source_row,
}
use cloud_billing_console.Connection.Approval.{
  Arn, optional_permissions, is_of_role, is_given, is_subset, approval_ready, validate_role_arn,
}
use cloud_billing_console.Activation.Snapshots.{
  texts_eq, same_number, same_source, same_approval, same_role_approval, same_consent,
  customer_approval, role_approval_snapshot, consent_fields, is_true, add_event,
}

-- `strip` is Python's, `digest` the SHA-256 of a text.
module _ (strip : String → String) (digest : String → String) where
  abbrev pub source_snapshot : BillingSource → SourceSnapshot
  source_snapshot s = record {
    source_id = s.id;
    customer_id = s.customer;
    account_id = s.account_id;
    role_arn = s.role_arn;
    external_id_sha256 = digest s.external_id;
    connection_version = s.connection_version;
    kind = s.kind;
    shared = s.shared;
    approved_capabilities = sorted_set s.approved_capabilities;
  }

  -- A text of the form, with at most as many characters.
  abbrev text_of : String → ℕ → Option Json → Try String
  text_of message maximum (some (Json.str v)) =
      unless (leb 1 (chars (strip v)) && leb (chars (strip v)) maximum) message (done (strip v))
  text_of message maximum none =
      unless (leb 1 (chars (strip "")) && leb (chars (strip "")) maximum) message (done (strip ""))
  text_of message maximum _ = refused message

  abbrev days_of : Option Json → Try ℕ
  days_of (some (Json.num n)) =
      unless (leb 1 n && leb n 3650) "Choose a billing retention period between 1 and 3650 days."
        (done n)
  days_of _ = refused "Choose a billing retention period between 1 and 3650 days."

  unfoldable pub normalized_consent : Fields → Try Consent
  unfolding Json.get
  normalized_consent consent =
      unless (is_true (Json.get consent "confirmed"))
        "Confirm that you are authorized to connect this account and import its billing data."
        (then_do
          (text_of "Enter a valid contact (up to 250 characters)." 250 (Json.get consent "contact"))
          (λ contact.
            then_do
              (text_of "Enter a valid evidence (up to 500 characters)." 500
                (Json.get consent "evidence"))
              (λ evidence. then_do (days_of (Json.get consent "retention_days")) (λ days.
                done (record { contact = contact; evidence = evidence; retention_days = days })))))

  module _ (role_re : String → Option Arn) (role_name : String → Bool) (is_wild : String → Bool)
      (cfg : Config) where
    unfoldable pub validate_automated_source : Tables → BillingSource → Try Unit
    unfolding validate_role_arn
    validate_automated_source t s =
        then_do (validate_role_arn role_re role_name is_wild cfg s.role_arn (some s.account_id))
          (λ m.
            unless
              (starts_with m.path "BillingConsole/"
                && not (str_eq s.role_arn cfg.collector_role_arn))
              "Automatic connection requires a customer role under BillingConsole/."
              (unless (s.enabled && customer_active t s)
                "Resume the connection and customer before connecting."
                (unless (not s.shared)
                  "Shared payer connections require the reviewed administration workflow."
                  (unless (not (same_kind s.kind Kind.payer))
                    "Automatic onboarding supports single accounts and member budget readers. Organization-wide payer connections require review."
                    (unless (is_subset s.approved_capabilities optional_permissions)
                      "Choose only supported optional permissions."
                      (unless
                        (not (
                          same_kind s.kind Kind.standalone
                          && has s.approved_capabilities "organizations"))
                        "Single-account connections must not request organization-wide inventory."
                        (unless
                          (not (
                            same_kind s.kind Kind.member_budgets
                            && not (texts_eq s.approved_capabilities ("budgets" ∷ []))))
                          "Member budget readers require only the Budgets optional permission."
                          (unless
                            (not (
                              any (λ (r : RoleApproval). is_of_role s r && is_revoked r.status)
                                t.role_approvals))
                            "This role approval was revoked. An administrator must review reactivation."
                            (done tt)))))))))

    unfoldable pub administrator : Tables → ℕ → ℕ → Try Administrator
    administrator t user session =
        elim (find
          (λ (a : Administrator).
            (a.id == user)
            && a.is_active
            && a.is_superuser
            && a.portfolio_access
            && not a.external
            && (a.session_version == session))
          t.users) [
            | none ↦
                refused "A currently signed-in portfolio administrator must connect this account."
            | some a ↦ done a
          ]

    unfoldable pub check_existing_approval : Option CustomerApproval → Consent → Try Unit
    check_existing_approval none c = done tt
    check_existing_approval (some a) c =
        if is_revoked a.status
        then refused "Customer approval was revoked. An administrator must review reactivation."
        else if not (is_approved a.status)
        then done tt
        else unless
            (str_eq a.storage_region cfg.aws_region
              && same_number a.retention_days (some c.retention_days))
            "Use the existing customer storage region and retention period when adding an account."
            (unless
              (is_given a.contacts
                && is_given a.authorized_users
                && is_given a.billing_fields
                && not (str_eq a.evidence "")
                && not (str_eq a.approved_by "")
                && is_some a.approved_at)
              "The existing customer approval needs administration review." (done tt))

    -- The new row of a request.
    abbrev new_request : Tables → BillingSource → Administrator → Consent → ℕ → ActivationRequest
    new_request t s a c now = record {
      id = t.next_request;
      source = s.id;
      requested_by = a.id;
      session_version = a.session_version;
      connection_version = s.connection_version;
      snapshot = record {
        source = source_snapshot s;
        approval = customer_approval t s;
        role_approval = role_approval_snapshot t s;
        consent = c;
        region = cfg.aws_region;
      };
      status = Progress.queued;
      attempts = 0;
      last_error = "";
      created_at = now;
      activated_at = none;
      finished_at = none;
    }

    -- The transaction of `request_activation` on the development database.
    unfoldable pub submit :
        Administrator → ℕ → Consent → ℕ → ℕ → Tables → Try (ActivationRequest × Tables)
    unfolding validate_automated_source check_existing_approval
    submit a session c pk now t = elim (source_row t pk) [
      | none ↦ broken
      | some s ↦ then_do (validate_automated_source t s) (λ u.
          then_do (check_existing_approval (customer_approval t s) c) (λ v.
            elim (find (λ (r : ActivationRequest). (r.source == pk) && is_running r.status)
              t.requests) [
                | some r ↦
                    unless
                      ((r.requested_by == a.id)
                        && (r.session_version == session)
                        && same_source r.snapshot.source (source_snapshot s)
                        && same_consent r.snapshot.consent c)
                      "A connection request is already running. Wait for its result before making another."
                      (done (r, t))
                | none ↦
                    let r : ActivationRequest = new_request t s a c now in
                    done (
                      r,
                      add_event a.username "Account activation requested" s.id r.id false
                          (record t {
                            requests = t.requests ++ r ∷ [];
                            next_request = t.next_request + 1;
                          }),
                    )
              ]))
    ]

    unfoldable pub request_activation :
        Bool → ℕ → ℕ → Fields → ℕ → ℕ → Tables → Try (ActivationRequest × Tables)
    unfolding administrator normalized_consent validate_automated_source submit
    request_activation mfa user session consent pk now t =
        unless mfa "Verify your authenticator before connecting this account." (
          then_do (administrator t user session) (λ a. then_do (normalized_consent consent) (λ c.
            elim (source_row t pk) [
              | none ↦ broken
              | some s ↦ then_do (validate_automated_source t s) (λ u.
                  unless (not (str_eq cfg.onboarding_broker_function ""))
                    "Automatic onboarding is not configured on this dashboard yet."
                    (submit a session c pk now t))
            ])))

    -- `except (ValidationError, PermissionDenied)`
    abbrev pub reworded : {A : Type 0} → String → Try A → Try A
    reworded message (refused m) = refused message
    reworded message broken = broken
    reworded message (done a) = done a

    abbrev pub authorized : Tables → BillingSource → ActivationRequest → Try Unit
    authorized t s r = then_do (administrator t r.requested_by r.session_version) (λ a.
        then_do (validate_automated_source t s)
          (λ u. then_do (normalized_consent (consent_fields r.snapshot.consent)) (λ c. done tt)))

    -- A request expires after this time.
    abbrev pub one_day : ℕ
    one_day = 86400000000

    abbrev pub before_activation :
        Tables → BillingSource → ActivationRequest → ℕ → Try BillingSource
    before_activation t s r now =
        unless (leb (now - one_day) r.created_at)
          "This connection request expired. Submit it again from the dashboard."
          (unless (same_approval (customer_approval t s) r.snapshot.approval)
            "Customer approval changed. Review it and submit a new request."
            (unless (same_role_approval (role_approval_snapshot t s) r.snapshot.role_approval)
              "Role approval changed. Review it and submit a new request."
              (then_do (check_existing_approval (customer_approval t s) r.snapshot.consent)
                (λ u. done s))))

    abbrev pub is_unchanged : ActivationRequest → BillingSource → Bool
    is_unchanged r s =
        same_source r.snapshot.source (source_snapshot s) && str_eq r.snapshot.region cfg.aws_region

    unfoldable pub still_valid :
        Bool → ActivationRequest → ℕ → Tables → BillingSource → Try BillingSource
    unfolding check_existing_approval approval_ready
    still_valid after_activation r now t s =
        unless (is_unchanged r s)
          "The connection changed. Review the account and submit a new request."
          (if after_activation
            then unless (approval_ready cfg t s) "Connection approval was revoked or changed."
                (done s)
            else before_activation t s r now)

    abbrev pub reauthorized : Tables → BillingSource → ActivationRequest → Try Unit
    reauthorized t s r =
        reworded "Connection authorization changed. Review the account and submit a new request."
          (authorized t s r)

    abbrev pub revalidate_row :
        Bool → ActivationRequest → ℕ → Tables → Option BillingSource → Try BillingSource
    revalidate_row after_activation r now t none = broken
    revalidate_row after_activation r now t (some s) =
        then_do (reauthorized t s r) (λ u. still_valid after_activation r now t s)

    unfoldable pub revalidate : Bool → ActivationRequest → ℕ → Tables → Try BillingSource
    unfolding still_valid administrator validate_automated_source normalized_consent
    revalidate after_activation r now t =
        revalidate_row after_activation r now t (source_row t r.source)
