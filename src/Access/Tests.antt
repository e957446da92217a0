-- ===== src/Access/Tests.antt =====
-- Concrete requests: an operator of customer 7 for one account, who also views customer 8.
use cloud_billing_console.Prelude.{
  ℕ, String, ◌≡◌, refl, ◌≢◌, Bool, true, false, not, ◌&&◌, none, some, List, [], ◌∷◌, arith, ◌==◌,
  str_eq, if◌then◌else◌, In,
}
use cloud_billing_console.Access.Tables.{Value, num, text, Access, path_of, accounts_of}
use cloud_billing_console.Access.Membership.{Role, Membership, User, for_user}
use cloud_billing_console.Access.Restriction.{restriction}
use cloud_billing_console.Access.Validation.{
  allowed, attribute_error, validate_object, validate_changes, validate_delete, bulk_update,
  bulk_create,
}
use cloud_billing_console.Access.Revocation.{IsGrant, IsGranted, visible_by_membership}
use cloud_billing_console.Access.Accepted.{accepted_visible}
use cloud_billing_console.Access.Guards.{logs_append_only}

-- Objects are numbers: 10 and 11 are costs, 12 an alliance record whose account is not set, 13 an audit
-- event, 14 a budget.
abbrev cells : List (ℕ × (String × Value ℕ))
cells =
    (10, ("customer_id", num 7))
    ∷ (10, ("account_id", text "111111111111"))
    ∷ (11, ("customer_id", num 7))
    ∷ (11, ("account_id", text "222222222222"))
    ∷ (12, ("customer_id", num 7))
    ∷ (13, ("customer_id", num 7))
    ∷ (14, ("customer_id", num 8))
    ∷ []

abbrev cell : List (ℕ × (String × Value ℕ)) → ℕ → String → Value ℕ
cell [] o k = Value.missing
cell ((p, (name, v)) ∷ rest) o k = if (p == o) && str_eq name k then v else cell rest o k

abbrev attribute : ℕ → String → Value ℕ
attribute = cell cells

abbrev no_fingerprint : Access → String
no_fingerprint a = "f"

abbrev no_rows : String → List ℕ
no_rows name = []

abbrev no_relations : ℕ → List (String × String)
no_relations o = []

abbrev is_new : ℕ → Bool
is_new o = not (o == 13)

abbrev operator_of_seven : Membership
operator_of_seven = record {
  user = 1;
  customer_id = 7;
  customer_active = true;
  expires_at = some 2000;
  role = Role.operator;
  account_ids = "111111111111" ∷ [];
  active = true;
}

abbrev viewer_of_eight : Membership
viewer_of_eight = record {
  user = 1;
  customer_id = 8;
  customer_active = true;
  expires_at = none;
  role = Role.viewer;
  account_ids = [];
  active = true;
}

abbrev members : List Membership
members = operator_of_seven ∷ viewer_of_eight ∷ []

abbrev alice : User
alice = record {
  pk = 1;
  username = "alice";
  is_superuser = false;
  is_authenticated = true;
  is_active = true;
}

abbrev access_at : ℕ → Bool → Access
access_at now write = for_user false now members [] alice write

-- An expired membership gives nothing at the next request.
expired :
    restriction attribute no_fingerprint [] true (some (access_at 2000 false)) "Cost" 10 ≡ false
unfolding restriction for_user accounts_of
expired = refl

other_account :
    restriction attribute no_fingerprint [] true (some (access_at 1000 false)) "Cost" 11 ≡ false
unfolding restriction for_user accounts_of
other_account = refl

not_editable :
    restriction attribute no_fingerprint [] true (some (access_at 1000 true)) "Budget" 14 ≡ false
unfolding restriction for_user accounts_of
not_editable = refl

-- A record whose account is not set ends in an uncaught error for a user who is restricted to
-- accounts.
no_account :
    validate_object attribute no_fingerprint no_rows no_relations is_new true
      (some (access_at 1000 true))
      "AllianceRecord"
      12
    ≡ attribute_error
unfolding validate_object for_user accounts_of
no_account = refl

visible_by_membership_example :
    (m : Membership) × (IsGrant false 1000 [] alice true m
      × IsGranted attribute 1000 members alice "Cost" 10 ("customer_id" ∷ []) m)
unfolding restriction for_user path_of accounts_of
visible_by_membership_example =
    visible_by_membership attribute no_fingerprint [] false 1000 members [] alice true "Cost"
      ("customer_id" ∷ []) 10 (((λ u c. omega arith), tt), (tt, tt)) refl refl refl refl

accepted_visible_example :
    restriction attribute no_fingerprint [] true (some (access_at 1000 true)) "Cost" 10 ≡ true
unfolding validate_object for_user path_of accounts_of
accepted_visible_example =
    accepted_visible attribute no_fingerprint no_rows no_relations is_new (access_at 1000 true)
      "Cost" ("customer_id" ∷ []) 10 refl refl refl refl refl

logs_append_only_example :
    (((fields : List String)
        → validate_changes true (some (access_at 1000 true)) "AuditEvent" fields ≢ allowed)
      × (validate_delete (some (access_at 1000 true)) "AuditEvent" ≢ allowed))
    × ((((os : List ℕ) (fields : List String)
            → bulk_update attribute no_fingerprint no_rows no_relations is_new true
                (some (access_at 1000 true))
                "AuditEvent"
                os
                fields
              ≢ allowed)
          × ((os : List ℕ) (o : ℕ)
              → In o os
              → is_new o ≡ false
              → bulk_create attribute no_fingerprint no_rows no_relations is_new true
                  (some (access_at 1000 true))
                  "AuditEvent"
                  os
                ≢ allowed))
        × ((o : ℕ)
            → is_new o ≡ false
            → validate_object attribute no_fingerprint no_rows no_relations is_new true
                (some (access_at 1000 true))
                "AuditEvent"
                o
              ≢ allowed))
logs_append_only_example =
    logs_append_only attribute no_fingerprint no_rows no_relations is_new (access_at 1000 true)
      "AuditEvent" refl
