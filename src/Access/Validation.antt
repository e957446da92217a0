-- ===== src/Access/Validation.antt =====
-- `validate_object`, `_validate_changes` and the bulk operations of billing/access.py: what a
-- request may write.
use cloud_billing_console.Prelude.{
  String, Bool, true, false, not, ◌&&◌, ◌||◌, Option, none, some, List, [], ◌∷◌, ◌==◌, str_eq,
  if◌then◌else◌, any,
}
use cloud_billing_console.Access.Tables.{
  Value, missing, null, num, text, object, is_num, is_text, num_in, text_in, is_user, at_path,
  path_of, customer_paths, account_paths, Access, ids, account_list,
}
use cloud_billing_console.Access.Restriction.{scoped, same_num, is_nonempty}

-- PermissionDenied with its message, or an AttributeError that nothing catches.
pub data Check : Type 0 where
  allowed : Check
  denied : String → Check
  attribute_error : Check

abbrev pub require : Bool → String → Check → Check
require ok message rest = if ok then rest else denied message

abbrev pub then_check : Check → Check → Check
then_check allowed rest = rest
then_check (denied message) rest = denied message
then_check attribute_error rest = attribute_error

abbrev pub is_log : String → Bool
is_log name = str_eq name "AuditEvent" || str_eq name "AllianceRevision"

abbrev pub is_approval : String → Bool
is_approval name = str_eq name "CustomerApproval" || str_eq name "RoleApproval"

abbrev pub append_only : String
append_only = "Audit records are append-only."

abbrev pub approval_fields : List String
approval_fields = "status" ∷ "approved_by" ∷ "approved_at" ∷ "evidence" ∷ []

abbrev pub scope_fields : List String
scope_fields =
    "customer" ∷ "customer_id" ∷ "source" ∷ "source_id" ∷ "project" ∷ "project_id" ∷ "budget"
    ∷ "budget_id" ∷ "record" ∷ "record_id" ∷ "account" ∷ "account_id" ∷ []

abbrev pub is_field : List String → String → Bool
is_field fields k = any (λ f. str_eq f k) fields

-- `_validate_changes`, with the names of the changed columns.
unfoldable pub validate_changes : Bool → Option Access → String → List String → Check
validate_changes enforce none name changes = allowed
validate_changes enforce (some a) name changes =
    if not enforce
    then allowed
    else require (not (str_eq name "ActivationRequest"))
        "Activation requests can only be changed by the activation service."
        (require (not (is_approval name && any (is_field approval_fields) changes))
          "Approval changes require the administration command and evidence."
          (require (not (is_log name)) append_only (
            require (not (any (is_field scope_fields) changes))
              "Use the validated ownership workflow to change object scope." allowed)))

-- `delete` of a query set, up to the deletion itself. Model.delete of one object has no guard.
unfoldable pub validate_delete : Option Access → String → Check
validate_delete none name = allowed
validate_delete (some a) name =
    require (not (is_log name || str_eq name "ActivationRequest")) append_only allowed

-- `table` gives the rows of a model, `relations` the billing models that an object's columns refer
-- to, each with its column, and `adding` whether an object is not yet a row.
module _ {Object : Type 0} (getattr : Object → String → Value Object)
    (fingerprint : Access → String) (table : String → List Object)
    (relations : Object → List (String × String)) (adding : Object → Bool) where
  abbrev pub visible : Access → String → Object → Bool
  visible a = scoped getattr fingerprint (table "AccountAssignment") a

  -- The truth value of a column.
  abbrev pub is_truthy : Value Object → Bool
  is_truthy missing = false
  is_truthy null = false
  is_truthy (num n) = not (n == 0)
  is_truthy (text t) = not (str_eq t "")
  is_truthy (object o) = true

  -- related.objects.filter(pk=value).exists()
  unfoldable pub exists_related : Access → String → Value Object → Bool
  unfolding scoped
  exists_related a name value =
      any (λ r. same_num value (getattr r "pk") && visible a name r) (table name)

  unfoldable pub relations_visible : Access → Object → List (String × String) → Bool
  unfolding exists_related
  relations_visible a o [] = true
  relations_visible a o ((name, column) ∷ rest) =
      (if is_truthy (getattr o column) then exists_related a name (getattr o column) else true)
      && relations_visible a o rest

  abbrev pub same_id : Value Object → Value Object → Bool
  same_id null null = true
  same_id (num k) v = is_num v k
  same_id _ v = false

  -- The exception for a job that refreshes a report of the requester. `payload` is a column whose
  -- keys are read with `get`.
  unfoldable pub is_own_refresh : Access → String → Object → Bool
  unfolding at_path scoped
  is_own_refresh a name o =
      str_eq name "Job"
      && is_text (getattr o "kind") "explorer_refresh"
      && is_user (at_path getattr o ("payload" ∷ "actor_id" ∷ [])) a.user_id
      && any
          (λ q.
            same_id (getattr o "source_id") (getattr q "source_id")
            && is_user (getattr q "requested_by_id") a.user_id
            && visible a "ExplorerQuery" q)
          (table "ExplorerQuery")

  -- The last check, for an access that is restricted to the accounts `values`.
  unfoldable pub validate_account : Access → String → Object → List String → Check
  unfolding at_path path_of
  validate_account a name o [] = allowed
  validate_account a name o (value ∷ values) =
      if str_eq name "ExplorerQuery"
        && is_user (getattr o "requested_by_id") a.user_id
        && is_text (getattr o "scope_fingerprint") (fingerprint a)
      then allowed
      else if str_eq name "SavedReport" && is_text (getattr o "created_by") a.username
      then allowed
      else elim (path_of account_paths name) [
        | none ↦ denied "This operation needs whole-customer authorization."
        | some path ↦ (elim (at_path getattr o path) [
          | missing ↦ attribute_error
          | v ↦ require (text_in v (value ∷ values)) "Account scope denied." allowed
        ])
      ]

  abbrev pub accounts_at : Access → Value Object → List String
  accounts_at a (num cid) = account_list a cid
  accounts_at a _ = []

  unfoldable pub validate_owner : Access → String → Object → Value Object → Check
  unfolding validate_account relations_visible
  validate_owner a name o missing = denied "A customer scope is required."
  validate_owner a name o current =
      require (num_in current (ids a)) "The object is outside your authorized customer scope." (
        require (relations_visible a o (relations o))
          "A related object is outside your authorized scope."
          (validate_account a name o (accounts_at a current)))

  abbrev pub is_missing_customer : Value Object → Bool
  is_missing_customer null = true
  is_missing_customer _ = false

  unfoldable pub validate_path : Access → String → Object → Check
  unfolding validate_owner at_path path_of
  validate_path a name o = elim (path_of customer_paths name) [
    | none ↦ denied "No authorized scope for this object."
    | some path ↦
        if str_eq name "AuditEvent" && is_missing_customer (getattr o "customer_id")
        then require (is_text (getattr o "actor") a.username) "Invalid audit actor." allowed
        else validate_owner a name o (at_path getattr o path)
  ]

  abbrev pub holds_customer : Access → Value Object → Bool
  holds_customer a pk =
      num_in pk a.editable && (elim (accounts_at a pk) [ [] ↦ true | _ ∷ _ ↦ false ])

  unfoldable pub validate_scope : Access → String → Object → Check
  unfolding validate_path is_own_refresh
  validate_scope a name o =
      if is_own_refresh a name o
      then allowed
      else if str_eq name "BulkImport"
      then require
          (is_user (getattr o "requested_by_id") a.user_id
            && is_text (getattr o "scope_fingerprint") (fingerprint a)
            && is_nonempty a.editable)
          "This import belongs to another operator." allowed
      else if str_eq name "Customer"
      then require (holds_customer a (getattr o "pk"))
          "Customer creation requires explicit portfolio administration." allowed
      else validate_path a name o

  -- getattr(obj, 'status', 'pending') in ('pending', 'requested')
  abbrev pub is_open : Value Object → Bool
  is_open missing = true
  is_open v = is_text v "pending" || is_text v "requested"

  unfoldable pub validate_object : Bool → Option Access → String → Object → Check
  unfolding validate_scope
  validate_object enforce none name o = allowed
  validate_object enforce (some a) name o =
      if not enforce
      then allowed
      else require (not (str_eq name "ActivationRequest"))
          "Use the guarded connection activation workflow."
          (require (not (is_approval name && not (is_open (getattr o "status"))))
            "Only the administration runtime can approve roles or customer consent."
            (require (not (is_log name && not (adding o))) append_only
              (if a.portfolio then allowed else validate_scope a name o)))

  abbrev pub validate_objects : Bool → Option Access → String → List Object → Check
  validate_objects enforce access name [] = allowed
  validate_objects enforce access name (o ∷ os) =
      then_check (validate_object enforce access name o) (validate_objects enforce access name os)

  -- `bulk_create` and `bulk_update`, up to the change itself.
  unfoldable pub bulk_create : Bool → Option Access → String → List Object → Check
  unfolding validate_object
  bulk_create enforce access name objects = validate_objects enforce access name objects

  unfoldable pub bulk_update : Bool → Option Access → String → List Object → List String → Check
  unfolding validate_object validate_changes
  bulk_update enforce access name objects fields =
      then_check (validate_changes enforce access name fields)
        (validate_objects enforce access name objects)
