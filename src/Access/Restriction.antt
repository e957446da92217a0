-- ===== src/Access/Restriction.antt =====
-- `restriction` of billing/access.py: which rows of a table the manager `ScopedManager` leaves to a
-- request.
use cloud_billing_console.Prelude.{
  ℕ, String, Bool, true, false, not, ◌&&◌, ◌||◌, Option, none, some, List, [], ◌∷◌, str_eq,
  if◌then◌else◌, any, select,
}
use cloud_billing_console.Access.Tables.{
  Value, is_num, is_text, num_in, text_in, is_user, at_path, path_of, customer_paths, account_paths,
  Access, ids, account_list,
}

abbrev pub is_shared : String → Bool
is_shared name =
    str_eq name "Customer"
    || str_eq name "AuditEvent"
    || str_eq name "ExplorerQuery"
    || str_eq name "SavedReport"

abbrev pub is_audit : String → Bool
is_audit name = str_eq name "AuditEvent"

abbrev pub same_num : {Object : Type 0} → Value Object → Value Object → Bool
same_num (Value.num k) v = is_num v k
same_num _ v = false

abbrev pub is_whole : Access → ℕ → Bool
is_whole a cid = elim (account_list a cid) [ [] ↦ true | _ ∷ _ ↦ false ]

abbrev pub is_nonempty : List ℕ → Bool
is_nonempty [] = false
is_nonempty (_ ∷ _) = true

-- `fingerprint` is `scope_fingerprint`, and `assignments` is the table `AccountAssignment`.
module _ {Object : Type 0} (getattr : Object → String → Value Object)
    (fingerprint : Access → String) (assignments : List Object) where
  -- The restriction to accounts of one customer's part.
  unfoldable pub account_part : String → List String → Object → Bool
  unfolding at_path path_of
  account_part name [] o = true
  account_part name (value ∷ values) o = elim (path_of account_paths name) [
    | some path ↦ not (is_audit name) && text_in (at_path getattr o path) (value ∷ values)
    | none ↦ is_shared name && not (is_audit name)
  ]

  unfoldable pub customer_part : Access → String → List String → Object → ℕ → Bool
  unfolding at_path account_part
  customer_part a name path o cid =
      is_num (at_path getattr o path) cid && account_part name (account_list a cid) o

  unfoldable pub own_part : Access → String → Object → Bool
  own_part a name o =
      (if str_eq name "ExplorerQuery"
        then is_user (getattr o "requested_by_id") a.user_id
          && is_text (getattr o "scope_fingerprint") (fingerprint a)
        else true)
      && (if str_eq name "SavedReport" then is_text (getattr o "created_by") a.username else true)

  unfoldable pub by_path : Access → String → Object → Bool
  unfolding customer_part own_part path_of
  by_path a name o = elim (path_of customer_paths name) [
    | none ↦ false
    | some path ↦ any (customer_part a name path o) (ids a) && own_part a name o
  ]

  -- AccountAssignment.objects.filter(customer_id__in=access.ids), through the scoped manager.
  unfoldable pub owned_assignments : Access → List Object
  unfolding by_path
  owned_assignments a =
      select (λ s. by_path a "AccountAssignment" s && num_in (getattr s "customer_id") (ids a))
        assignments

  -- Q(pk__in=...) over the values at a path of the assignments.
  unfoldable pub pk_in : List String → List Object → Object → Bool
  unfolding at_path
  pk_in path rows o = any (λ s. same_num (at_path getattr s path) (getattr o "pk")) rows

  unfoldable pub scoped : Access → String → Object → Bool
  unfolding by_path owned_assignments pk_in
  scoped a name o =
      if str_eq name "BulkImport"
      then is_nonempty a.editable
        && is_user (getattr o "requested_by_id") a.user_id
        && is_text (getattr o "scope_fingerprint") (fingerprint a)
      else if str_eq name "BillingSource" && not a.write
      then num_in (getattr o "customer_id") (select (is_whole a) (ids a))
        || pk_in ("account" ∷ "source_id" ∷ []) (owned_assignments a) o
      else if str_eq name "AwsAccount"
      then pk_in ("account_id" ∷ []) (owned_assignments a) o
      else by_path a name o

  -- `enforce` is ENFORCE_CUSTOMER_AUTHORIZATION.
  unfoldable pub restriction : Bool → Option Access → String → Object → Bool
  unfolding scoped
  restriction enforce none name o = true
  restriction enforce (some a) name o =
      if not enforce then true else if a.portfolio then true else scoped a name o
