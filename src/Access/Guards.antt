-- ===== src/Access/Guards.antt =====
-- What no request may change, whoever makes it.
use cloud_billing_console.Prelude.{
  String, ◌≡◌, ◌≢◌, inl, inr, Bool, true, false, ◌||◌, some, List, [], ◌∷◌, arith, str_eq, In,
}
use cloud_billing_console.Access.Tables.{Value, Access}
use cloud_billing_console.Access.Validation.{
  Check, allowed, is_log, validate_changes, validate_delete, validate_object, validate_objects,
  bulk_create, bulk_update, then_check,
}

-- The tables that only grow, and those that grow outside of requests.
abbrev pub is_kept : String → Bool
is_kept name = is_log name || str_eq name "ActivationRequest"

then_check-allowed :
    (c rest : Check) → then_check c rest ≡ allowed → (c ≡ allowed) × (rest ≡ allowed)
then_check-allowed c rest e = ground arith

module _ {Object : Type 0} (getattr : Object → String → Value Object)
    (fingerprint : Access → String) (table : String → List Object)
    (relations : Object → List (String × String)) (adding : Object → Bool) where
  objects_allowed :
      (a : Access) (name : String) (os : List Object) (o : Object)
      → In o os
      → validate_objects getattr fingerprint table relations adding true (some a) name os ≡ allowed
      → validate_object getattr fingerprint table relations adding true (some a) name o ≡ allowed
  objects_allowed a name [] o i e = absurd i
  objects_allowed a name (x ∷ xs) o (inl same) e =
      rw same
        (then_check-allowed
          (validate_object getattr fingerprint table relations adding true (some a) name x)
          (validate_objects getattr fingerprint table relations adding true (some a) name xs) e).0
  objects_allowed a name (x ∷ xs) o (inr there) e =
      objects_allowed a name xs o there
        (then_check-allowed
          (validate_object getattr fingerprint table relations adding true (some a) name x)
          (validate_objects getattr fingerprint table relations adding true (some a) name xs) e).1

  kept_object :
      (a : Access) (name : String) (o : Object)
      → is_kept name ≡ true
      → adding o ≡ false
      → validate_object getattr fingerprint table relations adding true (some a) name o ≡ allowed
      → ⊥
  unfolding validate_object
  kept_object a name o k e = ground arith

  -- With authorization enforced, and for any request, also one with portfolio access, the query set
  -- of the audit log, of the alliance revisions and of the activation requests refuses `update`,
  -- `bulk_update` and `delete`, `bulk_create` refuses a list with an object that is a row already, and
  -- the validation that `save` makes refuses such an object.
  pub logs_append_only :
      (a : Access) (name : String)
      → is_kept name ≡ true
      → (((fields : List String) → validate_changes true (some a) name fields ≢ allowed)
          × (validate_delete (some a) name ≢ allowed))
        × ((((os : List Object) (fields : List String)
                → bulk_update getattr fingerprint table relations adding true
                    (some a)
                    name
                    os
                    fields
                  ≢ allowed)
              × ((os : List Object) (o : Object)
                  → In o os
                  → adding o ≡ false
                  → bulk_create getattr fingerprint table relations adding true (some a) name os
                    ≢ allowed))
            × ((o : Object)
                → adding o ≡ false
                → validate_object getattr fingerprint table relations adding true (some a) name o
                  ≢ allowed))
  unfolding validate_changes validate_delete bulk_update bulk_create
  logs_append_only a name k = (
    ((λ fields e. changes fields e), (λ e. ground arith)),
    (
      (
        (λ os fields e. ground (arith, changes fields)),
        (λ os o i e f. kept_object a name o k e (objects_allowed a name os o i f)),
      ),
      (λ o e f. kept_object a name o k e f),
    ),
  )
    where
      changes : (fields : List String) → validate_changes true (some a) name fields ≢ allowed
      changes fields e = ground arith
