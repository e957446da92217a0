-- ===== src/Access/Accepted.antt =====
-- What a request may write it may also read: `validate_object` against `restriction`.
use cloud_billing_console.Prelude.{
  ℕ, String, ◌≡◌, refl, sym, ap, ◌∙◌, subst, inl, inr, Bool, true, false, not, ◌&&◌, none, some,
  List, [], ◌∷◌, arith, str_eq, if◌then◌else◌, ==_self, Bool-cases, Option-cases, In,
}
use cloud_billing_console.Prelude.Search.{any-In, any-true}
use cloud_billing_console.Access.Tables.{
  Value, missing, null, num, text, object, is_num, num_in, text_in, at_path, path_of,
  customer_paths, account_paths, Access, ids, account_list,
}
use cloud_billing_console.Access.Restriction.{
  account_part, customer_part, own_part, scoped, restriction, is_shared,
}
use cloud_billing_console.Access.Validation.{
  Check, allowed, denied, attribute_error, require, validate_account, validate_owner, validate_path,
  validate_scope, validate_object, is_own_refresh,
}
use cloud_billing_console.Access.Confined.{
  is_num-true, unpathed, scoped_path, restriction-scoped, part_with, by_path_with,
}

pub require-allowed :
    (b : Bool) (message : String) (rest : Check)
    → require b message rest ≡ allowed
    → (b ≡ true) × (rest ≡ allowed)
require-allowed true message rest e = (refl, e)
require-allowed false message rest e = cc

module _ {Object : Type 0} (getattr : Object → String → Value Object)
    (fingerprint : Access → String) (table : String → List Object)
    (relations : Object → List (String × String)) (adding : Object → Bool) where
  -- The last check, by what the path to the account gives.
  account_with :
      (a : Access) (name value : String) (values path : List String) (o : Object)
      → is_shared name ≡ false
      → path_of account_paths name ≡ some path
      → validate_account getattr fingerprint table relations adding a name o (value ∷ values)
        ≡ (elim (at_path getattr o path) [
          | missing ↦ attribute_error
          | v ↦ require (text_in v (value ∷ values)) "Account scope denied." allowed
        ])
  unfolding validate_account
  account_with a name value values path o s h = rw (h, validate_account) (ground arith)

  account_without :
      (a : Access) (name value : String) (values : List String) (o : Object)
      → is_shared name ≡ false
      → path_of account_paths name ≡ none
      → validate_account getattr fingerprint table relations adding a name o (value ∷ values)
        ≡ denied "This operation needs whole-customer authorization."
  unfolding validate_account
  account_without a name value values o s h = rw (h, validate_account) (ground arith)

  checked_text :
      (v : Value Object) (values : List String)
      → (elim v [
        | missing ↦ attribute_error
        | w ↦ require (text_in w values) "Account scope denied." allowed
      ])
        ≡ allowed
      → text_in v values ≡ true
  checked_text missing values e = cc
  checked_text null values e = (require-allowed _ _ _ e).0
  checked_text (num k) values e = (require-allowed _ _ _ e).0
  checked_text (text t) values e = (require-allowed _ _ _ e).0
  checked_text (object o) values e = (require-allowed _ _ _ e).0

  account_accepted :
      (a : Access) (name : String) (values : List String) (o : Object)
      → is_shared name ≡ false
      → validate_account getattr fingerprint table relations adding a name o values ≡ allowed
      → account_part getattr fingerprint (table "AccountAssignment") name values o ≡ true
  unfolding account_part
  account_accepted a name [] o s e = refl
  account_accepted a name (v ∷ vs) o s e = elim (Option-cases (path_of account_paths name)) [
    | inl h ↦ absurd (let f = account_without a name v vs o s h in cc)
    | inr (path, h) ↦
        (let t =
            checked_text (at_path getattr o path) (v ∷ vs)
              (sym (account_with a name v vs path o s h) ∙ e) in
          part_with getattr fingerprint (table "AccountAssignment") name v vs path o h
          ∙ (ground arith))
  ]

  In-ids :
      (a : Access) (v : Value Object)
      → num_in v (ids a) ≡ true
      → (cid : ℕ) × (In cid (ids a) × (v ≡ num cid))
  In-ids a v e = let (cid, i, f) = any-In (is_num v) (ids a) e in (cid, (i, is_num-true v cid f))

  -- A write that passes is of a customer among the ids, within its accounts.
  owner_accepted :
      (a : Access) (name : String) (path : List String) (o : Object) (v : Value Object)
      → is_shared name ≡ false
      → at_path getattr o path ≡ v
      → validate_owner getattr fingerprint table relations adding a name o v ≡ allowed
      → (cid : ℕ) × (In cid (ids a)
          × (customer_part getattr fingerprint (table "AccountAssignment") a name path o cid
              ≡ true))
  unfolding validate_owner customer_part
  owner_accepted a name path o missing s h e = cc
  owner_accepted a name path o null s h e =
      let (cid, (i, f)) = In-ids a null (require-allowed _ _ _ e).0 in absurd (cc)
  owner_accepted a name path o (text k) s h e =
      let (cid, (i, f)) = In-ids a (text k) (require-allowed _ _ _ e).0 in absurd (cc)
  owner_accepted a name path o (object k) s h e =
      let (cid, (i, f)) = In-ids a (object k) (require-allowed _ _ _ e).0 in absurd (cc)
  owner_accepted a name path o (num k) s h e =
      let (known, rest) = require-allowed _ _ _ e in
      let (cid, (i, f)) = In-ids a (num k) known in
      let same : cid ≡ k = ground arith in
      let part = account_accepted a name (account_list a k) o s (require-allowed _ _ _ rest).1 in
      (k, (subst (λ n. In n (ids a)) same i, rw (h, part, ==_self k) refl))

  path_accepted :
      (a : Access) (name : String) (path : List String) (o : Object)
      → is_shared name ≡ false
      → path_of customer_paths name ≡ some path
      → validate_path getattr fingerprint table relations adding a name o
        ≡ validate_owner getattr fingerprint table relations adding a name o
            (at_path getattr o path)
  unfolding validate_path
  path_accepted a name path o s h = rw (h, validate_path) (ground arith)

  scope_accepted :
      (a : Access) (name : String) (path : List String) (o : Object)
      → is_shared name ≡ false
      → path_of customer_paths name ≡ some path
      → is_own_refresh getattr fingerprint table relations adding a name o ≡ false
      → validate_scope getattr fingerprint table relations adding a name o
        ≡ validate_owner getattr fingerprint table relations adding a name o
            (at_path getattr o path)
  unfolding validate_scope
  scope_accepted a name path o s h r =
      let n : str_eq name "Customer" ≡ false = ground arith in
      rw (r, unpathed name "BulkImport" path refl h, n, validate_scope)
        (path_accepted a name path o s h)

  object_accepted :
      (a : Access) (name : String) (o : Object)
      → a.portfolio ≡ false
      → validate_object getattr fingerprint table relations adding true (some a) name o ≡ allowed
      → validate_scope getattr fingerprint table relations adding a name o ≡ allowed
  unfolding validate_object
  object_accepted a name o p e = ground arith

  own_plain :
      (a : Access) (name : String) (o : Object)
      → is_shared name ≡ false
      → own_part getattr fingerprint (table "AccountAssignment") a name o ≡ true
  unfolding own_part
  own_plain a name o s = ground arith

  -- An object of a plain table that passes `validate_object` is a row that the same request reads:
  -- of any table with a path to its customer but `Customer`, `AuditEvent`, `ExplorerQuery` and
  -- `SavedReport`, a connection only where the access is for a change, and a job that is not let
  -- through as the refresh of an own report.
  pub accepted_visible :
      (a : Access) (name : String) (path : List String) (o : Object)
      → is_shared name ≡ false
      → path_of customer_paths name ≡ some path
      → (str_eq name "BillingSource" && not a.write) ≡ false
      → is_own_refresh getattr fingerprint table relations adding a name o ≡ false
      → validate_object getattr fingerprint table relations adding true (some a) name o ≡ allowed
      → restriction getattr fingerprint (table "AccountAssignment") true (some a) name o ≡ true
  unfolding restriction
  accepted_visible a name path o s h special r e = elim (Bool-cases a.portfolio) [
    | inl p ↦
        ap
          (λ b. if b then true else scoped getattr fingerprint (table "AccountAssignment") a name o)
          p
    | inr p ↦
        (let (cid, (i, c)) =
            owner_accepted a name path o (at_path getattr o path) s refl
              (sym (scope_accepted a name path o s h r) ∙ object_accepted a name o p e) in
          restriction-scoped getattr fingerprint (table "AccountAssignment") a name o p
          ∙ scoped_path getattr fingerprint (table "AccountAssignment") a name path o h special
          ∙ by_path_with getattr fingerprint (table "AccountAssignment") a name path o h
          ∙ rw
              (
                any-true
                    (customer_part getattr fingerprint (table "AccountAssignment") a name path o)
                    (ids a) cid i c,
                own_plain a name o s,
              )
              refl)
  ]
