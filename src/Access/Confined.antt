-- ===== src/Access/Confined.antt =====
-- A request sees only rows that a valid membership of its user gives it.
use cloud_billing_console.Prelude.{
  ℕ, String, ◌≡◌, ◌≢◌, refl, sym, ap, ◌∙◌, ◌⊎◌, inl, inr, true, false, not, ◌&&◌, none, some, List,
  [], ◌∷◌, arith, str_eq, if◌then◌else◌, str_eq_iff, Bool-cases, Option-cases, any, In,
}
use cloud_billing_console.Prelude.Search.{any-In}
use cloud_billing_console.Access.Tables.{
  Value, num, text, is_num, is_text, text_in, at_path, path_of, customer_paths, account_paths,
  Access, ids, account_list,
}
use cloud_billing_console.Access.Restriction.{
  account_part, customer_part, own_part, by_path, scoped, restriction, is_shared, is_audit,
}

pub is_num-true : {O : Type 0} (v : Value O) (n : ℕ) → is_num v n ≡ true → v ≡ num n
is_num-true Value.missing n e = cc
is_num-true Value.null n e = cc
is_num-true (Value.num k) n e = ap num (ground arith)
is_num-true (Value.text t) n e = cc
is_num-true (Value.object o) n e = cc

pub is_text-true : {O : Type 0} (v : Value O) (s : String) → is_text v s ≡ true → v ≡ text s
is_text-true Value.missing s e = cc
is_text-true Value.null s e = cc
is_text-true (Value.num k) s e = cc
is_text-true (Value.text t) s e = ap text ((str_eq_iff t s).0 e)
is_text-true (Value.object o) s e = cc

-- Names that are treated apart have no path.
pub unpathed :
    (name special : String) (path : List String)
    → path_of customer_paths special ≡ none
    → path_of customer_paths name ≡ some path
    → str_eq name special ≡ false
unpathed name special path s e = elim (Bool-cases (str_eq name special)) [
  | inl h ↦
      absurd
        (none-some (sym s ∙ ap (path_of customer_paths) (sym ((str_eq_iff name special).0 h)) ∙ e))
  | inr h ↦ h
]
  where
    none-some : none ≡ some path → ⊥
    none-some h = cc

module _ {Object : Type 0} (getattr : Object → String → Value Object) where
  -- The row is within the accounts `values`: there is no restriction to accounts; or the row is no
  -- audit event, and the account at its path is one of them or the table is one of the three that a
  -- restricted user shares.
  abbrev pub IsWithinAccounts : List String → String → Object → Type 0
  IsWithinAccounts values name o =
      (values ≡ [])
      ⊎ ((name ≢ "AuditEvent")
          × (((path : List String) × ((account : String) × ((path_of account_paths name ≡ some path)
                    × ((at_path getattr o path ≡ text account) × In account values))))
              ⊎ In name ("Customer" ∷ "ExplorerQuery" ∷ "SavedReport" ∷ [])))

module _ {Object : Type 0} (getattr : Object → String → Value Object)
    (fingerprint : Access → String) (assignments : List Object) where
  pub part_with :
      (name value : String) (values path : List String) (o : Object)
      → path_of account_paths name ≡ some path
      → account_part getattr fingerprint assignments name (value ∷ values) o
        ≡ (not (is_audit name) && text_in (at_path getattr o path) (value ∷ values))
  unfolding account_part
  part_with name value values path o h = rw (h, account_part) refl

  part_without :
      (name value : String) (values : List String) (o : Object)
      → path_of account_paths name ≡ none
      → account_part getattr fingerprint assignments name (value ∷ values) o
        ≡ (is_shared name && not (is_audit name))
  unfolding account_part
  part_without name value values o h = rw (h, account_part) refl

  unaudited : (name : String) → is_audit name ≡ false → name ≢ "AuditEvent"
  unaudited name e h = let f = (str_eq_iff name "AuditEvent").1 h in cc

  shared_tables :
      (name : String)
      → is_shared name ≡ true
      → is_audit name ≡ false
      → In name ("Customer" ∷ "ExplorerQuery" ∷ "SavedReport" ∷ [])
  shared_tables name s n = elim (Bool-cases (str_eq name "Customer")) [
    | inl e ↦ inl ((str_eq_iff name "Customer").0 e)
    | inr e ↦ elim (Bool-cases (str_eq name "ExplorerQuery")) [
      | inl f ↦ inr (inl ((str_eq_iff name "ExplorerQuery").0 f))
      | inr f ↦ inr (inr (inl ((str_eq_iff name "SavedReport").0 (ground arith))))
    ]
  ]

  within_accounts :
      (name : String) (values : List String) (o : Object)
      → account_part getattr fingerprint assignments name values o ≡ true
      → IsWithinAccounts getattr values name o
  within_accounts name [] o e = inl refl
  within_accounts name (v ∷ vs) o e = elim (Option-cases (path_of account_paths name)) [
    | inl h ↦
        (let a = unaudited name (ground (arith, part_without name v vs o h)) in
          inr (
            a,
            inr (
                shared_tables name (ground (arith, part_without name v vs o h))
                  (ground (arith, part_without name v vs o h))),
          ))
    | inr (path, h) ↦
        (let (a, i, f) =
            any-In (is_text (at_path getattr o path)) (v ∷ vs)
              (ground (arith, part_with name v vs path o h)) in
          inr (
            unaudited name (ground (arith, part_with name v vs path o h)),
            inl (path, (a, (h, (is_text-true (at_path getattr o path) a f, i)))),
          ))
  ]

  -- What `by_path` asks of a row.
  pub by_path_with :
      (a : Access) (name : String) (path : List String) (o : Object)
      → path_of customer_paths name ≡ some path
      → by_path getattr fingerprint assignments a name o ≡ (
          any (customer_part getattr fingerprint assignments a name path o) (ids a)
          && own_part getattr fingerprint assignments a name o)
  unfolding by_path
  by_path_with a name path o h = rw (h, by_path) refl

  pub by_path-Within :
      (a : Access) (name : String) (path : List String) (o : Object)
      → path_of customer_paths name ≡ some path
      → by_path getattr fingerprint assignments a name o ≡ true
      → (cid : ℕ) × (In cid (ids a)
          × ((at_path getattr o path ≡ num cid)
              × IsWithinAccounts getattr (account_list a cid) name o))
  unfolding customer_part
  by_path-Within a name path o h e =
      let (cid, i, f) =
        any-In (customer_part getattr fingerprint assignments a name path o) (ids a)
          (ground (arith, by_path_with a name path o h)) in
      (
        cid,
        (
          i,
          (
            is_num-true (at_path getattr o path) cid (ground arith),
            within_accounts name (account_list a cid) o (ground arith),
          ),
        ),
      )

  pub scoped_path :
      (a : Access) (name : String) (path : List String) (o : Object)
      → path_of customer_paths name ≡ some path
      → (str_eq name "BillingSource" && not a.write) ≡ false
      → scoped getattr fingerprint assignments a name o
        ≡ by_path getattr fingerprint assignments a name o
  unfolding scoped
  scoped_path a name path o h e =
      rw (unpathed name "BulkImport" path refl h, e, unpathed name "AwsAccount" path refl h, scoped)
        refl

  pub restriction-scoped :
      (a : Access) (name : String) (o : Object)
      → a.portfolio ≡ false
      → restriction getattr fingerprint assignments true (some a) name o
        ≡ scoped getattr fingerprint assignments a name o
  unfolding restriction
  restriction-scoped a name o e =
      ap (λ b. if b then true else scoped getattr fingerprint assignments a name o) e
