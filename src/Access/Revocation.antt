-- ===== src/Access/Revocation.antt =====
-- Who sees a row: the authorization that `for_user` makes, and the rows that it leaves to a request.
use cloud_billing_console.Prelude.{
  ℕ, String, ◌≡◌, refl, sym, ap, ◌∙◌, subst, inl, inr, Bool, true, false, not, ◌&&◌, ◌||◌, Option,
  none, some, List, [], ◌∷◌, arith, ◌==◌, str_eq, if◌then◌else◌, Bool-cases, Option-cases, or_else,
  select, In,
}
use cloud_billing_console.Prelude.Search.{In-of_select}
use cloud_billing_console.Prelude.Rows.{Pairs, Pairs-In}
use cloud_billing_console.Access.Tables.{
  Value, num, at_path, path_of, customer_paths, Access, ids, account_list, accounts_of,
}
use cloud_billing_console.Access.Membership.{
  Role, Membership, UserSecurity, User, is_operator, is_customer, is_valid, has_role,
  memberships_of, customers_of, accounts_in, for_user, access_with, nobody, profile_of, is_external,
}
use cloud_billing_console.Access.Restriction.{restriction}
use cloud_billing_console.Access.Confined.{
  IsWithinAccounts, by_path-Within, scoped_path, restriction-scoped,
}

-- Each member of the list of customers belongs to a membership.
customers-In :
    (ms : List Membership) (cid : ℕ)
    → In cid (customers_of ms)
    → (m : Membership) × (In m ms × (m.customer_id ≡ cid))
customers-In [] cid i = absurd i
customers-In (m ∷ ms) cid (inl e) = (m, (inl refl, sym e))
customers-In (m ∷ ms) cid (inr i) = let (n, (k, e)) = customers-In ms cid i in (n, (inr k, e))

accounts_of_last :
    (m : Membership) (ms : List Membership) (cid : ℕ)
    → accounts_of (accounts_in ms) cid ≡ none
    → accounts_of (accounts_in (m ∷ ms)) cid
      ≡ (if m.customer_id == cid then some m.account_ids else none)
unfolding accounts_of
accounts_of_last m ms cid e = rw (e, accounts_of) refl

accounts_of_later :
    (m : Membership) (ms : List Membership) (cid : ℕ) (values : List String)
    → accounts_of (accounts_in ms) cid ≡ some values
    → accounts_of (accounts_in (m ∷ ms)) cid ≡ some values
unfolding accounts_of
accounts_of_later m ms cid values e = rw (e, accounts_of) refl

-- A customer with a membership has an entry in the dict of accounts.
accounts_entered :
    (ms : List Membership) (m : Membership) (cid : ℕ)
    → In m ms
    → m.customer_id ≡ cid
    → accounts_of (accounts_in ms) cid ≡ none
    → ⊥
accounts_entered [] m cid i e h = i
accounts_entered (x ∷ xs) m cid (inl same) e h =
    elim (Option-cases (accounts_of (accounts_in xs) cid)) [
      | inr (later, f) ↦ (let g = accounts_of_later x xs cid later f in cc)
      | inl f ↦
          (let g = accounts_of_last x xs cid f in
            ground (arith, ap (λ (n : Membership). n.customer_id) same))
    ]
accounts_entered (x ∷ xs) m cid (inr there) e h =
    elim (Option-cases (accounts_of (accounts_in xs) cid)) [
      | inr (later, f) ↦ (let g = accounts_of_later x xs cid later f in cc)
      | inl f ↦ accounts_entered xs m cid there e f
    ]

-- An entry in the dict of accounts is that of a membership.
accounts_found :
    (ms : List Membership) (cid : ℕ) (values : List String)
    → accounts_of (accounts_in ms) cid ≡ some values
    → (n : Membership) × (In n ms × ((n.customer_id ≡ cid) × (values ≡ n.account_ids)))
accounts_found [] cid values e = unfold accounts_of in cc
accounts_found (x ∷ xs) cid values e = elim (Option-cases (accounts_of (accounts_in xs) cid)) [
  | inl h ↦ (x, (inl refl, from_head h (accounts_of_last x xs cid h)))
  | inr (later, h) ↦
      (let (n, (i, (c, f))) = accounts_found xs cid later h in
        (n, (inr i, (c, (let g = accounts_of_later x xs cid later h in cc)))))
]
  where
    from_head :
        accounts_of (accounts_in xs) cid ≡ none
        → accounts_of (accounts_in (x ∷ xs)) cid
          ≡ (if x.customer_id == cid then some x.account_ids else none)
        → (x.customer_id ≡ cid) × (values ≡ x.account_ids)
    from_head h g = ground arith

-- A list that is filtered only on a condition.
filtered-In :
    (b : Bool) (p : Membership → Bool) (ms : List Membership) (m : Membership)
    → In m (if b then select p ms else ms)
    → In m ms × (b ≡ true → p m ≡ true)
filtered-In true p ms m i = let (k, e) = In-of_select p ms m i in (k, (λ _. e))
filtered-In false p ms m i = (i, (λ e. cc))

unfiltered-In :
    (b : Bool) (p : Membership → Bool) (ms : List Membership) (m : Membership)
    → In m (if b then ms else select p ms)
    → In m ms × (b ≡ false → p m ≡ true)
unfiltered-In true p ms m i = (i, (λ e. cc))
unfiltered-In false p ms m i = let (k, e) = In-of_select p ms m i in (k, (λ _. e))

memberships-In :
    (portal : Bool) (now : ℕ) (table : List Membership) (u : User) (profile : Option UserSecurity)
    (m : Membership)
    → In m (memberships_of portal now table u profile)
    → In m table
      × ((is_valid u now m ≡ true)
          × ((is_external profile ≡ true → is_customer m.role ≡ true)
              × (portal ≡ false → is_customer m.role ≡ false)))
unfolding memberships_of
memberships-In portal now table u profile m i =
    let valid : List Membership = select (is_valid u now) table in
    let (k, e) =
      unfiltered-In portal (λ (n : Membership). not (is_customer n.role))
        (if is_external profile then select (has_role Role.customer) valid else valid) m i in
    let (l, f) = filtered-In (is_external profile) (has_role Role.customer) valid m k in
    let (t, g) = In-of_select (is_valid u now) table m l in
    (t, (g, (f, (λ h. (let n = e h in ground arith)))))

-- The constraint `unique_customer_membership`.
abbrev pub IsUnique : List Membership → Type 0
IsUnique table = Pairs (λ m n. (m.user ≡ n.user) → (m.customer_id ≡ n.customer_id) → ⊥) table

-- A membership that lets its user see the rows of its customer: in force, of a role that the
-- deployment serves, and for a change an operator's.
abbrev pub IsGrant : Bool → ℕ → List UserSecurity → User → Bool → Membership → Type 0
IsGrant portal now profiles u write m =
    (is_valid u now m ≡ true)
    × ((is_external (profile_of profiles u) ≡ true → is_customer m.role ≡ true)
        × ((portal ≡ false → is_customer m.role ≡ false)
            × ((write ≡ true → is_operator m.role ≡ true)
                × ((u.is_authenticated ≡ true) × (u.is_active ≡ true)))))

-- A customer that is among the ids of `members` has one of these memberships, an operator's for a
-- change.
chosen-In :
    (u : User) (profile : Option UserSecurity) (members : List Membership) (write : Bool) (cid : ℕ)
    → In cid (ids (access_with u profile members write))
    → (m : Membership) × (In m members
        × ((m.customer_id ≡ cid) × (write ≡ true → is_operator m.role ≡ true)))
chosen-In u profile members true cid i =
    let (m, (k, e)) = customers-In (select (has_role Role.operator) members) cid i in
    let (l, f) = In-of_select (has_role Role.operator) members m k in (m, (l, (e, (λ _. f))))
chosen-In u profile members false cid i =
    let (m, (k, e)) = customers-In members cid i in (m, (k, (e, (λ f. cc))))

same_membership :
    (now : ℕ) (table : List Membership) (u : User) (m n : Membership)
    → IsUnique table
    → In m table
    → In n table
    → is_valid u now m ≡ true
    → is_valid u now n ≡ true
    → m.customer_id ≡ n.customer_id
    → m ≡ n
same_membership now table u m n unique i k v w e =
    elim (Pairs-In (λ (a b : Membership). (a.user ≡ b.user) → (a.customer_id ≡ b.customer_id) → ⊥)
      table m n unique i k) [
        | inl same ↦ same
        | inr (inl f) ↦ absurd (f (ground arith) e)
        | inr (inr f) ↦ absurd (f (ground arith) (sym e))
      ]

-- The accounts of a customer with a membership are the membership's.
accounts-Unique :
    (now : ℕ) (table members : List Membership) (u : User) (m : Membership)
    → IsUnique table
    → ((n : Membership) → In n members → In n table × (is_valid u now n ≡ true))
    → In m members
    → or_else (accounts_of (accounts_in members) m.customer_id) [] ≡ m.account_ids
accounts-Unique now table members u m unique h i =
    elim (Option-cases (accounts_of (accounts_in members) m.customer_id)) [
      | inl e ↦ absurd (accounts_entered members m m.customer_id i refl e)
      | inr (values, e) ↦
          (let (n, (k, (c, f))) = accounts_found members m.customer_id values e in
            ap (λ o. or_else o []) e
            ∙ f
            ∙ ap (λ (x : Membership). x.account_ids)
                (same_membership now table u n m unique (h n k).0 (h m i).0 (h n k).1 (h m i).1 c))
    ]

-- A customer that is among the ids comes from a grant, and its accounts are those of the grant.
ids-In :
    (portal : Bool) (now : ℕ) (table : List Membership) (profiles : List UserSecurity) (u : User)
    (write : Bool) (cid : ℕ)
    → IsUnique table
    → In cid (ids (for_user portal now table profiles u write))
    → (m : Membership) × (In m table
        × ((m.customer_id ≡ cid)
            × (IsGrant portal now profiles u write m
                × (account_list (for_user portal now table profiles u write) cid ≡ m.account_ids))))
unfolding for_user
ids-In portal now table profiles u write cid unique i =
    elim (Bool-cases (not u.is_authenticated || not u.is_active)) [
      | inl e ↦ absurd (nobody_empty write (rw e at i))
      | inr e ↦
          (let members : List Membership =
              memberships_of portal now table u (profile_of profiles u) in
            let (m, (k, (c, f))) =
              chosen-In u (profile_of profiles u) members write cid (rw e at i) in
            let (t, (v, (g, h))) = memberships-In portal now table u (profile_of profiles u) m k in
            (
              m,
              (
                t,
                (
                  c,
                  (
                    (v, (g, (h, (f, (ground arith, ground arith))))),
                    rw e (
                        ap (λ d. or_else (accounts_of (accounts_in members) d) []) (sym c)
                        ∙ accounts-Unique now table members u m unique
                            (λ n l.
                              let (a, (b, d)) =
                                memberships-In portal now table u (profile_of profiles u) n l in
                              (a, b))
                            k),
                  ),
                ),
              ),
            ))
    ]
  where
    nobody_empty : (w : Bool) → In cid (ids (nobody w)) → ⊥
    nobody_empty true k = k
    nobody_empty false k = k

for_user_write :
    (portal : Bool) (now : ℕ) (table : List Membership) (profiles : List UserSecurity) (u : User)
    (write : Bool)
    → (for_user portal now table profiles u write).write ≡ write
unfolding for_user
for_user_write portal now table profiles u write = ground arith

-- Seen through a membership.
module _ {Object : Type 0} (getattr : Object → String → Value Object) where
  abbrev pub IsGranted :
      ℕ → List Membership → User → String → Object → List String → Membership → Type 0
  IsGranted now table u name o path m =
      In m table
      × ((at_path getattr o path ≡ num m.customer_id)
          × IsWithinAccounts getattr m.account_ids name o)

  -- A row with a path to its customer, in any table but that of connections read, that the manager
  -- leaves to a request of a user without portfolio access belongs to a customer for which the user
  -- has a membership that is active, not expired, of an active customer and of a role that is
  -- served, an operator's for a change; if the membership names accounts, the row is no audit event,
  -- and its account is one of them or its table is Customer, ExplorerQuery or SavedReport. The table
  -- of memberships has one row for a user and a customer.
  pub visible_by_membership :
      (fingerprint : Access → String) (assignments : List Object) (portal : Bool) (now : ℕ)
      (table : List Membership) (profiles : List UserSecurity) (u : User) (write : Bool)
      (name : String) (path : List String) (o : Object)
      → IsUnique table
      → path_of customer_paths name ≡ some path
      → (str_eq name "BillingSource" && not write) ≡ false
      → (for_user portal now table profiles u write).portfolio ≡ false
      → restriction getattr fingerprint assignments true
          (some (for_user portal now table profiles u write))
          name
          o
        ≡ true
      → (m : Membership) × (IsGrant portal now profiles u write m
          × IsGranted now table u name o path m)
  visible_by_membership fingerprint assignments portal now table profiles u write name path o unique
        h special alone seen =
      let a : Access = for_user portal now table profiles u write in
      let (cid, (i, (e, w))) = by_path-Within getattr fingerprint assignments a name path o h (
        sym (
          scoped_path getattr fingerprint assignments a name path o h (
            ap (λ b. str_eq name "BillingSource" && not b)
              (for_user_write portal now table profiles u write)
            ∙ special))
        ∙ sym (restriction-scoped getattr fingerprint assignments a name o alone)
        ∙ seen) in
      let (m, (t, (c, (g, l)))) = ids-In portal now table profiles u write cid unique i in
      (m, (g, (t, (e ∙ ap num (sym c), subst (λ v. IsWithinAccounts getattr v name o) l w))))
