-- ===== src/Scope/Owned.antt =====
-- With authorization enforced every query is restricted to accounts that its customer owns.
use cloud_billing_console.Prelude.{
  ℕ, String, ◌≡◌, refl, sym, subst, inl, inr, Bool, true, ◌&&◌, Option, none, some, List, [], ◌∷◌,
  map, arith, ◌==◌, Bool-cases, select, All, In,
}
use cloud_billing_console.Prelude.Texts.{sorted_set, In-sorted_set}
use cloud_billing_console.Prelude.Search.{In-of_select}
use cloud_billing_console.Prelude.Rows.{All-append}
use cloud_billing_console.Scope.Ownership.{Assignment, owned_on, of_source, customer_accounts}
use cloud_billing_console.Scope.Windows.{is_overlapping}
use cloud_billing_console.Scope.Units.{
  Connection, Query, source_account_filter, is_usable, serves, accounts_between, accounts_for,
  with_unit, customer_units, all_units, report_units,
}

-- The account is assigned to the customer through the connection.
abbrev pub IsOwned : List Assignment → ℕ → ℕ → String → Type 0
IsOwned rows c source account =
    (a : Assignment) × (In a rows
      × ((a.account_id ≡ account) × ((a.customer ≡ c) × (a.source ≡ source))))

-- The query is of one of the customers and names accounts, all of them owned by it.
abbrev pub IsOwnedQuery : List Assignment → (ℕ → Type 0) → Query → Type 0
IsOwnedQuery rows C q =
    (c : ℕ) × ((C c × (q.customer ≡ some c))
      × ((first : String) × ((others : List String) × ((q.accounts ≡ some (first ∷ others))
              × ((account : String)
                  → In account (first ∷ others)
                  → IsOwned rows c q.source account)))))

In-accounts :
    (rows : List Assignment) (account : String)
    → In account (map (λ (a : Assignment). a.account_id) rows)
    → (a : Assignment) × (In a rows × (a.account_id ≡ account))
In-accounts [] account i = absurd i
In-accounts (a ∷ as_) account (inl e) = (a, (inl refl, sym e))
In-accounts (a ∷ as_) account (inr i) =
    let (b, (k, e)) = In-accounts as_ account i in (b, (inr k, e))

IsOwned-of :
    (rows : List Assignment) (p : Assignment → Bool) (c source : ℕ) (account : String)
    → ((a : Assignment) → p a ≡ true → (a.customer ≡ c) × (a.source ≡ source))
    → In account (sorted_set (map (λ (a : Assignment). a.account_id) (select p rows)))
    → IsOwned rows c source account
IsOwned-of rows p c source account h i =
    let (a, (k, e)) =
      In-accounts (select p rows) account
        (In-sorted_set (map (λ (a : Assignment). a.account_id) (select p rows)) account i) in
    let (l, f) = In-of_select p rows a k in (a, (l, (e, h a f)))

accounts_for-Owned :
    (rows : List Assignment) (period : Option (ℕ × ℕ)) (c : ℕ) (s : Connection)
    → (ids : List String) × ((accounts_for true rows period c s ≡ some ids)
        × ((account : String) → In account ids → IsOwned rows c s.pk account))
unfolding accounts_for source_account_filter accounts_between customer_accounts
accounts_for-Owned rows none c s = (
  customer_accounts rows c none (some s.pk),
  (
    refl,
    (λ account i.
        IsOwned-of rows (λ a. (a.customer == c) && owned_on none a && of_source (some s.pk) a) c
          s.pk account (λ a e. ground arith) i),
  ),
)
accounts_for-Owned rows (some (start, end)) c s = (
  accounts_between rows c s.pk start end,
  (
    refl,
    (λ account i.
        IsOwned-of rows (is_overlapping c s.pk start end) c s.pk account (λ a e. ground arith) i),
  ),
)

module _ (rows : List Assignment) (C : ℕ → Type 0) where
  with_unit-Owned :
      (source c : ℕ) (ids : List String) (o : Option (List String)) (rest : List Query)
      → C c
      → o ≡ some ids
      → ((account : String) → In account ids → IsOwned rows c source account)
      → All (IsOwnedQuery rows C) rest
      → All (IsOwnedQuery rows C) (with_unit source c o rest)
  with_unit-Owned source c ids none rest m e h r = cc
  with_unit-Owned source c ids (some []) rest m e h r = r
  with_unit-Owned source c ids (some (a ∷ as_)) rest m e h r =
      ((c, ((m, refl), (a, (as_, (refl, (λ x i. h x (subst (In x) (same e) i))))))), r)
    where
      same : some (a ∷ as_) ≡ some ids → (a ∷ as_) ≡ ids
      same f = cc

  customer_units-Owned :
      (period : Option (ℕ × ℕ)) (c : ℕ) (ss : List Connection)
      → C c
      → All (IsOwnedQuery rows C) (customer_units true rows period c ss)
  unfolding customer_units
  customer_units-Owned period c [] m = tt
  customer_units-Owned period c (s ∷ ss) m = elim (Bool-cases (serves rows c s)) [
    | inr e ↦ rw e (customer_units-Owned period c ss m)
    | inl e ↦
        (let (ids, (f, h)) = accounts_for-Owned rows period c s in
          rw e (
            with_unit-Owned s.pk c ids (accounts_for true rows period c s)
              (customer_units true rows period c ss) m f h (customer_units-Owned period c ss m)))
  ]

  all_units-Owned :
      (period : Option (ℕ × ℕ)) (cs : List ℕ) (ss : List Connection)
      → All C cs
      → All (IsOwnedQuery rows C) (all_units true rows period cs ss)
  unfolding all_units
  all_units-Owned period [] ss m = tt
  all_units-Owned period (c ∷ cs) ss (m, r) =
      All-append (IsOwnedQuery rows C) (customer_units true rows period c ss)
        (all_units true rows period cs ss) (customer_units-Owned period c ss m)
        (all_units-Owned period cs ss r)

-- With authorization enforced, for a request with an access without portfolio, every query that
-- report_units gives, for a customer or for all that the request sees, belongs to such a customer and
-- names at least one account, and each account that it names is assigned to this customer through the
-- connection.
pub report_units-Owned :
    (rows : List Assignment) (customers : List ℕ) (sources : List Connection) (customer : Option ℕ)
    (active_only : Bool) (period : Option (ℕ × ℕ)) (C : ℕ → Type 0)
    → All C customers
    → ((c : ℕ) → customer ≡ some c → C c)
    → All
        (IsOwnedQuery rows C)
        (report_units true true rows customers sources customer active_only period)
unfolding report_units
report_units-Owned rows customers sources none active_only period C m h =
    all_units-Owned rows C period customers (select (is_usable active_only) sources) m
report_units-Owned rows customers sources (some c) active_only period C m h =
    customer_units-Owned rows C period c (select (is_usable active_only) sources) (h c refl)
