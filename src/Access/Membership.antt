-- ===== src/Access/Membership.antt =====
-- `for_user` of billing/access.py: what a user's memberships allow at this moment.
use cloud_billing_console.Prelude.{
  ℕ, String, Bool, true, false, not, ◌&&◌, ◌||◌, Option, none, some, List, [], ◌∷◌, ltb, ◌==◌,
  if◌then◌else◌, select, find,
}
use cloud_billing_console.Access.Tables.{Access}

pub data Role : Type 0 where
  operator viewer customer : Role

-- A row of `CustomerMembership`, with the column `active` of its customer.
pub record Membership : Type 0 where
  pub user : ℕ
  pub customer_id : ℕ
  pub customer_active : Bool
  pub expires_at : Option ℕ
  pub role : Role
  pub account_ids : List String
  pub active : Bool

-- The columns of `UserSecurity` that `for_user` reads.
pub record UserSecurity : Type 0 where
  pub user : ℕ
  pub portfolio_access : Bool
  pub external : Bool

pub record User : Type 0 where
  pub pk : ℕ
  pub username : String
  pub is_superuser : Bool
  pub is_authenticated : Bool
  pub is_active : Bool

abbrev pub is_customer : Role → Bool
is_customer Role.customer = true
is_customer _ = false

abbrev pub is_operator : Role → Bool
is_operator Role.operator = true
is_operator _ = false

abbrev pub is_later : Option ℕ → ℕ → Bool
is_later none now = true
is_later (some t) now = ltb now t

abbrev pub is_valid : User → ℕ → Membership → Bool
is_valid u now m = (m.user == u.pk) && m.active && m.customer_active && is_later m.expires_at now

abbrev pub has_role : Role → Membership → Bool
has_role Role.customer m = is_customer m.role
has_role Role.operator m = is_operator m.role
has_role Role.viewer m = not (is_customer m.role) && not (is_operator m.role)

abbrev pub is_external : Option UserSecurity → Bool
is_external none = false
is_external (some p) = p.external

abbrev pub has_portfolio : Option UserSecurity → Bool
has_portfolio none = false
has_portfolio (some p) = p.portfolio_access

-- `portal` is EXTERNAL_PORTAL_ENABLED.
unfoldable pub memberships_of :
    Bool → ℕ → List Membership → User → Option UserSecurity → List Membership
memberships_of portal now table u profile =
    let valid : List Membership = select (is_valid u now) table in
    let kept : List Membership =
      if is_external profile then select (has_role Role.customer) valid else valid in
    if portal then kept else select (λ (m : Membership). not (is_customer m.role)) kept

abbrev pub customers_of : List Membership → List ℕ
customers_of [] = []
customers_of (m ∷ ms) = m.customer_id ∷ customers_of ms

abbrev pub accounts_in : List Membership → List (ℕ × List String)
accounts_in [] = []
accounts_in (m ∷ ms) = (m.customer_id, m.account_ids) ∷ accounts_in ms

abbrev pub nobody : Bool → Access
nobody write = record {
  user_id = none;
  username = "";
  portfolio = false;
  customers = [];
  editable = [];
  accounts = [];
  write = write;
}

abbrev pub profile_of : List UserSecurity → User → Option UserSecurity
profile_of profiles u = find (λ (p : UserSecurity). p.user == u.pk) profiles

abbrev pub access_with : User → Option UserSecurity → List Membership → Bool → Access
access_with u profile members write = record {
  user_id = some u.pk;
  username = u.username;
  portfolio = u.is_superuser && has_portfolio profile && not (is_external profile);
  customers = customers_of members;
  editable = customers_of (select (has_role Role.operator) members);
  accounts = accounts_in members;
  write = write;
}

unfoldable pub for_user : Bool → ℕ → List Membership → List UserSecurity → User → Bool → Access
unfolding memberships_of
for_user portal now table profiles u write =
    if not u.is_authenticated || not u.is_active
    then nobody write
    else access_with u (profile_of profiles u)
        (memberships_of portal now table u (profile_of profiles u)) write
