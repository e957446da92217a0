-- ===== src/Budgets/Units.antt =====
-- The units that `aws_forecast` of billing/budgets.py takes in, and the accounts that it asks for.
use cloud_billing_console.Prelude.{
  ℕ, String, ◌≡◌, ◌≢◌, refl, ap, true, Option, none, some, List, [], ◌∷◌, arith, In,
}
use cloud_billing_console.Prelude.Texts.{has-In, In-has}
use cloud_billing_console.Budgets.Tables.{Scope, Budget, is_id}
use cloud_billing_console.Budgets.Forecasts.{ReportUnit, covers_account, takes_unit, unit_accounts}

-- The units that a scope takes in: those of the budget's connection, or those that show the
-- budget's account; all units for the other scopes.
abbrev pub InScope : Scope → Budget → ReportUnit → Type 0
InScope Scope.source b u = b.source ≡ some u.source
InScope Scope.account b u =
    (accounts : List String) → u.accounts ≡ some accounts → In b.account_id accounts
InScope Scope.customer b u = Unit
InScope Scope.project b u = Unit

-- The accounts that a request names: the budget's account alone, or what the unit shows.
abbrev pub AsksFor : Budget → ReportUnit → Option (List String) → Type 0
AsksFor b u accounts =
    (b.scope ≡ Scope.account → accounts ≡ some (b.account_id ∷ []))
    × (b.scope ≢ Scope.account → accounts ≡ u.accounts)

is_id_same : (o : Option ℕ) (n : ℕ) → is_id o n ≡ true → o ≡ some n
is_id_same none n e = cc
is_id_same (some k) n e = ap some (ground arith)

is_id_refl : (o : Option ℕ) (n : ℕ) → o ≡ some n → is_id o n ≡ true
is_id_refl o n e = rw e (ground arith)

pub taken-InScope : (b : Budget) (u : ReportUnit) → takes_unit b u ≡ true → InScope b.scope b u
taken-InScope b u = go b.scope
  where
    go :
        (s : Scope)
        → (elim s [
          | Scope.source ↦ is_id b.source u.source
          | Scope.account ↦ covers_account b.account_id u.accounts
          | Scope.customer ↦ true
          | Scope.project ↦ true
        ])
          ≡ true
        → InScope s b u
    go Scope.source e = is_id_same b.source u.source e
    go Scope.account e = λ accounts f. has-In accounts b.account_id (rw f at e)
    go Scope.customer e = tt
    go Scope.project e = tt

pub InScope-taken : (b : Budget) (u : ReportUnit) → InScope b.scope b u → takes_unit b u ≡ true
InScope-taken b u = go b.scope
  where
    covered :
        (o : Option (List String))
        → ((accounts : List String) → o ≡ some accounts → In b.account_id accounts)
        → covers_account b.account_id o ≡ true
    covered none h = refl
    covered (some accounts) h = In-has accounts b.account_id (h accounts refl)

    go :
        (s : Scope)
        → InScope s b u
        → (elim s [
          | Scope.source ↦ is_id b.source u.source
          | Scope.account ↦ covers_account b.account_id u.accounts
          | Scope.customer ↦ true
          | Scope.project ↦ true
        ])
          ≡ true
    go Scope.source e = is_id_refl b.source u.source e
    go Scope.account e = covered u.accounts e
    go Scope.customer e = refl
    go Scope.project e = refl

pub unit_accounts-AsksFor : (b : Budget) (u : ReportUnit) → AsksFor b u (unit_accounts b u)
unit_accounts-AsksFor b u = go b.scope
  where
    go :
        (s : Scope)
        → (s ≡ Scope.account
            → (elim s [
              | Scope.account ↦ some (b.account_id ∷ [])
              | Scope.source ↦ u.accounts
              | Scope.customer ↦ u.accounts
              | Scope.project ↦ u.accounts
            ])
              ≡ some (b.account_id ∷ []))
          × (s ≢ Scope.account
              → (elim s [
                | Scope.account ↦ some (b.account_id ∷ [])
                | Scope.source ↦ u.accounts
                | Scope.customer ↦ u.accounts
                | Scope.project ↦ u.accounts
              ])
                ≡ u.accounts)
    go Scope.source = ((λ e. cc), (λ n. refl))
    go Scope.account = ((λ e. refl), (λ n. absurd (n refl)))
    go Scope.customer = ((λ e. cc), (λ n. refl))
    go Scope.project = ((λ e. cc), (λ n. refl))
