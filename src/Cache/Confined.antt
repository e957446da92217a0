-- ===== src/Cache/Confined.antt =====
-- What the checks of `get_query` guarantee for each query that they let through.
use cloud_billing_console.Prelude.{
  ℕ, ◌≡◌, refl, ap, sym, ◌∙◌, subst, Bool, true, false, String, Option, none, some, List, [], ◌∷◌,
  ◌&&◌, str_eq, arith, all, elem, inl, inr, ◌⊎◌, Bool-cases, str_eq_iff,
}
use cloud_billing_console.Prelude.Texts.{has}
use cloud_billing_console.Json.{Json, Fields}
use cloud_billing_console.Jobs.Types.{Access}
use cloud_billing_console.Cache.Paging.{allowed}
use cloud_billing_console.Cache.Scoping.{
  or_nobody, scoped_parameters, requested, AndLaw, AccountLaw, scoped_parameters-exact,
}
use cloud_billing_console.Cache.Guards.{
  Connection, Ask, Context, Refused, ever_owned, within_scope, check_scope, check_capability,
  check_metadata, admitted, first_of, admit, unsupported, import_pending,
}

-- The request that `get_query` records for the ask.
abbrev pub recorded : Ask → Fields
recorded q = scoped_parameters q.parameters q.account_filter

-- All checks pass, in the order of the code.
abbrev pub Passes : Context → Connection → Ask → Type 0
Passes x s q =
    (has allowed q.operation ≡ true)
    × ((s.initial_import_done ≡ true)
        × ((check_scope x s q ≡ none)
            × ((check_capability x s q.operation (recorded q) ≡ none)
                × (check_metadata x s q.customer q.operation (recorded q) ≡ none))))

admitted-first :
    (a b c : Option Refused) (d p : Fields)
    → admitted (first_of a (first_of b c)) d ≡ inr p
    → (d ≡ p) × ((a ≡ none) × ((b ≡ none) × (c ≡ none)))
admitted-first none none none d p e = (cc, (refl, (refl, refl)))
admitted-first none none (some r) d p e = absurd (ground arith)
admitted-first none (some r) c d p e = absurd (ground arith)
admitted-first (some r) b c d p e = absurd (ground arith)

pub admit-Passes :
    (x : Context) (s : Connection) (q : Ask) (p : Fields)
    → admit x s q ≡ inr p
    → (recorded q ≡ p) × Passes x s q
unfolding admit
admit-Passes x s q p e = elim (Bool-cases (has allowed q.operation)) [
  | inr o ↦ absurd (unsupported_first (rw (o, admit) at e))
  | inl o ↦ elim (Bool-cases s.initial_import_done) [
    | inr d ↦ absurd (pending_first (rw (o, d, admit) at e))
    | inl d ↦
        (let (same, (a, (b, c))) =
            admitted-first (check_scope x s q) (check_capability x s q.operation (recorded q))
              (check_metadata x s q.customer q.operation (recorded q)) (recorded q) p
              (rw (o, d, admit) at e) in
          (same, (o, (d, (a, (b, c))))))
  ]
]
  where
    unsupported_first : ◌≡◌ {A = Refused ⊎ Fields} (inl unsupported) (inr p) → ⊥
    unsupported_first h = cc

    pending_first : ◌≡◌ {A = Refused ⊎ Fields} (inl import_pending) (inr p) → ⊥
    pending_first h = cc

-- A customer of the access, and accounts that are all the customer's own.
abbrev pub InScope : Context → Connection → Access → Option ℕ → Option (List String) → Type 0
InScope x s a customer account_filter =
    (c : ℕ) × ((accounts : List String) × ((customer ≡ some c)
        × ((account_filter ≡ some accounts)
            × ((elem c a.customers ≡ true)
                × (all (has (ever_owned x.assignments c s.id)) accounts ≡ true)))))

within_scope-InScope :
    (x : Context) (s : Connection) (a : Access) (customer : Option ℕ)
    (account_filter : Option (List String))
    → within_scope x s a customer account_filter ≡ none
    → InScope x s a customer account_filter
within_scope-InScope x s a none f e = absurd (ground arith)
within_scope-InScope x s a (some c) none e = absurd (ground arith)
within_scope-InScope x s a (some c) (some accounts) e =
    (c, (accounts, (refl, (refl, ground arith))))

check_scope-InScope :
    (x : Context) (s : Connection) (q : Ask) (a : Access)
    → x.enforce ≡ true
    → x.access ≡ some a
    → a.portfolio ≡ false
    → check_scope x s q ≡ none
    → InScope x s a q.customer q.account_filter
unfolding check_scope
check_scope-InScope x s q a f g p e =
    within_scope-InScope x s a q.customer q.account_filter (ground arith)

-- The account of a line lies in the list, or is the one that no customer has.
abbrev pub OwnAccount : List String → String → Type 0
OwnAccount owned account = (has owned account ≡ true) ⊎ (str_eq account "000000000000" ≡ true)

has-all :
    (t : String → Bool) (xs : List String) (a : String)
    → all t xs ≡ true
    → has xs a ≡ true
    → t a ≡ true
has-all t [] a h m = cc
has-all t (x ∷ xs) a h m = elim (Bool-cases (str_eq a x)) [
  | inl e ↦ subst (λ y. t y ≡ true) (sym ((str_eq_iff a x).0 e)) (ground arith)
  | inr e ↦ has-all t xs a (ground arith) (ground arith)
]

own_account :
    (owned accounts : List String) (account : String)
    → all (has owned) accounts ≡ true
    → has (or_nobody accounts) account ≡ true
    → OwnAccount owned account
own_account owned [] account h m = inr (ground arith)
own_account owned (a ∷ as_) account h m = inl (has-all (has owned) (a ∷ as_) account h m)

module _ {Line : Type 0} (account : Line → String) (matches : Json → Line → Bool) where
  -- For a user without portfolio access, `get_query` lets no request through that asks AWS for spend
  -- of foreign accounts: the customer is one of the user's, the request asks only for lines that
  -- the unscoped one asked for, and each line is on an account that the customer has had in the
  -- connection, or on 000000000000 where the filter is empty.
  pub admit-confined :
      AndLaw account matches
      → AccountLaw account matches
      → (x : Context) (s : Connection) (q : Ask) (a : Access) (p : Fields) → x.enforce ≡ true
      → x.access ≡ some a
      → a.portfolio ≡ false
      → admit x s q ≡ inr p
      → (c : ℕ) × ((q.customer ≡ some c)
          × ((elem c a.customers ≡ true)
              × ((l : Line)
                  → requested account matches p l ≡ true
                  → (requested account matches q.parameters l ≡ true)
                    × OwnAccount (ever_owned x.assignments c s.id) (account l))))
  admit-confined and_law account_law x s q a p f g h e =
      let (same, (o, (d, (scope, rest)))) = admit-Passes x s q p e in
      let (c, (accounts, (i, (j, (k, all_own))))) = check_scope-InScope x s q a f g h scope in
      (c, (i, (k, (λ l m. go c accounts j all_own same l m))))
    where
      go :
          (c : ℕ) (accounts : List String)
          → q.account_filter ≡ some accounts
          → all (has (ever_owned x.assignments c s.id)) accounts ≡ true
          → recorded q ≡ p
          → (l : Line) → requested account matches p l ≡ true
          → (requested account matches q.parameters l ≡ true)
            × OwnAccount (ever_owned x.assignments c s.id) (account l)
      go c accounts j all_own same l m =
          let exact =
            (scoped_parameters-exact account matches and_law account_law q.parameters accounts).0
              l in
          let scoped : scoped_parameters q.parameters (some accounts) ≡ p =
            ap (scoped_parameters q.parameters) (sym j) ∙ same in
          let here : (requested account matches q.parameters l
                && has (or_nobody accounts) (account l))
              ≡ true =
            sym exact ∙ (ap (λ d. requested account matches d l) scoped ∙ m) in
          (
            ground (arith, here),
            own_account (ever_owned x.assignments c s.id) accounts (account l) all_own
                (ground (arith, here)),
          )
