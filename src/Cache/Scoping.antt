-- ===== src/Cache/Scoping.antt =====
-- `scoped_parameters` of billing/query_cache.py: no request of a customer reaches beyond the
-- accounts of its scope.
use Prim.Native.String.{compare}
use Prim.Native.Nat.{Ordering}
use cloud_billing_console.Prelude.{
  ◌≡◌, refl, ap, sym, ◌∙◌, Bool, true, false, String, Option, none, some, List, [], ◌∷◌, ◌&&◌, ◌||◌,
  str_eq, arith, Option-cases, inl, inr, str_eq_iff,
}
use cloud_billing_console.Prelude.Texts.{has}
use cloud_billing_console.Json.{Json, Items, nil, cons, Fields, get, put}

insert_account : String → List String → List String
insert_account a [] = a ∷ []
insert_account a (b ∷ bs) = elim (compare a b) [
  | Ordering.gt ↦ b ∷ insert_account a bs
  | _ ↦ a ∷ b ∷ bs
]

-- sorted(account_filter)
unfoldable pub sorted : List String → List String
unfolding insert_account
sorted [] = []
sorted (a ∷ as_) = insert_account a (sorted as_)

-- A list of texts as a JSON list.
unfoldable pub texts : List String → Items
texts [] = nil
texts (a ∷ as_) = cons (Json.str a) (texts as_)

abbrev pub or_nobody : List String → List String
or_nobody [] = "000000000000" ∷ []
or_nobody (a ∷ as_) = a ∷ as_

abbrev pub linked_account : List String → Json
linked_account values = Json.dict (
    Fields.field "Dimensions"
      (Json.dict (
        Fields.field "Key" (Json.str "LINKED_ACCOUNT")
          (Fields.field "Values" (Json.arr (texts values)) Fields.empty)))
      Fields.empty)

abbrev pub conjunction : Json → Json → Json
conjunction f g = Json.dict (Fields.field "And" (Json.arr (cons f (cons g nil))) Fields.empty)

-- The copy that `json.loads(json.dumps(...))` makes is the same value here.
unfoldable pub scoped_parameters : Fields → Option (List String) → Fields
unfolding put get sorted texts
scoped_parameters parameters none = parameters
scoped_parameters parameters (some accounts) =
    let restriction : Json = linked_account (or_nobody (sorted accounts)) in
    elim (get parameters "Filter") [
      | none ↦ put parameters "Filter" restriction
      | some filter ↦ put parameters "Filter" (conjunction filter restriction)
    ]

get-put : (d : Fields) (k : String) (v : Json) → get (put d k v) k ≡ some v
unfolding get put
get-put Fields.empty k v = ground (arith, str_eq_iff k k)
get-put (Fields.field j w r) k v = ground (arith, get-put r k v)

get-put_other :
    (d : Fields) (k l : String) (v : Json) → str_eq k l ≡ false → get (put d k v) l ≡ get d l
unfolding get put
get-put_other Fields.empty k l v e = ground arith
get-put_other (Fields.field j w r) k l v e =
    ground (arith, get-put_other r k l v e, str_eq_iff j k, str_eq_iff j l, str_eq_iff k l)

has-insert_account :
    (a x : String) (bs : List String) → has (insert_account a bs) x ≡ (str_eq x a || has bs x)
unfolding insert_account
has-insert_account a x [] = refl
has-insert_account a x (b ∷ bs) = ground (arith, has-insert_account a x bs)

has-sorted : (xs : List String) (x : String) → has (sorted xs) x ≡ has xs x
unfolding sorted
has-sorted [] x = refl
has-sorted (a ∷ xs) x =
    has-insert_account a x (sorted xs) ∙ ap (λ b. str_eq x a || b) (has-sorted xs x)

or_nobody-insert_account :
    (a : String) (bs : List String) → or_nobody (insert_account a bs) ≡ insert_account a bs
unfolding insert_account
or_nobody-insert_account a [] = refl
or_nobody-insert_account a (b ∷ bs) = ground arith

has-or_nobody :
    (xs : List String) (x : String) → has (or_nobody (sorted xs)) x ≡ has (or_nobody xs) x
has-or_nobody [] x = unfold sorted in refl
has-or_nobody (a ∷ xs) x =
    unfold sorted in
    ap (λ ys. has ys x) (or_nobody-insert_account a (sorted xs)) ∙ has-sorted (a ∷ xs) x

scoped_plain :
    (d : Fields) (accounts : List String)
    → get d "Filter" ≡ none
    → scoped_parameters d (some accounts)
      ≡ put d "Filter" (linked_account (or_nobody (sorted accounts)))
unfolding scoped_parameters
scoped_plain d accounts e = rw (e, scoped_parameters) refl

scoped_joined :
    (d : Fields) (accounts : List String) (f : Json)
    → get d "Filter" ≡ some f
    → scoped_parameters d (some accounts)
      ≡ put d "Filter" (conjunction f (linked_account (or_nobody (sorted accounts))))
unfolding scoped_parameters
scoped_joined d accounts f e = rw (e, scoped_parameters) refl

-- `matches f l` is whether AWS takes the line `l` of spend for the filter `f`.
module _ {Line : Type 0} (account : Line → String) (matches : Json → Line → Bool) where
  -- The lines that a request asks for.
  abbrev pub requested : Fields → Line → Bool
  requested parameters l = elim (get parameters "Filter") [ none ↦ true | some f ↦ matches f l ]

  -- AWS documents that And takes the lines that all its filters take.
  abbrev pub AndLaw : Type 0
  AndLaw = (f g : Json) (l : Line) → matches (conjunction f g) l ≡ (matches f l && matches g l)

  -- AWS documents that a dimension filter takes the lines that have one of its values.
  abbrev pub AccountLaw : Type 0
  AccountLaw =
      (values : List String) (l : Line) → matches (linked_account values) l ≡ has values (account l)

  requested-put : (d : Fields) (f : Json) (l : Line) → requested (put d "Filter" f) l ≡ matches f l
  requested-put d f l = rw (get-put d "Filter" f, requested) refl

  requested_all : (d : Fields) (l : Line) → get d "Filter" ≡ none → requested d l ≡ true
  requested_all d l e = rw (e, requested) refl

  requested_filter :
      (d : Fields) (f : Json) (l : Line) → get d "Filter" ≡ some f → requested d l ≡ matches f l
  requested_filter d f l e = rw (e, requested) refl

  -- A request with an account filter asks for exactly the lines that it asked for before and that
  -- are on an account of the filter, and for none but those of the account 000000000000 where the
  -- filter is empty; all other parameters stay as they are.
  pub scoped_parameters-exact :
      AndLaw
      → AccountLaw
      → (parameters : Fields) (accounts : List String)
      → ((l : Line)
          → requested (scoped_parameters parameters (some accounts)) l
            ≡ (requested parameters l && has (or_nobody accounts) (account l)))
        × ((key : String)
            → str_eq "Filter" key ≡ false
            → get (scoped_parameters parameters (some accounts)) key ≡ get parameters key)
  scoped_parameters-exact and_law account_law parameters accounts =
      elim (Option-cases (get parameters "Filter")) [
        | inl e ↦ (
          (λ l.
              ap (λ d. requested d l) (scoped_plain parameters accounts e)
              ∙ requested-put parameters (linked_account (or_nobody (sorted accounts))) l
              ∙ account_law (or_nobody (sorted accounts)) l
              ∙ has-or_nobody accounts (account l)
              ∙ ap (λ b. b && has (or_nobody accounts) (account l))
                  (sym (requested_all parameters l e))),
          (λ key other.
              ap (λ d. get d key) (scoped_plain parameters accounts e)
              ∙ get-put_other parameters "Filter" key (linked_account (or_nobody (sorted accounts)))
                  other),
        )
        | inr (f, e) ↦ (
          (λ l.
              ap (λ d. requested d l) (scoped_joined parameters accounts f e)
              ∙ requested-put parameters
                  (conjunction f (linked_account (or_nobody (sorted accounts)))) l
              ∙ and_law f (linked_account (or_nobody (sorted accounts))) l
              ∙ ap (λ b. matches f l && b)
                  (account_law (or_nobody (sorted accounts)) l ∙ has-or_nobody accounts (account l))
              ∙ ap (λ b. b && has (or_nobody accounts) (account l))
                  (sym (requested_filter parameters f l e))),
          (λ key other.
              ap (λ d. get d key) (scoped_joined parameters accounts f e)
              ∙ get-put_other parameters "Filter" key
                  (conjunction f (linked_account (or_nobody (sorted accounts)))) other),
        )
      ]
