-- ===== src/Cache/Tests.antt =====
-- The request cache on concrete requests and pages.
use cloud_billing_console.Prelude.{
  elem, inl, inr, none, ℕ, zero, suc, ◌≡◌, refl, ap, Bool, true, false, String, Option, some, List,
  [], ◌∷◌, ◌&&◌, ◌||◌, str_eq, arith,
}
use cloud_billing_console.Prelude.Texts.{has}
use cloud_billing_console.Json.{Json, Items, nil, cons, Fields, get}
use cloud_billing_console.Jobs.Types.{Access}
use cloud_billing_console.Cache.Guards.{Ask, Context, Connection, Refused, ever_owned, admit}
use cloud_billing_console.Cache.Guards.{may_use}
use cloud_billing_console.Cache.Metadata.{admit-approved}
use cloud_billing_console.Cache.Scoping.{sorted}
use cloud_billing_console.Cache.Confined.{OwnAccount, admit-confined}
use cloud_billing_console.Cache.Paging.{allowed, fetch_pages, fetched, repeated_token}
use cloud_billing_console.Cache.Chains.{Chain}
use cloud_billing_console.Cache.Complete.{Reports, Sound, fetch_pages_complete, fetch_pages-Sound}
use cloud_billing_console.Cache.Scoping.{
  texts, or_nobody, scoped_parameters, requested, scoped_parameters-exact,
}

abbrev one_field : String → Json → Fields
one_field k v = Fields.field k v Fields.empty

abbrev tags : List String → Json
tags names = Json.arr (texts names)

abbrev first_page : Fields
first_page =
    Fields.field "Tags" (tags ("team" ∷ []))
      (Fields.field "NextPageToken" (Json.str "p2") Fields.empty)

abbrev second_page : Fields
second_page =
    Fields.field "ReturnSize" (Json.num 1) (Fields.field "Tags" (tags ("stage" ∷ [])) Fields.empty)

-- A service that gives two pages.
abbrev service : ℕ → Fields → Option Fields
service zero request = some first_page
service (suc n) request = some second_page

abbrev parameters : Fields
parameters = one_field "TagKey" (Json.str "")

abbrev report : Fields
report =
    Fields.field "Tags" (tags ("team" ∷ "stage" ∷ []))
      (Fields.field "ReturnSize" (Json.num 1) Fields.empty)

two_pages : Chain service 0 parameters (first_page ∷ second_page ∷ [])
unfolding get texts
two_pages = Chain.more refl refl (Chain.last refl refl)

fetch_pages_complete_example :
    Reports Fields.empty (first_page ∷ second_page ∷ []) (fetch_pages service "get_tags" parameters)
unfolding get
fetch_pages_complete_example =
    fetch_pages_complete service "get_tags" parameters (first_page ∷ second_page ∷ []) refl
      two_pages (omega arith) refl (refl, (refl, tt))

two_pages_fetched : fetch_pages service "get_tags" parameters ≡ fetched report
unfolding fetch_pages texts
two_pages_fetched = refl

-- A service that gives one token for ever.
same_token_refused :
    fetch_pages (λ n request. some first_page) "get_tags" parameters ≡ repeated_token
unfolding fetch_pages texts
same_token_refused = refl

fetch_pages-Sound_example :
    (has allowed "get_tags" ≡ true) × Sound service 1000 0 parameters Fields.empty [] report
fetch_pages-Sound_example = fetch_pages-Sound service "get_tags" parameters report two_pages_fetched

abbrev has_text : Items → String → Bool
has_text nil account = false
has_text (cons (Json.str a) items) account = str_eq account a || has_text items account
has_text (cons _ items) account = has_text items account

has_text-texts :
    (values : List String) (account : String) → has_text (texts values) account ≡ has values account
unfolding texts
has_text-texts [] account = refl
has_text-texts (v ∷ vs) account = ap (λ b. str_eq account v || b) (has_text-texts vs account)

-- Filters of two forms, as AWS reads them; a line is named by its account.
abbrev evaluate : Json → String → Bool
evaluate (Json.dict (Fields.field k (Json.arr (cons f (cons g nil))) Fields.empty)) l =
    evaluate f l && evaluate g l
evaluate
      (Json.dict (
        Fields.field k
          (Json.dict (Fields.field i v (Fields.field j (Json.arr values) Fields.empty)))
          Fields.empty))
      l =
    has_text values l
evaluate _ l = true

abbrev wide : Fields
wide =
    Fields.field "Granularity" (Json.str "DAILY")
      (one_field "Filter" (Json.dict (one_field "Tags" Json.null)))

scoped_parameters-exact_example :
    ((l : String)
      → requested (λ a. a) evaluate (scoped_parameters wide (some ("222" ∷ "111" ∷ []))) l
        ≡ (requested (λ a. a) evaluate wide l && has (or_nobody ("222" ∷ "111" ∷ [])) l))
    × ((key : String)
        → str_eq "Filter" key ≡ false
        → get (scoped_parameters wide (some ("222" ∷ "111" ∷ []))) key ≡ get wide key)
scoped_parameters-exact_example =
    scoped_parameters-exact (λ a. a) evaluate (λ f g l. refl) has_text-texts wide
      ("222" ∷ "111" ∷ [])

abbrev operator : Access
operator = record { user_id = some 5; portfolio = false; customers = 1 ∷ 2 ∷ [] }

abbrev context : Context
context = record {
  enforce = true;
  require_approval = true;
  access = some operator;
  assignments =
      record { customer = 1; source = 7; account_id = "111"; start = 1; end = some 9 }
      ∷ record { customer = 1; source = 7; account_id = "222"; start = 1; end = none }
      ∷ record { customer = 2; source = 7; account_id = "333"; start = 1; end = none }
      ∷ [];
  metadata = λ c. some ("tag:team" ∷ []);
}

abbrev connection : Connection
connection = record {
  id = 7;
  customer = none;
  initial_import_done = true;
  capabilities = λ c. str_eq c "tags";
}

abbrev cost_ask : List String → Fields → Ask
cost_ask accounts parameters = record {
  operation = "get_cost_and_usage";
  parameters = parameters;
  customer = some 1;
  account_filter = some accounts;
}

abbrev by_tag : Fields
by_tag = one_field "GroupBy" (
    Json.arr (
      cons (Json.dict (Fields.field "Type" (Json.str "TAG") (one_field "Key" (Json.str "team"))))
        nil))

own_admitted :
    admit context connection (cost_ask ("222" ∷ "111" ∷ []) by_tag)
    ≡ inr (scoped_parameters by_tag (some ("222" ∷ "111" ∷ [])))
unfolding admit
own_admitted = refl

foreign_refused :
    admit context connection (cost_ask ("222" ∷ "333" ∷ []) by_tag) ≡ inl Refused.accounts_outside
unfolding admit
foreign_refused = refl

abbrev by_stage : Fields
by_stage = one_field "Filter" (
    Json.dict (
      one_field "Not"
        (Json.dict (one_field "Tags" (Json.dict (one_field "Key" (Json.str "stage")))))))

unapproved_refused :
    admit context connection (cost_ask ("222" ∷ []) by_stage) ≡ inl Refused.metadata_not_approved
unfolding admit
unapproved_refused = refl

admit-confined_example :
    (c : ℕ) × ((◌≡◌ {A = Option ℕ} (some 1) (some c))
      × ((elem c (1 ∷ 2 ∷ []) ≡ true)
          × ((l : String)
              → requested (λ a. a) evaluate (scoped_parameters by_tag (some ("222" ∷ "111" ∷ []))) l
                ≡ true
              → (requested (λ a. a) evaluate by_tag l ≡ true)
                × OwnAccount (ever_owned context.assignments c 7) l)))
admit-confined_example =
    admit-confined (λ a. a) evaluate (λ f g l. refl) has_text-texts context connection
      (cost_ask ("222" ∷ "111" ∷ []) by_tag) operator
      (scoped_parameters by_tag (some ("222" ∷ "111" ∷ []))) refl refl refl own_admitted

abbrev by_key : Fields
by_key = Fields.field "Type" (Json.str "TAG") (one_field "Key" (Json.str "team"))

admit-approved_example :
    may_use context connection (some 1) (record { tag = true; key = some "team" }) ≡ true
unfolding get scoped_parameters sorted texts
admit-approved_example =
    admit-approved context connection (cost_ask ("222" ∷ "111" ∷ []) by_tag)
      (scoped_parameters by_tag (some ("222" ∷ "111" ∷ []))) by_key
      (record { tag = true; key = some "team" }) refl own_admitted (inr (inl (inl (inl refl))))
      (inr (inr (inl (refl, refl))))
