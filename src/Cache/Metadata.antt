-- ===== src/Cache/Metadata.antt =====
-- Which metadata keys the checks of `get_query` find in a request.
use cloud_billing_console.Prelude.{
  ℕ, ◌≡◌, sym, subst, true, false, String, Option, none, some, List, [], ◌++◌, str_eq,
  if◌then◌else◌, arith, all, inl, inr, ◌⊎◌, Bool-cases, In, str_eq_iff,
}
use cloud_billing_console.Prelude.Search.{In-append_left, In-append_right, all-In}
use cloud_billing_console.Json.{Json, Items, nil, cons, Fields, get}
use cloud_billing_console.Cache.Guards.{
  Need, Connection, Ask, Context, key_of, filter_need, group_need, needs, item_needs, field_needs,
  all_needs, named_need, may_use, check_metadata, admit,
}
use cloud_billing_console.Cache.Confined.{recorded, admit-Passes}

-- The dict stands somewhere in the value, at any depth.
abbrev mutual
  pub Inside : Fields → Json → Type 0
  Inside d (Json.dict e) = (d ≡ e) ⊎ InsideFields d e
  Inside d (Json.arr items) = InsideItems d items
  Inside d Json.null = ⊥
  Inside d (Json.bool b) = ⊥
  Inside d (Json.num n) = ⊥
  Inside d (Json.str s) = ⊥

  pub InsideItems : Fields → Items → Type 0
  InsideItems d nil = ⊥
  InsideItems d (cons v items) = Inside d v ⊎ InsideItems d items

  pub InsideFields : Fields → Fields → Type 0
  InsideFields d Fields.empty = ⊥
  InsideFields d (Fields.field key v r) = Inside d v ⊎ InsideFields d r

abbrev pub tag_key : Option String → Need
tag_key key = record { tag = true; key = key }

abbrev pub cost_category : Option String → Need
cost_category key = record { tag = false; key = key }

-- The dict is a filter by the tag or cost category, or groups by it.
abbrev pub Names : Fields → Need → Type 0
Names d n =
    ((e : Fields) × ((get d "Tags" ≡ some (Json.dict e)) × (n ≡ tag_key (key_of e))))
    ⊎ (((e : Fields) × ((get d "CostCategories" ≡ some (Json.dict e))
            × (n ≡ cost_category (key_of e))))
        ⊎ (((get d "Type" ≡ some (Json.str "TAG")) × (n ≡ tag_key (key_of d)))
            ⊎ ((get d "Type" ≡ some (Json.str "COST_CATEGORY")) × (n ≡ cost_category (key_of d)))))

some_same : {v w : Json} → some v ≡ some w → v ≡ w
some_same e = cc

entry-In :
    (d : Fields) (k : String) (v : Json) (n : Need)
    → get d k ≡ some v
    → In n (filter_need k v)
    → In n (field_needs d)
unfolding get needs
entry-In Fields.empty k v n e i = cc
entry-In (Fields.field j w r) k v n e i = elim (Bool-cases (str_eq j k)) [
  | inl h ↦ In-append_left (filter_need j w) (needs w ++ field_needs r) n (
      subst (λ y. In n (filter_need y w)) (sym ((str_eq_iff j k).0 h))
        (subst (λ y. In n (filter_need k y)) (sym (some_same (rw (h, get) at e))) i))
  | inr h ↦
      In-append_right (filter_need j w) (needs w ++ field_needs r) n
        (In-append_right (needs w) (field_needs r) n (entry-In r k v n (rw (h, get) at e) i))
]

Names-In : (d : Fields) (n : Need) → Names d n → In n (needs (Json.dict d))
unfolding needs
Names-In d n (inl (e, (f, g))) =
    In-append_left (field_needs d) (group_need d) n (entry-In d "Tags" (Json.dict e) n f (inl g))
Names-In d n (inr (inl (e, (f, g)))) =
    In-append_left (field_needs d) (group_need d) n
      (entry-In d "CostCategories" (Json.dict e) n f (inl g))
Names-In d n (inr (inr (inl (f, g)))) =
    In-append_right (field_needs d) (group_need d) n (rw (f, group_need) (inl g))
Names-In d n (inr (inr (inr (f, g)))) =
    In-append_right (field_needs d) (group_need d) n (rw (f, group_need) (inl g))

mutual
  unfolding needs

  Inside-In : (d : Fields) (v : Json) (n : Need) → Inside d v → Names d n → In n (needs v)
  Inside-In d (Json.dict e) n (inl same) m =
      subst (λ x. In n (needs (Json.dict x))) same (Names-In d n m)
  Inside-In d (Json.dict e) n (inr i) m =
      In-append_left (field_needs e) (group_need e) n (InsideFields-In d e n i m)
  Inside-In d (Json.arr items) n i m = InsideItems-In d items n i m
  Inside-In d Json.null n i m = absurd i
  Inside-In d (Json.bool b) n i m = absurd i
  Inside-In d (Json.num k) n i m = absurd i
  Inside-In d (Json.str s) n i m = absurd i

  InsideItems-In :
      (d : Fields) (items : Items) (n : Need)
      → InsideItems d items
      → Names d n
      → In n (item_needs items)
  InsideItems-In d nil n i m = absurd i
  InsideItems-In d (cons v items) n (inl i) m =
      In-append_left (needs v) (item_needs items) n (Inside-In d v n i m)
  InsideItems-In d (cons v items) n (inr i) m =
      In-append_right (needs v) (item_needs items) n (InsideItems-In d items n i m)

  InsideFields-In : (d e : Fields) (n : Need) → InsideFields d e → Names d n → In n (field_needs e)
  InsideFields-In d Fields.empty n i m = absurd i
  InsideFields-In d (Fields.field key v r) n (inl i) m =
      In-append_right (filter_need key v) (needs v ++ field_needs r) n
        (In-append_left (needs v) (field_needs r) n (Inside-In d v n i m))
  InsideFields-In d (Fields.field key v r) n (inr i) m =
      In-append_right (filter_need key v) (needs v ++ field_needs r) n
        (In-append_right (needs v) (field_needs r) n (InsideFields-In d r n i m))

check_metadata-none :
    (x : Context) (s : Connection) (customer : Option ℕ) (operation : String) (p : Fields)
    → x.require_approval ≡ true
    → check_metadata x s customer operation p ≡ none
    → all (may_use x s customer) (all_needs operation p) ≡ true
unfolding check_metadata
check_metadata-none x s customer operation p a e = ground arith

named_In :
    (operation : String) (p : Fields) (n : Need)
    → In n (needs (Json.dict p))
    → In n (all_needs operation p)
unfolding all_needs
named_In operation p n i =
    let tags : List Need =
      if str_eq operation "get_tags" then named_need true (get p "TagKey") else [] in
    let categories : List Need =
      if str_eq operation "get_cost_categories"
      then named_need false (get p "CostCategoryName")
      else [] in
    In-append_left (needs (Json.dict p) ++ tags) categories n
      (In-append_left (needs (Json.dict p)) tags n i)

-- Where connections need approval, `get_query` lets a request through only if each tag key and cost
-- category that it filters by or groups by, at any depth of the request, is approved by the customer
-- and the connection has the capability for it.
pub admit-approved :
    (x : Context) (s : Connection) (q : Ask) (p d : Fields) (n : Need)
    → x.require_approval ≡ true
    → admit x s q ≡ inr p
    → Inside d (Json.dict p)
    → Names d n
    → may_use x s q.customer n ≡ true
admit-approved x s q p d n a e i m =
    let (same, (o, (f, (b, (c, checked))))) = admit-Passes x s q p e in
    all-In (may_use x s q.customer) (all_needs q.operation (recorded q)) n
      (check_metadata-none x s q.customer q.operation (recorded q) a checked)
      (named_In q.operation (recorded q) n
        (subst (λ y. In n (needs (Json.dict y))) (sym same) (Inside-In d (Json.dict p) n i m)))
