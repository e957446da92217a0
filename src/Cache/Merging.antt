-- ===== src/Cache/Merging.antt =====
-- What the result of `fetch_pages` holds once a page is merged into it.
use cloud_billing_console.Prelude.{
  ◌≡◌, refl, ap, sym, ◌∙◌, Bool, true, false, not, String, Option, none, some, List, [], ◌∷◌,
  str_eq, if◌then◌else◌, arith, Bool-cases, Option-cases, inl, inr, ◌&&◌, str_eq_iff,
}
use cloud_billing_console.Prelude.Texts.{has}
use cloud_billing_console.Json.{Json, Items, nil, cons, Fields, get, put}
use cloud_billing_console.Cache.Paging.{
  list_keys, skipped, append, items_of, items_or_nil, extend, entry, merge,
}

pub append_assoc : (a b c : Items) → append (append a b) c ≡ append a (append b c)
unfolding append
append_assoc nil b c = refl
append_assoc (cons x a) b c = ap (cons x) (append_assoc a b c)

pub append-nil : (a : Items) → append a nil ≡ a
unfolding append
append-nil nil = refl
append-nil (cons x a) = ap (cons x) (append-nil a)

-- The items that the result has under the key.
abbrev pub held : String → Fields → Items
held key result = items_or_nil (get result key)

-- The items that a page, and a list of pages, have under the key.
unfoldable pub listed : String → Fields → Items
unfolding append
listed key Fields.empty = nil
listed key (Fields.field k v page) =
    if str_eq k key then append (items_or_nil (some v)) (listed key page) else listed key page

unfoldable pub all_listed : String → List Fields → Items
unfolding append listed
all_listed key [] = nil
all_listed key (p ∷ ps) = append (listed key p) (all_listed key ps)

abbrev pub is_list_key : String → Bool
is_list_key key = has list_keys key && not (skipped key)

held-extend :
    (key k : String) (items : Items) (result : Fields)
    → held key (extend k items result)
      ≡ (if str_eq k key then append (held key result) items else held key result)
unfolding extend get append
held-extend key k items Fields.empty = ground (arith, str_eq_iff k key)
held-extend key k items (Fields.field j v r) =
    ground (arith, str_eq_iff j k, str_eq_iff j key, str_eq_iff k key, held-extend key k items r)

held-put :
    (key k : String) (v : Json) (result : Fields)
    → str_eq k key ≡ false
    → held key (put result k v) ≡ held key result
unfolding put get
held-put key k v Fields.empty e = ground arith
held-put key k v (Fields.field j w r) e =
    ground (arith, str_eq_iff j k, str_eq_iff j key, str_eq_iff k key, held-put key k v r e)

-- Two keys differ where a test tells them apart.
differ : (t : String → Bool) (k key : String) → t k ≡ not (t key) → str_eq k key ≡ false
differ t k key e = elim (Bool-cases (str_eq k key)) [
  | inr h ↦ h
  | inl h ↦ (let same : t k ≡ t key = ap t ((str_eq_iff k key).0 h) in ground (arith, same, e))
]

pub listed_entry :
    (k : String) (v : Json) (result : Fields) (items : Items)
    → skipped k ≡ false
    → has list_keys k ≡ true
    → items_of v ≡ some items
    → entry k v result ≡ some (extend k items result)
listed_entry k v result items a b c = rw (a, b, c) refl

items_or_nil-items_of :
    (v : Json) (items : Items) → items_of v ≡ some items → items_or_nil (some v) ≡ items
items_or_nil-items_of (Json.arr xs) items e = ground arith
items_or_nil-items_of Json.null items e = cc
items_or_nil-items_of (Json.bool b) items e = cc
items_or_nil-items_of (Json.num n) items e = cc
items_or_nil-items_of (Json.str t) items e = cc
items_or_nil-items_of (Json.dict d) items e = cc

pub skipped-entry :
    (k : String) (v : Json) (result : Fields) → skipped k ≡ true → entry k v result ≡ some result
skipped-entry k v result a = rw a refl

pub broken_entry :
    (k : String) (v : Json) (result : Fields)
    → skipped k ≡ false
    → has list_keys k ≡ true
    → items_of v ≡ none
    → entry k v result ≡ none
broken_entry k v result a b c = rw (a, b, c) refl

pub plain_entry :
    (k : String) (v : Json) (result : Fields)
    → skipped k ≡ false
    → has list_keys k ≡ false
    → entry k v result ≡ some (put result k v)
plain_entry k v result a b = rw (a, b) refl

-- A key that the entry is not about keeps its items.
held-other :
    (key k : String) (v : Json) (result more : Fields)
    → str_eq k key ≡ false
    → held key more ≡ held key result
    → held key more
      ≡ (if str_eq k key then append (held key result) (items_or_nil (some v)) else held key result)
held-other key k v result more d e = rw d e

some_same : {o : Option Fields} {a b : Fields} → o ≡ some a → o ≡ some b → a ≡ b
some_same e f = cc

held-entry :
    (key k : String) (v : Json) (result more : Fields)
    → is_list_key key ≡ true
    → entry k v result ≡ some more
    → held key more
      ≡ (if str_eq k key then append (held key result) (items_or_nil (some v)) else held key result)
held-entry key k v result more l e = elim (Bool-cases (skipped k)) [
  | inl s ↦
      held-other key k v result more (differ skipped k key (ground (arith, l, s)))
        (ap (held key) (some_same e (skipped-entry k v result s)))
  | inr s ↦ elim (Bool-cases (has list_keys k)) [
    | inl h ↦ elim (Option-cases (items_of v)) [
      | inl n ↦ (let none_some : none ≡ some more = sym (broken_entry k v result s h n) ∙ e in cc)
      | inr (items, n) ↦
          ap (held key) (some_same e (listed_entry k v result items s h n))
          ∙ held-extend key k items result
          ∙ ap (λ is. if str_eq k key then append (held key result) is else held key result)
              (sym (items_or_nil-items_of v items n))
    ]
    | inr h ↦
        (let d : str_eq k key ≡ false = differ (has list_keys) k key (ground (arith, l, h)) in
          held-other key k v result more d
            (ap (held key) (some_same e (plain_entry k v result s h)) ∙ held-put key k v result d))
  ]
]

pub broken_merge :
    (k : String) (v : Json) (page result : Fields)
    → entry k v result ≡ none
    → merge (Fields.field k v page) result ≡ none
unfolding merge
broken_merge k v page result f = rw (f, merge) refl

pub merge-entry :
    (k : String) (v : Json) (page result next : Fields)
    → entry k v result ≡ some next
    → merge (Fields.field k v page) result ≡ merge page next
unfolding merge
merge-entry k v page result next f = rw (f, merge) refl

append-if :
    (b : Bool) (x y z : Items)
    → append (if b then append x y else x) z ≡ append x (if b then append y z else z)
append-if true x y z = append_assoc x y z
append-if false x y z = refl

pub held-merge :
    (key : String) (page result more : Fields)
    → is_list_key key ≡ true
    → merge page result ≡ some more
    → held key more ≡ append (held key result) (listed key page)
unfolding merge listed
held-merge key Fields.empty result more l e = ground (arith, append-nil (held key result))
held-merge key (Fields.field k v page) result more l e = elim (Option-cases (entry k v result)) [
  | inl f ↦ (let none_some : none ≡ some more = sym (broken_merge k v page result f) ∙ e in cc)
  | inr (next, f) ↦
      held-merge key page next more l (sym (merge-entry k v page result next f) ∙ e)
      ∙ ap (λ is. append is (listed key page)) (held-entry key k v result next l f)
      ∙ append-if (str_eq k key) (held key result) (items_or_nil (some v)) (listed key page)
]
