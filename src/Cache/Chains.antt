-- ===== src/Cache/Chains.antt =====
-- The chains of pages that AWS gives to `fetch_pages`, and each step of its loop.
use cloud_billing_console.Prelude.{
  ℕ, suc, ◌+◌, ◌≡◌, refl, ap, sym, ◌∙◌, Bool, true, false, not, String, Option, none, some, List,
  [], ◌∷◌, arith, Bool-cases, Option-cases, inl, inr, ◌&&◌, ◌||◌, is_some,
}
use cloud_billing_console.Prelude.Texts.{has}
use cloud_billing_console.Json.{Json, Fields, put}
use cloud_billing_console.Cache.Paging.{
  list_keys, skipped, append, items_of, extend, entry, merge, token_of, fetched, with_token,
  fetch_loop, repeated_token,
}
use cloud_billing_console.Cache.Merging.{
  held, listed, all_listed, is_list_key, held-merge, append-nil, append_assoc, merge-entry,
  listed_entry, skipped-entry, plain_entry,
}

-- A page has a list under each of the list keys.
abbrev pub has_lists : Fields → Bool
has_lists Fields.empty = true
has_lists (Fields.field k v page) =
    (skipped k || not (has list_keys k) || is_some (items_of v)) && has_lists page

pub entry-total :
    (k : String) (v : Json) (result : Fields)
    → (skipped k || not (has list_keys k) || is_some (items_of v)) ≡ true
    → (more : Fields) × (entry k v result ≡ some more)
entry-total k v result h = elim (Bool-cases (skipped k)) [
  | inl s ↦ (result, skipped-entry k v result s)
  | inr s ↦ elim (Bool-cases (has list_keys k)) [
    | inr p ↦ (put result k v, plain_entry k v result s p)
    | inl p ↦ elim (Option-cases (items_of v)) [
      | inl n ↦ absurd (ground (arith, h, s, p, n))
      | inr (items, n) ↦ (extend k items result, listed_entry k v result items s p n)
    ]
  ]
]

pub both : (a b : Bool) → (a && b) ≡ true → (a ≡ true) × (b ≡ true)
both true b h = (refl, h)
both false b h = cc

pub merge-total :
    (page result : Fields)
    → has_lists page ≡ true
    → (more : Fields) × (merge page result ≡ some more)
merge-total Fields.empty result h = (result, unfold merge in refl)
merge-total (Fields.field k v page) result h =
    let (here, there) =
      both (skipped k || not (has list_keys k) || is_some (items_of v)) (has_lists page) h in
    let (next, e) = entry-total k v result here in
    let (more, f) = merge-total page next there in (more, merge-entry k v page result next e ∙ f)

module _ (call : ℕ → Fields → Option Fields) where
  -- The pages that AWS gives from the `i`-th call on, each asked for with the token of the one
  -- before, up to the first page with no token.
  pub data Chain : ℕ → Fields → List Fields → Type 0 where
    last :
        {i : ℕ} {request page : Fields}
        → call i request ≡ some page
        → token_of page ≡ none
        → Chain i request (page ∷ [])
    more :
        {i : ℕ} {request page : Fields} {pages : List Fields} {token : String}
        → call i request ≡ some page
        → token_of page ≡ some token
        → Chain (i + 1) (with_token request token) pages
        → Chain i request (page ∷ pages)

  pub loop-last :
      (n i : ℕ) (request result page out : Fields) (seen : List String)
      → call i request ≡ some page
      → merge page result ≡ some out
      → token_of page ≡ none
      → fetch_loop call (suc n) i request result seen ≡ fetched out
  unfolding fetch_loop
  loop-last n i request result page out seen c m t = rw (c, m, t, fetch_loop) refl

  pub loop-repeated :
      (n i : ℕ) (request result page out : Fields) (seen : List String) (token : String)
      → call i request ≡ some page
      → merge page result ≡ some out
      → token_of page ≡ some token
      → has seen token ≡ true
      → fetch_loop call (suc n) i request result seen ≡ repeated_token
  unfolding fetch_loop
  loop-repeated n i request result page out seen token c m t s = rw (c, m, t, s, fetch_loop) refl

  pub loop-more :
      (n i : ℕ) (request result page out : Fields) (seen : List String) (token : String)
      → call i request ≡ some page
      → merge page result ≡ some out
      → token_of page ≡ some token
      → has seen token ≡ false
      → fetch_loop call (suc n) i request result seen
        ≡ fetch_loop call n (i + 1) (with_token request token) out (token ∷ seen)
  unfolding fetch_loop
  loop-more n i request result page out seen token c m t s = rw (c, m, t, s, fetch_loop) refl

-- No token comes twice, or is among those seen.
abbrev pub is_fresh : List String → List Fields → Bool
is_fresh seen [] = true
is_fresh seen (p ∷ ps) = elim (token_of p) [
  | none ↦ true
  | some token ↦ not (has seen token) && is_fresh (token ∷ seen) ps
]

-- The result has all items of the pages, in their order, under each list key.
abbrev pub IsWhole : Fields → List Fields → Fields → Type 0
IsWhole result pages out =
    (key : String)
    → is_list_key key ≡ true
    → held key out ≡ append (held key result) (all_listed key pages)

pub IsWhole-one :
    (page result out : Fields) → merge page result ≡ some out → IsWhole result (page ∷ []) out
unfolding all_listed
IsWhole-one page result out m key l =
    held-merge key page result out l m
    ∙ ap (append (held key result)) (sym (append-nil (listed key page)))

pub IsWhole-more :
    (page result next out : Fields) (pages : List Fields)
    → merge page result ≡ some next
    → IsWhole next pages out
    → IsWhole result (page ∷ pages) out
unfolding all_listed
IsWhole-more page result next out pages m w key l =
    w key l
    ∙ ap (λ is. append is (all_listed key pages)) (held-merge key page result next l m)
    ∙ append_assoc (held key result) (listed key page) (all_listed key pages)
