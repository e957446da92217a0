-- ===== src/Cache/Complete.antt =====
-- `fetch_pages` gives the whole report, and gives it exactly where AWS completes it.
use cloud_billing_console.Prelude.{
  ℕ, zero, suc, ◌+◌, ◌≤◌, ◌≡◌, refl, sym, ◌∙◌, subst, true, false, not, String, Option, none, some,
  List, [], ◌∷◌, length, All, arith, Bool-cases, Option-cases, inl, inr, ◌&&◌,
}
use cloud_billing_console.Prelude.Texts.{has}
use cloud_billing_console.Json.{Fields}
use cloud_billing_console.Cache.Paging.{
  allowed, merge, token_of, Fetch, fetched, with_token, fetch_loop, fetch_pages, repeated_token,
  call_failed, unsupported,
}
use cloud_billing_console.Cache.Chains.{
  has_lists, both, merge-total, Chain, loop-last, loop-repeated, loop-more, is_fresh, IsWhole,
  IsWhole-one, IsWhole-more,
}

-- A run that ends with a report that is whole.
abbrev pub Reports : Fields → List Fields → Fetch → Type 0
Reports result pages f = (out : Fields) × ((f ≡ fetched out) × IsWhole result pages out)

module _ (call : ℕ → Fields → Option Fields) where
  fresh-head :
      (seen : List String) (page : Fields) (pages : List Fields) (token : String)
      → token_of page ≡ some token
      → is_fresh seen (page ∷ pages) ≡ true
      → (not (has seen token) && is_fresh (token ∷ seen) pages) ≡ true
  fresh-head seen page pages token t h = rw (t, is_fresh) at h

  loop_complete :
      (n : ℕ) {i : ℕ} {request : Fields} {pages : List Fields} (result : Fields)
      (seen : List String)
      → Chain call i request pages
      → length pages ≤ n
      → is_fresh seen pages ≡ true
      → All (λ p. has_lists p ≡ true) pages
      → Reports result pages (fetch_loop call n i request result seen)
  loop_complete zero result seen (Chain.last c t) l h a = absurd (omega arith)
  loop_complete zero result seen (Chain.more c t ch) l h a = absurd (omega arith)
  loop_complete (suc n) result seen (Chain.last {i} {request} {page} c t) l h (p, a) =
      let (out, m) = merge-total page result p in
      (out, (loop-last call n i request result page out seen c m t, IsWhole-one page result out m))
  loop_complete (suc n) result seen (Chain.more {i} {request} {page} {pages} {token} c t ch) l h
        (p, a) =
      let (next, m) = merge-total page result p in
      let (new, rest) =
        both (not (has seen token)) (is_fresh (token ∷ seen) pages)
          (fresh-head seen page pages token t h) in
      let (out, (e, w)) = loop_complete n next (token ∷ seen) ch (omega arith) rest a in
      (
        out,
        (
          loop-more call n i request result page next seen token c m t (ground (arith, new)) ∙ e,
          IsWhole-more page result next out pages m w,
        ),
      )

  -- Where a report of a run comes from.
  abbrev pub Sound : ℕ → ℕ → Fields → Fields → List String → Fields → Type 0
  Sound n i request result seen out =
      (pages : List Fields) × (Chain call i request pages
        × ((length pages ≤ n) × ((is_fresh seen pages ≡ true) × IsWhole result pages out)))

  loop-failed :
      (n i : ℕ) (request result : Fields) (seen : List String)
      → call i request ≡ none
      → fetch_loop call (suc n) i request result seen ≡ call_failed
  unfolding fetch_loop
  loop-failed n i request result seen c = rw (c, fetch_loop) refl

  loop-broken :
      (n i : ℕ) (request result page : Fields) (seen : List String)
      → call i request ≡ some page
      → merge page result ≡ none
      → fetch_loop call (suc n) i request result seen ≡ call_failed
  unfolding fetch_loop
  loop-broken n i request result page seen c m = rw (c, m, fetch_loop) refl

  loop-Sound :
      (n i : ℕ) (request result : Fields) (seen : List String) (out : Fields)
      → fetch_loop call n i request result seen ≡ fetched out
      → Sound n i request result seen out
  loop-Sound zero i request result seen out e = absurd (unfold fetch_loop in cc)
  loop-Sound (suc n) i request result seen out e = elim (Option-cases (call i request)) [
    | inl c ↦ absurd (refuted (sym (loop-failed n i request result seen c) ∙ e))
    | inr (page, c) ↦ elim (Option-cases (merge page result)) [
      | inl m ↦ absurd (refuted (sym (loop-broken n i request result page seen c m) ∙ e))
      | inr (next, m) ↦ elim (Option-cases (token_of page)) [
        | inl t ↦ (
          page ∷ [],
          (
            Chain.last c t,
            (
              omega arith,
              (
                fresh_last page t,
                subst (IsWhole result (page ∷ []))
                    (same (loop-last call n i request result page next seen c m t))
                    (IsWhole-one page result next m),
              ),
            ),
          ),
        )
        | inr (token, t) ↦ elim (Bool-cases (has seen token)) [
          | inl s ↦ absurd (
              repeated
                (sym (loop-repeated call n i request result page next seen token c m t s) ∙ e))
          | inr s ↦
              (let (pages, (ch, (l, (f, w)))) =
                  loop-Sound n (i + 1) (with_token request token) next (token ∷ seen) out
                    (sym (loop-more call n i request result page next seen token c m t s) ∙ e) in
                (
                  page ∷ pages,
                  (
                    Chain.more c t ch,
                    (
                      omega (arith, l),
                      (
                        fresh_more page token t s pages f,
                        IsWhole-more page result next out pages m w,
                      ),
                    ),
                  ),
                ))
        ]
      ]
    ]
  ]
    where
      refuted : call_failed ≡ fetched out → ⊥
      refuted h = cc

      repeated : repeated_token ≡ fetched out → ⊥
      repeated h = cc

      same :
          {next : Fields}
          → fetch_loop call (suc n) i request result seen ≡ fetched next
          → next ≡ out
      same h = cc

      fresh_last : (page : Fields) → token_of page ≡ none → is_fresh seen (page ∷ []) ≡ true
      fresh_last page t = rw (t, is_fresh) refl

      fresh_more :
          (page : Fields) (token : String)
          → token_of page ≡ some token
          → has seen token ≡ false
          → (pages : List Fields) → is_fresh (token ∷ seen) pages ≡ true
          → is_fresh seen (page ∷ pages) ≡ true
      fresh_more page token t s pages f = rw (t, s, is_fresh) f

module _ (call : ℕ → Fields → Option Fields) (operation : String) (parameters : Fields) where
  fetch-allowed :
      has allowed operation ≡ true
      → fetch_pages call operation parameters ≡ fetch_loop call 1000 0 parameters Fields.empty []
  unfolding fetch_pages
  fetch-allowed o = rw (o, fetch_pages) refl

  fetch-unsupported :
      has allowed operation ≡ false → fetch_pages call operation parameters ≡ unsupported
  unfolding fetch_pages
  fetch-unsupported o = rw (o, fetch_pages) refl

-- Where AWS completes an allowed request within 1,000 pages, with a list under each list key and no
-- token twice, `fetch_pages` gives a result that has the items of all the pages under each list
-- key, in their order.
pub fetch_pages_complete :
    (call : ℕ → Fields → Option Fields) (operation : String) (parameters : Fields)
    (pages : List Fields)
    → has allowed operation ≡ true
    → Chain call 0 parameters pages
    → length pages ≤ 1000
    → is_fresh [] pages ≡ true
    → All (λ p. has_lists p ≡ true) pages
    → Reports Fields.empty pages (fetch_pages call operation parameters)
fetch_pages_complete call operation parameters pages o ch l f a =
    subst (Reports Fields.empty pages) (sym (fetch-allowed call operation parameters o))
      (loop_complete call 1000 Fields.empty [] ch l f a)

-- `fetch_pages` gives no partial report: each result that it gives has the items of all pages of a
-- chain that AWS completed, of 1,000 pages at most and with no token twice, and the operation is
-- allowed.
pub fetch_pages-Sound :
    (call : ℕ → Fields → Option Fields) (operation : String) (parameters out : Fields)
    → fetch_pages call operation parameters ≡ fetched out
    → (has allowed operation ≡ true) × Sound call 1000 0 parameters Fields.empty [] out
fetch_pages-Sound call operation parameters out e = elim (Bool-cases (has allowed operation)) [
  | inl o ↦ (
    o,
    loop-Sound call 1000 0 parameters Fields.empty [] out
        (sym (fetch-allowed call operation parameters o) ∙ e),
  )
  | inr o ↦ absurd (refused (sym (fetch-unsupported call operation parameters o) ∙ e))
]
  where
    refused : unsupported ≡ fetched out → ⊥
    refused h = cc
