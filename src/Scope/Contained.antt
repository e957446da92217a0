-- ===== src/Scope/Contained.antt =====
-- What a resolved selection contains.
use cloud_billing_console.Prelude.{
  ℕ, String, ◌≡◌, refl, sym, ap, ◌∙◌, subst, inl, inr, Bool, true, false, not, Option, none, some,
  List, [], ◌∷◌, arith, ◌==◌, if◌then◌else◌, ==_iff, Bool-cases, find, All, In,
}
use cloud_billing_console.Prelude.Search.{find-some}
use cloud_billing_console.Scope.Resolution.{
  Source, Project, Rows, Params, Scope, Resolved, found, refused, ◌>>=◌, found_or, is_empty,
  belongs, is_assigned, is_seen, of_customer, single, choose_customer, choose_source, account_ids,
  check_accounts, choose_project, scope_of, resolve,
}

-- All that is selected belongs to the customer `c`: the connection is its own or shared, an account is
-- assigned to it, and seen through the connection, and the project is its own.
abbrev pub IsContained : Rows → ℕ → Scope → Type 0
IsContained rows c scope =
    ((scope.customer ≡ some c) × In c rows.customers)
    × (((s : Source) → scope.source ≡ some s → In s rows.sources × (belongs (some c) s ≡ true))
        × ((is_empty scope.account_id ≡ false
              → (is_assigned rows.assignments (some c) scope.account_id ≡ true)
                × (is_seen rows scope.source scope.account_id ≡ true))
            × ((p : Project) → scope.project ≡ some p → In p rows.projects × (p.customer ≡ c))))

>>=-found :
    {A B : Type 0} (x : Resolved A) (f : A → Resolved B) (b : B)
    → (x >>= f) ≡ found b
    → (a : A) × ((x ≡ found a) × (f a ≡ found b))
>>=-found (found a) f b e = (a, (refl, e))
>>=-found (refused m) f b e = cc

found_or-found :
    {A : Type 0} (m : String) (o : Option A) (a : A) → found_or m o ≡ found a → o ≡ some a
found_or-found m none a e = cc
found_or-found m (some b) a e = cc

-- A row that is found by a parsed key.
lookup-found :
    {A B : Type 0} (m n : String) (key : Option ℕ) (p : ℕ → A → Bool) (xs : List A)
    (g : A → Resolved B) (b : B)
    → (found_or m key >>= (λ k. found_or n (find (p k) xs)) >>= g) ≡ found b
    → (a : A) × (In a xs × ((g a ≡ found b) × ((k : ℕ) × ((key ≡ some k) × (p k a ≡ true)))))
lookup-found m n key p xs g b e =
    let (a, (f, h)) = >>=-found (found_or m key >>= (λ k. found_or n (find (p k) xs))) g b e in
    let (k, (i, j)) = >>=-found (found_or m key) (λ k. found_or n (find (p k) xs)) a f in
    let (l, q) = find-some (p k) xs (found_or-found n (find (p k) xs) a j) in
    (a, (l, (h, (k, (found_or-found m key k i, q)))))

tested :
    {A : Type 0} (b : Bool) (m : String) (x y : A)
    → (if b then found (some x) else refused m) ≡ found (some y)
    → (x ≡ y) × (b ≡ true)
tested true m x y e = (cc, refl)
tested false m x y e = cc

checks :
    (p q r : Bool) (l m n : String) (rest : Resolved (Unit {0}))
    → (if not p then refused l else if not q then refused m else if not r then refused n else rest)
      ≡ found tt
    → ((q ≡ true) × (r ≡ true)) × (rest ≡ found tt)
checks p q r l m n rest e = ground arith

found_same : {A : Type 0} (x y : A) → found x ≡ found y → x ≡ y
found_same x y e = cc

module _ (uuid int : String → Option ℕ) (strip : String → String) (is_digits : String → Bool)
    (rows : Rows) where
  customer_chosen :
      (required : Bool) (cid : String) (o : Option ℕ)
      → is_empty cid ≡ false
      → choose_customer uuid int strip is_digits rows required cid ≡ found o
      → (c : ℕ) × ((o ≡ some c) × (In c rows.customers × (uuid cid ≡ some c)))
  unfolding choose_customer
  customer_chosen required cid o h e =
      let (c, (i, (f, (k, (key, same))))) =
        lookup-found "Choose a valid customer."
          "This customer could not be found. Choose another customer." (uuid cid) (λ k c. c == k)
          rows.customers (λ c. found (some c)) o (rw h at e) in
      (c, (cc, (i, key ∙ ap some (sym ((==_iff c k).0 same)))))

  source_chosen :
      (customer : Option ℕ) (sid : String) (s : Source)
      → choose_source uuid int strip is_digits rows customer sid ≡ found (some s)
      → In s rows.sources × (belongs customer s ≡ true)
  unfolding choose_source
  source_chosen customer sid s e = elim (Bool-cases (is_empty sid)) [
    | inl h ↦ absurd (let f = rw h at e in cc)
    | inr h ↦
        (let (t, (i, (f, _))) =
            lookup-found "Choose a valid connection." "This connection could not be found."
              (uuid sid) (λ k (x : Source). x.pk == k) rows.sources
              (λ x.
                if belongs customer x
                then found (some x)
                else refused "This connection does not belong to the selected customer.")
              (some s) (rw h at e) in
          let (same, b) =
            tested (belongs customer t) "This connection does not belong to the selected customer."
              t s f in
          (subst (λ x. In x rows.sources) same i, subst (λ x. belongs customer x ≡ true) same b))
  ]

  project_chosen :
      (customer : Option ℕ) (pid : String) (p : Project)
      → choose_project uuid int strip is_digits rows customer pid ≡ found (some p)
      → In p rows.projects × (of_customer customer p ≡ true)
  unfolding choose_project
  project_chosen customer pid p e = elim (Bool-cases (is_empty pid)) [
    | inl h ↦ absurd (let f = rw h at e in cc)
    | inr h ↦
        (let (t, (i, (f, _))) =
            lookup-found "Choose a valid project." "Choose a valid project." (int pid)
              (λ k (x : Project). x.pk == k) rows.projects
              (λ x.
                if of_customer customer x
                then found (some x)
                else refused "This project belongs to another customer.")
              (some p) (rw h at e) in
          let (same, b) =
            tested (of_customer customer t) "This project belongs to another customer." t p f in
          (
            subst (λ x. In x rows.projects) same i,
            subst (λ x. of_customer customer x ≡ true) same b,
          ))
  ]

  accounts_checked :
      (customer : Option ℕ) (source : Option Source) (ids : List String)
      → check_accounts uuid int strip is_digits rows customer source ids ≡ found tt
      → All
          (λ a. (is_assigned rows.assignments customer a ≡ true) × (is_seen rows source a ≡ true))
          ids
  unfolding check_accounts
  accounts_checked customer source [] e = tt
  accounts_checked customer source (a ∷ as_) e =
      let (now, rest) =
        checks (is_digits a) (is_assigned rows.assignments customer a) (is_seen rows source a)
          "Choose a valid AWS account." "This account is not part of the selected customer."
          "This account is not part of the selected connection."
          (check_accounts uuid int strip is_digits rows customer source as_) e in
      (now, accounts_checked customer source as_ rest)

  single_checked :
      (P : String → Type 0) (ids : List String)
      → All P ids
      → is_empty (single ids) ≡ false
      → P (single ids)
  single_checked P [] h e = absurd (let f = e in cc)
  single_checked P (a ∷ []) (h, r) e = h
  single_checked P (a ∷ (b ∷ bs)) h e = absurd (let f = e in cc)

  contained :
      (c : ℕ) (source : Option Source) (ids : List String) (project : Option Project)
      → In c rows.customers
      → ((s : Source) → source ≡ some s → In s rows.sources × (belongs (some c) s ≡ true))
      → All
          (λ a. (is_assigned rows.assignments (some c) a ≡ true) × (is_seen rows source a ≡ true))
          ids
      → ((p : Project) → project ≡ some p → In p rows.projects × (of_customer (some c) p ≡ true))
      → IsContained rows c (scope_of (some c) source ids project)
  contained c source ids none i s a p = (
    (refl, i),
    (
      s,
      (
        single_checked
            (λ x. (is_assigned rows.assignments (some c) x ≡ true) × (is_seen rows source x ≡ true))
            ids a,
        (λ q e. absurd (let f = e in cc)),
      ),
    ),
  )
  contained c source ids (some r) i s a p = (
    (refl, i),
    (
      s,
      (
        single_checked
            (λ x. (is_assigned rows.assignments (some c) x ≡ true) × (is_seen rows source x ≡ true))
            ids a,
        (λ q e. ((p q e).0, (==_iff q.customer c).0 (p q e).1)),
      ),
    ),
  )

  -- A selection that names a customer and is accepted selects the customer whose key is named, one
  -- that the request sees; a connection, an account and a project that it selects are a connection of
  -- this customer or a shared one, an account that is assigned to it and seen through the connection,
  -- and a project of it.
  pub resolve-IsContained :
      (params : Params) (required : Bool) (scope : Scope)
      → is_empty params.customer ≡ false
      → resolve uuid int strip is_digits rows params required ≡ found scope
      → (c : ℕ) × ((uuid params.customer ≡ some c) × IsContained rows c scope)
  unfolding resolve
  resolve-IsContained params required scope named e =
      let (o, (e1, f1)) =
        >>=-found (choose_customer uuid int strip is_digits rows required params.customer) _ scope
          e in
      let (c, (chosen, (i, key))) = customer_chosen required params.customer o named e1 in
      let (source, (e2, f2)) =
        >>=-found (choose_source uuid int strip is_digits rows o params.source) _ scope f1 in
      let (u, (e3, f3)) =
        >>=-found
          (check_accounts uuid int strip is_digits rows o source
            (account_ids uuid int strip is_digits rows params.account))
          _ scope f2 in
      let (project, (e4, f4)) =
        >>=-found (choose_project uuid int strip is_digits rows o params.project) _ scope f3 in
      let same : scope_of o source (account_ids uuid int strip is_digits rows params.account)
            project
          ≡ scope =
        found_same _ _ f4 in
      (
        c,
        (
          key,
          subst (IsContained rows c)
              (ap
                  (λ x.
                    scope_of x source (account_ids uuid int strip is_digits rows params.account)
                      project)
                  (sym chosen)
                ∙ same)
              (contained c source (account_ids uuid int strip is_digits rows params.account) project
                i
                (λ s h. source_chosen (some c) params.source s (
                  ap (λ x. choose_source uuid int strip is_digits rows x params.source) (sym chosen)
                  ∙ e2
                  ∙ ap found h))
                (accounts_checked (some c) source
                  (account_ids uuid int strip is_digits rows params.account)
                  (ap
                      (λ x.
                        check_accounts uuid int strip is_digits rows x source
                          (account_ids uuid int strip is_digits rows params.account))
                      (sym chosen)
                    ∙ e3))
                (λ p h. project_chosen (some c) params.project p (
                  ap (λ x. choose_project uuid int strip is_digits rows x params.project)
                    (sym chosen)
                  ∙ e4
                  ∙ ap found h))),
        ),
      )
