-- ===== src/Scope/Windowed.antt =====
-- The windows have on each day exactly the accounts that the customer owns on that day.
use cloud_billing_console.Prelude.{
  ℕ, ◌≤◌, ◌<◌, min, max, String, ◌≡◌, refl, sym, ap, ◌∙◌, ◌⊎◌, inl, inr, Bool, true, false, ◌&&◌,
  ◌||◌, Option, none, some, List, [], ◌∷◌, ◌++◌, map, arith, ltb, leb, ◌==◌, str_eq, str_eq_iff,
  Bool-cases, select, In,
}
use cloud_billing_console.Prelude.Texts.{
  has, sorted_set, has-In, In-has, sorted_set-In, In-sorted_set,
}
use cloud_billing_console.Prelude.Search.{In-append_left, In-append_right}
use cloud_billing_console.Scope.Ownership.{
  Assignment, ends_after, owned_on, of_source, customer_accounts,
}
use cloud_billing_console.Scope.Intervals.{shows, sorted-IsAscending, In-sorted, shows-windows_of}
use cloud_billing_console.Scope.Windows.{
  sorted_days, is_overlapping, starts, ends, with_end, boundaries, permits, covers_permitted,
  ids_at, ownership_windows,
}

start_same :
    (start x day r s : ℕ)
    → start ≤ day
    → x ≤ day
    → day < r
    → (max start s ≤ x) ⊎ (r ≤ max start s)
    → leb s x ≡ leb s day
start_same start x day r s a c d (inl f) = let g : s ≤ x = omega arith in ground arith
start_same start x day r s a c d (inr f) = let g : r ≤ s = omega arith in ground arith

end_same :
    (end x day r e : ℕ)
    → day < end
    → x ≤ day
    → day < r
    → (min end e ≤ x) ⊎ (r ≤ min end e)
    → ltb x e ≡ ltb day e
end_same end x day r e b c d (inl f) = let g : e ≤ x = omega arith in ground arith
end_same end x day r e b c d (inr f) = let g : r ≤ e = omega arith in ground arith

same_owner :
    (start end x day r s : ℕ) (o : Option ℕ)
    → start ≤ day
    → day < end
    → x ≤ day
    → day < r
    → (max start s ≤ x) ⊎ (r ≤ max start s)
    → ((e : ℕ) → o ≡ some e → (min end e ≤ x) ⊎ (r ≤ min end e))
    → (leb s x && ends_after x o) ≡ (leb s day && ends_after day o)
same_owner start end x day r s none a b c d f g =
    ap (λ k. k && true) (start_same start x day r s a c d f)
same_owner start end x day r s (some e) a b c d f g =
    ap (λ k. k && ltb x e) (start_same start x day r s a c d f)
    ∙ ap (λ k. leb s day && k) (end_same end x day r e b c d (g e refl))

starts-In :
    (start : ℕ) (rows : List Assignment) (a : Assignment)
    → In a rows
    → In (max start a.start) (starts start rows)
starts-In start [] a i = i
starts-In start (b ∷ bs) a (inl e) = inl (ap (λ (x : Assignment). max start x.start) e)
starts-In start (b ∷ bs) a (inr i) = inr (starts-In start bs a i)

with_end-In :
    (end e : ℕ) (o : Option ℕ) (rest : List ℕ) → o ≡ some e → In (min end e) (with_end end o rest)
with_end-In end e none rest h = cc
with_end-In end e (some f) rest h = inl (ap (min end) (cc))

In-with_end :
    (end : ℕ) (o : Option ℕ) (rest : List ℕ) (x : ℕ) → In x rest → In x (with_end end o rest)
In-with_end end none rest x i = i
In-with_end end (some e) rest x i = inr i

ends-In :
    (end e : ℕ) (rows : List Assignment) (a : Assignment)
    → In a rows
    → a.end ≡ some e
    → In (min end e) (ends end rows)
ends-In end e [] a i h = i
ends-In end e (b ∷ bs) a (inl k) h =
    with_end-In end e b.end (ends end bs) (sym (ap (λ (x : Assignment). x.end) k) ∙ h)
ends-In end e (b ∷ bs) a (inr k) h =
    In-with_end end b.end (ends end bs) (min end e) (ends-In end e bs a k h)

select-cong :
    (p q : Assignment → Bool) (rows : List Assignment)
    → ((a : Assignment) → In a rows → p a ≡ q a)
    → select p rows ≡ select q rows
select-cong p q [] h = refl
select-cong p q (a ∷ as_) h =
    let e = h a (inl refl) in let f = select-cong p q as_ (λ b i. h b (inr i)) in ground arith

ids_at-same :
    (permitted : Option (List String)) (rows : List Assignment) (start end x day r : ℕ)
    → start ≤ day
    → day < end
    → x ≤ day
    → day < r
    → ((b : ℕ) → In b (boundaries start end rows) → (b ≤ x) ⊎ (r ≤ b))
    → ids_at permitted rows x ≡ ids_at permitted rows day
unfolding ids_at boundaries
ids_at-same permitted rows start end x day r a b c d h =
    ap (λ l. sorted_set (map (λ (y : Assignment). y.account_id) l))
      (select-cong (covers_permitted permitted x) (covers_permitted permitted day) rows (λ y i.
        ap (λ k. k && permits permitted y.account_id)
          (same_owner start end x day r y.start y.end a b c d
            (h (max start y.start) (
              In-sorted (start ∷ end ∷ (starts start rows ++ ends end rows)) (max start y.start) (
                inr (
                  inr (
                    In-append_left (starts start rows) (ends end rows) (max start y.start)
                      (starts-In start rows y i))))))
            (λ e g. h (min end e) (
              In-sorted (start ∷ end ∷ (starts start rows ++ ends end rows)) (min end e) (
                inr (
                  inr (
                    In-append_right (starts start rows) (ends end rows) (min end e)
                      (ends-In end e rows y i g)))))))))

has-sorted_set : (xs : List String) (x : String) → has (sorted_set xs) x ≡ has xs x
has-sorted_set xs x = elim (Bool-cases (has xs x)) [
  | inl e ↦ In-has (sorted_set xs) x (sorted_set-In xs x (has-In xs x e)) ∙ sym e
  | inr e ↦ (elim (Bool-cases (has (sorted_set xs) x)) [
    | inl h ↦ absurd (let f = In-has xs x (In-sorted_set xs x (has-In (sorted_set xs) x h)) in cc)
    | inr h ↦ h ∙ sym e
  ])
]

selected :
    (p : Assignment → Bool) (a : Assignment) (rows : List Assignment) (account : String)
    → has (map (λ (x : Assignment). x.account_id) (select p (a ∷ rows))) account ≡ (
        (p a && str_eq account a.account_id)
        || has (map (λ (x : Assignment). x.account_id) (select p rows)) account)
selected p a rows account = elim (Bool-cases (p a)) [ inl e ↦ rw e refl | inr e ↦ rw e refl ]

selected_twice :
    (p q : Assignment → Bool) (a : Assignment) (rows : List Assignment) (account : String)
    → has (map (λ (x : Assignment). x.account_id) (select p (select q (a ∷ rows)))) account ≡ (
        (q a && p a && str_eq account a.account_id)
        || has (map (λ (x : Assignment). x.account_id) (select p (select q rows))) account)
selected_twice p q a rows account = elim (Bool-cases (q a)) [
  | inl e ↦ rw e (selected p a (select q rows) account)
  | inr e ↦ rw e refl
]

overlaps :
    (start end day s : ℕ) (o : Option ℕ)
    → start ≤ day
    → day < end
    → (leb s day && ends_after day o) ≡ true
    → (ltb s end ≡ true) × (ends_after start o ≡ true)
overlaps start end day s none a b h = (ground arith, refl)
overlaps start end day s (some e) a b h = (ground arith, ground arith)

join :
    (c s l e o t k r : Bool)
    → (o ≡ true → (l ≡ true) × (e ≡ true))
    → (((c && s && l && e) && (o && k) && t) || (r && k)) ≡ (((c && o && s && t) || r) && k)
join c s l e true t k r h = let (f, g) = h refl in rw (f, g) (ground arith)
join c s l e false t k r h = ground arith

same_permits :
    (permitted : Option (List String)) (x account : String) (b o : Bool)
    → (b && (o && permits permitted x) && str_eq account x)
      ≡ (b && (o && permits permitted account) && str_eq account x)
same_permits permitted x account b o = elim (Bool-cases (str_eq account x)) [
  | inl e ↦
      ap (λ y. b && (o && permits permitted y) && str_eq account x)
        (sym ((str_eq_iff account x).0 e))
  | inr e ↦ rw e (ground arith)
]

module _ (customer source start end day : ℕ) (permitted : Option (List String))
    (account : String) where
  -- One assignment counts alike in both lists.
  has_account_step :
      (rows : List Assignment)
      → start ≤ day
      → day < end
      → has
          (map
            (λ (a : Assignment). a.account_id)
            (select
              (covers_permitted permitted day)
              (select (is_overlapping customer source start end) rows)))
          account
        ≡ (has
              (map
                (λ (a : Assignment). a.account_id)
                (select
                  (λ a.
                    (a.customer == customer) && owned_on (some day) a && of_source (some source) a)
                  rows))
              account
            && permits permitted account)
  has_account_step [] s e = refl
  has_account_step (a ∷ as_) s e =
      selected_twice (covers_permitted permitted day) (is_overlapping customer source start end) a
        as_ account
      ∙ rw (has_account_step as_ s e) (
          ap
            (λ k.
              k
              || (has
                    (map (λ (x : Assignment). x.account_id)
                      (select
                        (λ x.
                          (x.customer == customer)
                          && owned_on (some day) x
                          && of_source (some source) x)
                        as_))
                    account
                  && permits permitted account))
            (same_permits permitted a.account_id account
              (is_overlapping customer source start end a) (owned_on (some day) a))
          ∙ join (a.customer == customer) (a.source == source) (ltb a.start end)
              (ends_after start a.end) (owned_on (some day) a) (str_eq account a.account_id)
              (permits permitted account)
              (has
                (map (λ (x : Assignment). x.account_id)
                  (select
                    (λ x.
                      (x.customer == customer)
                      && owned_on (some day) x
                      && of_source (some source) x)
                    as_))
                account)
              (overlaps start end day a.start a.end s e))
      ∙ ap (λ k. k && permits permitted account)
          (sym (
            selected
              (λ x. (x.customer == customer) && owned_on (some day) x && of_source (some source) x)
              a as_ account))

-- On each day of the interval the windows of a customer show exactly the accounts that
-- `customer_accounts` gives for the connection on that day and that the access permits.
pub ownership_windows-exact :
    (rows : List Assignment) (source customer start end : ℕ) (permitted : Option (List String))
    (day : ℕ) (account : String)
    → start ≤ day
    → day < end
    → shows day account (ownership_windows rows source (some customer) start end permitted) ≡ (
        has (customer_accounts rows customer (some day) (some source)) account
        && permits permitted account)
unfolding ownership_windows boundaries ids_at customer_accounts
ownership_windows-exact rows source customer start end permitted day account s e =
    let overlapping : List Assignment = select (is_overlapping customer source start end) rows in
    let days : List ℕ = start ∷ end ∷ (starts start overlapping ++ ends end overlapping) in
    shows-windows_of (ids_at permitted overlapping) day account start end (sorted_days days)
      (sorted-IsAscending days) (In-sorted days start (inl refl)) s
      (In-sorted days end (inr (inl refl))) e
      (λ x r c d h. ids_at-same permitted overlapping start end x day r s e c d h)
    ∙ has-sorted_set
        (map (λ (a : Assignment). a.account_id)
          (select (covers_permitted permitted day) overlapping))
        account
    ∙ has_account_step customer source start end day permitted account rows s e
    ∙ ap (λ k. k && permits permitted account)
        (sym (
          has-sorted_set
            (map (λ (a : Assignment). a.account_id)
              (select
                (λ a.
                  (a.customer == customer) && owned_on (some day) a && of_source (some source) a)
                rows))
            account))
