-- ===== src/Scope/Intervals.antt =====
-- Windows over an ascending list of days: which of them a day is in.
use cloud_billing_console.Prelude.{
  ℕ, ◌≤◌, ◌<◌, String, ◌≡◌, refl, ◌∙◌, ◌⊎◌, inl, inr, Bool, true, false, ◌&&◌, ◌||◌, none, some,
  List, [], ◌∷◌, arith, ltb, leb, ◌==◌, Bool-cases, any, All, In,
}
use cloud_billing_console.Prelude.Texts.{has}
use cloud_billing_console.Prelude.Rows.{All-In, All-map}
use cloud_billing_console.Scope.Windows.{
  Window, insert_number, sorted_days, with_window, windows, windows_of,
}

abbrev pub is_window_of : ℕ → String → Window → Bool
is_window_of day account w =
    leb w.left day && ltb day w.right && (elim w.ids [ none ↦ true | some ids ↦ has ids account ])

-- Some window has the account on the day.
abbrev pub shows : ℕ → String → List Window → Bool
shows day account ws = any (is_window_of day account) ws

unfoldable pub IsAscending : List ℕ → Type 0
IsAscending [] = Unit
IsAscending (x ∷ xs) = All (λ y. x < y) xs × IsAscending xs

insert-All : (P : ℕ → Type 0) (a : ℕ) (bs : List ℕ) → P a → All P bs → All P (insert_number a bs)
insert-All P a [] p h = (p, tt)
insert-All P a (b ∷ bs) p (q, h) = ground (arith, insert-All P a bs)

insert-IsAscending : (a : ℕ) (bs : List ℕ) → IsAscending bs → IsAscending (insert_number a bs)
unfolding IsAscending
insert-IsAscending a [] h = (tt, tt)
insert-IsAscending a (b ∷ bs) (h, r) = elim (Bool-cases (ltb a b)) [
  | inl e ↦
      (let lt : a < b = ground arith in
        rw e ((lt, All-map (λ y. b < y) (λ y. a < y) (λ y d. omega arith) bs h), (h, r)))
  | inr e ↦ (elim (Bool-cases (a == b)) [
    | inl f ↦ rw (e, f) (h, r)
    | inr f ↦
        (let gt : b < a = ground arith in
          rw (e, f) (insert-All (λ y. b < y) a bs gt h, insert-IsAscending a bs r))
  ])
]

pub insert-In : (a x : ℕ) (bs : List ℕ) → (x ≡ a) ⊎ In x bs → In x (insert_number a bs)
insert-In a x [] i = i
insert-In a x (b ∷ bs) i = ground (arith, insert-In a x bs)

pub sorted-IsAscending : (xs : List ℕ) → IsAscending (sorted_days xs)
unfolding sorted_days IsAscending
sorted-IsAscending [] = tt
sorted-IsAscending (a ∷ xs) = insert-IsAscending a (sorted_days xs) (sorted-IsAscending xs)

pub In-sorted : (xs : List ℕ) (x : ℕ) → In x xs → In x (sorted_days xs)
unfolding sorted_days
In-sorted [] x i = absurd i
In-sorted (a ∷ xs) x (inl e) = insert-In a x (sorted_days xs) (inl e)
In-sorted (a ∷ xs) x (inr i) = insert-In a x (sorted_days xs) (inr (In-sorted xs x i))

module _ (f : ℕ → List String) (day : ℕ) (account : String) where
  shows-with_window :
      (l r : ℕ) (ids : List String) (ws : List Window)
      → shows day account (with_window l r ids ws)
        ≡ ((leb l day && ltb day r && has ids account) || shows day account ws)
  shows-with_window l r [] ws = ground arith
  shows-with_window l r (i ∷ is_) ws = refl

  -- Windows that begin after the day do not count.
  windows_later :
      (l : ℕ) (rest : List ℕ)
      → day < l
      → IsAscending (l ∷ rest)
      → shows day account (windows f l rest) ≡ false
  unfolding windows IsAscending
  windows_later l [] h a = refl
  windows_later l (r ∷ rest) h ((lr, q), a) =
      shows-with_window l r (f l) (windows f r rest) ∙ ground (arith, windows_later r rest)

  shows-windows :
      (all_days : List ℕ) (l e : ℕ) (rest : List ℕ)
      → IsAscending (l ∷ rest)
      → ((b : ℕ) → In b all_days → (b ≤ l) ⊎ In b rest)
      → l ≤ day
      → In e rest
      → day < e
      → ((x r : ℕ)
          → x ≤ day
          → day < r
          → ((b : ℕ) → In b all_days → (b ≤ x) ⊎ (r ≤ b))
          → f x ≡ f day)
      → shows day account (windows f l rest) ≡ has (f day) account
  unfolding windows IsAscending
  shows-windows all_days l e [] a known le i de same = absurd i
  shows-windows all_days l e (r ∷ rest) ((lr, q), a) known le i de same =
      elim (Bool-cases (ltb day r)) [
        | inl h ↦
            (let lt : day < r = ground arith in
              let now : f l ≡ f day = same l r le lt (λ b k. beyond b (known b k)) in
              shows-with_window l r (f l) (windows f r rest)
              ∙ rw (windows_later r rest lt a, now) (ground arith))
        | inr h ↦
            (let ge : r ≤ day = ground arith in
              shows-with_window l r (f l) (windows f r rest)
              ∙ ground (
                arith,
                shows-windows all_days r e rest a (λ b k. later b (known b k)) ge (not_first i ge)
                    de same,
              ))
      ]
    where
      beyond : (b : ℕ) → (b ≤ l) ⊎ In b (r ∷ rest) → (b ≤ l) ⊎ (r ≤ b)
      beyond b (inl k) = inl k
      beyond b (inr (inl k)) = inr (omega (arith, k))
      beyond b (inr (inr k)) = let lt : r < b = All-In (λ y. r < y) rest a.0 k in inr (omega arith)

      later : (b : ℕ) → (b ≤ l) ⊎ In b (r ∷ rest) → (b ≤ r) ⊎ In b rest
      later b (inl k) = inl (omega arith)
      later b (inr (inl k)) = inl (omega (arith, k))
      later b (inr (inr k)) = inr k

      not_first : In e (r ∷ rest) → r ≤ day → In e rest
      not_first (inl k) ge = absurd (omega (arith, k))
      not_first (inr k) ge = k

  -- The windows of a list of days that has one before the day and one after it.
  pub shows-windows_of :
      (b e : ℕ) (days : List ℕ)
      → IsAscending days
      → In b days
      → b ≤ day
      → In e days
      → day < e
      → ((x r : ℕ) → x ≤ day → day < r → ((d : ℕ) → In d days → (d ≤ x) ⊎ (r ≤ d)) → f x ≡ f day)
      → shows day account (windows_of f days) ≡ has (f day) account
  unfolding IsAscending
  shows-windows_of b e [] a i le k lt same = absurd i
  shows-windows_of b e (l ∷ rest) (q, a) i le k lt same =
      shows-windows (l ∷ rest) l e rest (q, a) known (head i) (after k) lt same
    where
      known : (d : ℕ) → In d (l ∷ rest) → (d ≤ l) ⊎ In d rest
      known d (inl h) = inl (omega (arith, h))
      known d (inr h) = inr h

      head : In b (l ∷ rest) → l ≤ day
      head (inl h) = omega (arith, h)
      head (inr h) = let g : l < b = All-In (λ y. l < y) rest q h in omega arith

      after : In e (l ∷ rest) → In e rest
      after (inl h) = absurd (let g = head i in omega (arith, h))
      after (inr h) = h
