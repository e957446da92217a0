-- ===== src/Budgets/Schedule.antt =====
-- The limits of a budget as a schedule, which gives each month its limit: what
-- `set_recurring_amount` and `set_override` do to it.
use cloud_billing_console.Prelude.{
  ℕ, ◌<◌, ◌≡◌, refl, sym, ap, ◌∙◌, subst, inl, inr, Bool, true, false, not, ◌&&◌, Option, none,
  some, List, [], ◌∷◌, ◌++◌, arith, leb, ◌==◌, if◌then◌else◌, ==_iff, Bool-cases, Option-cases,
  is_some, select, find, All,
}
use cloud_billing_console.Budgets.Amounts.{
  Amount, is_override, is_recurring, later_of, latest, amount_of, amount_for, is_current, closed_at,
  close_current, set_recurring_amount,
}

-- What `amount_for` reads of the chosen row.
abbrev key : Option Amount → Option (ℕ × ℕ)
key none = none
key (some a) = some (a.effective_from, a.amount)

amount_of-key : (x y : Option Amount) → key x ≡ key y → amount_of x ≡ amount_of y
amount_of-key x y e = ground arith

later_of-key :
    (a b : Amount) (x y : Option Amount)
    → a.effective_from ≡ b.effective_from
    → a.amount ≡ b.amount
    → key x ≡ key y
    → key (some (later_of a x)) ≡ key (some (later_of b y))
later_of-key a b x y f g e = ground arith

latest-append_new :
    (xs : List Amount) (n : Amount)
    → All (λ (a : Amount). a.effective_from < n.effective_from) xs
    → latest (xs ++ n ∷ []) ≡ some n
unfolding latest
latest-append_new [] n a = refl
latest-append_new (x ∷ xs) n (h, a) = rw (latest-append_new xs n a) (ground arith)

pub find-append_one :
    (p : Amount → Bool) (xs : List Amount) (n : Amount)
    → p n ≡ false
    → find p (xs ++ n ∷ []) ≡ find p xs
find-append_one p [] n e = rw e refl
find-append_one p (x ∷ xs) n e = ground (arith, find-append_one p xs n e)

pub select-append_one :
    (p : Amount → Bool) (xs : List Amount) (n : Amount)
    → select p (xs ++ n ∷ []) ≡ (if p n then select p xs ++ n ∷ [] else select p xs)
select-append_one p [] n = ground arith
select-append_one p (x ∷ xs) n = ground (arith, select-append_one p xs n)

pub amount_for-found :
    (rows : List Amount) (b m : ℕ) (a : Amount)
    → find (is_override b m) rows ≡ some a
    → amount_for rows b m ≡ some a.amount
unfolding amount_for
amount_for-found rows b m a e = rw (e, amount_for) refl

pub amount_for-recurring :
    (rows : List Amount) (b m : ℕ)
    → find (is_override b m) rows ≡ none
    → amount_for rows b m ≡ amount_of (latest (select (is_recurring b m) rows))
unfolding amount_for
amount_for-recurring rows b m e = rw (e, amount_for) refl

module _ (budget first : ℕ) where
  find-close_current :
      (b m : ℕ) (rows : List Amount)
      → find (is_override b m) (close_current budget first rows) ≡ find (is_override b m) rows
  unfolding close_current
  find-close_current b m [] = refl
  find-close_current b m (a ∷ as_) = ground (arith, find-close_current b m as_)

  recurring-closed_at :
      (b m : ℕ) (a : Amount)
      → ((b == budget) && leb first m) ≡ false
      → is_current budget a ≡ true
      → is_recurring b m (closed_at first a) ≡ is_recurring b m a
  recurring-closed_at b m a h c = ground arith

  recurring-dropped :
      (b m : ℕ) (a : Amount)
      → ((b == budget) && leb first m) ≡ false
      → is_current budget a ≡ true
      → leb first a.effective_from ≡ true
      → is_recurring b m a ≡ false
  recurring-dropped b m a h c l = ground arith

  -- One more row on both sides keeps what is read.
  latest-cons :
      (b m : ℕ) (x a : Amount) (xs as_ : List Amount)
      → is_recurring b m x ≡ is_recurring b m a
      → x.effective_from ≡ a.effective_from
      → x.amount ≡ a.amount
      → key (latest (select (is_recurring b m) xs)) ≡ key (latest (select (is_recurring b m) as_))
      → key (latest (select (is_recurring b m) (x ∷ xs)))
        ≡ key (latest (select (is_recurring b m) (a ∷ as_)))
  unfolding latest
  latest-cons b m x a xs as_ e f g ih = elim (Bool-cases (is_recurring b m a)) [
    | inl r ↦
        rw (e, r)
          (later_of-key x a (latest (select (is_recurring b m) xs))
            (latest (select (is_recurring b m) as_)) f g ih)
    | inr r ↦ rw (e, r) ih
  ]

  latest-close_current :
      (b m : ℕ) (rows : List Amount)
      → ((b == budget) && leb first m) ≡ false
      → key (latest (select (is_recurring b m) (close_current budget first rows)))
        ≡ key (latest (select (is_recurring b m) rows))
  unfolding close_current latest
  latest-close_current b m [] h = refl
  latest-close_current b m (a ∷ as_) h =
      let ih = latest-close_current b m as_ h in
      let rest : List Amount = close_current budget first as_ in
      elim (Bool-cases (is_current budget a)) [
        | inr c ↦ rw c (latest-cons b m a a rest as_ refl refl refl ih)
        | inl c ↦ elim (Bool-cases (leb first a.effective_from)) [
          | inl l ↦ rw (c, l, recurring-dropped b m a h c l) ih
          | inr l ↦
              rw (c, l)
                (latest-cons b m (closed_at first a) a rest as_ (recurring-closed_at b m a h c) refl
                  refl ih)
        ]
      ]

  -- Rows of the budget that were closed before do not start in `first` or later.
  abbrev pub StartsBefore : Amount → Type 0
  StartsBefore a =
      ((a.budget == budget) && not (is_some a.month) && is_some a.effective_to) ≡ true
      → a.effective_from < first

  recurring-before :
      (m : ℕ) (rows : List Amount)
      → leb first m ≡ true
      → All StartsBefore rows
      → All
          (λ (a : Amount). a.effective_from < first)
          (select (is_recurring budget m) (close_current budget first rows))
  unfolding close_current
  recurring-before m [] l h = tt
  recurring-before m (a ∷ as_) l (g, h) =
      let ih = recurring-before m as_ l h in
      elim (Bool-cases (is_current budget a)) [
        | inr c ↦ elim (Bool-cases (is_recurring budget m a)) [
          | inl r ↦ rw (c, r) (ground (arith, g), ih)
          | inr r ↦ rw (c, r) ih
        ]
        | inl c ↦ elim (Bool-cases (leb first a.effective_from)) [
          | inl k ↦ rw (c, k) ih
          | inr k ↦
              (let closed : is_recurring budget m (closed_at first a) ≡ false = ground arith in
                rw (c, k, closed) ih)
        ]
      ]

  abbrev recurring_row : ℕ → ℕ → Amount
  recurring_row pk amount = record {
    pk = pk;
    budget = budget;
    amount = amount;
    effective_from = first;
    effective_to = none;
    month = none;
  }

  abbrev revised : ℕ → ℕ → List Amount → List Amount
  revised pk amount rows = close_current budget first rows ++ recurring_row pk amount ∷ []

  find-revised :
      (pk amount b m : ℕ) (rows : List Amount)
      → find (is_override b m) (revised pk amount rows) ≡ find (is_override b m) rows
  find-revised pk amount b m rows =
      find-append_one (is_override b m) (close_current budget first rows) (recurring_row pk amount)
        (ground arith)
      ∙ find-close_current b m rows

  select-revised :
      (pk amount b m : ℕ) (rows : List Amount)
      → select (is_recurring b m) (revised pk amount rows) ≡ (
          if (b == budget) && leb first m
          then select (is_recurring b m) (close_current budget first rows)
            ++ recurring_row pk amount ∷ []
          else select (is_recurring b m) (close_current budget first rows))
  select-revised pk amount b m rows =
      select-append_one (is_recurring b m) (close_current budget first rows)
        (recurring_row pk amount)
      ∙ ap
          (λ c.
            if c
            then select (is_recurring b m) (close_current budget first rows)
              ++ recurring_row pk amount ∷ []
            else select (is_recurring b m) (close_current budget first rows))
          (ground arith)

  amount_for-override :
      (pk amount b m : ℕ) (rows : List Amount) (a : Amount)
      → find (is_override b m) rows ≡ some a
      → amount_for (revised pk amount rows) b m ≡ amount_for rows b m
  amount_for-override pk amount b m rows a o =
      amount_for-found (revised pk amount rows) b m a (find-revised pk amount b m rows ∙ o)
      ∙ sym (amount_for-found rows b m a o)

  amount_for-unchanged :
      (pk amount b m : ℕ) (rows : List Amount)
      → ((b == budget) && leb first m) ≡ false
      → find (is_override b m) rows ≡ none
      → amount_for (revised pk amount rows) b m ≡ amount_for rows b m
  amount_for-unchanged pk amount b m rows h o =
      amount_for-recurring (revised pk amount rows) b m (find-revised pk amount b m rows ∙ o)
      ∙ amount_of-key (latest (select (is_recurring b m) (revised pk amount rows)))
          (latest (select (is_recurring b m) rows))
          (ap (λ xs. key (latest xs)) (select-revised pk amount b m rows ∙ rw h refl)
            ∙ latest-close_current b m rows h)
      ∙ sym (amount_for-recurring rows b m o)

  amount_for-new :
      (pk amount b m : ℕ) (rows : List Amount)
      → ((b == budget) && leb first m) ≡ true
      → find (is_override b m) rows ≡ none
      → All StartsBefore rows
      → amount_for (revised pk amount rows) b m ≡ some amount
  amount_for-new pk amount b m rows l o h =
      amount_for-recurring (revised pk amount rows) b m (find-revised pk amount b m rows ∙ o)
      ∙ ap (λ xs. amount_of (latest xs)) (select-revised pk amount b m rows ∙ rw l refl)
      ∙ ap amount_of (
          latest-append_new (select (is_recurring b m) (close_current budget first rows))
            (recurring_row pk amount)
            (subst
              (λ k.
                All (λ (a : Amount). a.effective_from < first)
                  (select (is_recurring k m) (close_current budget first rows)))
              (sym ((==_iff b budget).0 (ground (arith, l))))
              (recurring-before m rows (ground (arith, l)) h)))

-- The schedule after a change from `first` on: months with an override, earlier months and other
-- budgets have the limit that they had.
abbrev pub scheduled : List Amount → ℕ → ℕ → ℕ → ℕ → ℕ → Option ℕ
scheduled rows budget first amount b m =
    if (b == budget) && leb first m && not (is_some (find (is_override b m) rows))
    then some amount
    else amount_for rows b m

-- `set_recurring_amount` gives a budget a new limit from its month on, and changes no limit of an
-- earlier month, of a month with an override or of another budget, if no row of the budget that was
-- closed before starts in that month or later.
pub set_recurring_amount-scheduled :
    (month_start : ℕ → ℕ) (pk budget amount effective_from : ℕ) (rows : List Amount)
    → All (StartsBefore budget (month_start effective_from)) rows
    → (b m : ℕ)
    → amount_for (set_recurring_amount month_start pk budget amount effective_from rows) b m
      ≡ scheduled rows budget (month_start effective_from) amount b m
unfolding set_recurring_amount
set_recurring_amount-scheduled month_start pk budget amount effective_from rows h b m =
    elim (Option-cases (find (is_override b m) rows)) [
      | inr (a, o) ↦
          amount_for-override budget (month_start effective_from) pk amount b m rows a o
          ∙ (ground arith)
      | inl o ↦ elim (Bool-cases ((b == budget) && leb (month_start effective_from) m)) [
        | inl l ↦
            amount_for-new budget (month_start effective_from) pk amount b m rows l o h
            ∙ (ground arith)
        | inr l ↦
            amount_for-unchanged budget (month_start effective_from) pk amount b m rows l o
            ∙ (ground arith)
      ]
    ]
