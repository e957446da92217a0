-- ===== src/Allocation/Coverage.antt =====
-- What `allocate_project` leaves of a rule: rows on covered days only, and sums that are those of
-- the facts.
use cloud_billing_console.Prelude.{
  ℕ, ◌≡◌, refl, Bool, true, false, none, List, [], ◌∷◌, ◌&&◌, not, arith, any, length, All, inl,
  inr, Bool-cases, ltb, leb,
}
use cloud_billing_console.Prelude.Rows.{All-append, All-map}
use cloud_billing_console.Prelude.Search.{select-All, All-of_In}
use cloud_billing_console.Allocation.Rules.{Rule, covers, same_pk}
use cloud_billing_console.Allocation.Windows.{
  Window, rule_months, in_window, in_month, rule_months-exact,
}
use cloud_billing_console.Allocation.Project.{
  ProjectCost, Computed, computed, failed, Status, rows_between, delete, is_stale, drop_stale,
  replace, run_windows, allocate_rule, is_empty, after_status, has_clash, Computed-cases,
}

-- A row of the rule on a day of the months is on a day that the rule covers.
abbrev pub IsCovered : (ℕ → ℕ) → Rule → List ℕ → ProjectCost → Type 0
IsCovered next r months p =
    same_pk r.pk p.rule ≡ true → any (in_month next p.day) months ≡ true → covers r p.day ≡ true

module _ (next : ℕ → ℕ) (r : Rule) where
  stale_month :
      (m : ℕ) (rows : List ProjectCost)
      → All (IsCovered next r (m ∷ [])) (delete (is_stale next r m) rows)
  stale_month m [] = tt
  stale_month m (p ∷ ps) = elim (Bool-cases (is_stale next r m p)) [
    | inl e ↦ rw e (stale_month m ps)
    | inr e ↦ rw e ((λ s i. unfold covers in ground arith), stale_month m ps)
  ]

  IsCovered-cons :
      (m : ℕ) (ms : List ℕ) (rows : List ProjectCost)
      → All (IsCovered next r (m ∷ [])) rows
      → All (IsCovered next r ms) rows
      → All (IsCovered next r (m ∷ ms)) rows
  IsCovered-cons m ms [] a b = tt
  IsCovered-cons m ms (p ∷ ps) (f, a) (g, b) =
      ((λ s i. ground (arith, f s, g s)), IsCovered-cons m ms ps a b)

  drop_stale-IsCovered :
      (months : List ℕ) (rows : List ProjectCost)
      → All (IsCovered next r months) (drop_stale next r months rows)
  unfolding drop_stale
  drop_stale-IsCovered [] rows = All-of_In (IsCovered next r []) rows (λ p i s e. cc)
  drop_stale-IsCovered (m ∷ ms) rows =
      IsCovered-cons m ms (drop_stale next r ms (delete (is_stale next r m) rows))
        (drop_stale-All (IsCovered next r (m ∷ [])) ms (delete (is_stale next r m) rows)
          (stale_month m rows))
        (drop_stale-IsCovered ms (delete (is_stale next r m) rows))
    where
      drop_stale-All :
          (P : ProjectCost → Type 0) (ks : List ℕ) (ps : List ProjectCost)
          → All P ps
          → All P (drop_stale next r ks ps)
      drop_stale-All P [] ps a = a
      drop_stale-All P (k ∷ ks) ps a =
          drop_stale-All P ks (delete (is_stale next r k) ps)
            (select-All P (λ p. not (is_stale next r k p)) ps a)

  -- A way to compute the rows of the rule that answers on days of the window only.
  abbrev pub Within : (Rule → ℕ → ℕ → Computed) → Type 0
  Within compute =
      (first last : ℕ) (new : List ProjectCost) (complete : Bool)
      → compute r first last ≡ computed new complete
      → All (λ p. (leb first p.day && ltb p.day last) ≡ true) new

  module _ (compute : Rule → ℕ → ℕ → Computed) where
    pub run_windows-failed :
        (w : Window) (ws : List Window) (s : Status) (rows : List ProjectCost)
        → compute r w.first w.last ≡ failed
        → run_windows compute r (w ∷ ws) s rows ≡ (none, rows)
    unfolding run_windows
    run_windows-failed w ws s rows e = rw (e, run_windows) refl

    pub run_windows-kept :
        (w : Window) (ws : List Window) (s : Status) (rows new : List ProjectCost) (complete : Bool)
        → compute r w.first w.last ≡ computed new complete
        → (not complete && is_empty new) ≡ true
        → run_windows compute r (w ∷ ws) s rows
          ≡ run_windows compute r ws (after_status s complete 0) rows
    unfolding run_windows
    run_windows-kept w ws s rows new complete e k = rw (e, k, run_windows) refl

    pub run_windows-clash :
        (w : Window) (ws : List Window) (s : Status) (rows new : List ProjectCost) (complete : Bool)
        → compute r w.first w.last ≡ computed new complete
        → (not complete && is_empty new) ≡ false
        → has_clash new ≡ true
        → run_windows compute r (w ∷ ws) s rows ≡ (none, rows)
    unfolding run_windows
    run_windows-clash w ws s rows new complete e k c = rw (e, k, c, run_windows) refl

    pub run_windows-replaced :
        (w : Window) (ws : List Window) (s : Status) (rows new : List ProjectCost) (complete : Bool)
        → compute r w.first w.last ≡ computed new complete
        → (not complete && is_empty new) ≡ false
        → has_clash new ≡ false
        → run_windows compute r (w ∷ ws) s rows
          ≡ run_windows compute r ws (after_status s complete (length new)) (replace r w new rows)
    unfolding run_windows
    run_windows-replaced w ws s rows new complete e k c = rw (e, k, c, run_windows) refl

  module _ (compute : Rule → ℕ → ℕ → Computed) (within : Within compute) where
    run_windows-IsCovered :
        (months : List ℕ) (ws : List Window) (s : Status) (rows : List ProjectCost)
        → ((day : ℕ) → any (in_window day) ws ≡ true → covers r day ≡ true)
        → All (IsCovered next r months) rows
        → All (IsCovered next r months) (run_windows compute r ws s rows).1
    run_windows-IsCovered months [] s rows h a = unfold run_windows in a
    run_windows-IsCovered months (w ∷ ws) s rows h a =
        elim (Computed-cases (compute r w.first w.last)) [
          | inl e ↦ rw (run_windows-failed compute w ws s rows e) a
          | inr (new, (complete, e)) ↦ elim (Bool-cases (not complete && is_empty new)) [
            | inl kept ↦
                rw (run_windows-kept compute w ws s rows new complete e kept)
                  (run_windows-IsCovered months ws (after_status s complete 0) rows later a)
            | inr changed ↦ elim (Bool-cases (has_clash new)) [
              | inl clash ↦
                  rw (run_windows-clash compute w ws s rows new complete e changed clash) a
              | inr unique ↦
                  rw (run_windows-replaced compute w ws s rows new complete e changed unique) (
                    run_windows-IsCovered months ws (after_status s complete (length new))
                      (replace r w new rows) later
                      (replaced new (within w.first w.last new complete e)))
            ]
          ]
        ]
      where
        later : (day : ℕ) → any (in_window day) ws ≡ true → covers r day ≡ true
        later day i = h day (ground (arith, i))

        replaced :
            (new : List ProjectCost)
            → All (λ p. (leb w.first p.day && ltb p.day w.last) ≡ true) new
            → All (IsCovered next r months) (replace r w new rows)
        replaced new fresh =
            All-append (IsCovered next r months) (delete (rows_between r w.first w.last) rows) new
              (select-All (IsCovered next r months) (λ p. not (rows_between r w.first w.last p))
                rows a)
              (All-map (λ p. (leb w.first p.day && ltb p.day w.last) ≡ true)
                (IsCovered next r months) (λ p i same month. h p.day (ground (arith, i))) new fresh)

    pub allocate_rule-Within :
        (months : List ℕ) (s : Status) (rows : List ProjectCost)
        → All (IsCovered next r months) (allocate_rule compute next months r s rows).1
    unfolding allocate_rule
    allocate_rule-Within months s rows =
        run_windows-IsCovered months (rule_months next r months) s (drop_stale next r months rows)
          (λ day i. ground (arith, i, rule_months-exact next r months day))
          (drop_stale-IsCovered months rows)
