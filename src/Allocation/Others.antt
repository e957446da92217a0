-- ===== src/Allocation/Others.antt =====
-- The round of `allocate_project` for one rule leaves the rows of other rules alone.
use cloud_billing_console.Prelude.{
  ℕ, ◌≡◌, false, List, [], ◌∷◌, ◌&&◌, not, arith, length, In, inl, inr, Bool-cases,
}
use cloud_billing_console.Prelude.Search.{In-select, In-append_left}
use cloud_billing_console.Allocation.Rules.{Rule, same_pk}
use cloud_billing_console.Allocation.Windows.{Window, rule_months}
use cloud_billing_console.Allocation.Project.{
  ProjectCost, Computed, Status, rows_between, delete, is_stale, drop_stale, replace, run_windows,
  allocate_rule, is_empty, after_status, has_clash, Computed-cases,
}
use cloud_billing_console.Allocation.Coverage.{
  run_windows-failed, run_windows-kept, run_windows-clash, run_windows-replaced,
}

module _ (next : ℕ → ℕ) (r : Rule) (p : ProjectCost) (other : same_pk r.pk p.rule ≡ false) where
  In-drop_stale :
      (months : List ℕ) (rows : List ProjectCost) → In p rows → In p (drop_stale next r months rows)
  unfolding drop_stale
  In-drop_stale [] rows i = i
  In-drop_stale (m ∷ ms) rows i =
      In-drop_stale ms (delete (is_stale next r m) rows)
        (In-select (λ x. not (is_stale next r m x)) rows p i (ground (arith, other)))

  In-replace : (w : Window) (new rows : List ProjectCost) → In p rows → In p (replace r w new rows)
  In-replace w new rows i =
      In-append_left (delete (rows_between r w.first w.last) rows) new p
        (In-select (λ x. not (rows_between r w.first w.last x)) rows p i (ground (arith, other)))

  module _ (compute : Rule → ℕ → ℕ → Computed) where
    In-run_windows :
        (ws : List Window) (s : Status) (rows : List ProjectCost)
        → In p rows
        → In p (run_windows compute r ws s rows).1
    In-run_windows [] s rows i = unfold run_windows in i
    In-run_windows (w ∷ ws) s rows i = elim (Computed-cases (compute r w.first w.last)) [
      | inl e ↦ rw (run_windows-failed next r compute w ws s rows e) i
      | inr (new, (complete, e)) ↦ elim (Bool-cases (not complete && is_empty new)) [
        | inl k ↦
            rw (run_windows-kept next r compute w ws s rows new complete e k)
              (In-run_windows ws (after_status s complete 0) rows i)
        | inr k ↦ elim (Bool-cases (has_clash new)) [
          | inl c ↦ rw (run_windows-clash next r compute w ws s rows new complete e k c) i
          | inr c ↦ rw (run_windows-replaced next r compute w ws s rows new complete e k c) (
              In-run_windows ws (after_status s complete (length new)) (replace r w new rows)
                (In-replace w new rows i))
        ]
      ]
    ]

    -- A row of another rule is still there after the round of `allocate_project` for the rule,
    -- however the rows of the rule are computed, and where that fails too.
    pub In-allocate_rule :
        (months : List ℕ) (s : Status) (rows : List ProjectCost)
        → In p rows
        → In p (allocate_rule compute next months r s rows).1
    unfolding allocate_rule
    In-allocate_rule months s rows i =
        In-run_windows (rule_months next r months) s (drop_stale next r months rows)
          (In-drop_stale months rows i)
