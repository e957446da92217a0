-- ===== src/Budgets/Verdicts.antt =====
-- What a verdict means.
use cloud_billing_console.Prelude.{ℕ, ◌≡◌, refl, ap, ◌∙◌, ◌↔◌, false, Option, none, some, arith}
use cloud_billing_console.Prelude.Int.{ℤ}
use cloud_billing_console.Budgets.Tables.{Budget, DataStatus}
use cloud_billing_console.Budgets.Evaluate.{
  Forecast, Inputs, Evaluation, within_budget, units_of, share_of, exceeds, reaches, is_over,
  verdict, evaluation_of, actual_of, forecast_of,
}

-- All that the verdict "Within budget" promises.
abbrev pub IsWithin : Budget → Evaluation → Type 0
IsWithin b e =
    (amount : ℕ) × ((spent : ℤ) × ((e.amount ≡ some amount)
        × ((e.actual ≡ some spent)
            × ((e.status_data ≡ DataStatus.complete)
                × ((exceeds spent (units_of amount) ≡ false)
                    × ((reaches spent (share_of amount b.actual_threshold) ≡ false)
                        × (is_over e.forecast (share_of amount b.forecast_threshold) ≡ false)))))))

verdict-IsWithin :
    (b : Budget) (amount : Option ℕ) (spent : Option ℤ) (expected : Option Forecast)
    (d : DataStatus)
    → verdict b amount spent expected d ≡ within_budget
    → (a : ℕ) × ((v : ℤ) × ((amount ≡ some a)
          × ((spent ≡ some v)
              × ((d ≡ DataStatus.complete)
                  × ((exceeds v (units_of a) ≡ false)
                      × ((reaches v (share_of a b.actual_threshold) ≡ false)
                          × (is_over expected (share_of a b.forecast_threshold) ≡ false)))))))
unfolding verdict
verdict-IsWithin b none spent expected d e = cc
verdict-IsWithin b (some a) none expected d e = cc
verdict-IsWithin b (some a) (some v) expected DataStatus.missing e = cc
verdict-IsWithin b (some a) (some v) expected DataStatus.partial e = absurd (ground arith)
verdict-IsWithin b (some a) (some v) expected DataStatus.stale e = absurd (ground arith)
verdict-IsWithin b (some a) (some v) expected DataStatus.complete e =
    (a, (v, (refl, (refl, (refl, (ground arith, (ground arith, ground arith)))))))

within-verdict :
    (b : Budget) (a : ℕ) (v : ℤ) (expected : Option Forecast)
    → exceeds v (units_of a) ≡ false
    → reaches v (share_of a b.actual_threshold) ≡ false
    → is_over expected (share_of a b.forecast_threshold) ≡ false
    → verdict b (some a) (some v) expected DataStatus.complete ≡ within_budget
unfolding verdict
within-verdict b a v expected x y z = rw (x, y, z, verdict) refl

-- An evaluation says "Within budget" exactly if there is a limit and spend, the data of the month are
-- complete, the spend is at most the limit and below the alert threshold, and the forecast, if there
-- is one, is not above its threshold.
pub evaluation_of-IsWithin :
    (b : Budget) (now : ℕ) (i : Inputs)
    → ((evaluation_of b now i).verdict_given ≡ within_budget) ↔ IsWithin b (evaluation_of b now i)
unfolding evaluation_of
evaluation_of-IsWithin b now i = (
  (λ e. verdict-IsWithin b i.amount (actual_of i) (forecast_of i).0 i.status_data e),
  (λ (a, (v, (e, (f, (g, (x, (y, z))))))). given a v e f g x y z),
)
  where
    given :
        (a : ℕ) (v : ℤ)
        → i.amount ≡ some a
        → actual_of i ≡ some v
        → i.status_data ≡ DataStatus.complete
        → exceeds v (units_of a) ≡ false
        → reaches v (share_of a b.actual_threshold) ≡ false
        → is_over (forecast_of i).0 (share_of a b.forecast_threshold) ≡ false
        → verdict b i.amount (actual_of i) (forecast_of i).0 i.status_data ≡ within_budget
    given a v e f g x y z =
        ap (λ o. verdict b o (actual_of i) (forecast_of i).0 i.status_data) e
        ∙ ap (λ o. verdict b (some a) o (forecast_of i).0 i.status_data) f
        ∙ ap (λ d. verdict b (some a) (some v) (forecast_of i).0 d) g
        ∙ within-verdict b a v (forecast_of i).0 x y z
