-- ===== src/Allocation/Windows.antt =====
-- `rule_months` of billing/allocation.py: the windows of a rule inside calendar months. `next` is
-- `month + relativedelta(months=1)` of dateutil.
use cloud_billing_console.Prelude.{
  ℕ, ◌≡◌, refl, min, max, Bool, true, none, some, List, [], ◌∷◌, ◌&&◌, arith, any, or_else, ltb,
  leb, if◌then◌else◌,
}
use cloud_billing_console.Allocation.Rules.{Rule, covers}

pub record Window : Type 0 where
  pub month : ℕ
  pub first : ℕ
  pub last : ℕ

abbrev pub ends_past : Rule → ℕ → Bool
ends_past r day = elim r.effective_end [ none ↦ true | some e ↦ ltb day e ]

abbrev pub is_current_month : (ℕ → ℕ) → Rule → ℕ → Bool
is_current_month next r month = ltb r.effective_start (next month) && ends_past r month

abbrev pub window_of : (ℕ → ℕ) → Rule → ℕ → Window
window_of next r month = record {
  month = month;
  first = max month r.effective_start;
  last = min (next month) (or_else r.effective_end (next month));
}

unfoldable pub rule_months : (ℕ → ℕ) → Rule → List ℕ → List Window
rule_months next r [] = []
rule_months next r (m ∷ ms) =
    let rest : List Window = rule_months next r ms in
    if is_current_month next r m then window_of next r m ∷ rest else rest

abbrev pub in_window : ℕ → Window → Bool
in_window day w = leb w.first day && ltb day w.last

abbrev pub in_month : (ℕ → ℕ) → ℕ → ℕ → Bool
in_month next day m = leb m day && ltb day (next m)

window-exact :
    (next : ℕ → ℕ) (r : Rule) (m day : ℕ)
    → (is_current_month next r m && in_window day (window_of next r m))
      ≡ (in_month next day m && covers r day)
unfolding covers
window-exact next r m day = ground arith

-- A day lies in a window of the rule exactly if it lies in one of the months and the rule covers
-- it, also where the rule starts or ends within a month.
pub rule_months-exact :
    (next : ℕ → ℕ) (r : Rule) (months : List ℕ) (day : ℕ)
    → any (in_window day) (rule_months next r months)
      ≡ (any (in_month next day) months && covers r day)
unfolding rule_months
rule_months-exact next r [] day = refl
rule_months-exact next r (m ∷ ms) day =
    ground (arith, window-exact next r m day, rule_months-exact next r ms day)
