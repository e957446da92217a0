-- ===== src/Budgets/Expected.antt =====
-- What `aws_forecast` of billing/budgets.py adds up, and how it ends without a forecast.
use cloud_billing_console.Prelude.{
  ℕ, ◌≤◌, ◌<◌, String, ◌≡◌, ◌≢◌, refl, ap, sym, subst, ◌∙◌, ◌⊎◌, inl, inr, Bool, true, false, not,
  ◌&&◌, ◌||◌, Option, none, some, List, [], ◌∷◌, ◌++◌, arith, ltb, leb, if◌then◌else◌, Bool-cases,
}
use cloud_billing_console.Prelude.Int.{ℤ, pos, ◌+ℤ◌, int_laws, eq_of_parts}
use cloud_billing_console.Json.{Fields}
use cloud_billing_console.Budgets.Tables.{Budget, is_project}
use cloud_billing_console.Budgets.Forecasts.{
  ReportUnit, takes_unit, unit_accounts, forecast_request, sum_values, Asked, refused, answered,
  Forecasted, fails, gives, and_then, unit_value, forecast_units, aws_forecast,
}
use cloud_billing_console.Budgets.Units.{
  InScope, AsksFor, taken-InScope, InScope-taken, unit_accounts-AsksFor,
}

module _ (iso : ℕ → String) (ask : ℕ → Fields → Asked) (require_approval : Bool) (b : Budget)
    (today month_end : ℕ) where
  -- The unit is asked, and `get_query` ends in this way: its connection has the capability or needs
  -- none.
  abbrev pub Ends : ReportUnit → Asked → Type 0
  Ends u a =
      (require_approval ≡ true → u.has_forecasts ≡ true)
      × ((accounts : Option (List String)) × (AsksFor b u accounts
            × (ask u.source (forecast_request iso b today month_end accounts) ≡ a)))

  -- The unit has the values, and at least one.
  abbrev pub Answers : ReportUnit → List ℤ → Type 0
  Answers u vs = Ends u (answered (some vs)) × (vs ≢ [])

  -- The unit's connection lacks the capability, or there is no data or no value.
  abbrev pub Lacks : ReportUnit → Type 0
  Lacks u =
      ((require_approval ≡ true) × (u.has_forecasts ≡ false))
      ⊎ (Ends u (answered none) ⊎ Ends u (answered (some [])))

  -- The units in scope have values, and their sum is `v`.
  abbrev pub IsTotal : List ReportUnit → ℤ → Type 0
  IsTotal [] v = v ≡ pos 0
  IsTotal (u ∷ us) v =
      ((InScope b.scope b u → ⊥) × IsTotal us v)
      ⊎ (InScope b.scope b u
          × ((vs : List ℤ) × (Answers u vs
                × ((rest : ℤ) × (IsTotal us rest × (v ≡ sum_values vs +ℤ rest))))))

  -- The first unit in scope that has no values has the property.
  abbrev pub StopsAt : (ReportUnit → Type 0) → List ReportUnit → Type 0
  StopsAt P us =
      (before : List ReportUnit) × ((u : ReportUnit) × ((after : List ReportUnit) × ((us
              ≡ before ++ (u ∷ after))
            × (((v : ℤ) × IsTotal before v) × (InScope b.scope b u × P u)))))

  Outcome : (ℤ → Type 0) → List ReportUnit → Forecasted → Type 0
  Outcome P us (gives (some v)) = P v
  Outcome P us (gives none) = StopsAt Lacks us
  Outcome P us (fails m) = StopsAt (λ u. Ends u (refused m)) us

  abbrev pub IsForecast : List ReportUnit → Forecasted → Type 0
  IsForecast us (gives (some v)) = IsTotal us v
  IsForecast us (gives none) = StopsAt Lacks us
  IsForecast us (fails m) = StopsAt (λ u. Ends u (refused m)) us

  -- A unit that is left out, or that has values, goes before.
  StopsAt-cons :
      (P : ReportUnit → Type 0) (x : ReportUnit) (us : List ReportUnit)
      → ((before : List ReportUnit) (v : ℤ) → IsTotal before v → (w : ℤ) × IsTotal (x ∷ before) w)
      → StopsAt P us
      → StopsAt P (x ∷ us)
  StopsAt-cons P x us f (before, (u, (after, (e, ((v, t), h))))) =
      (x ∷ before, (u, (after, (ap (λ zs. x ∷ zs) e, (f before v t, h)))))

  Outcome-cons :
      (P Q : ℤ → Type 0) (x : ReportUnit) (us : List ReportUnit)
      → ((before : List ReportUnit) (v : ℤ) → IsTotal before v → (w : ℤ) × IsTotal (x ∷ before) w)
      → ((v : ℤ) → P v → Q v)
      → (r : Forecasted) → Outcome P us r
      → Outcome Q (x ∷ us) r
  unfolding Outcome
  Outcome-cons P Q x us f g (gives (some v)) h = g v h
  Outcome-cons P Q x us f g (gives none) h = StopsAt-cons Lacks x us f h
  Outcome-cons P Q x us f g (fails m) h = StopsAt-cons (λ u. Ends u (refused m)) x us f h

  -- How the loop goes on after a unit.
  Step : ReportUnit → Type 0
  Step u =
      ((vs : List ℤ) × (Answers u vs
          × (unit_value iso ask require_approval b today month_end u
              ≡ gives (some (sum_values vs)))))
      ⊎ ((Lacks u × (unit_value iso ask require_approval b today month_end u ≡ gives none))
          ⊎ ((m : String) × (Ends u (refused m)
                × (unit_value iso ask require_approval b today month_end u ≡ fails m))))

  step : (u : ReportUnit) → Step u
  unfolding Step
  step u = elim (Bool-cases (require_approval && not u.has_forecasts)) [
    | inl e ↦ inr (inl (inl (ground arith, ground arith), rw e refl))
    | inr e ↦
        asked e (ask u.source (forecast_request iso b today month_end (unit_accounts b u))) refl
  ]
    where
      ends :
          {a : Asked}
          → ask u.source (forecast_request iso b today month_end (unit_accounts b u)) ≡ a
          → (accounts : Option (List String)) × (AsksFor b u accounts
              × (ask u.source (forecast_request iso b today month_end accounts) ≡ a))
      ends f = (unit_accounts b u, (unit_accounts-AsksFor b u, f))

      asked :
          (require_approval && not u.has_forecasts) ≡ false
          → (a : Asked)
          → ask u.source (forecast_request iso b today month_end (unit_accounts b u)) ≡ a
          → Step u
      asked e (refused m) f = inr (inr (m, (((λ r. ground arith), ends f), rw (e, f) refl)))
      asked e (answered none) f =
          inr (inl (inr (inl ((λ r. ground arith), ends f)), rw (e, f) refl))
      asked e (answered (some [])) f =
          inr (inl (inr (inr ((λ r. ground arith), ends f)), rw (e, f) refl))
      asked e (answered (some (v ∷ vs))) f =
          inl (v ∷ vs, ((((λ r. ground arith), ends f), (λ g. cc)), rw (e, f) refl))

  sum_assoc : (sum w v x : ℤ) → x ≡ sum +ℤ w +ℤ v → x ≡ sum +ℤ (w +ℤ v)
  sum_assoc sum w v x e = e ∙ eq_of_parts (sum +ℤ w +ℤ v) (sum +ℤ (w +ℤ v)) (omega int_laws)

  before_outside :
      (u : ReportUnit)
      → (InScope b.scope b u → ⊥)
      → (before : List ReportUnit) (v : ℤ) → IsTotal before v
      → (w : ℤ) × IsTotal (u ∷ before) w
  before_outside u n before v t = (v, inl (n, t))

  before_inside :
      (u : ReportUnit) (vs : List ℤ)
      → InScope b.scope b u
      → Answers u vs
      → (before : List ReportUnit) (v : ℤ) → IsTotal before v
      → (w : ℤ) × IsTotal (u ∷ before) w
  before_inside u vs s a before v t = (sum_values vs +ℤ v, inr (s, (vs, (a, (v, (t, refl))))))

  stop :
      (P : ReportUnit → Type 0) (u : ReportUnit) (us : List ReportUnit)
      → InScope b.scope b u
      → P u
      → StopsAt P (u ∷ us)
  stop P u us s p = ([], (u, (us, (refl, ((pos 0, refl), (s, p))))))

  forecast_units-Outcome :
      (us : List ReportUnit) (sum : ℤ)
      → Outcome
          (λ w. (v : ℤ) × (IsTotal us v × (w ≡ sum +ℤ v)))
          us
          (forecast_units iso ask require_approval b today month_end us sum)
  unfolding Outcome forecast_units Step
  forecast_units-Outcome [] sum = (pos 0, (refl, eq_of_parts sum (sum +ℤ pos 0) (omega int_laws)))
  forecast_units-Outcome (u ∷ us) sum = elim (Bool-cases (takes_unit b u)) [
    | inr t ↦
        rw (t, forecast_units)
          (let outside : InScope b.scope b u → ⊥ = (λ s. let taken = InScope-taken b u s in cc) in
            Outcome-cons (λ w. (v : ℤ) × (IsTotal us v × (w ≡ sum +ℤ v)))
              (λ w. (v : ℤ) × (IsTotal (u ∷ us) v × (w ≡ sum +ℤ v))) u us (before_outside u outside)
              (λ w (v, (k, e)). (v, (inl (outside, k), e)))
              (forecast_units iso ask require_approval b today month_end us sum)
              (forecast_units-Outcome us sum))
    | inl t ↦
        rw (t, forecast_units)
          (taken (λ x. forecast_units-Outcome us x) (taken-InScope b u t) (step u))
  ]
    where
      taken :
          ((x : ℤ)
            → Outcome
                (λ w. (v : ℤ) × (IsTotal us v × (w ≡ x +ℤ v)))
                us
                (forecast_units iso ask require_approval b today month_end us x))
          → InScope b.scope b u
          → Step u
          → Outcome
              (λ w. (v : ℤ) × (IsTotal (u ∷ us) v × (w ≡ sum +ℤ v)))
              (u ∷ us)
              (and_then
                (unit_value iso ask require_approval b today month_end u)
                (λ v. forecast_units iso ask require_approval b today month_end us (sum +ℤ v)))
      taken again s (inl (vs, (a, e))) = rw e (
          Outcome-cons (λ w. (v : ℤ) × (IsTotal us v × (w ≡ sum +ℤ sum_values vs +ℤ v)))
            (λ w. (v : ℤ) × (IsTotal (u ∷ us) v × (w ≡ sum +ℤ v))) u us (before_inside u vs s a)
            (λ w (v, (k, f)). (
              sum_values vs +ℤ v,
              (inr (s, (vs, (a, (v, (k, refl))))), sum_assoc sum (sum_values vs) v w f),
            ))
            (forecast_units iso ask require_approval b today month_end us (sum +ℤ sum_values vs))
            (again (sum +ℤ sum_values vs)))
      taken again s (inr (inl (l, e))) = rw e (stop Lacks u us s l)
      taken again s (inr (inr (m, (f, e)))) = rw e (stop (λ x. Ends x (refused m)) u us s f)

  Outcome-IsForecast :
      (us : List ReportUnit) (r : Forecasted)
      → Outcome (λ w. (v : ℤ) × (IsTotal us v × (w ≡ pos 0 +ℤ v))) us r
      → IsForecast us r
  unfolding Outcome
  Outcome-IsForecast us (gives (some w)) (v, (t, e)) =
      subst (IsTotal us) (eq_of_parts v (pos 0 +ℤ v) (omega int_laws) ∙ sym e) t
  Outcome-IsForecast us (gives none) h = h
  Outcome-IsForecast us (fails m) h = h

  -- For a month that today is in, a budget that is not a project's and with AWS forecasts on,
  -- `aws_forecast` gives a value exactly where all units in the budget's scope have values, and then
  -- their sum; it gives nothing if the first unit in scope without values lacks the capability, data
  -- or values, and fails with the error of `get_query` if that one fails. The units in scope are those
  -- of the budget's connection, or those that show the budget's account, and the request names
  -- that account alone, or the accounts that the unit shows.
  pub aws_forecast-IsForecast :
      (month : ℕ) (us : List ReportUnit)
      → is_project b.scope ≡ false
      → month ≤ today
      → today < month_end
      → IsForecast us (aws_forecast iso ask require_approval true b month month_end today us)
  unfolding aws_forecast
  aws_forecast-IsForecast month us p l h =
      let in_month : (leb month_end today || ltb today month) ≡ false = ground arith in
      subst (IsForecast us)
        (sym (
          ap
            (λ c.
              if c
              then gives none
              else if leb month_end today || ltb today month
              then gives none
              else forecast_units iso ask require_approval b today month_end us (pos 0))
            p
          ∙ ap
              (λ c.
                if c
                then gives none
                else forecast_units iso ask require_approval b today month_end us (pos 0))
              in_month))
        (Outcome-IsForecast us
          (forecast_units iso ask require_approval b today month_end us (pos 0))
          (forecast_units-Outcome us (pos 0)))
