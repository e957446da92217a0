-- ===== src/Release/Outcomes.antt =====
-- What holds after an action, of the worlds that it returns and of those in which it raises.
use cloud_billing_console.Prelude.{ℕ, zero, suc, ◌≡◌, refl, inl, inr, Bool, true, false, Bool-cases}
use cloud_billing_console.Release.World.{
  World, Oracle, Agent, has_web, has_collector, is_combined, Outcome, ok, raised, ◌>>=◌, attempt,
  ticked, run, require, unchanged,
}
use cloud_billing_console.Release.Rollback.{when, run_times, health}

abbrev pub Post : (World → Type 0) → (World → Type 0) → Outcome → Type 0
Post Q R (ok w) = Q w
Post Q R (raised w) = R w

module _ (Q R S : World → Type 0) where
  pub >>=-Post :
      (x : Outcome) (f : World → Outcome)
      → Post Q R x
      → ((w : World) → Q w → Post S R (f w))
      → Post S R (x >>= f)
  >>=-Post (ok w) f p h = h w p
  >>=-Post (raised w) f p h = p

pub Post-map :
    (Q R S T : World → Type 0) (x : Outcome)
    → ((w : World) → Q w → S w)
    → ((w : World) → R w → T w)
    → Post Q R x
    → Post S T x
Post-map Q R S T (ok w) f g p = f w p
Post-map Q R S T (raised w) f g p = g w p

module _ (Q R : World → Type 0) where
  pub attempt-Post :
      (o : Oracle) (f g : World → World) (w : World)
      → Q (ticked (f w))
      → R (ticked w)
      → R (ticked (g w))
      → Post Q R (attempt o f g w)
  unfolding attempt
  attempt-Post o f g w q r s = elim (Bool-cases (o.fails w.ticks)) [
    | inr e ↦ rw e q
    | inl e ↦ rw e (elim (Bool-cases (o.late w.ticks)) [ inl l ↦ rw l s | inr l ↦ rw l r ])
  ]

  pub when-Post :
      (b : Bool) (f : World → Outcome) (w : World)
      → (b ≡ true → Post Q R (f w))
      → (b ≡ false → Q w)
      → Post Q R (when b f w)
  when-Post true f w h k = h refl
  when-Post false f w h k = k refl

  pub require-Post : (b : Bool) (w : World) → (b ≡ true → Q w) → R w → Post Q R (require b w)
  require-Post true w q r = q refl
  require-Post false w q r = r

  pub run-Post :
      (o : Oracle)
      → ((w : World) → Q w → Q (ticked w) × R (ticked w))
      → (w : World) → Q w
      → Post Q R (run o w)
  run-Post o h w q = attempt-Post o unchanged unchanged w (h w q).0 (h w q).1 (h w q).1

  -- Commands, of which the property is independent.
  pub run_times-Post :
      (o : Oracle)
      → ((w : World) → Q w → Q (ticked w) × R (ticked w))
      → (n : ℕ) (w : World) → Q w
      → Post Q R (run_times o n w)
  run_times-Post o h zero w q = q
  run_times-Post o h (suc n) w q =
      >>=-Post Q R Q (run o w) (run_times o n) (run-Post o h w q) (λ v p. run_times-Post o h n v p)

  pub health-Post :
      (a : Agent) (o : Oracle)
      → ((w : World) → Q w → Q (ticked w) × R (ticked w))
      → (w : World) → Q w
      → Post Q R (health a o w)
  unfolding health
  health-Post a o h w q =
      >>=-Post Q R Q (when (has_collector a) (run_times o 3) w)
        (when (has_web a) (λ v. when (is_combined a.runtime) (run o) v >>= run_times o 5))
        (when-Post (has_collector a) (run_times o 3) w (λ _. run_times-Post o h 3 w q) (λ _. q))
        (λ v p.
          when-Post (has_web a) (λ u. when (is_combined a.runtime) (run o) u >>= run_times o 5) v
            (λ _.
              >>=-Post Q R Q (when (is_combined a.runtime) (run o) v) (run_times o 5)
                (when-Post (is_combined a.runtime) (run o) v (λ _. run-Post o h v p) (λ _. p))
                (λ u r. run_times-Post o h 5 u r))
            (λ _. p))
