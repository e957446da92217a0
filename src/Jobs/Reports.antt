-- ===== src/Jobs/Reports.antt =====
-- What `complete`, `fail`, `heartbeat`, `recover_expired` and `run_job` make of the rows.
use native.Mathlib.Nat.{pow-suc}
use cloud_billing_console.Prelude.{
  ℕ, zero, suc, ◌+◌, ◌-◌, ◌*◌, ◌/◌, ◌^◌, ◌≤◌, ◌≡◌, refl, ap, Bool, true, false, String, none, some,
  List, [], ◌∷◌, arith, inl, inr, ◌⊎◌, ◌↔◌, Bool-cases, min, length,
}
use cloud_billing_console.Prelude.Rows.{update, length-append-one}
use cloud_billing_console.Jobs.Types.{Status, Job, Db, Settings, second}
use cloud_billing_console.Jobs.Outcome.{
  delay, backoff, holds, take_chars, is_exhausted, as_failed, fail,
}

delay-suc :
    (set : Settings) (n : ℕ)
    → delay set (suc n) ≡ min (set.backoff_seconds * 2 ^ n) set.backoff_cap_seconds
unfolding delay
delay-suc set n = let e : suc n - 1 ≡ n = omega arith in rw e

delay-zero : (set : Settings) → delay set 0 ≡ delay set 1
unfolding delay
delay-zero set = refl

delay_step :
    (set : Settings) (n : ℕ)
    → (delay set (suc n) ≤ 2 * delay set n) × (delay set n ≤ delay set (suc n))
delay_step set zero = omega (arith, delay-zero set)
delay_step set (suc n) =
    let p : 2 ^ suc n ≡ 2 ^ n * 2 = pow-suc 2 n in
    let q = ap (λ (t : ℕ). set.backoff_seconds * t) p in
    omega (arith, delay-suc set (suc n), delay-suc set n, q)

delay-le-cap : (set : Settings) (n : ℕ) → delay set n ≤ set.backoff_cap_seconds
unfolding delay
delay-le-cap set n = omega arith

-- The retry delay is at least the capped exponential delay and at most half as long again, so
-- never above one and a half times the cap, if the random draw keeps its documented range.
pub backoff_bounds :
    (uniform : ℕ → ℕ) (set : Settings) (attempts : ℕ)
    → ((b : ℕ) → uniform b ≤ b)
    → (delay set attempts * second ≤ backoff uniform set attempts)
      × (2 * backoff uniform set attempts ≤ 3 * (set.backoff_cap_seconds * second))
      × (delay set (suc attempts) ≤ 2 * delay set attempts)
      × (delay set attempts ≤ delay set (suc attempts))
unfolding backoff
backoff_bounds uniform set attempts h =
    let draw = h (delay set attempts * second / 2) in
    omega (arith, draw, delay-le-cap set attempts, delay_step set attempts)

-- The report of an attempt is made on the rows that it holds, and every other row is left.
abbrev pub OnHeld : Job → (Job → Type 0) → List Job → List Job → Type 0
OnHeld j Q [] ys = ys ≡ []
OnHeld j Q (x ∷ xs) [] = ⊥
OnHeld j Q (x ∷ xs) (y ∷ ys) =
    (holds j x ≡ true → Q y) × (holds j x ≡ false → y ≡ x) × OnHeld j Q xs ys

update-OnHeld :
    (j : Job) (Q : Job → Type 0) (u : Job → Job) (xs : List Job)
    → ((r : Job) → holds j r ≡ true → Q (u r))
    → OnHeld j Q xs (update (holds j) u xs)
update-OnHeld j Q u [] f = refl
update-OnHeld j Q u (x ∷ xs) f = elim (Bool-cases (holds j x)) [
  | inl h ↦ rw h (λ e. f x h, λ e. cc, update-OnHeld j Q u xs f)
  | inr h ↦ rw h (λ e. cc, λ e. refl, update-OnHeld j Q u xs f)
]

-- What a failed attempt leaves in its row: the last failure closes the job, any other sends it
-- back to the queue, to be taken up after the retry delay.
pub record IsFailed (set : Settings) (now : ℕ) (exhausted : Bool) (message : String) (j y : Job)
    : Type 0 where
  pub closed :
      exhausted ≡ true
      → (y.status ≡ Status.failed) × (y.finished_at ≡ some now) × (y.run_after ≡ now)
  pub retried :
      exhausted ≡ false
      → (y.status ≡ Status.queued)
        × (y.finished_at ≡ none)
        × (now + delay set j.attempts * second ≤ y.run_after)
  pub released : y.lease_expires ≡ none
  pub told : y.last_error ≡ message
  pub resumable : y.progress ≡ j.progress

as_failed-IsFailed :
    (uniform : ℕ → ℕ) (set : Settings) (now : ℕ) (exhausted : Bool) (message : String) (j r : Job)
    → IsFailed set now exhausted message j
        (as_failed now (now + backoff uniform set j.attempts) exhausted message j r)
unfolding as_failed backoff
as_failed-IsFailed uniform set now true message j r = ground arith
as_failed-IsFailed uniform set now false message j r = ground arith

-- `fail` closes the job when the error is permanent or no attempt is left, and only then. It
-- changes the row of the attempt alone, and adds one audit event in any case.
pub fail_outcome :
    (redact : String → String) (uniform : ℕ → ℕ) (set : Settings) (now : ℕ) (j : Job)
    (error : String) (permanent : Bool) (d : Db)
    → let (exhausted, d') = fail redact uniform set now j error permanent d in
      ((exhausted ≡ true) ↔ ((permanent ≡ true) ⊎ (j.max_attempts ≤ j.attempts)))
      × OnHeld j (IsFailed set now exhausted (take_chars 500 (redact error)) j) d.jobs d'.jobs
      × (length d'.audit ≡ length d.audit + 1)
unfolding fail
fail_outcome redact uniform set now j error permanent d = (
  (unfold is_exhausted in λ e. ground arith, unfold is_exhausted in λ e. ground arith),
  update-OnHeld j (IsFailed set now (is_exhausted permanent j) (take_chars 500 (redact error)) j) _
      d.jobs
      (λ r h.
        as_failed-IsFailed uniform set now (is_exhausted permanent j)
          (take_chars 500 (redact error)) j r),
  length-append-one d.audit _,
)
