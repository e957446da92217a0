-- ===== src/Jobs/Runner.antt =====
-- `run_job` and `run_once` of billing/jobs.py. A handler is any function of the object and the
-- tables: HANDLERS is filled by the modules that register one.
use Prim.Native.String.{◌++◌ as text_append}
use cloud_billing_console.Prelude.{
  ℕ, zero, suc, ◌+◌, Bool, true, false, String, Option, none, some, List, ltb, str_eq,
  if◌then◌else◌,
}
use cloud_billing_console.Json.{Fields}
use cloud_billing_console.Jobs.Types.{Job, Db, Settings}
use cloud_billing_console.Jobs.Lease.{Locks, lease}
use cloud_billing_console.Jobs.Outcome.{complete, fail}

-- How a handler ends: with a result (a dict or anything else), with PermanentJobError, or with
-- another exception, given by its `user_message`, if it has one, and its safe message.
pub data Ended : Type 0 where
  returned : Option Fields → Ended
  permanent : String → Ended
  raised : Option String → String → Ended

abbrev pub Handler : Type 0
Handler = Job → Db → Ended × Job × Db

-- getattr(exc, 'user_message', None) or safe_message(exc)
abbrev pub shown : Option String → String → String
shown none safe = safe
shown (some m) safe = if str_eq m "" then safe else m

-- limit is None or ran < limit
abbrev pub under_limit : Option ℕ → ℕ → Bool
under_limit none ran = true
under_limit (some n) ran = ltb ran n

-- `if not job: break`, and otherwise the rest of the round.
abbrev pub unless_idle : ℕ → (Job → Db → Option (ℕ × Db)) → Option Job × Db → Option (ℕ × Db)
unless_idle ran run (none, d) = some (ran, d)
unless_idle ran run (some j, d) = run j d

module _ (redact : String → String) (uniform : ℕ → ℕ → ℕ) (set : Settings)
    (handlers : String → Option Handler) where
  -- The end of the `try` block; `n` numbers the random draw.
  unfoldable pub settle : ℕ → ℕ → Ended → Job → Db → Bool × Db
  unfolding complete fail
  settle n now (returned result) j d = (true, complete now j result d)
  settle n now (permanent message) j d =
      (false, (fail redact (uniform n) set now j message true d).1)
  settle n now (raised message safe) j d =
      (false, (fail redact (uniform n) set now j (shown message safe) false d).1)

  unfoldable pub run_job : ℕ → ℕ → Job → Db → Bool × Db
  unfolding settle
  run_job n now j d = elim (handlers j.kind) [
    | none ↦ (
      false,
      (fail redact (uniform n) set now j (text_append "No handler for job kind " j.kind) true d).1,
    )
    | some h ↦ let (e, j', d') = h j d in settle n now e j' d'
  ]

  -- The loop of `run_once`. Round `n` leases at `lease_time n` and settles at `end_time n`;
  -- `none` means that the fuel ran out.
  module _ (worker : String) (kinds : List String) (locks : ℕ → Locks) (lease_time end_time : ℕ → ℕ)
      (limit : Option ℕ) where
    unfoldable pub run_loop : ℕ → ℕ → Db → Option (ℕ × Db)
    unfolding lease run_job
    run_loop zero ran d = none
    run_loop (suc fuel) ran d = elim (under_limit limit ran) [
      | false ↦ some (ran, d)
      | true ↦
          unless_idle ran (λ j e. run_loop fuel (ran + 1) (run_job ran (end_time ran) j e).1)
            (lease set worker (lease_time ran) kinds (locks ran) d)
    ]

    unfoldable pub run_once : ℕ → Db → Option (ℕ × Db)
    unfolding run_loop
    run_once fuel d = run_loop fuel 0 d
