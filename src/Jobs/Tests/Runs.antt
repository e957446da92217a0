-- ===== src/Jobs/Tests/Runs.antt =====
-- A worker whose handlers add jobs, as handle_verify of billing/scheduler.py does.
use cloud_billing_console.Prelude.{
  ℕ, ◌+◌, ◌≤◌, ◌<◌, String, ◌≡◌, refl, sym, ap, subst, ◌⊎◌, inl, inr, false, Option, none, some, [],
  arith, str_eq, if◌then◌else◌, str_eq_iff, Bool-cases, or_else,
}
use mathlib.Core.Option
use cloud_billing_console.Jobs.Types.{Db}
use cloud_billing_console.Jobs.Enqueue.{Request, attempt_limit, enqueue}
use cloud_billing_console.Jobs.Lease.{lease}
use cloud_billing_console.Jobs.Runner.{returned, Handler, under_limit, run_once}
use cloud_billing_console.Jobs.Consistency.{IsConsistent}
use cloud_billing_console.Jobs.EnqueueKeeps.{enqueue-IsConsistent}
use cloud_billing_console.Jobs.History.{⊑-refl, ⊑-trans}
use cloud_billing_console.Jobs.Progress.{enqueue-⊑}
use cloud_billing_console.Jobs.Coalescing.{current}
use cloud_billing_console.Jobs.Work.{work_in, IsPaid}
use cloud_billing_console.Jobs.Requested.{enqueue-work}
use cloud_billing_console.Jobs.Termination.{run_once-ends}
use cloud_billing_console.Jobs.Tests.{
  name, plain, no_draws, settings, nothing, free, collect, blank,
}

-- jobs.enqueue('discover', ..., max_attempts=2) and jobs.enqueue('import_budgets', ...)
abbrev discover : Request
discover = record collect { kind = "discover"; max_attempts = some 2 }

abbrev import_budgets : Request
import_budgets = record collect { kind = "import_budgets"; priority = 2 }

abbrev verify : Request
verify = record collect { kind = "verify"; priority = 1; max_attempts = some 1 }

abbrev discovering : Db → Db
discovering d = (enqueue name settings none discover 2500 (current d) d).1

abbrev importing : Db → Db
importing d = (enqueue name settings none import_budgets 2500 (current d) d).1

abbrev verifies : Handler
verifies j d = (returned none, j, importing (discovering d))

abbrev quick : Handler
quick j d = (returned none, j, d)

abbrev registry : String → Option Handler
registry kind = some (if str_eq kind "verify" then verifies else quick)

-- An attempt to verify costs more than two attempts to discover and six to import.
abbrev cost : String → ℕ
cost kind = if str_eq kind "verify" then 9 else 1

cost-positive : (kind : String) → 0 < cost kind
cost-positive kind = ground arith

verifies-IsPaid : IsPaid cost "verify" verifies
unfolding attempt_limit
verifies-IsPaid = record {
  consistent = λ j d c.
      enqueue-IsConsistent name settings none import_budgets 2500 (current (discovering d))
        (discovering d) (omega arith)
        (enqueue-IsConsistent name settings none discover 2500 (current d) d (omega arith) c);
  history = λ j d.
      ⊑-trans (enqueue-⊑ name settings none discover 2500 (current d) d) (
        enqueue-⊑ name settings none import_budgets 2500 (current (discovering d)) (discovering d));
  same = λ j d. (refl, (refl, refl));
  bounded = λ j d e. omega (
    arith,
    enqueue-work cost name settings none discover 2500 (current d) d,
    enqueue-work cost name settings none import_budgets 2500 (current (discovering d))
        (discovering d),
  );
}

quick-IsPaid : (kind : String) → IsPaid cost kind quick
quick-IsPaid kind = record {
  consistent = λ j d c. c;
  history = λ j d. ⊑-refl d;
  same = λ j d. (refl, (refl, refl));
  bounded = λ j d e. omega (arith, cost-positive kind);
}

registry-IsPaid : (kind : String) (h : Handler) → registry kind ≡ some h → IsPaid cost kind h
registry-IsPaid kind h e =
    subst (IsPaid cost kind) (ap (λ (o : Option Handler). or_else o quick) e)
      (elim (Bool-cases (str_eq kind "verify")) [
        | inl f ↦ rw f (
            subst (λ k. IsPaid cost k verifies) (sym ((str_eq_iff kind "verify").0 f))
              verifies-IsPaid)
        | inr f ↦ rw f (quick-IsPaid kind)
      ])

abbrev asked : Db
asked = (enqueue name settings none verify 1000 blank nothing).1

asked-IsConsistent : IsConsistent asked
asked-IsConsistent =
    enqueue-IsConsistent name settings none verify 1000 blank nothing (omega arith)
      (record { rows = tt; pairs = tt })

asked-work : work_in cost asked.jobs ≡ 9
unfolding enqueue
asked-work = refl

run_once-ends_example :
    (n : ℕ) × (e : Db) × (run_once plain no_draws settings registry "a" []
        (λ n. free)
        (λ n. 3000)
        (λ n. 4000)
        none
        10
        asked
      ≡ some (n, e))
    × (work_in cost e.jobs + n ≤ work_in cost asked.jobs)
    × IsConsistent e
    × ((under_limit none n ≡ false) ⊎ (lease settings "a" 3000 [] free e ≡ (none, e)))
run_once-ends_example =
    run_once-ends plain no_draws settings registry cost cost-positive registry-IsPaid "a" []
      (λ n. free) (λ n. 3000) (λ n. 4000) none 10 asked asked-IsConsistent
      (omega (arith, asked-work))

-- The verification and the two jobs that it asks for run, then the queue is empty.
run_once-asked :
    Option.map
      (λ r. r.0)
      (run_once plain no_draws settings registry "a" []
        (λ n. free)
        (λ n. 3000)
        (λ n. 4000)
        none
        10
        asked)
    ≡ some 3
unfolding run_once enqueue
run_once-asked = refl
