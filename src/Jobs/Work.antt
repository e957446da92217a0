-- ===== src/Jobs/Work.antt =====
-- The work that a table of jobs has left: the attempts that its active jobs may still use, each at the
-- price of its kind; and the handlers that add less work than their attempt cost.
use cloud_billing_console.Prelude.{
  ℕ, ◌+◌, ◌-◌, ◌*◌, ◌≤◌, ◌<◌, ◌≡◌, sym, ◌∙◌, ap, subst, Bool, true, String, Option, List, [], ◌∷◌,
  arith, All, In, ◌==◌, inl, inr, Bool-cases, or_else, if◌then◌else◌, ==_self,
}
use cloud_billing_console.Prelude.Rows.{touch, update, All-map, All-In}
use cloud_billing_console.Json.{Fields}
use cloud_billing_console.Jobs.Types.{Job, Db, Settings, is_queued, is_active}
use cloud_billing_console.Jobs.Lease.{as_leased, save_lease}
use cloud_billing_console.Jobs.Outcome.{
  backoff, holds, as_done, complete, take_chars, is_exhausted, as_failed, fail,
}
use cloud_billing_console.Jobs.Runner.{Handler}
use cloud_billing_console.Jobs.Consistency.{RowFits, IsConsistent, only_row}
use cloud_billing_console.Jobs.OutcomeKeeps.{Agrees}
use cloud_billing_console.Jobs.Soundness.{Known, IsKnown}
use cloud_billing_console.Jobs.History.{◌⊑◌}

-- The object is the same job, with its attempts.
abbrev pub IsSameJob : Job → Job → Type 0
IsSameJob j k = (k.pk ≡ j.pk) × ((k.max_attempts ≡ j.max_attempts) × (k.attempts ≡ j.attempts))

pub same_IsKnown : {d : Db} {j k : Job} → IsSameJob j k → IsKnown d j → IsKnown d k
same_IsKnown {d} {j} {k} (p, (m, a)) h = record {
  issued = omega (arith, h.issued);
  rows =
      All-map (Known j) (Known k) (λ r f e. let (x, y) = f (e ∙ p) in (x ∙ sym m, omega (arith, y)))
        d.jobs h.rows;
}

pub IsKnown-Agrees : {d : Db} {j : Job} → IsKnown d j → All (Agrees j) d.jobs
IsKnown-Agrees {d} {j} h = All-map (Known j) (Agrees j) (λ r f e. (f e).0) d.jobs h.rows

pub All-true : (xs : List Job) → All (λ r. Unit {0}) xs
All-true [] = tt
All-true (x ∷ xs) = (tt, All-true xs)

one_more : (k c : ℕ) → (k + 1) * c ≡ k * c + c
one_more k c = omega arith

open_times : (a m c : ℕ) → a < m → (m - (a + 1)) * c + c ≡ (m - a) * c
open_times a m c h = omega (
  arith,
  one_more (m - (a + 1)) c,
  ap (λ k. k * c) {x = m - a} {y = (m - (a + 1)) + 1} (omega arith),
)

module _ (cost : String → ℕ) where
  -- The work left in a row: what each attempt costs that it may still use.
  abbrev pub work_of : Job → ℕ
  work_of j = if is_active j.status then (j.max_attempts - j.attempts) * cost j.kind else 0

  abbrev pub work_in : List Job → ℕ
  work_in [] = 0
  work_in (j ∷ js) = work_of j + work_in js

  pub update-work :
      (S : Job → Type 0) (q : Job → Bool) (u : Job → Job) (xs : List Job)
      → ((r : Job) → S r → work_of (touch q u r) ≤ work_of r)
      → All S xs
      → work_in (update q u xs) ≤ work_in xs
  update-work S q u [] f a = omega arith
  update-work S q u (x ∷ xs) f (s, a) = omega (arith, f x s, update-work S q u xs f a)

  -- One row loses `c` at least.
  update-work_lt :
      (c : ℕ) (S : Job → Type 0) (q : Job → Bool) (u : Job → Job) (xs : List Job) (j : Job)
      → ((r : Job) → S r → work_of (touch q u r) ≤ work_of r)
      → work_of (touch q u j) + c ≤ work_of j
      → All S xs
      → In j xs
      → work_in (update q u xs) + c ≤ work_in xs
  update-work_lt c S q u [] j f l a i = absurd i
  update-work_lt c S q u (x ∷ xs) j f l (s, a) (inl e) =
      let l' = subst (λ y. work_of (touch q u y) + c ≤ work_of y) e l in
      omega (arith, l', update-work S q u xs f a)
  update-work_lt c S q u (x ∷ xs) j f l (s, a) (inr i) =
      omega (arith, f x s, update-work_lt c S q u xs j f l a i)

  leased-work :
      (set : Settings) (worker : String) (now : ℕ) (j : Job)
      → is_queued j.status ≡ true
      → j.attempts < j.max_attempts
      → work_of (as_leased set worker now (j.attempts + 1) j) + cost j.kind ≤ work_of j
  leased-work set worker now j q l =
      ground (arith, open_times j.attempts j.max_attempts (cost j.kind) l)

  pub claim-work :
      (set : Settings) (worker : String) (now : ℕ) (j : Job) (d : Db)
      → IsConsistent d
      → In j d.jobs
      → is_queued j.status ≡ true
      → work_in (save_lease set worker now j d).jobs + cost j.kind ≤ work_in d.jobs
  unfolding save_lease
  claim-work set worker now j d c i q =
      update-work_lt (cost j.kind) (λ r. r.pk ≡ j.pk → r ≡ j) (λ r. r.pk == j.pk)
        (as_leased set worker now (j.attempts + 1)) d.jobs j claimed (rw (==_self j.pk) less)
        (only_row d.jobs j c.pairs i) i
    where
      fits : RowFits d.next_pk j
      fits = All-In (RowFits d.next_pk) d.jobs c.rows i

      less : work_of (as_leased set worker now (j.attempts + 1) j) + cost j.kind ≤ work_of j
      less = leased-work set worker now j q (fits.attempts_left q)

      claimed :
          (r : Job)
          → (r.pk ≡ j.pk → r ≡ j)
          → work_of (touch (λ x. x.pk == j.pk) (as_leased set worker now (j.attempts + 1)) r)
            ≤ work_of r
      claimed r h = elim (Bool-cases (r.pk == j.pk)) [
        | inl e ↦ rw e (
            subst (λ x. work_of (as_leased set worker now (j.attempts + 1) x) ≤ work_of x)
              (sym (h (ground arith))) (omega (arith, less)))
        | inr e ↦ rw e (omega arith)
      ]

  pub complete-work :
      (now : ℕ) (j : Job) (progress : Option Fields) (d : Db)
      → work_in (complete now j progress d).jobs ≤ work_in d.jobs
  unfolding complete
  complete-work now j progress d =
      update-work (λ r. Unit {0}) (holds j) (as_done now (or_else progress j.progress) j) d.jobs
        (λ r s. unfold holds as_done in ground arith) (All-true d.jobs)

  pub fail-work :
      (redact : String → String) (uniform : ℕ → ℕ) (set : Settings) (now : ℕ) (j : Job)
      (error : String) (fatal : Bool) (d : Db)
      → work_in (fail redact uniform set now j error fatal d).1.jobs ≤ work_in d.jobs
  unfolding fail
  fail-work redact uniform set now j error fatal d =
      update-work (λ r. Unit {0}) (holds j)
        (as_failed now (now + backoff uniform set j.attempts) (is_exhausted fatal j)
          (take_chars 500 (redact error)) j)
        d.jobs (λ r s. unfold holds as_failed in ground arith) (All-true d.jobs)

  -- A handler of jobs of the kind `kind`: it keeps the table consistent and its history, gives its
  -- object back as the same job, and adds less work than the attempt cost.
  pub record IsPaid (kind : String) (h : Handler) : Type 0 where
    pub consistent : (j : Job) (d : Db) → IsConsistent d → IsConsistent (h j d).2
    pub history : (j : Job) (d : Db) → d ⊑ (h j d).2
    pub same : (j : Job) (d : Db) → IsSameJob j (h j d).1
    pub bounded :
        (j : Job) (d : Db) → j.kind ≡ kind → work_in (h j d).2.jobs + 1 ≤ work_in d.jobs + cost kind
