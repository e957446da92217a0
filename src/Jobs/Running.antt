-- ===== src/Jobs/Running.antt =====
-- `run_job` always gives the job back, and `recover_expired` takes back every expired lease.
use cloud_billing_console.Prelude.{
  ℕ, ◌+◌, ◌≡◌, refl, sym, subst, Bool, true, false, String, Option, some, List, [], ◌∷◌, arith, All,
  In, select, str_eq_iff, length, inl, inr, Option-cases, Bool-cases, or_else,
}
use cloud_billing_console.Prelude.Rows.{touch, All-update, update-All, All-map, In-update_unmatched}
use cloud_billing_console.Prelude.Search.{All-of_In, In-select}
use cloud_billing_console.Json.{Fields}
use cloud_billing_console.Jobs.Types.{Job, Db, Settings}
use cloud_billing_console.Jobs.Outcome.{
  backoff, holds, as_done, complete, take_chars, is_exhausted, as_failed, fail, is_expired,
  count_expired, still_expired, as_recovered, recover_one, recover_rows, recover_seen,
  recover_expired,
}
use cloud_billing_console.Jobs.Runner.{
  Ended, returned, permanent, raised, Handler, shown, settle, run_job,
}

complete-releases :
    (now : ℕ) (j : Job) (progress : Option Fields) (d : Db)
    → All (λ r. holds j r ≡ false) (complete now j progress d).jobs
unfolding complete holds as_done
complete-releases now j progress d =
    update-All (λ r. holds j r ≡ false) (holds j) (as_done now (or_else progress j.progress) j)
      d.jobs (λ r. ground arith)

fail-releases :
    (redact : String → String) (uniform : ℕ → ℕ) (set : Settings) (now : ℕ) (j : Job)
    (error : String) (fatal : Bool) (d : Db)
    → All (λ r. holds j r ≡ false) (fail redact uniform set now j error fatal d).1.jobs
unfolding fail holds as_failed
fail-releases redact uniform set now j error fatal d =
    update-All (λ r. holds j r ≡ false) (holds j)
      (as_failed now (now + backoff uniform set j.attempts) (is_exhausted fatal j)
        (take_chars 500 (redact error)) j)
      d.jobs (λ r. ground arith)

-- The handler gives its object back as the same attempt of the same job by the same worker.
abbrev pub IsSameAttempt : Job → Job → Type 0
IsSameAttempt j k = (k.pk ≡ j.pk) × (k.worker ≡ j.worker) × (k.attempts ≡ j.attempts)

same-holds : (j k r : Job) → IsSameAttempt j k → holds k r ≡ false → holds j r ≡ false
unfolding holds
same-holds j k r s h = ground arith

module _ (redact : String → String) (uniform : ℕ → ℕ → ℕ) (set : Settings)
    (handlers : String → Option Handler) where
  settle-releases :
      (n now : ℕ) (e : Ended) (j : Job) (d : Db)
      → All (λ r. holds j r ≡ false) (settle redact uniform set handlers n now e j d).1.jobs
  unfolding settle
  settle-releases n now (returned result) j d = complete-releases now j result d
  settle-releases n now (permanent message) j d =
      fail-releases redact (uniform n) set now j message true d
  settle-releases n now (raised message safe) j d =
      fail-releases redact (uniform n) set now j (shown message safe) false d

  -- If every handler gives its object back as the same attempt, then after `run_job` no row is
  -- leased to that attempt, however the handler ended and also when there is none.
  pub run_job-releases :
      (n now : ℕ) (j : Job) (d : Db)
      → ((kind : String) (h : Handler) → handlers kind ≡ some h → IsSameAttempt j (h j d).1)
      → All (λ r. holds j r ≡ false) (run_job redact uniform set handlers n now j d).1.jobs
  unfolding run_job
  run_job-releases n now j d same = elim (Option-cases (handlers j.kind)) [
    | inl e ↦ rw (e, run_job) (fail-releases redact (uniform n) set now j _ true d)
    | inr (h, e) ↦
        rw (e, run_job)
          (All-map (λ r. holds (h j d).1 r ≡ false) (λ r. holds j r ≡ false)
            (λ r f. same-holds j (h j d).1 r (same j.kind h e) f) _
            (settle-releases n now (h j d).0 (h j d).1 (h j d).2))
  ]

count_expired-length :
    (now : ℕ) (js : List Job) → count_expired now js ≡ length (select (is_expired now) js)
count_expired-length now [] = refl
count_expired-length now (j ∷ js) = elim (Bool-cases (is_expired now j)) [
  | inl e ↦ rw e (omega (arith, count_expired-length now js))
  | inr e ↦ rw e (count_expired-length now js)
]

-- An expired lease matches its own row.
expired-found : (now : ℕ) (r : Job) → is_expired now r ≡ true → ¬ (still_expired now r r ≡ false)
unfolding still_expired
expired-found now r e f = ground (arith, str_eq_iff r.worker r.worker)

unexpired-unmatched :
    (now : ℕ) (j r : Job) → is_expired now r ≡ false → still_expired now j r ≡ false
unfolding still_expired
unexpired-unmatched now j r e = ground arith

recovered-unexpired :
    (set : Settings) (uniform : ℕ → ℕ) (now : ℕ) (j r : Job)
    → is_expired now (as_recovered set uniform now j r) ≡ false
unfolding as_recovered
recovered-unexpired set uniform now j r = ground arith

module _ (draws : ℕ → ℕ → ℕ) (set : Settings) (now : ℕ) where
  -- Once every expired row is among the objects that the loop is still to visit, none is left.
  recover_rows-clears :
      (js rows : List Job)
      → All (λ r. is_expired now r ≡ true → In r js) rows
      → All (λ r. is_expired now r ≡ false) (recover_rows draws set now js rows)
  unfolding recover_rows recover_one
  recover_rows-clears [] rows a =
      All-map (λ r. is_expired now r ≡ true → ⊥) (λ r. is_expired now r ≡ false)
        (λ r h. elim (Bool-cases (is_expired now r)) [ inl e ↦ absurd (h e) | inr e ↦ e ]) rows a
  recover_rows-clears (j ∷ js) rows a = recover_rows-clears js (recover_one draws set now j rows) (
      All-update (λ r. is_expired now r ≡ true → In r (j ∷ js))
        (λ r. is_expired now r ≡ true → In r js) (still_expired now j)
        (as_recovered set (draws j.pk) now j) visited rows a)
    where
      rest :
          (r : Job)
          → still_expired now j r ≡ false
          → In r (j ∷ js)
          → is_expired now r ≡ true
          → In r js
      rest r left (inr i) e = i
      rest r left (inl same) e =
          absurd
            (expired-found now r e (subst (λ x. still_expired now x r ≡ false) (sym same) left))

      visited :
          (r : Job)
          → (is_expired now r ≡ true → In r (j ∷ js))
          → is_expired now (touch (still_expired now j) (as_recovered set (draws j.pk) now j) r)
            ≡ true
          → In (touch (still_expired now j) (as_recovered set (draws j.pk) now j) r) js
      visited r h e = elim (Bool-cases (still_expired now j r)) [
        | inl taken ↦ cc (rw taken at e, recovered-unexpired set (draws j.pk) now j r)
        | inr left ↦ rw left (rest r left (h (rw left at e)) (rw left at e))
      ]

  recover_rows-keeps :
      (js rows : List Job) (r : Job)
      → is_expired now r ≡ false
      → In r rows
      → In r (recover_rows draws set now js rows)
  unfolding recover_rows recover_one
  recover_rows-keeps [] rows r e i = i
  recover_rows-keeps (j ∷ js) rows r e i =
      recover_rows-keeps js (recover_one draws set now j rows) r e (
        In-update_unmatched (still_expired now j) (as_recovered set (draws j.pk) now j) rows r
          (unexpired-unmatched now j r e) i)

  -- After `recover_expired` no lease is past its expiry, every row whose lease was not is as it
  -- was, and the result counts the others.
  pub recover_expired-clears :
      (d : Db)
      → All (λ r. is_expired now r ≡ false) (recover_expired draws set now d).1.jobs
        × ((r : Job)
            → is_expired now r ≡ false
            → In r d.jobs
            → In r (recover_expired draws set now d).1.jobs)
        × ((recover_expired draws set now d).0 ≡ length (select (is_expired now) d.jobs))
  unfolding recover_expired recover_seen
  recover_expired-clears d = (
    recover_rows-clears (select (is_expired now) d.jobs) d.jobs (
        All-of_In (λ r. is_expired now r ≡ true → In r (select (is_expired now) d.jobs)) d.jobs
          (λ r i e. In-select (is_expired now) d.jobs r i e)),
    λ r e i. recover_rows-keeps (select (is_expired now) d.jobs) d.jobs r e i,
    count_expired-length now d.jobs,
  )
