-- ===== src/Jobs/OutcomeKeeps.antt =====
-- The reports of workers and the recovery of expired leases keep the table consistent.
use mathlib.Core.Path.{sym}
use cloud_billing_console.Prelude.{
  ℕ, ◌+◌, ◌≡◌, refl, Bool, String, Option, List, [], ◌∷◌, arith, All, select, or_else,
}
use cloud_billing_console.Prelude.Rows.{touch, Pairs, All-update, All-map, All-and}
use cloud_billing_console.Prelude.Search.{select-All}
use cloud_billing_console.Json.{Fields}
use cloud_billing_console.Jobs.Types.{Job, Db, Settings}
use cloud_billing_console.Jobs.Consistency.{
  RowFits, Compatible, update-rows, IsConsistent, Weaker, update-Pairs, update-IsConsistent,
}
use cloud_billing_console.Jobs.Outcome.{
  holds, is_current, JobRef, unsaved, saved, extend_lease, heartbeat, as_done, complete, take_chars,
  is_exhausted, as_failed, backoff, fail, is_expired, still_expired, as_recovered, recover_one,
  recover_rows, recover_seen, recover_expired,
}

-- The object has the attempt limit of its row, a column that nothing ever writes.
abbrev pub Agrees : Job → Job → Type 0
Agrees j r = r.pk ≡ j.pk → r.max_attempts ≡ j.max_attempts

pub heartbeat-IsConsistent :
    (set : Settings) (now : ℕ) (j : JobRef) (progress : Option Fields) (d : Db)
    → IsConsistent d
    → IsConsistent (heartbeat set now j progress d).2
unfolding heartbeat
heartbeat-IsConsistent set now (unsaved p) progress d c = c
heartbeat-IsConsistent set now (saved j) progress d c =
    update-IsConsistent (is_current now j) (extend_lease set now progress) d (λ r f. ground arith)
      (λ r. ground arith) c

pub complete-IsConsistent :
    (now : ℕ) (j : Job) (progress : Option Fields) (d : Db)
    → IsConsistent d
    → IsConsistent (complete now j progress d)
unfolding complete
complete-IsConsistent now j progress d c =
    update-IsConsistent (holds j) (as_done now (or_else progress j.progress) j) d
      (λ r f. ground arith) (λ r. ground arith) c

-- A failed or recovered attempt goes back to the queue only with attempts left.
as_failed-RowFits :
    (n now retry : ℕ) (permanent : Bool) (message : String) (j r : Job)
    → Agrees j r
    → RowFits n r
    → RowFits n (touch (holds j) (as_failed now retry (is_exhausted permanent j) message j) r)
unfolding holds as_failed is_exhausted
as_failed-RowFits n now retry permanent message j r a f = ground arith

as_failed-Weaker :
    (now retry : ℕ) (exhausted : Bool) (message : String) (j r : Job)
    → Weaker (touch (holds j) (as_failed now retry exhausted message j) r) r
unfolding holds as_failed
as_failed-Weaker now retry exhausted message j r = ground arith

pub fail-IsConsistent :
    (redact : String → String) (uniform : ℕ → ℕ) (set : Settings) (now : ℕ) (j : Job)
    (error : String) (permanent : Bool) (d : Db)
    → All (Agrees j) d.jobs
    → IsConsistent d
    → IsConsistent (fail redact uniform set now j error permanent d).1
unfolding fail
fail-IsConsistent redact uniform set now j error permanent d a c =
    let message : String = take_chars 500 (redact error) in
    let retry : ℕ = now + backoff uniform set j.attempts in
    let exhausted : Bool = is_exhausted permanent j in
    record {
      rows =
          update-rows (Agrees j) d.next_pk (holds j) (as_failed now retry exhausted message j)
            d.jobs (as_failed-RowFits d.next_pk now retry permanent message j) a c.rows;
      pairs =
          update-Pairs (holds j) (as_failed now retry exhausted message j) d.jobs
            (as_failed-Weaker now retry exhausted message j) c.pairs;
    }

as_recovered-RowFits :
    (set : Settings) (uniform : ℕ → ℕ) (n now : ℕ) (j r : Job)
    → Agrees j r
    → RowFits n r
    → RowFits n (touch (still_expired now j) (as_recovered set uniform now j) r)
unfolding still_expired as_recovered
as_recovered-RowFits set uniform n now j r a f = ground arith

as_recovered-Weaker :
    (set : Settings) (uniform : ℕ → ℕ) (now : ℕ) (j r : Job)
    → Weaker (touch (still_expired now j) (as_recovered set uniform now j) r) r
unfolding still_expired as_recovered
as_recovered-Weaker set uniform now j r = ground arith

-- No update of the loop changes a key or an attempt limit.
as_recovered-Agrees :
    (set : Settings) (uniform : ℕ → ℕ) (now : ℕ) (j k r : Job)
    → Agrees k r
    → Agrees k (touch (still_expired now j) (as_recovered set uniform now j) r)
unfolding still_expired as_recovered
as_recovered-Agrees set uniform now j k r a = ground arith

module _ (draws : ℕ → ℕ → ℕ) (set : Settings) (now n : ℕ) where
  -- Each object agrees with the rows.
  abbrev pub AllAgree : List Job → List Job → Type 0
  AllAgree js rows = All (λ j. All (Agrees j) rows) js

  recover_one-AllAgree :
      (j : Job) (js rows : List Job)
      → AllAgree js rows
      → AllAgree js (recover_one draws set now j rows)
  unfolding recover_one
  recover_one-AllAgree j [] rows a = tt
  recover_one-AllAgree j (k ∷ js) rows (b, a) = (
    All-update (Agrees k) (Agrees k) (still_expired now j) (as_recovered set (draws j.pk) now j)
        (as_recovered-Agrees set (draws j.pk) now j k) rows b,
    recover_one-AllAgree j js rows a,
  )

  recover_rows-RowFits :
      (js rows : List Job)
      → AllAgree js rows
      → All (RowFits n) rows
      → All (RowFits n) (recover_rows draws set now js rows)
  unfolding recover_rows
  recover_rows-RowFits [] rows a f = f
  recover_rows-RowFits (j ∷ js) rows (b, a) f =
      recover_rows-RowFits js (recover_one draws set now j rows) (recover_one-AllAgree j js rows a)
        (unfold recover_one in
          update-rows (Agrees j) n (still_expired now j) (as_recovered set (draws j.pk) now j) rows
            (as_recovered-RowFits set (draws j.pk) n now j) b f)

  recover_rows-Pairs :
      (js rows : List Job)
      → Pairs Compatible rows
      → Pairs Compatible (recover_rows draws set now js rows)
  unfolding recover_rows
  recover_rows-Pairs [] rows p = p
  recover_rows-Pairs (j ∷ js) rows p = recover_rows-Pairs js (recover_one draws set now j rows) (
      unfold recover_one in
      update-Pairs (still_expired now j) (as_recovered set (draws j.pk) now j) rows
        (as_recovered-Weaker set (draws j.pk) now j) p)

-- Also when the loop's query saw an older state of the table.
pub recover_seen-IsConsistent :
    (draws : ℕ → ℕ → ℕ) (set : Settings) (now : ℕ) (seen : List Job) (d : Db)
    → All (λ j. All (Agrees j) d.jobs) (select (is_expired now) seen)
    → IsConsistent d
    → IsConsistent (recover_seen draws set now seen d)
unfolding recover_seen
recover_seen-IsConsistent draws set now seen d a c = record {
  rows =
      recover_rows-RowFits draws set now d.next_pk (select (is_expired now) seen) d.jobs a c.rows;
  pairs = recover_rows-Pairs draws set now d.next_pk (select (is_expired now) seen) d.jobs c.pairs;
}

agree-All : (xs : List Job) → Pairs Compatible xs → All (λ j. All (Agrees j) xs) xs
agree-All [] p = tt
agree-All (x ∷ xs) (r, p) = (
  (λ e. refl, All-map (Compatible x) (Agrees x) (λ y c e. absurd (c.keys (sym e))) xs r),
  All-map (λ j. Compatible x j × All (Agrees j) xs) (λ j. All (Agrees j) (x ∷ xs))
      (λ j (c, a). (λ e. absurd (c.keys e), a)) xs
      (All-and (Compatible x) (λ j. All (Agrees j) xs) xs r (agree-All xs p)),
)

pub recover_expired-IsConsistent :
    (draws : ℕ → ℕ → ℕ) (set : Settings) (now : ℕ) (d : Db)
    → IsConsistent d
    → IsConsistent (recover_expired draws set now d).1
unfolding recover_expired
recover_expired-IsConsistent draws set now d c =
    recover_seen-IsConsistent draws set now d.jobs d
      (select-All (λ j. All (Agrees j) d.jobs) (is_expired now) d.jobs (agree-All d.jobs c.pairs)) c
