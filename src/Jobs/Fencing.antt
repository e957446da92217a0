-- ===== src/Jobs/Fencing.antt =====
-- A worker whose lease was taken over cannot write to the job any more, however late it reports
-- and whatever the queue did since.
use cloud_billing_console.Prelude.{
  ℕ, ◌+◌, ◌<◌, ◌≡◌, refl, ap, Bool, false, String, Option, some, List, arith, All, In, inl, inr,
  ◌==◌, Option-cases, Bool-cases,
}
use cloud_billing_console.Prelude.Rows.{
  touch, All-map, All-In, All-and, All-update, update-unmatched, any-unmatched,
}
use cloud_billing_console.Json.{Fields}
use cloud_billing_console.Jobs.Types.{Job, Db, Settings}
use cloud_billing_console.Jobs.Lease.{Locks, as_leased, save_lease, pick, lease_after}
use cloud_billing_console.Jobs.Outcome.{holds, is_current, saved, heartbeat, complete, fail}
use cloud_billing_console.Jobs.Consistency.{only_row}
use cloud_billing_console.Jobs.Selection.{pick-IsEligible}
use cloud_billing_console.Jobs.System.{System, claim, Reach, hold}
use cloud_billing_console.Jobs.History.{◌⊑◌, All-Extends}
use cloud_billing_console.Jobs.Safety.{IsStart, start-IsSound}
use cloud_billing_console.Jobs.Soundness.{
  IsKnown, IsSound, Step-IsSound, Reach-IsSound, Reach-⊑, Known,
}

-- The row of the object has seen a later attempt.
abbrev Past : Job → Job → Type 0
Past j r = r.pk ≡ j.pk → j.attempts < r.attempts

record IsOvertaken (j : Job) (d : Db) : Type 0 where
  issued : j.pk < d.next_pk
  later : All (Past j) d.jobs

IsOvertaken-⊑ : {d e : Db} (j : Job) → d ⊑ e → IsOvertaken j d → IsOvertaken j e
IsOvertaken-⊑ {d} {e} j v o = record {
  issued = omega (arith, v.keys, o.issued);
  later =
      All-Extends (Past j) d.next_pk d.jobs e.jobs
        (λ x y f h p. ground (arith, h (ground (arith, f.pk)), f.attempts))
        (λ y p q. absurd (omega (arith, o.issued))) v.rows o.later;
}

unheld : (j : Job) (d : Db) → IsOvertaken j d → All (λ r. holds j r ≡ false) d.jobs
unfolding holds
unheld j d o = All-map (Past j) (λ r. holds j r ≡ false) (λ r h. ground (arith, h)) d.jobs o.later

-- What the three reports do to a table from which the object is gone.
abbrev pub IsIgnored :
    (String → String) → (ℕ → ℕ) → Settings → ℕ → Job → Option Fields → String → Bool → Db → Type 0
IsIgnored redact uniform set now j progress error permanent d =
    (complete now j progress d ≡ d)
    × ((fail redact uniform set now j error permanent d).1.jobs ≡ d.jobs)
    × ((heartbeat set now (saved j) progress d).0 ≡ false)
    × ((heartbeat set now (saved j) progress d).2 ≡ d)

overtaken-IsIgnored :
    (redact : String → String) (uniform : ℕ → ℕ) (set : Settings) (now : ℕ) (j : Job)
    (progress : Option Fields) (error : String) (permanent : Bool) (d : Db)
    → IsOvertaken j d
    → IsIgnored redact uniform set now j progress error permanent d
unfolding complete fail heartbeat
overtaken-IsIgnored redact uniform set now j progress error permanent d o =
    let idle = unheld j d o in
    let stale =
      All-map (λ r. holds j r ≡ false) (λ r. is_current now j r ≡ false)
        (λ r h. unfold is_current in rw h refl) d.jobs idle in
    (
      ap (λ (rows : List Job). record d { jobs = rows }) (update-unmatched _ _ d.jobs idle),
      update-unmatched _ _ d.jobs idle,
      any-unmatched (is_current now j) d.jobs stale,
      ap (λ (rows : List Job). record d { jobs = rows }) (update-unmatched _ _ d.jobs stale),
    )

module _ (name : ℕ → String) (redact : String → String) (set : Settings)
    (positive : 0 < set.max_attempts) where
  -- A new claim of the job overtakes every object that was held of it.
  claim-IsOvertaken :
      (worker : String) (now : ℕ) (kinds : List String) (busy : List ℕ) (locks : Locks) (s : System)
      (j k : Job)
      → IsSound s
      → In j s.held
      → (lease_after set worker now kinds busy locks s.db).0 ≡ some k
      → k.pk ≡ j.pk
      → IsOvertaken j (lease_after set worker now kinds busy locks s.db).1
  unfolding lease_after
  claim-IsOvertaken worker now kinds busy locks s j k h i e same =
      elim (Option-cases (pick now kinds busy locks s.db)) [
        | inl nothing ↦ absurd (ground arith)
        | inr (x, found) ↦ rw (found, lease_after) (overtaken x found (ground arith))
      ]
    where
      known : IsKnown s.db j
      known = All-In (IsKnown s.db) s.held h.objects i

      claimed :
          (x : Job) (same : x.pk ≡ j.pk) (r : Job)
          → Known j r × (r.pk ≡ x.pk → r ≡ x)
          → Past j (touch (λ y. y.pk == x.pk) (as_leased set worker now (x.attempts + 1)) r)
      claimed x same r (least, one) p = elim (Bool-cases (r.pk == x.pk)) [
        | inl hit ↦
            ground (arith, least (ground arith), ap (λ (y : Job). y.attempts) (one (ground arith)))
        | inr miss ↦ absurd (ground arith)
      ]

      overtaken :
          (x : Job)
          → pick now kinds busy locks s.db ≡ some x
          → x.pk ≡ j.pk
          → IsOvertaken j (save_lease set worker now x s.db)
      overtaken x found same =
          unfold save_lease in
          record {
            issued = known.issued;
            later =
                All-update (λ r. Known j r × (r.pk ≡ x.pk → r ≡ x)) (Past j) (λ r. r.pk == x.pk)
                  (as_leased set worker now (x.attempts + 1)) (claimed x same) s.db.jobs
                  (All-and (Known j) (λ r. r.pk ≡ x.pk → r ≡ x) s.db.jobs known.rows
                    (only_row s.db.jobs x h.table.pairs
                      (pick-IsEligible now kinds busy locks s.db x found).present));
          }

  -- Let a process hold an object of a job in a state reached from an empty table, and let a claim
  -- then lease that job. In every state reached after that claim, complete and heartbeat with the
  -- old object leave the tables as they are, heartbeat answers false, and fail leaves the job
  -- rows as they are.
  pub late_report-IsIgnored :
      (worker : String) (now : ℕ) (kinds : List String) (busy : List ℕ) (locks : Locks)
      (start s t : System) (j k : Job) (uniform : ℕ → ℕ) (later : ℕ) (progress : Option Fields)
      (error : String) (permanent : Bool)
      → IsStart start
      → Reach name redact set start s
      → In j s.held
      → (lease_after set worker now kinds busy locks s.db).0 ≡ some k
      → k.pk ≡ j.pk
      → Reach name redact set
          (record {
            db = (lease_after set worker now kinds busy locks s.db).1;
            held = hold (lease_after set worker now kinds busy locks s.db).0 s.held;
          })
          t
      → IsIgnored redact uniform set later j progress error permanent t.db
  late_report-IsIgnored worker now kinds busy locks start s t j k uniform later progress error
        permanent b before i e same after =
      let sound = Reach-IsSound name redact set positive (start-IsSound start b) before in
      overtaken-IsIgnored redact uniform set later j progress error permanent t.db (
        IsOvertaken-⊑ j
          (Reach-⊑ name redact set positive
            (Step-IsSound name redact set positive sound (claim worker now kinds busy locks)) after)
          (claim-IsOvertaken worker now kinds busy locks s j k sound i e same))
