-- ===== src/Jobs/Safety.antt =====
-- What the queue promises at every moment, over every interleaving of requests and workers.
use cloud_billing_console.Prelude.{
  ℕ, ◌≤◌, ◌<◌, ◌≡◌, true, String, some, [], arith, In, inl, inr, is_some, sym,
}
use cloud_billing_console.Prelude.Rows.{All-In, Pairs-In}
use cloud_billing_console.Jobs.Types.{Job, Settings, is_queued, is_leased, is_active}
use cloud_billing_console.Jobs.Consistency.{RowFits, Compatible, IsConsistent}
use cloud_billing_console.Jobs.System.{System, Reach}
use cloud_billing_console.Jobs.Soundness.{IsSound, Reach-IsSound}

-- An empty table, and nobody holds an object.
pub record IsStart (s : System) : Type 0 where
  pub no_rows : s.db.jobs ≡ []
  pub no_objects : s.held ≡ []

pub start-IsSound : (s : System) → IsStart s → IsSound s
start-IsSound s h = record {
  table = record { rows = rw h.no_rows tt; pairs = rw h.no_rows tt };
  objects = rw h.no_objects tt;
}

module _ (name : ℕ → String) (redact : String → String) (set : Settings)
    (positive : 0 < set.max_attempts) {s t : System} (reach : Reach name redact set s t) where
  reached : IsStart s → IsConsistent t.db
  reached h = (Reach-IsSound name redact set positive (start-IsSound s h) reach).table

  -- From an empty table, and with a positive JOB_MAX_ATTEMPTS, no interleaving of the operations
  -- reaches a state in which two different rows of one source are leased.
  pub one_lease_per_source :
      (k : ℕ) (x y : Job)
      → IsStart s
      → In x t.db.jobs
      → In y t.db.jobs
      → is_leased x.status ≡ true
      → is_leased y.status ≡ true
      → x.source ≡ some k
      → y.source ≡ some k
      → x ≡ y
  one_lease_per_source k x y h i j a b e f =
      elim (Pairs-In Compatible t.db.jobs x y (reached h).pairs i j) [
        | inl same ↦ same
        | inr (inl c) ↦ absurd (ground (arith, c.leased_sources))
        | inr (inr c) ↦ absurd (ground (arith, c.leased_sources))
      ]

  -- From an empty table, and with a positive JOB_MAX_ATTEMPTS, no interleaving reaches a state in
  -- which two different rows with the same key are queued or leased.
  pub one_active_per_key :
      (x y : Job)
      → IsStart s
      → In x t.db.jobs
      → In y t.db.jobs
      → is_active x.status ≡ true
      → is_active y.status ≡ true
      → x.key ≡ y.key
      → x ≡ y
  one_active_per_key x y h i j a b e =
      elim (Pairs-In Compatible t.db.jobs x y (reached h).pairs i j) [
        | inl same ↦ same
        | inr (inl c) ↦ absurd (c.active_keys a b e)
        | inr (inr c) ↦ absurd (c.active_keys b a (sym e))
      ]

  -- Of every row reached from an empty table, with a positive JOB_MAX_ATTEMPTS: its attempts are
  -- within its limit, one is left if it is queued, one was made if it is leased, and it has a
  -- lease time exactly if it is leased.
  pub attempts_bounded :
      (x : Job)
      → IsStart s
      → In x t.db.jobs
      → (x.attempts ≤ x.max_attempts)
        × (is_queued x.status ≡ true → x.attempts < x.max_attempts)
        × (is_leased x.status ≡ true → 0 < x.attempts)
        × (is_some x.lease_expires ≡ is_leased x.status)
  attempts_bounded x h i =
      let f = All-In (RowFits t.db.next_pk) t.db.jobs (reached h).rows i in
      (f.bounded, f.attempts_left, f.attempt_made, f.lease_set)
