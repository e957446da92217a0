-- ===== src/Jobs/System.antt =====
-- The queue as a whole: web requests and any number of workers act on the one table, in any
-- order, each with the objects that it read or leased at some earlier time.
use cloud_billing_console.Prelude.{ℕ, Bool, String, Option, none, some, List, ◌∷◌, ◌++◌, All, In}
use cloud_billing_console.Json.{Fields}
use cloud_billing_console.Jobs.Types.{Job, Db, Access, Settings}
use cloud_billing_console.Jobs.Enqueue.{Request, Reads, enqueue}
use cloud_billing_console.Jobs.Lease.{Locks, lease_after}
use cloud_billing_console.Jobs.Outcome.{
  saved, heartbeat, with_progress, complete, fail, recover_seen,
}

-- `held` has the objects that some process holds.
pub record System : Type 0 where
  pub db : Db
  pub held : List Job

abbrev pub hold : Option Job → List Job → List Job
hold none js = js
hold (some j) js = j ∷ js

-- One transaction, or one change of an object in memory.
pub data Step (name : ℕ → String) (redact : String → String) (set : Settings)
    : System → System → Type 0 where
  request :
      {s : System} (access : Option Access) (r : Request) (now : ℕ) (reads : Reads)
      → Step name redact set s (record s { db = (enqueue name set access r now reads s.db).1 })
  claim :
      {s : System} (worker : String) (now : ℕ) (kinds : List String) (busy : List ℕ) (locks : Locks)
      → Step name redact set s (record {
        db = (lease_after set worker now kinds busy locks s.db).1;
        held = hold (lease_after set worker now kinds busy locks s.db).0 s.held;
      })
  look : {s : System} → Step name redact set s (record s { held = s.db.jobs ++ s.held })
  note :
      {s : System} (j : Job) (progress : Fields)
      → In j s.held
      → Step name redact set s (record s { held = with_progress (some progress) j ∷ s.held })
  beat :
      {s : System} (now : ℕ) (j : Job) (progress : Option Fields)
      → In j s.held
      → Step name redact set s (record s { db = (heartbeat set now (saved j) progress s.db).2 })
  finish :
      {s : System} (now : ℕ) (j : Job) (progress : Option Fields)
      → In j s.held
      → Step name redact set s (record s { db = complete now j progress s.db })
  give_up :
      {s : System} (uniform : ℕ → ℕ) (now : ℕ) (j : Job) (error : String) (permanent : Bool)
      → In j s.held
      → Step name redact set s
          (record s { db = (fail redact uniform set now j error permanent s.db).1 })
  recover :
      {s : System} (draws : ℕ → ℕ → ℕ) (now : ℕ) (seen : List Job)
      → All (λ j. In j s.held) seen
      → Step name redact set s (record s { db = recover_seen draws set now seen s.db })

pub data Reach (name : ℕ → String) (redact : String → String) (set : Settings) (s : System)
    : System → Type 0 where
  here : Reach name redact set s s
  next :
      {t u : System}
      → Reach name redact set s t
      → Step name redact set t u
      → Reach name redact set s u
