-- ===== src/Release/Recoverable.antt =====
-- When an instance can be brought back to the world `w0` before an activation, and that the steps of
-- an activation and of a rollback keep it so wherever they fail.
use cloud_billing_console.Prelude.{
  String, ◌≡◌, ◌∙◌, ◌⊎◌, Bool, true, false, Option, none, some, List, arith, str_eq, str_eq_iff,
  is_some, any, In,
}
use cloud_billing_console.Release.Files.{Files, content, content-store, content-remove}
use cloud_billing_console.Release.World.{
  Phase, Environment, Venv, State, Backup, World, Agent, Oracle, attempt, has_web, has_collector,
}
use cloud_billing_console.Release.Rollback.{with_file, without_file, copy_file}
use cloud_billing_console.Release.Activate.{link_target}
use cloud_billing_console.Release.Outcomes.{Post, attempt-Post}

abbrev pub listed_in : List (String × Bool) → String → Bool
listed_in items name = any (λ (i : String × Bool). str_eq i.0 name) items

abbrev pub saved_in : Option Backup → String → Option String
saved_in none name = none
saved_in (some b) name = content b.saved name

abbrev pub environment_in : Option Backup → Option Environment
environment_in none = none
environment_in (some b) = b.environment

abbrev pub venv_in : Option Backup → Option String
venv_in none = none
venv_in (some b) = b.venv_saved

abbrev pub is_directory : Venv → Bool
is_directory (Venv.directory d) = true
is_directory _ = false

abbrev pub IsSafeVenv : Venv → Venv → Option String → Type 0
IsSafeVenv Venv.absent v d = ⊥
IsSafeVenv (Venv.link t) v d = (is_directory v ≡ false) × (d ≡ none)
IsSafeVenv (Venv.directory x) v d =
    ((v ≡ Venv.directory x) × (d ≡ none)) ⊎ ((is_directory v ≡ false) × (d ≡ some x))

-- The same files, environment, virtualenv and pointer.
abbrev pub IsRestored : World → World → Type 0
IsRestored w0 w =
    (((name : String) → content w.root name ≡ content w0.root name) × (w.env ≡ w0.env))
    × ((w.venv ≡ w0.venv) × (w.current ≡ w0.current))

module _ (a : Agent) (w0 : World) (s : State) where
  -- What the journal of the release says of `w0`.
  abbrev pub IsPrepared : Type 0
  IsPrepared =
      ((name : String) → (e : Bool) → In (name, e) s.files → e ≡ is_some (content w0.root name))
      × ((s.previous_current ≡ w0.current)
          × (has_collector a ≡ true → s.previous_venv_link ≡ link_target w0.venv))

  -- Files of other names are as they were, and the backup has the others.
  abbrev pub IsSafeRoot : Files → Option Backup → Type 0
  IsSafeRoot root b =
      ((name : String) → listed_in s.files name ≡ false → content root name ≡ content w0.root name)
      × ((name c : String)
          → listed_in s.files name ≡ true
          → content w0.root name ≡ some c
          → saved_in b name ≡ some c)

  abbrev pub IsSafeEnvironment : Environment → Option Backup → Type 0
  IsSafeEnvironment env b =
      (has_web a ≡ true → environment_in b ≡ some w0.env) × (has_web a ≡ false → env ≡ w0.env)

  abbrev pub IsSafe : World → Type 0
  IsSafe w =
      (IsSafeRoot w.root w.backup × IsSafeEnvironment w.env w.backup)
      × (((has_collector a ≡ true → IsSafeVenv w0.venv w.venv (venv_in w.backup))
            × (has_collector a ≡ false → w.venv ≡ w0.venv))
          × (is_some w.backup ≡ true))

  pub with_file-IsSafe :
      (name c : String) (w : World)
      → listed_in s.files name ≡ true
      → IsSafe w
      → IsSafe (with_file name c w)
  with_file-IsSafe name c w l (((others, saved), env), venv) = (
    (
      (
        (λ n h. content-store w.root name c n ∙ ground (arith, others n h, str_eq_iff name n)),
        saved,
      ),
      env,
    ),
    venv,
  )

  pub without_file-IsSafe :
      (name : String) (w : World)
      → listed_in s.files name ≡ true
      → IsSafe w
      → IsSafe (without_file name w)
  without_file-IsSafe name w l (((others, saved), env), venv) = (
    (
      (
        (λ n h. content-remove w.root name n ∙ ground (arith, others n h, str_eq_iff name n)),
        saved,
      ),
      env,
    ),
    venv,
  )

  -- The release is at a phase in which a rollback changes the instance.
  abbrev pub IsLive : Option State → Type 0
  IsLive j =
      (p : Phase) × ((j ≡ some (record s { phase = p }))
        × ((p ≡ Phase.activating) ⊎ (p ≡ Phase.active)))

  -- A safe world at such a phase.
  abbrev pub IsLiveSafe : World → Type 0
  IsLiveSafe w = IsSafe w × IsLive w.journal

  -- A world that a rollback can bring back, or has brought back.
  abbrev pub IsRecoverable : World → Type 0
  IsRecoverable w =
      IsLiveSafe w ⊎ ((w.journal ≡ some (record s { phase = Phase.rolled_back })) × IsRestored w0 w)

  pub copy-Post :
      (o : Oracle) (name c : String) (w : World)
      → listed_in s.files name ≡ true
      → IsLiveSafe w
      → Post IsLiveSafe IsLiveSafe (copy_file o (some c) name w)
  unfolding copy_file
  copy-Post o name c w l (safe, j) =
      attempt-Post IsLiveSafe IsLiveSafe o (with_file name c) (with_file name (o.torn w.ticks)) w
        (with_file-IsSafe name c w l safe, j) (safe, j)
        (with_file-IsSafe name (o.torn w.ticks) w l safe, j)

  pub remove-Post :
      (o : Oracle) (name : String) (w : World)
      → listed_in s.files name ≡ true
      → IsLiveSafe w
      → Post IsLiveSafe IsLiveSafe (attempt o (without_file name) (without_file name) w)
  remove-Post o name w l (safe, j) =
      attempt-Post IsLiveSafe IsLiveSafe o (without_file name) (without_file name) w
        (without_file-IsSafe name w l safe, j) (safe, j) (without_file-IsSafe name w l safe, j)
