-- ===== src/Release/Tests.antt =====
-- A release that replaces one file and drops another, on an instance with web and collector.
use cloud_billing_console.Prelude.{
  ℕ, String, ◌≡◌, refl, Bool, true, false, ◌||◌, Option, none, some, List, [], ◌∷◌, ◌==◌, str_eq,
  if◌then◌else◌,
}
use cloud_billing_console.Release.Files.{content, store, remove}
use cloud_billing_console.Release.World.{
  Phase, Runtime, Venv, State, World, Agent, Oracle, Outcome, ok, raised,
}
use cloud_billing_console.Release.Rollback.{rollback}
use cloud_billing_console.Release.Activate.{activate, listed, back_up}
use cloud_billing_console.Release.Recoverable.{IsRestored}
use cloud_billing_console.Release.Activation.{rollbacks, world_of, rollback-activate}

abbrev parts : String → List String
parts name =
    if str_eq name "billing/a.py"
    then "billing" ∷ "a.py" ∷ []
    else if str_eq name "billing/b.py"
    then "billing" ∷ "b.py" ∷ []
    else name ∷ []

abbrev suffix : String → String
suffix name = ".py"

abbrev no_migration : State → World → Outcome
no_migration s w = raised w

abbrev release : Agent
release = record {
  runtime = Runtime.combined;
  release_id = "r2";
  version = "v";
  digest = "d";
  source = ("billing/b.py", "new") ∷ ("manage.py", "new") ∷ [];
  stage_venv = "r2/venv";
}

abbrev staged_state : State
staged_state = record {
  phase = Phase.staged;
  runtime = some Runtime.combined;
  manifest_version = "v";
  manifest_sha256 = "d";
  image_id = "i2";
  additive_migration = false;
  additive_receipt = false;
  files = [];
  previous_current = none;
  previous_venv_link = none;
}

abbrev before : World
before = record {
  root = ("billing/a.py", "old") ∷ ("manage.py", "old") ∷ ("README", "text") ∷ [];
  env = record { name = "BILLING_APP_IMAGE"; value = "i1" } ∷ [];
  venv = Venv.directory "packages";
  backup = none;
  journal = some staged_state;
  current = some (record { release_id = "r1"; phase = Phase.active });
  maintenance = none;
  env_release = none;
  ticks = 0;
}

abbrev never : ℕ → Bool
never n = false

abbrev steady : Oracle
steady = record { fails = never; late = never; torn = λ n. ""; caught = λ n. true }

-- The copy of `manage.py` is cut off, and so is the rollback after it.
abbrev shaky : Oracle
shaky = record {
  fails = λ n. (n == 11) || (n == 16);
  late = λ n. true;
  torn = λ n. "torn";
  caught = λ n. true;
}

abbrev ended : Outcome → Option Phase
ended (ok w) = elim w.journal [ none ↦ none | some s ↦ some s.phase ]
ended (raised w) = none

activated : ended (activate parts suffix no_migration release steady before) ≡ some Phase.active
unfolding activate content remove listed back_up store
activated = refl

torn_file :
    content (world_of (activate parts suffix no_migration release shaky before)).root "manage.py"
    ≡ some "torn"
unfolding activate content remove listed back_up store
torn_file = refl

abbrev left_over : World
left_over = world_of (activate parts suffix no_migration release shaky before)

abbrev rolled : Outcome
rolled = rollback release steady (rollbacks release (shaky ∷ []) left_over)

recovered : ended rolled ≡ some Phase.rolled_back
unfolding activate content remove listed back_up store rollback
recovered = refl

rollback-activate_example : IsRestored before (world_of rolled)
unfolding activate content remove listed back_up store rollback
rollback-activate_example =
    rollback-activate parts suffix no_migration release shaky before staged_state refl refl refl
      left_over refl (shaky ∷ []) steady (world_of rolled) refl
