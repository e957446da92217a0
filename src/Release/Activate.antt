-- ===== src/Release/Activate.antt =====
-- `activate` of deploy/github-release/agent.py.
use cloud_billing_console.Prelude.{
  ℕ, zero, suc, String, Bool, true, false, not, ◌&&◌, ◌||◌, Option, none, some, List, [], ◌∷◌, ◌++◌,
  ◌==◌, ◌-◌, str_eq, if◌then◌else◌, is_some, length, select,
}
use cloud_billing_console.Prelude.Texts.{has, sorted_set}
use cloud_billing_console.Release.Files.{Files, content, store, names}
use cloud_billing_console.Release.World.{
  Phase, Environment, Venv, State, Backup, World, Agent, Oracle, Outcome, ok, raised, ◌>>=◌,
  attempt, run, require, has_web, has_collector, state, save, point_at,
}
use cloud_billing_console.Release.Rollback.{
  maintained, run_times, when, health, values_of, without_file, copy_file, set_venv, is_mine,
  rollback, torn_environment,
}

abbrev pub runtime_folders : List String
runtime_folders = "billing" ∷ "config" ∷ "templates" ∷ "static" ∷ []

-- `parts` and `suffix` are those of a pathlib path.
module _ (parts : String → List String) (suffix : String → String) where
  -- name.startswith(RUNTIME)
  abbrev pub in_runtime : List String → Bool
  in_runtime [] = false
  in_runtime (p ∷ []) = false
  in_runtime (p ∷ (q ∷ qs)) = has runtime_folders p

  unfoldable pub is_release_file : String → Bool
  is_release_file name =
      in_runtime (parts name) || str_eq name "manage.py" || str_eq name "requirements.txt"

  unfoldable pub is_previous_file : String → Bool
  is_previous_file name =
      in_runtime (parts name)
      && not (has (parts name) "__pycache__")
      && not (str_eq (suffix name) ".pyc")

  unfoldable pub release_files : Agent → List String
  unfolding is_release_file sorted_set
  release_files a = sorted_set (select is_release_file (names a.source))

  unfoldable pub previous_files : World → List String
  unfolding is_previous_file
  previous_files w = select is_previous_file (names w.root)

-- state['files'] for sorted(set(files) | previous_files)
unfoldable pub listed : Files → List String → List (String × Bool)
unfolding content
listed root [] = []
listed root (n ∷ ns) = (n, is_some (content root n)) ∷ listed root ns

-- A change of the backup, where its directory has been made.
abbrev pub map_backup : (Backup → Backup) → Option Backup → Option Backup
map_backup f none = none
map_backup f (some b) = some (f b)

abbrev pub in_backup : (Backup → Backup) → World → World
in_backup f w = record w { backup = map_backup f w.backup }

abbrev pub with_copy : String → String → Backup → Backup
with_copy name c b = record b { saved = store b.saved name c }

unfoldable pub back_up_content : Oracle → String → Option String → World → Outcome
unfolding attempt
back_up_content o n none w = ok w
back_up_content o n (some c) w =
    attempt o (in_backup (with_copy n c)) (in_backup (with_copy n (o.torn w.ticks))) w

unfoldable pub back_up : Oracle → List String → World → Outcome
unfolding back_up_content content
back_up o [] w = ok w
back_up o (n ∷ ns) w = back_up_content o n (content w.root n) w >>= back_up o ns

abbrev pub link_target : Venv → Option String
link_target (Venv.link t) = some t
link_target _ = none

abbrev pub is_absent : Venv → Bool
is_absent Venv.absent = true
is_absent _ = false

abbrev pub empty_backup : Backup
empty_backup = record { saved = []; environment = none; venv_saved = none }

abbrev pub with_environment : Environment → Backup → Backup
with_environment e b = record b { environment = some e }

abbrev pub prepared_state : Agent → World → State → List String → State
prepared_state a w s all_names = record s {
  files = listed w.root all_names;
  previous_current = w.current;
  previous_venv_link = if has_collector a then link_target w.venv else none;
}

unfoldable pub back_up_web : Oracle → State → World → Outcome
unfolding attempt
back_up_web o s w =
    attempt o (in_backup (with_environment w.env))
      (in_backup (with_environment (torn_environment o w))) w
    >>= when (not s.additive_receipt) (run o)

-- What goes before the first change of the instance: the backup, in a directory that must not exist.
unfoldable pub prepare : Agent → Oracle → State → List String → World → Outcome
unfolding attempt back_up back_up_web
prepare a o s all_names w =
    require (not (is_some w.backup)) w
    >>= attempt o (λ v. record v { backup = some empty_backup })
        (λ v. record v { backup = some empty_backup })
    >>= back_up o all_names
    >>= when (has_web a) (back_up_web o s)
    >>= when (has_collector a) (λ v. require (not (is_absent v.venv)) v)

unfoldable pub remove_files : Oracle → List String → World → Outcome
unfolding attempt
remove_files o [] w = ok w
remove_files o (n ∷ ns) w = attempt o (without_file n) (without_file n) w >>= remove_files o ns

unfoldable pub copy_files : Agent → Oracle → List String → World → Outcome
unfolding copy_file content
copy_files a o [] w = ok w
copy_files a o (n ∷ ns) w = copy_file o (content a.source n) n w >>= copy_files a o ns

abbrev pub image_setting : String
image_setting = "BILLING_APP_IMAGE"

-- re.sub on the lines of the setting.
abbrev pub with_image : String → Environment → Environment
with_image image [] = []
with_image image (s ∷ ss) =
    (if str_eq s.name image_setting then record s { value = image } else s) ∷ with_image image ss

-- temporary.replace(env)
abbrev pub renamed : Environment → World → World
renamed text w = record w { env = text; env_release = none }

-- The text goes to a temporary file, which gets its mode and then takes the place of .env.
unfoldable pub change_image : Oracle → String → World → Outcome
unfolding attempt
change_image o image w =
    require (length (values_of image_setting w.env) == 1) w
    >>= attempt o (λ v. record v { env_release = some (with_image image w.env) })
        (λ v. record v { env_release = some (torn_environment o v) })
    >>= run o
    >>= attempt o (renamed (with_image image w.env)) (renamed (with_image image w.env))
    >>= run o

abbrev pub save_venv : String → Option Backup → Option Backup
save_venv d none = none
save_venv d (some b) = some (record b { venv_saved = some d })

abbrev pub venv_moved : String → World → World
venv_moved d w = record w { venv = Venv.absent; backup = save_venv d w.backup }

-- The old virtualenv makes room for the link to the new one.
unfoldable pub move_venv : Oracle → Venv → World → Outcome
unfolding attempt
move_venv o Venv.absent w = raised w
move_venv o (Venv.link t) w = set_venv o Venv.absent w
move_venv o (Venv.directory d) w = attempt o (venv_moved d) (venv_moved d) w

unfoldable pub change_venv : Agent → Oracle → World → Outcome
unfolding move_venv attempt
change_venv a o w = move_venv o w.venv w >>= set_venv o (Venv.link a.stage_venv) >>= run_times o 2

-- except (ValueError, subprocess.CalledProcessError), where the last action is the one that failed.
abbrev pub or_again : Oracle → Outcome → (World → Outcome) → Outcome
or_again o (ok w) f = ok w
or_again o (raised w) f = if o.caught (w.ticks - 1) then f w else raised w

-- The attempts to find the instance healthy, 20 at most; `n` are left after this one. Another error
-- than those two ends them at once.
unfoldable pub retry_health : Agent → Oracle → ℕ → World → Outcome
unfolding health
retry_health a o zero w = health a o w
retry_health a o (suc n) w = or_again o (health a o w) (retry_health a o n)

-- The body of the `try`.
unfoldable pub install : Agent → Oracle → State → List String → List String → World → Outcome
unfolding remove_files copy_files change_image change_venv retry_health attempt
install a o s dropped files w =
    when (has_collector a) (run_times o 2) w
    >>= remove_files o dropped
    >>= copy_files a o files
    >>= when (has_web a) (change_image o s.image_id)
    >>= when (has_collector a) (change_venv a o)
    >>= retry_health a o 19
    >>= save o s Phase.active
    >>= point_at o (some (record { release_id = a.release_id; phase = Phase.active }))

-- The `except`: roll back, and raise in any case.
abbrev pub failed : Outcome → Outcome
failed (ok w) = raised w
failed (raised w) = raised w

unfoldable pub or_rollback : Agent → Oracle → Outcome → Outcome
unfolding rollback
or_rollback a o (ok w) = ok w
or_rollback a o (raised w) = failed (rollback a o w)

abbrev pub minus : List String → List String → List String
minus xs ys = select (λ x. not (has ys x)) xs

module _ (parts : String → List String) (suffix : String → String) where
  unfoldable pub activate_staged : Agent → Oracle → State → World → Outcome
  unfolding release_files previous_files sorted_set prepare install or_rollback attempt
  activate_staged a o s w =
      let files : List String = release_files parts suffix a in
      let previous : List String = previous_files parts suffix w in
      let all_names : List String = sorted_set (files ++ previous) in
      let prepared : State = prepared_state a w s all_names in
      prepare a o s all_names w
      >>= save o prepared Phase.activating
      >>= point_at o (some (record { release_id = a.release_id; phase = Phase.activating }))
      >>= (λ v. or_rollback a o (install a o prepared (minus previous files) files v))

  -- `migrate` is the step of an additive migration.
  module _ (migrate : State → World → Outcome) (a : Agent) (o : Oracle) where
    unfoldable pub activate_at : Phase → State → World → Outcome
    unfolding health is_mine activate_staged
    activate_at Phase.active s w = require (is_mine a w) w >>= health a o
    activate_at Phase.staged s w =
        if s.additive_migration
        then (migrate s w >>= activate_staged a o (record s { additive_receipt = true }))
        else activate_staged a o s w
    activate_at _ s w = raised w

    abbrev pub activate_state : Option State → World → Outcome
    activate_state none w = raised w
    activate_state (some s) w = activate_at s.phase s w

    unfoldable pub activate : World → Outcome
    unfolding maintained state activate_at
    activate w = if maintained w then activate_state (state a w) w else raised w
