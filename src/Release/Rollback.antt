-- ===== src/Release/Rollback.antt =====
-- `health`, `require_no_database_maintenance` and `rollback` of deploy/github-release/agent.py.
use cloud_billing_console.Prelude.{
  ℕ, zero, suc, String, Bool, true, false, ◌&&◌, ◌||◌, Option, none, some, List, [], ◌∷◌, str_eq,
  if◌then◌else◌,
}
use cloud_billing_console.Release.Files.{content, store, remove}
use cloud_billing_console.Release.World.{
  Phase, Environment, Venv, State, Backup, World, Agent, Oracle, Outcome, ok, raised, ◌>>=◌,
  attempt, run, require, has_web, has_collector, is_combined, state, save, point_at,
}

unfoldable pub maintained : World → Bool
maintained w = elim w.maintenance [
  | none ↦ true
  | some phase ↦ str_eq phase "rehearsed" || str_eq phase "writers-reopened"
]

abbrev pub run_times : Oracle → ℕ → World → Outcome
run_times o zero w = ok w
run_times o (suc n) w = run o w >>= run_times o n

abbrev pub when : Bool → (World → Outcome) → World → Outcome
when b f w = if b then f w else ok w

-- The commands of `health`, each with the test of its output: three of the collector and five of the
-- web application, which start with the metadata guard where both run together.
unfoldable pub health : Agent → Oracle → World → Outcome
unfolding attempt
health a o w =
    when (has_collector a) (run_times o 3) w
    >>= when (has_web a) (λ v. when (is_combined a.runtime) (run o) v >>= run_times o 5)

abbrev pub values_of : String → Environment → List String
values_of key [] = []
values_of key (s ∷ ss) = if str_eq s.name key then s.value ∷ values_of key ss else values_of key ss

-- The value of a setting that occurs at most once: none stands for ValueError.
abbrev pub setting_of : String → Environment → Option (Option String)
setting_of key e = elim (values_of key e) [
  | [] ↦ some none
  | v ∷ [] ↦ some (some v)
  | v ∷ (w ∷ ws) ↦ none
]

abbrev pub same_setting : Option (Option String) → Option (Option String) → Bool
same_setting (some none) (some none) = true
same_setting (some (some v)) (some (some w)) = str_eq v w
same_setting _ _ = false

abbrev pub backup_environment : World → Option Environment
backup_environment w = elim w.backup [ none ↦ none | some b ↦ b.environment ]

unfoldable pub compatible_with : Option Environment → World → Outcome
compatible_with none w = raised w
compatible_with (some e) w =
    require
      (same_setting (setting_of "BILLING_POSTGRES_IMAGE" e)
          (setting_of "BILLING_POSTGRES_IMAGE" w.env)
        && same_setting (setting_of "BILLING_POSTGRES_VOLUME" e)
            (setting_of "BILLING_POSTGRES_VOLUME" w.env))
      w

abbrev pub require_database_rollback_compatible : World → Outcome
require_database_rollback_compatible w = compatible_with (backup_environment w) w

abbrev pub with_file : String → String → World → World
with_file name c w = record w { root = store w.root name c }

abbrev pub without_file : String → World → World
without_file name w = record w { root = remove w.root name }

-- shutil.copy2(source / name, target)
unfoldable pub copy_file : Oracle → Option String → String → World → Outcome
unfolding attempt
copy_file o none name w = raised w
copy_file o (some c) name w = attempt o (with_file name c) (with_file name (o.torn w.ticks)) w

abbrev pub saved_content : World → String → Option String
saved_content w name = elim w.backup [ none ↦ none | some b ↦ content b.saved name ]

unfoldable pub restore_file : Oracle → String × Bool → World → Outcome
unfolding copy_file attempt content
restore_file o (name, true) w = copy_file o (saved_content w name) name w
restore_file o (name, false) w = attempt o (without_file name) (without_file name) w

unfoldable pub restore_files : Oracle → List (String × Bool) → World → Outcome
unfolding restore_file
restore_files o [] w = ok w
restore_files o (item ∷ items) w = restore_file o item w >>= restore_files o items

-- An environment file of one torn line.
abbrev pub torn_environment : Oracle → World → Environment
torn_environment o w = record { name = ""; value = o.torn w.ticks } ∷ []

unfoldable pub copy_environment : Oracle → Option Environment → World → Outcome
unfolding attempt
copy_environment o none w = raised w
copy_environment o (some e) w =
    attempt o (λ v. record v { env = e }) (λ v. record v { env = torn_environment o w }) w

abbrev pub restore_environment : Oracle → World → Outcome
restore_environment o w = copy_environment o (backup_environment w) w

abbrev pub set_venv : Oracle → Venv → World → Outcome
set_venv o v = attempt o (λ w. record w { venv = v }) (λ w. record w { venv = v })

abbrev pub is_link : Venv → Bool
is_link (Venv.link t) = true
is_link _ = false

abbrev pub saved_venv : World → Option String
saved_venv w = elim w.backup [ none ↦ none | some b ↦ b.venv_saved ]

abbrev pub unsaved_venv : Option Backup → Option Backup
unsaved_venv none = none
unsaved_venv (some b) = some (record b { venv_saved = none })

abbrev pub venv_moved_back : String → World → World
venv_moved_back d w = record w { venv = Venv.directory d; backup = unsaved_venv w.backup }

-- (backup / 'venv').rename(venv), onto a place that must be free.
unfoldable pub move_back : Oracle → String → Venv → World → Outcome
unfolding attempt
move_back o d Venv.absent w = attempt o (venv_moved_back d) (venv_moved_back d) w
move_back o d _ w = raised w

-- venv.symlink_to(target), where nothing may stand yet.
unfoldable pub link_to : Oracle → String → Venv → World → Outcome
unfolding attempt
link_to o target Venv.absent w = set_venv o (Venv.link target) w
link_to o target _ w = raised w

abbrev pub put_venv : Oracle → Option String → Option String → World → Outcome
put_venv o (some d) previous w = move_back o d w.venv w
put_venv o none (some target) w = link_to o target w.venv w
put_venv o none none w = ok w

unfoldable pub restore_venv : Oracle → State → World → Outcome
unfolding attempt move_back link_to
restore_venv o s w =
    when (is_link w.venv) (set_venv o Venv.absent) w
    >>= (λ v. put_venv o (saved_venv v) s.previous_venv_link v)

unfoldable pub is_mine : Agent → World → Bool
is_mine a w = elim w.current [ none ↦ false | some c ↦ str_eq c.release_id a.release_id ]

abbrev pub is_untouched : Phase → Bool
is_untouched Phase.new = true
is_untouched Phase.staged = true
is_untouched _ = false

abbrev pub is_rolled_back : Phase → Bool
is_rolled_back Phase.rolled_back = true
is_rolled_back _ = false

-- The part of `rollback` that changes the instance.
unfoldable pub restore : Agent → Oracle → State → World → Outcome
unfolding restore_files copy_environment restore_venv attempt
restore a o s w =
    when (has_collector a) (run_times o 2) w
    >>= restore_files o s.files
    >>= when (has_web a) (λ v. restore_environment o v >>= run o)
    >>= when (has_collector a) (λ v. restore_venv o s v >>= run_times o 2)

-- The rollback of a release that is being activated or active.
unfoldable pub undo : Agent → Oracle → State → World → Outcome
unfolding health is_mine compatible_with restore attempt
undo a o s w =
    require (is_mine a w) w
    >>= when (has_web a) require_database_rollback_compatible
    >>= restore a o s
    >>= point_at o s.previous_current
    >>= save o s Phase.rolled_back
    >>= health a o

unfoldable pub rollback_with : Agent → Oracle → State → World → Outcome
unfolding health undo
rollback_with a o s w =
    if is_rolled_back s.phase
    then health a o w
    else if is_untouched s.phase
    then ok w
    else undo a o s w

abbrev pub rollback_state : Agent → Oracle → Option State → World → Outcome
rollback_state a o none w = raised w
rollback_state a o (some s) w = rollback_with a o s w

unfoldable pub rollback : Agent → Oracle → World → Outcome
unfolding maintained state rollback_with
rollback a o w = if maintained w then rollback_state a o (state a w) w else raised w
