-- ===== src/Release/Restored.antt =====
-- A rollback that succeeds brings the instance back, also after activations and rollbacks that
-- failed anywhere.
use cloud_billing_console.Prelude.{
  String, ◌≡◌, refl, sym, ap, ◌∙◌, subst, inl, inr, Bool, true, false, Option, none, some, List, [],
  ◌∷◌, arith, str_eq, if◌then◌else◌, str_eq_iff, Bool-cases, Option-cases, is_some, All,
}
use cloud_billing_console.Release.Files.{Files, content, content-store, content-remove}
use cloud_billing_console.Release.World.{
  Venv, State, Backup, World, Agent, Oracle, has_web, has_collector,
}
use cloud_billing_console.Release.Rollback.{
  with_file, without_file, copy_file, is_link, restore_file, restore_files, restore_environment,
  put_venv, move_back, link_to, venv_moved_back, copy_environment, saved_content, torn_environment,
  unsaved_venv, saved_venv, backup_environment,
}
use cloud_billing_console.Release.Outcomes.{Post, >>=-Post, attempt-Post}
use cloud_billing_console.Release.Recoverable.{
  listed_in, saved_in, environment_in, venv_in, is_directory, IsSafeVenv, IsLiveSafe,
  with_file-IsSafe, without_file-IsSafe,
}

choose :
    (fs : Files) (name n : String) (x y : Option String)
    → content fs name ≡ x
    → (str_eq name n ≡ false → y ≡ content fs n)
    → (if str_eq name n then x else y) ≡ content fs n
choose fs name n x y h k = elim (Bool-cases (str_eq name n)) [
  | inl e ↦ rw e (sym h ∙ ap (content fs) ((str_eq_iff name n).0 e))
  | inr e ↦ rw e (k e)
]

not_some : (o : Option String) → false ≡ is_some o → o ≡ none
not_some o e = ground arith

module _ (a : Agent) (w0 : World) (s : State) where
  abbrev pub Live : World → Type 0
  Live = IsLiveSafe a w0 s

  -- The files but those still to be restored are as in `w0`.
  abbrev pub IsRestoredBut : List (String × Bool) → World → Type 0
  IsRestoredBut items w =
      (name : String) → listed_in items name ≡ false → content w.root name ≡ content w0.root name

  abbrev pub LiveBut : List (String × Bool) → World → Type 0
  LiveBut items w = Live w × IsRestoredBut items w

  saved_content_lem : (w : World) (name : String) → saved_content w name ≡ saved_in w.backup name
  saved_content_lem w name = ground arith

  restore_file-Post :
      (o : Oracle) (name : String) (e : Bool) (items : List (String × Bool)) (w : World)
      → listed_in s.files name ≡ true
      → e ≡ is_some (content w0.root name)
      → LiveBut ((name, e) ∷ items) w
      → Post (LiveBut items) Live (restore_file o (name, e) w)
  unfolding restore_file copy_file
  restore_file-Post o name true items w l e ((safe, j), done) =
      elim (Option-cases (content w0.root name)) [
        | inl h ↦ absurd (ground arith)
        | inr (c, h) ↦ rw (saved_content_lem w name ∙ safe.0.0.1 name c l h) (
            attempt-Post (LiveBut items) Live o (with_file name c) (with_file name (o.torn w.ticks))
              w
              (
                (with_file-IsSafe a w0 s name c w l safe, j),
                (λ n k.
                    content-store w.root name c n
                    ∙ choose w0.root name n (some c) (content w.root n) h
                        (λ d. done n (ground arith))),
              )
              (safe, j) (with_file-IsSafe a w0 s name (o.torn w.ticks) w l safe, j))
      ]
  restore_file-Post o name false items w l e ((safe, j), done) =
      attempt-Post (LiveBut items) Live o (without_file name) (without_file name) w
        (
          (without_file-IsSafe a w0 s name w l safe, j),
          (λ n k.
              content-remove w.root name n
              ∙ choose w0.root name n none (content w.root n) (not_some (content w0.root name) e)
                  (λ d. done n (ground arith))),
        )
        (safe, j) (without_file-IsSafe a w0 s name w l safe, j)

  pub restore_files-Post :
      (o : Oracle) (items : List (String × Bool)) (w : World)
      → All
          (λ (i : String × Bool).
            (listed_in s.files i.0 ≡ true) × (i.1 ≡ is_some (content w0.root i.0)))
          items
      → LiveBut items w
      → Post (LiveBut []) Live (restore_files o items w)
  unfolding restore_files
  restore_files-Post o [] w all_items l = l
  restore_files-Post o ((name, e) ∷ items) w ((l, f), rest) h =
      >>=-Post (LiveBut items) Live (LiveBut []) (restore_file o (name, e) w)
        (restore_files o items) (restore_file-Post o name e items w l f h)
        (λ v q. restore_files-Post o items v rest q)

  abbrev pub WithFiles : World → Type 0
  WithFiles w = LiveBut [] w

  abbrev pub WithEnvironment : World → Type 0
  WithEnvironment w = WithFiles w × (w.env ≡ w0.env)

  abbrev pub WithVenv : World → Type 0
  WithVenv w = WithEnvironment w × (w.venv ≡ w0.venv)

  environment_saved : (w : World) → backup_environment w ≡ environment_in w.backup
  environment_saved w = ground arith

  pub restore_environment-Post :
      (o : Oracle) (w : World)
      → has_web a ≡ true
      → WithFiles w
      → Post WithEnvironment Live (restore_environment o w)
  unfolding copy_environment
  restore_environment-Post o w web (((((root, env), venv), j)), done) =
      subst (λ e. Post WithEnvironment Live (copy_environment o e w))
        (sym (environment_saved w ∙ env.0 web))
        (attempt-Post WithEnvironment Live o (λ v. record v { env = w0.env })
          (λ v. record v { env = torn_environment o w }) w
          ((((((root, (env.0, (λ f. absurd (ground arith)))), venv), j)), done), refl)
          (((root, env), venv), j) (((root, (env.0, (λ f. absurd (ground arith)))), venv), j))

  saved_venv_lem : (w : World) → saved_venv w ≡ venv_in w.backup
  saved_venv_lem w = ground arith

  -- A world that differs in the virtualenv alone.
  pub set_venv-Live :
      (w : World) (v : Venv)
      → Live w
      → (has_collector a ≡ true → IsSafeVenv w0.venv v (venv_in w.backup))
      → has_collector a ≡ true
      → Live (record w { venv = v })
  set_venv-Live w v ((files, (venv, saved)), j) h c =
      ((files, ((h, (λ f. absurd (ground arith))), saved)), j)

  -- The virtualenv is back from the backup.
  venv_moved_back-Live :
      (w : World) (d : String)
      → w0.venv ≡ Venv.directory d
      → Live w
      → has_collector a ≡ true
      → Live (record w { venv = Venv.directory d; backup = unsaved_venv w.backup })
  venv_moved_back-Live w d e ((((others, saved), env), (venv, some_backup)), j) c =
      ((
        (
          (
            (others, (λ n x l h. same_saved w.backup n ∙ saved n x l h)),
            ((λ h. same_environment w.backup ∙ env.0 h), env.1),
          ),
          (
            ((λ h. rw e (inl (refl, no_venv w.backup))), (λ f. absurd (ground arith))),
            same_some w.backup ∙ some_backup,
          ),
        ),
        j,
      ))
    where
      same_saved : (b : Option Backup) (n : String) → saved_in (unsaved_venv b) n ≡ saved_in b n
      same_saved none n = refl
      same_saved (some b) n = refl

      same_environment : (b : Option Backup) → environment_in (unsaved_venv b) ≡ environment_in b
      same_environment none = refl
      same_environment (some b) = refl

      no_venv : (b : Option Backup) → venv_in (unsaved_venv b) ≡ none
      no_venv none = refl
      no_venv (some b) = refl

      same_some : (b : Option Backup) → is_some (unsaved_venv b) ≡ is_some b
      same_some none = refl
      same_some (some b) = refl

  free_place : (v : Venv) → is_link v ≡ false → is_directory v ≡ false → v ≡ Venv.absent
  free_place Venv.absent e f = refl
  free_place (Venv.directory d) e f = cc
  free_place (Venv.link t) e f = cc

  pub put_link-Post :
      (o : Oracle) (w : World) (t : String)
      → has_collector a ≡ true
      → w0.venv ≡ Venv.link t
      → is_link w.venv ≡ false
      → s.previous_venv_link ≡ some t
      → WithEnvironment w
      → Post WithVenv Live (put_venv o (saved_venv w) s.previous_venv_link w)
  unfolding link_to
  put_link-Post o w t c e free p (((safe, j), done), env) =
      let now : IsSafeVenv (Venv.link t) w.venv (venv_in w.backup) =
        subst (λ v. IsSafeVenv v w.venv (venv_in w.backup)) e (safe.1.0.0 c) in
      let after : Live (record w { venv = Venv.link t }) =
        set_venv-Live w (Venv.link t) (safe, j)
          (λ _. subst (λ v. IsSafeVenv v (Venv.link t) (venv_in w.backup)) (sym e) (refl, now.1))
          c in
      subst (λ d. Post WithVenv Live (put_venv o d s.previous_venv_link w))
        (sym (saved_venv_lem w ∙ now.1))
        (subst (λ d. Post WithVenv Live (put_venv o none d w)) (sym p)
          (subst (λ v. Post WithVenv Live (link_to o t v w)) (sym (free_place w.venv free now.0))
            (attempt-Post WithVenv Live o (λ v. record v { venv = Venv.link t })
              (λ v. record v { venv = Venv.link t }) w ((((after, done)), env), sym e) (safe, j)
              after)))

  pub put_directory-Post :
      (o : Oracle) (w : World) (x : String)
      → has_collector a ≡ true
      → w0.venv ≡ Venv.directory x
      → is_link w.venv ≡ false
      → s.previous_venv_link ≡ none
      → WithEnvironment w
      → Post WithVenv Live (put_venv o (saved_venv w) s.previous_venv_link w)
  unfolding move_back
  put_directory-Post o w x c e free p (((safe, j), done), env) =
      of_state (subst (λ v. IsSafeVenv v w.venv (venv_in w.backup)) e (safe.1.0.0 c))
    where
      of_state :
          IsSafeVenv (Venv.directory x) w.venv (venv_in w.backup)
          → Post WithVenv Live (put_venv o (saved_venv w) s.previous_venv_link w)
      of_state (inl (same, nothing)) =
          subst (λ d. Post WithVenv Live (put_venv o d s.previous_venv_link w))
            (sym (saved_venv_lem w ∙ nothing))
            (subst (λ d. Post WithVenv Live (put_venv o none d w)) (sym p)
              ((((safe, j), done), env), same ∙ sym e))
      of_state (inr (gone, saved)) =
          subst (λ d. Post WithVenv Live (put_venv o d s.previous_venv_link w))
            (sym (saved_venv_lem w ∙ saved))
            (subst (λ v. Post WithVenv Live (move_back o x v w)) (sym (free_place w.venv free gone))
              (attempt-Post WithVenv Live o (venv_moved_back x) (venv_moved_back x) w
                ((((venv_moved_back-Live w x e (safe, j) c, done)), env), sym e) (safe, j)
                (venv_moved_back-Live w x e (safe, j) c)))
