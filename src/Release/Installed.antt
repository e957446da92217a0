-- ===== src/Release/Installed.antt =====
-- The body of the activation keeps an instance recoverable wherever it fails.
use cloud_billing_console.Prelude.{
  ℕ, zero, suc, String, ◌≡◌, refl, sym, ap, ◌∙◌, subst, inl, inr, true, false, Option, none, some,
  List, [], ◌∷◌, ◌-◌, Bool-cases, arith, ◌==◌, is_some, length, All,
}
use cloud_billing_console.Release.Files.{content}
use cloud_billing_console.Release.World.{
  Phase, Current, Environment, Venv, State, Backup, World, Agent, Oracle, Outcome, ok, raised,
  ◌>>=◌, attempt, run, require, has_web, has_collector, point_at, save, with_phase,
}
use cloud_billing_console.Release.Rollback.{
  set_venv, when, run_times, health, copy_file, without_file, values_of, torn_environment,
}
use cloud_billing_console.Release.Activate.{
  remove_files, copy_files, change_image, change_venv, move_venv, venv_moved, save_venv,
  retry_health, or_again, install, with_image, image_setting, renamed,
}
use cloud_billing_console.Release.Outcomes.{
  Post, >>=-Post, attempt-Post, when-Post, require-Post, run_times-Post, run-Post, health-Post,
}
use cloud_billing_console.Release.Recoverable.{
  listed_in, venv_in, saved_in, environment_in, is_directory, IsSafeVenv, copy-Post, remove-Post,
}
use cloud_billing_console.Release.Restored.{Live, set_venv-Live}
use cloud_billing_console.Release.Reversal.{safe_without_directory}

moved_safe :
    (v0 : Venv) (d : String) (old : Option String)
    → IsSafeVenv v0 (Venv.directory d) old
    → IsSafeVenv v0 Venv.absent (some d)
moved_safe Venv.absent d old h = h
moved_safe (Venv.link t) d old (h, e) = cc
moved_safe (Venv.directory x) d old (inl (same, e)) = inr (refl, ap some (ap content_of same))
  where
    content_of : Venv → String
    content_of (Venv.directory y) = y
    content_of _ = x
moved_safe (Venv.directory x) d old (inr (h, e)) = cc

module _ (a : Agent) (w0 : World) (s : State) where
  abbrev pub AllListed : List String → Type 0
  AllListed ns = All (λ n. listed_in s.files n ≡ true) ns

  abbrev pub Kept : Outcome → Type 0
  Kept x = Post (Live a w0 s) (Live a w0 s) x

  then_Kept :
      (x : Outcome) (f : World → Outcome)
      → Kept x
      → ((w : World) → Live a w0 s w → Kept (f w))
      → Kept (x >>= f)
  then_Kept x f p h = >>=-Post (Live a w0 s) (Live a w0 s) (Live a w0 s) x f p h

  remove_files-Kept :
      (o : Oracle) (ns : List String) (w : World)
      → AllListed ns
      → Live a w0 s w
      → Kept (remove_files o ns w)
  unfolding remove_files
  remove_files-Kept o [] w l live = live
  remove_files-Kept o (n ∷ ns) w (l, ls) live =
      then_Kept (attempt o (without_file n) (without_file n) w) (remove_files o ns)
        (remove-Post a w0 s o n w l live) (λ v q. remove_files-Kept o ns v ls q)

  copy_one-Kept :
      (o : Oracle) (c : Option String) (n : String) (w : World)
      → listed_in s.files n ≡ true
      → Live a w0 s w
      → Kept (copy_file o c n w)
  unfolding copy_file
  copy_one-Kept o none n w l live = live
  copy_one-Kept o (some c) n w l live = copy-Post a w0 s o n c w l live

  copy_files-Kept :
      (o : Oracle) (ns : List String) (w : World)
      → AllListed ns
      → Live a w0 s w
      → Kept (copy_files a o ns w)
  unfolding copy_files
  copy_files-Kept o [] w l live = live
  copy_files-Kept o (n ∷ ns) w (l, ls) live =
      then_Kept (copy_file o (content a.source n) n w) (copy_files a o ns)
        (copy_one-Kept o (content a.source n) n w l live) (λ v q. copy_files-Kept o ns v ls q)

  change_image-Kept :
      (o : Oracle) (image : String) (w : World)
      → has_web a ≡ true
      → Live a w0 s w
      → Kept (change_image o image w)
  unfolding change_image
  change_image-Kept o image w web live =
      let text : Environment = with_image image w.env in
      let write : World → Outcome =
        attempt o (λ v. record v { env_release = some text })
          (λ v. record v { env_release = some (torn_environment o v) }) in
      let replace : World → Outcome = attempt o (renamed text) (renamed text) in
      then_Kept
        (require (length (values_of image_setting w.env) == 1) w >>= write >>= run o >>= replace)
        (run o)
        (then_Kept (require (length (values_of image_setting w.env) == 1) w >>= write >>= run o)
          replace
          (then_Kept (require (length (values_of image_setting w.env) == 1) w >>= write) (run o)
            (then_Kept (require (length (values_of image_setting w.env) == 1) w) write
              (require-Post (Live a w0 s) (Live a w0 s)
                (length (values_of image_setting w.env) == 1) w (λ _. live) live)
              (λ v q.
                attempt-Post (Live a w0 s) (Live a w0 s) o
                  (λ u. record u { env_release = some text })
                  (λ u. record u { env_release = some (torn_environment o u) }) v q q q))
            (λ v q. run-Post (Live a w0 s) (Live a w0 s) o (λ u t. (t, t)) v q))
          (λ v q.
            let (((root, env), venv), j) = q in
            let after : Live a w0 s (renamed text v) =
              (((root, (env.0, (λ f. absurd (ground arith)))), venv), j) in
            attempt-Post (Live a w0 s) (Live a w0 s) o (renamed text) (renamed text) v after q
              after))
        (λ v q. run-Post (Live a w0 s) (Live a w0 s) o (λ u t. (t, t)) v q)

  abbrev LiveFree : World → Type 0
  LiveFree w = Live a w0 s w × (is_directory w.venv ≡ false)

  venv_moved-Live :
      (w : World) (d : String)
      → w.venv ≡ Venv.directory d
      → Live a w0 s w
      → has_collector a ≡ true
      → Live a w0 s (venv_moved d w)
  venv_moved-Live w d e ((((others, saved), env), (venv, some_backup)), j) c =
      ((
        (
          (
            (others, (λ n x l h. same_saved w.backup n ∙ saved n x l h)),
            ((λ h. same_environment w.backup ∙ env.0 h), env.1),
          ),
          (
            (
              (λ h. subst (IsSafeVenv w0.venv Venv.absent) (sym (now_saved w.backup some_backup)) (
                  moved_safe w0.venv d (venv_in w.backup)
                    (subst (λ v. IsSafeVenv w0.venv v (venv_in w.backup)) e (venv.0 h)))),
              (λ f. absurd (ground arith)),
            ),
            same_some w.backup ∙ some_backup,
          ),
        ),
        j,
      ))
    where
      same_saved : (b : Option Backup) (n : String) → saved_in (save_venv d b) n ≡ saved_in b n
      same_saved none n = refl
      same_saved (some b) n = refl

      same_environment : (b : Option Backup) → environment_in (save_venv d b) ≡ environment_in b
      same_environment none = refl
      same_environment (some b) = refl

      now_saved : (b : Option Backup) → is_some b ≡ true → venv_in (save_venv d b) ≡ some d
      now_saved none h = cc
      now_saved (some b) h = refl

      same_some : (b : Option Backup) → is_some (save_venv d b) ≡ is_some b
      same_some none = refl
      same_some (some b) = refl

  move_venv-Post :
      (o : Oracle) (w : World)
      → has_collector a ≡ true
      → Live a w0 s w
      → Post LiveFree (Live a w0 s) (move_venv o w.venv w)
  unfolding move_venv
  move_venv-Post o w c (safe, j) = of_venv w.venv refl
    where
      of_venv : (v : Venv) → w.venv ≡ v → Post LiveFree (Live a w0 s) (move_venv o v w)
      of_venv Venv.absent e = (safe, j)
      of_venv (Venv.link t) e =
          let after : Live a w0 s (record w { venv = Venv.absent }) =
            set_venv-Live a w0 s w Venv.absent (safe, j)
              (λ _.
                safe_without_directory w0.venv w.venv Venv.absent (venv_in w.backup)
                  (ap is_directory e) refl (safe.1.0.0 c))
              c in
          attempt-Post LiveFree (Live a w0 s) o (λ v. record v { venv = Venv.absent })
            (λ v. record v { venv = Venv.absent }) w (after, refl) (safe, j) after
      of_venv (Venv.directory d) e =
          attempt-Post LiveFree (Live a w0 s) o (venv_moved d) (venv_moved d) w
            (venv_moved-Live w d e (safe, j) c, refl) (safe, j) (venv_moved-Live w d e (safe, j) c)

  change_venv-Kept :
      (o : Oracle) (w : World) → has_collector a ≡ true → Live a w0 s w → Kept (change_venv a o w)
  unfolding change_venv
  change_venv-Kept o w c live =
      then_Kept (move_venv o w.venv w >>= set_venv o (Venv.link a.stage_venv)) (run_times o 2)
        (>>=-Post LiveFree (Live a w0 s) (Live a w0 s) (move_venv o w.venv w)
          (set_venv o (Venv.link a.stage_venv)) (move_venv-Post o w c live)
          (λ v q.
            let after : Live a w0 s (record v { venv = Venv.link a.stage_venv }) =
              set_venv-Live a w0 s v (Venv.link a.stage_venv) q.0
                (λ _.
                  safe_without_directory w0.venv v.venv (Venv.link a.stage_venv) (venv_in v.backup)
                    q.1 refl (q.0.0.1.0.0 c))
                c in
            attempt-Post (Live a w0 s) (Live a w0 s) o
              (λ u. record u { venv = Venv.link a.stage_venv })
              (λ u. record u { venv = Venv.link a.stage_venv }) v after q.0 after))
        (λ v q. run_times-Post (Live a w0 s) (Live a w0 s) o (λ u t. (t, t)) 2 v q)

  again-Kept :
      (o : Oracle) (x : Outcome) (f : World → Outcome)
      → Kept x
      → ((w : World) → Live a w0 s w → Kept (f w))
      → Kept (or_again o x f)
  again-Kept o (ok w) f p h = p
  again-Kept o (raised w) f p h = elim (Bool-cases (o.caught (w.ticks - 1))) [
    | inl e ↦ rw e (h w p)
    | inr e ↦ rw e p
  ]

  health-Kept : (o : Oracle) (w : World) → Live a w0 s w → Kept (health a o w)
  health-Kept o w live = health-Post (Live a w0 s) (Live a w0 s) a o (λ u t. (t, t)) w live

  retry_health-Kept : (o : Oracle) (n : ℕ) (w : World) → Live a w0 s w → Kept (retry_health a o n w)
  unfolding retry_health
  retry_health-Kept o zero w live = health-Kept o w live
  retry_health-Kept o (suc n) w live =
      again-Kept o (health a o w) (retry_health a o n) (health-Kept o w live)
        (λ v q. retry_health-Kept o n v q)

  pub point_at-Kept :
      (o : Oracle) (c : Option Current) (w : World) → Live a w0 s w → Kept (point_at o c w)
  point_at-Kept o c w live =
      attempt-Post (Live a w0 s) (Live a w0 s) o (λ v. record v { current = c })
        (λ v. record v { current = c }) w live live live

  save_active-Kept : (o : Oracle) (w : World) → Live a w0 s w → Kept (save o s Phase.active w)
  save_active-Kept o w (safe, j) =
      let after : Live a w0 s (record w { journal = some (with_phase Phase.active s) }) =
        (safe, (Phase.active, (refl, inr refl))) in
      attempt-Post (Live a w0 s) (Live a w0 s) o
        (λ v. record v { journal = some (with_phase Phase.active s) })
        (λ v. record v { journal = some (with_phase Phase.active s) }) w after (safe, j) after

  pub install-Kept :
      (o : Oracle) (dropped files : List String) (w : World)
      → All (λ n. listed_in s.files n ≡ true) dropped
      → All (λ n. listed_in s.files n ≡ true) files
      → Live a w0 s w
      → Post (Live a w0 s) (Live a w0 s) (install a o s dropped files w)
  unfolding install
  install-Kept o dropped files w d f live =
      then_Kept _ (point_at o (some (record { release_id = a.release_id; phase = Phase.active })))
        (then_Kept _ (save o s Phase.active)
          (then_Kept _ (retry_health a o 19)
            (then_Kept _ (when (has_collector a) (change_venv a o))
              (then_Kept _ (when (has_web a) (change_image o s.image_id))
                (then_Kept _ (copy_files a o files)
                  (then_Kept (when (has_collector a) (run_times o 2) w) (remove_files o dropped)
                    (when-Post (Live a w0 s) (Live a w0 s) (has_collector a) (run_times o 2) w
                      (λ _. run_times-Post (Live a w0 s) (Live a w0 s) o (λ u t. (t, t)) 2 w live)
                      (λ _. live))
                    (λ v q. remove_files-Kept o dropped v d q))
                  (λ v q. copy_files-Kept o files v f q))
                (λ v q.
                  when-Post (Live a w0 s) (Live a w0 s) (has_web a) (change_image o s.image_id) v
                    (λ e. change_image-Kept o s.image_id v e q) (λ _. q)))
              (λ v q.
                when-Post (Live a w0 s) (Live a w0 s) (has_collector a) (change_venv a o) v
                  (λ e. change_venv-Kept o v e q) (λ _. q)))
            (λ v q. retry_health-Kept o 19 v q))
          (λ v q. save_active-Kept o v q))
        (λ v q.
          point_at-Kept o (some (record { release_id = a.release_id; phase = Phase.active })) v q)
