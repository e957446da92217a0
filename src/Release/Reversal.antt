-- ===== src/Release/Reversal.antt =====
-- The rollback as a whole: it keeps an instance recoverable wherever it fails, and restores it where
-- it succeeds.
use cloud_billing_console.Prelude.{
  String, ◌≡◌, refl, sym, ap, ◌∙◌, subst, ◌⊎◌, inl, inr, Bool, true, false, ◌&&◌, Option, none,
  some, arith, str_eq, if◌then◌else◌, str_eq_iff, Bool-cases, is_some, All,
}
use cloud_billing_console.Prelude.Search.{All-of_In, any-true}
use cloud_billing_console.Release.Files.{content}
use cloud_billing_console.Release.World.{
  Phase, Environment, Venv, State, World, Agent, Oracle, raised, ◌>>=◌, run, require, has_web,
  has_collector, point_at, save, state,
}
use cloud_billing_console.Release.Rollback.{
  set_venv, is_link, restore_files, restore_environment, restore_venv, put_venv, restore,
  rollback_with, undo, rollback, rollback_state, maintained, health, when, run_times, is_mine,
  require_database_rollback_compatible, compatible_with, saved_venv, backup_environment,
  same_setting, setting_of,
}
use cloud_billing_console.Release.Activate.{link_target}
use cloud_billing_console.Release.Outcomes.{
  Post, >>=-Post, Post-map, attempt-Post, when-Post, require-Post, run_times-Post, run-Post,
  health-Post,
}
use cloud_billing_console.Release.Recoverable.{
  listed_in, venv_in, is_directory, IsSafeVenv, IsRestored, IsPrepared, IsRecoverable,
}
use cloud_billing_console.Release.Restored.{
  Live, WithFiles, WithEnvironment, WithVenv, restore_files-Post, restore_environment-Post,
  put_link-Post, put_directory-Post, set_venv-Live,
}

pub safe_without_directory :
    (v0 v u : Venv) (d : Option String)
    → is_directory v ≡ false
    → is_directory u ≡ false
    → IsSafeVenv v0 v d
    → IsSafeVenv v0 u d
safe_without_directory Venv.absent v u d e f h = h
safe_without_directory (Venv.link t) v u d e f h = (f, h.1)
safe_without_directory (Venv.directory x) v u d e f (inl (same, nothing)) =
    absurd (let g = ap is_directory same in cc)
safe_without_directory (Venv.directory x) v u d e f (inr (gone, saved)) = inr (f, saved)

link_no_directory : (v : Venv) → is_link v ≡ true → is_directory v ≡ false
link_no_directory (Venv.link t) e = refl
link_no_directory Venv.absent e = refl
link_no_directory (Venv.directory d) e = cc

pub state_or_none :
    (a : Agent) (w : World) (t : State)
    → w.journal ≡ some t
    → (state a w ≡ none) ⊎ (state a w ≡ some t)
unfolding state
state_or_none a w t e = rw (e, state) (ground arith)

module _ (a : Agent) (w0 : World) (s : State) (prepared : IsPrepared a w0 s) where
  abbrev WithFreeVenv : World → Type 0
  WithFreeVenv w = WithEnvironment a w0 s w × (is_link w.venv ≡ false)

  unlink-Post :
      (o : Oracle) (w : World)
      → has_collector a ≡ true
      → WithEnvironment a w0 s w
      → Post WithFreeVenv (Live a w0 s) (when (is_link w.venv) (set_venv o Venv.absent) w)
  unlink-Post o w c ((((safe, j), done), env)) =
      when-Post WithFreeVenv (Live a w0 s) (is_link w.venv) (set_venv o Venv.absent) w
        (λ e.
          let after : Live a w0 s (record w { venv = Venv.absent }) =
            set_venv-Live a w0 s w Venv.absent (safe, j)
              (λ _.
                safe_without_directory w0.venv w.venv Venv.absent (venv_in w.backup)
                  (link_no_directory w.venv e) refl (safe.1.0.0 c))
              c in
          attempt-Post WithFreeVenv (Live a w0 s) o (λ v. record v { venv = Venv.absent })
            (λ v. record v { venv = Venv.absent }) w (((after, done), env), refl) (safe, j) after)
        (λ e. (((((safe, j), done), env)), e))

  put_venv-Post :
      (o : Oracle) (w : World)
      → has_collector a ≡ true
      → WithFreeVenv w
      → Post (WithVenv a w0 s) (Live a w0 s) (put_venv o (saved_venv w) s.previous_venv_link w)
  put_venv-Post o w c (q, free) = of_venv w0.venv refl
    where
      of_venv :
          (v : Venv)
          → w0.venv ≡ v
          → Post (WithVenv a w0 s) (Live a w0 s) (put_venv o (saved_venv w) s.previous_venv_link w)
      of_venv Venv.absent e =
          absurd (subst (λ v. IsSafeVenv v w.venv (venv_in w.backup)) e (q.0.0.0.1.0.0 c))
      of_venv (Venv.link t) e =
          put_link-Post a w0 s o w t c e free (prepared.1.1 c ∙ ap link_target e) q
      of_venv (Venv.directory x) e =
          put_directory-Post a w0 s o w x c e free (prepared.1.1 c ∙ ap link_target e) q

  restore_venv-Post :
      (o : Oracle) (w : World)
      → has_collector a ≡ true
      → WithEnvironment a w0 s w
      → Post (WithVenv a w0 s) (Live a w0 s) (restore_venv o s w)
  unfolding restore_venv
  restore_venv-Post o w c q =
      >>=-Post WithFreeVenv (Live a w0 s) (WithVenv a w0 s)
        (when (is_link w.venv) (set_venv o Venv.absent) w)
        (λ v. put_venv o (saved_venv v) s.previous_venv_link v) (unlink-Post o w c q)
        (λ v r. put_venv-Post o v c r)

  all_listed :
      All
        (λ (i : String × Bool).
          (listed_in s.files i.0 ≡ true) × (i.1 ≡ is_some (content w0.root i.0)))
        s.files
  all_listed =
      All-of_In (λ i. (listed_in s.files i.0 ≡ true) × (i.1 ≡ is_some (content w0.root i.0)))
        s.files
        (λ i k. (
          any-true (λ (j : String × Bool). str_eq j.0 i.0) s.files i k
              ((str_eq_iff i.0 i.0).1 refl),
          prepared.0 i.0 i.1 k,
        ))

  files-Post :
      (o : Oracle) (w : World)
      → Live a w0 s w
      → Post
          (WithFiles a w0 s)
          (Live a w0 s)
          (when (has_collector a) (run_times o 2) w >>= restore_files o s.files)
  files-Post o w live =
      >>=-Post (Live a w0 s) (Live a w0 s) (WithFiles a w0 s)
        (when (has_collector a) (run_times o 2) w) (restore_files o s.files)
        (when-Post (Live a w0 s) (Live a w0 s) (has_collector a) (run_times o 2) w
          (λ _. run_times-Post (Live a w0 s) (Live a w0 s) o (λ v q. (q, q)) 2 w live) (λ _. live))
        (λ v q. restore_files-Post a w0 s o s.files v all_listed (q, q.0.0.0.0))

  web-Post :
      (o : Oracle) (w : World)
      → WithFiles a w0 s w
      → Post
          (WithEnvironment a w0 s)
          (Live a w0 s)
          (when (has_web a) (λ v. restore_environment o v >>= run o) w)
  web-Post o w q =
      when-Post (WithEnvironment a w0 s) (Live a w0 s) (has_web a)
        (λ v. restore_environment o v >>= run o) w
        (λ e.
          >>=-Post (WithEnvironment a w0 s) (Live a w0 s) (WithEnvironment a w0 s)
            (restore_environment o w) (run o) (restore_environment-Post a w0 s o w e q)
            (λ v r. run-Post (WithEnvironment a w0 s) (Live a w0 s) o (λ u t. (t, t.0.0)) v r))
        (λ e. (q, q.0.0.0.1.1 e))

  venv-Post :
      (o : Oracle) (w : World)
      → WithEnvironment a w0 s w
      → Post
          (WithVenv a w0 s)
          (Live a w0 s)
          (when (has_collector a) (λ v. restore_venv o s v >>= run_times o 2) w)
  venv-Post o w q =
      when-Post (WithVenv a w0 s) (Live a w0 s) (has_collector a)
        (λ v. restore_venv o s v >>= run_times o 2) w
        (λ e.
          >>=-Post (WithVenv a w0 s) (Live a w0 s) (WithVenv a w0 s) (restore_venv o s w)
            (run_times o 2) (restore_venv-Post o w e q)
            (λ v r. run_times-Post (WithVenv a w0 s) (Live a w0 s) o (λ u t. (t, t.0.0.0)) 2 v r))
        (λ e. (q, q.0.0.0.1.0.1 e))

  restore-Post :
      (o : Oracle) (w : World)
      → Live a w0 s w
      → Post (WithVenv a w0 s) (Live a w0 s) (restore a o s w)
  unfolding restore
  restore-Post o w live =
      >>=-Post (WithEnvironment a w0 s) (Live a w0 s) (WithVenv a w0 s)
        (when (has_collector a) (run_times o 2) w
          >>= restore_files o s.files
          >>= when (has_web a) (λ v. restore_environment o v >>= run o))
        (when (has_collector a) (λ v. restore_venv o s v >>= run_times o 2))
        (>>=-Post (WithFiles a w0 s) (Live a w0 s) (WithEnvironment a w0 s)
          (when (has_collector a) (run_times o 2) w >>= restore_files o s.files)
          (when (has_web a) (λ v. restore_environment o v >>= run o)) (files-Post o w live)
          (λ v q. web-Post o v q))
        (λ v q. venv-Post o v q)

  abbrev pub Recoverable : World → Type 0
  Recoverable = IsRecoverable a w0 s

  -- The journal says that the rollback is done, and it is.
  abbrev pub Done : World → Type 0
  Done w = (w.journal ≡ some (record s { phase = Phase.rolled_back })) × IsRestored w0 w

  abbrev Pointed : World → Type 0
  Pointed w = WithVenv a w0 s w × (w.current ≡ w0.current)

  compatible-Post :
      (o : Oracle) (e : Option Environment) (w : World)
      → Live a w0 s w
      → Post (Live a w0 s) (Live a w0 s) (compatible_with e w)
  unfolding compatible_with
  compatible-Post o none w live = live
  compatible-Post o (some e) w live =
      require-Post (Live a w0 s) (Live a w0 s)
        (same_setting (setting_of "BILLING_POSTGRES_IMAGE" e)
            (setting_of "BILLING_POSTGRES_IMAGE" w.env)
          && same_setting (setting_of "BILLING_POSTGRES_VOLUME" e)
              (setting_of "BILLING_POSTGRES_VOLUME" w.env))
        w (λ _. live) live

  checks-Post :
      (o : Oracle) (w : World)
      → Live a w0 s w
      → Post
          (Live a w0 s)
          (Live a w0 s)
          (require (is_mine a w) w >>= when (has_web a) require_database_rollback_compatible)
  checks-Post o w live =
      >>=-Post (Live a w0 s) (Live a w0 s) (Live a w0 s) (require (is_mine a w) w)
        (when (has_web a) require_database_rollback_compatible)
        (require-Post (Live a w0 s) (Live a w0 s) (is_mine a w) w (λ _. live) live)
        (λ v q.
          when-Post (Live a w0 s) (Live a w0 s) (has_web a) require_database_rollback_compatible v
            (λ _. compatible-Post o (backup_environment v) v q) (λ _. q))

  restore_phase :
      (o : Oracle) (p : Phase) (w : World)
      → restore a o (record s { phase = p }) w ≡ restore a o s w
  unfolding restore restore_venv
  restore_phase o p w = refl

  pub undo-Post :
      (o : Oracle) (p : Phase) (w : World)
      → Live a w0 s w
      → Post Done Recoverable (undo a o (record s { phase = p }) w)
  unfolding undo
  undo-Post o p w live =
      >>=-Post Done Recoverable Done
        (require (is_mine a w) w
          >>= when (has_web a) require_database_rollback_compatible
          >>= restore a o (record s { phase = p })
          >>= point_at o s.previous_current
          >>= save o (record s { phase = p }) Phase.rolled_back)
        (health a o)
        (>>=-Post Pointed Recoverable Done
          (require (is_mine a w) w
            >>= when (has_web a) require_database_rollback_compatible
            >>= restore a o (record s { phase = p })
            >>= point_at o s.previous_current)
          (save o (record s { phase = p }) Phase.rolled_back)
          (>>=-Post (WithVenv a w0 s) Recoverable Pointed
            (require (is_mine a w) w
              >>= when (has_web a) require_database_rollback_compatible
              >>= restore a o (record s { phase = p }))
            (point_at o s.previous_current)
            (Post-map (WithVenv a w0 s) (Live a w0 s) (WithVenv a w0 s) Recoverable
              (require (is_mine a w) w
                >>= when (has_web a) require_database_rollback_compatible
                >>= restore a o (record s { phase = p }))
              (λ v q. q) (λ v q. inl q)
              (>>=-Post (Live a w0 s) (Live a w0 s) (WithVenv a w0 s)
                (require (is_mine a w) w >>= when (has_web a) require_database_rollback_compatible)
                (restore a o (record s { phase = p })) (checks-Post o w live)
                (λ v q.
                  subst (Post (WithVenv a w0 s) (Live a w0 s)) (sym (restore_phase o p v))
                    (restore-Post o v q))))
            (λ v q. point-Post v q))
          (λ v q. save-Post v q))
        (λ v q. health-Post Done Recoverable a o (λ u t. (t, inr t)) v q)
    where
      point-Post :
          (v : World)
          → WithVenv a w0 s v
          → Post Pointed Recoverable (point_at o s.previous_current v)
      point-Post v q =
          attempt-Post Pointed Recoverable o (λ u. record u { current = s.previous_current })
            (λ u. record u { current = s.previous_current }) v (q, prepared.1.0) (inl q.0.0.0)
            (inl q.0.0.0)

      save-Post :
          (v : World)
          → Pointed v
          → Post Done Recoverable (save o (record s { phase = p }) Phase.rolled_back v)
      save-Post v q =
          let done : IsRestored w0 v = (((λ n. q.0.0.0.1 n refl), q.0.0.1), (q.0.1, q.1)) in
          attempt-Post Done Recoverable o
            (λ u. record u { journal = some (record s { phase = Phase.rolled_back }) })
            (λ u. record u { journal = some (record s { phase = Phase.rolled_back }) }) v
            (refl, done) (inl q.0.0.0.0) (inr (refl, done))

  rollback_with-Post :
      (o : Oracle) (p : Phase) (w : World)
      → (p ≡ Phase.activating) ⊎ (p ≡ Phase.active)
      → Live a w0 s w
      → Post Done Recoverable (rollback_with a o (record s { phase = p }) w)
  unfolding rollback_with
  rollback_with-Post o Phase.new w (inl e) live = cc
  rollback_with-Post o Phase.new w (inr e) live = cc
  rollback_with-Post o Phase.staged w (inl e) live = cc
  rollback_with-Post o Phase.staged w (inr e) live = cc
  rollback_with-Post o Phase.rolled_back w (inl e) live = cc
  rollback_with-Post o Phase.rolled_back w (inr e) live = cc
  rollback_with-Post o Phase.activating w e live = undo-Post o Phase.activating w live
  rollback_with-Post o Phase.active w e live = undo-Post o Phase.active w live

  again-Post :
      (o : Oracle) (w : World)
      → Done w
      → Post Done Recoverable (rollback_with a o (record s { phase = Phase.rolled_back }) w)
  unfolding rollback_with
  again-Post o w q = health-Post Done Recoverable a o (λ u t. (t, inr t)) w q

  rollback_state-Post :
      (o : Oracle) (w : World)
      → Recoverable w
      → Post Done Recoverable (rollback_state a o (state a w) w)
  rollback_state-Post o w (inl (safe, (p, (j, phase)))) =
      elim (state_or_none a w (record s { phase = p }) j) [
        | inl e ↦
            subst (λ t. Post Done Recoverable (rollback_state a o t w)) (sym e)
              (inl (safe, (p, (j, phase))))
        | inr e ↦
            subst (λ t. Post Done Recoverable (rollback_state a o t w)) (sym e)
              (rollback_with-Post o p w phase (safe, (p, (j, phase))))
      ]
  rollback_state-Post o w (inr done) =
      elim (state_or_none a w (record s { phase = Phase.rolled_back }) done.0) [
        | inl e ↦ subst (λ t. Post Done Recoverable (rollback_state a o t w)) (sym e) (inr done)
        | inr e ↦
            subst (λ t. Post Done Recoverable (rollback_state a o t w)) (sym e)
              (again-Post o w done)
      ]

  -- From a recoverable world a rollback that succeeds restores the world before the activation, and
  -- one that fails leaves the world recoverable.
  pub rollback-Post :
      (o : Oracle) (w : World) → Recoverable w → Post Done Recoverable (rollback a o w)
  unfolding rollback
  rollback-Post o w q = elim (Bool-cases (maintained w)) [
    | inl e ↦
        subst
          (λ b. Post Done Recoverable (if b then rollback_state a o (state a w) w else raised w))
          (sym e) (rollback_state-Post o w q)
    | inr e ↦
        subst
          (λ b. Post Done Recoverable (if b then rollback_state a o (state a w) w else raised w))
          (sym e) q
  ]
