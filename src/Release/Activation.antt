-- ===== src/Release/Activation.antt =====
-- An activation that fails, and the rollbacks after it.
use cloud_billing_console.Prelude.{
  String, ◌≡◌, refl, sym, ap, ◌∙◌, subst, ◌⊎◌, inl, inr, true, false, not, some, List, [], ◌∷◌,
  ◌++◌, if◌then◌else◌, Bool-cases, All, In,
}
use cloud_billing_console.Prelude.Texts.{has, In-has, sorted_set, sorted_set-In}
use cloud_billing_console.Prelude.Search.{All-of_In, In-append_left, In-append_right, In-of_select}
use cloud_billing_console.Release.Files.{content}
use cloud_billing_console.Release.World.{
  Phase, State, World, Agent, Oracle, Outcome, ok, raised, ◌>>=◌, point_at, save, with_phase, state,
}
use cloud_billing_console.Release.Rollback.{
  rollback, rollback_with, rollback_state, maintained, is_rolled_back, is_untouched, undo, health,
}
use cloud_billing_console.Release.Activate.{
  prepare, install, or_rollback, failed, prepared_state, minus, release_files, previous_files,
  activate_staged, activate, activate_at, activate_state,
}
use cloud_billing_console.Release.Outcomes.{Post, >>=-Post, Post-map, attempt-Post}
use cloud_billing_console.Release.Recoverable.{listed_in, IsRestored, IsRecoverable}
use cloud_billing_console.Release.Restored.{Live}
use cloud_billing_console.Release.Reversal.{Done, Recoverable, rollback-Post, state_or_none}
use cloud_billing_console.Release.Installed.{install-Kept, point_at-Kept}
use cloud_billing_console.Release.Prepared.{
  IsUntouched, IsComplete, listed_in-has, prepare-Post, prepared-IsPrepared, complete-IsSafe,
}

-- The rollbacks with the given answers of the system, one after the other.
abbrev pub world_of : Outcome → World
world_of (ok w) = w
world_of (raised w) = w

abbrev pub rollbacks : Agent → List Oracle → World → World
rollbacks a [] w = w
rollbacks a (o ∷ os) w = rollbacks a os (world_of (rollback a o w))

abbrev Anything : World → Type 0
Anything w = Unit {0}

module _ (a : Agent) (w0 : World) (s0 : State) (files previous : List String) where
  abbrev all_names : List String
  all_names = sorted_set (files ++ previous)

  abbrev prepared : State
  prepared = prepared_state a w0 s0 all_names

  -- Either nothing has happened, or a rollback can undo it.
  abbrev Undoable : World → Type 0
  Undoable w = IsUntouched w0 w ⊎ IsRecoverable a w0 prepared w

  all_listed :
      (ns : List String)
      → ((n : String) → In n ns → In n (files ++ previous))
      → All (λ n. listed_in prepared.files n ≡ true) ns
  all_listed ns h =
      All-of_In (λ n. listed_in prepared.files n ≡ true) ns
        (λ n i.
          listed_in-has w0.root all_names n
          ∙ In-has all_names n (sorted_set-In (files ++ previous) n (h n i)))

  or_rollback-Post :
      (o : Oracle) (x : Outcome)
      → Post (Live a w0 prepared) (Live a w0 prepared) x
      → Post Anything Undoable (or_rollback a o x)
  unfolding or_rollback
  or_rollback-Post o (ok w) p = tt
  or_rollback-Post o (raised w) p =
      of_rollback (rollback a o w)
        (rollback-Post a w0 prepared (prepared-IsPrepared a w0 s0 all_names) o w (inl p))
    where
      of_rollback :
          (x : Outcome)
          → Post
              (Done a w0 prepared (prepared-IsPrepared a w0 s0 all_names))
              (Recoverable a w0 prepared (prepared-IsPrepared a w0 s0 all_names))
              x
          → Post Anything Undoable (failed x)
      of_rollback (ok v) q = inr (inr q)
      of_rollback (raised v) q = inr q

  staged-Post :
      (o : Oracle)
      → Post Anything Undoable (
          prepare a o s0 all_names w0
          >>= save o prepared Phase.activating
          >>= point_at o (some (record { release_id = a.release_id; phase = Phase.activating }))
          >>= (λ v. or_rollback a o (install a o prepared (minus previous files) files v)))
  staged-Post o =
      >>=-Post (Live a w0 prepared) Undoable Anything
        (prepare a o s0 all_names w0
          >>= save o prepared Phase.activating
          >>= point_at o (some (record { release_id = a.release_id; phase = Phase.activating })))
        (λ v. or_rollback a o (install a o prepared (minus previous files) files v))
        (>>=-Post (Live a w0 prepared) Undoable (Live a w0 prepared)
          (prepare a o s0 all_names w0 >>= save o prepared Phase.activating)
          (point_at o (some (record { release_id = a.release_id; phase = Phase.activating })))
          (>>=-Post (IsComplete a w0 s0 all_names) Undoable (Live a w0 prepared)
            (prepare a o s0 all_names w0) (save o prepared Phase.activating)
            (Post-map (IsComplete a w0 s0 all_names) (IsUntouched w0) (IsComplete a w0 s0 all_names)
              Undoable (prepare a o s0 all_names w0) (λ v q. q) (λ v q. inl q)
              (prepare-Post a w0 s0 all_names o))
            (λ v q. save-Post v q))
          (λ v q.
            Post-map (Live a w0 prepared) (Live a w0 prepared) (Live a w0 prepared) Undoable
              (point_at o (some (record { release_id = a.release_id; phase = Phase.activating })) v)
              (λ u r. r) (λ u r. inr (inl r))
              (point_at-Kept a w0 prepared o
                (some (record { release_id = a.release_id; phase = Phase.activating })) v q)))
        (λ v q. or_rollback-Post o (install a o prepared (minus previous files) files v) (
          install-Kept a w0 prepared o (minus previous files) files v
            (all_listed (minus previous files) (λ n i.
              In-append_right files previous n
                (In-of_select (λ x. not (has files x)) previous n i).0))
            (all_listed files (λ n i. In-append_left files previous n i)) q))
    where
      save-Post :
          (v : World)
          → IsComplete a w0 s0 all_names v
          → Post (Live a w0 prepared) Undoable (save o prepared Phase.activating v)
      save-Post v q =
          let after : Live a w0 prepared
              (record v { journal = some (with_phase Phase.activating prepared) }) =
            (complete-IsSafe a w0 s0 all_names v q, (Phase.activating, (refl, inl refl))) in
          attempt-Post (Live a w0 prepared) Undoable o
            (λ u. record u { journal = some (with_phase Phase.activating prepared) })
            (λ u. record u { journal = some (with_phase Phase.activating prepared) }) v after
            (inl q.0.0.0) (inr (inl after))

  staged_stays : (o : Oracle) (w : World) → s0.phase ≡ Phase.staged → rollback_with a o s0 w ≡ ok w
  unfolding rollback_with
  staged_stays o w p =
      ap
        (λ q.
          if is_rolled_back q then health a o w else if is_untouched q then ok w else undo a o s0 w)
        p

  idle-Post :
      (o : Oracle) (w : World)
      → w0.journal ≡ some s0
      → s0.phase ≡ Phase.staged
      → IsUntouched w0 w
      → Post (IsUntouched w0) (IsUntouched w0) (rollback a o w)
  unfolding rollback
  idle-Post o w j p q = elim (Bool-cases (maintained w)) [
    | inr e ↦
        subst
          (λ b.
            Post (IsUntouched w0) (IsUntouched w0)
              (if b then rollback_state a o (state a w) w else raised w))
          (sym e) q
    | inl e ↦
        subst
          (λ b.
            Post (IsUntouched w0) (IsUntouched w0)
              (if b then rollback_state a o (state a w) w else raised w))
          (sym e)
          (elim (state_or_none a w s0 (q.1.1.1 ∙ j)) [
            | inl f ↦
                subst (λ t. Post (IsUntouched w0) (IsUntouched w0) (rollback_state a o t w)) (sym f)
                  q
            | inr f ↦
                subst (λ t. Post (IsUntouched w0) (IsUntouched w0) (rollback_state a o t w)) (sym f)
                  (subst (Post (IsUntouched w0) (IsUntouched w0)) (sym (staged_stays o w p)) q)
          ])
  ]

  reversal-Post :
      (o : Oracle) (w : World)
      → w0.journal ≡ some s0
      → s0.phase ≡ Phase.staged
      → Undoable w
      → Post (λ v. Undoable v × IsRestored w0 v) Undoable (rollback a o w)
  reversal-Post o w j p (inl q) =
      Post-map (IsUntouched w0) (IsUntouched w0) (λ v. Undoable v × IsRestored w0 v) Undoable
        (rollback a o w)
        (λ v r. (inl r, (((λ n. ap (λ fs. content fs n) r.0.0), r.0.1), (r.1.0, r.1.1.0))))
        (λ v r. inl r) (idle-Post o w j p q)
  reversal-Post o w j p (inr q) =
      Post-map (Done a w0 prepared (prepared-IsPrepared a w0 s0 all_names))
        (Recoverable a w0 prepared (prepared-IsPrepared a w0 s0 all_names))
        (λ v. Undoable v × IsRestored w0 v) Undoable (rollback a o w) (λ v r. (inr (inr r), r.1))
        (λ v r. inr r) (rollback-Post a w0 prepared (prepared-IsPrepared a w0 s0 all_names) o w q)

  rollbacks-Undoable :
      (os : List Oracle) (w : World)
      → w0.journal ≡ some s0
      → s0.phase ≡ Phase.staged
      → Undoable w
      → Undoable (rollbacks a os w)
  rollbacks-Undoable [] w j p q = q
  rollbacks-Undoable (o ∷ os) w j p q =
      rollbacks-Undoable os (world_of (rollback a o w)) j p
        (of_outcome (rollback a o w) (reversal-Post o w j p q))
    where
      of_outcome :
          (x : Outcome)
          → Post (λ v. Undoable v × IsRestored w0 v) Undoable x
          → Undoable (world_of x)
      of_outcome (ok v) r = r.0
      of_outcome (raised v) r = r

  pub undone :
      (os : List Oracle) (o : Oracle) (w v : World)
      → w0.journal ≡ some s0
      → s0.phase ≡ Phase.staged
      → Undoable w
      → rollback a o (rollbacks a os w) ≡ ok v
      → IsRestored w0 v
  undone os o w v j p q e =
      (subst (Post (λ u. Undoable u × IsRestored w0 u) Undoable) e
        (reversal-Post o (rollbacks a os w) j p (rollbacks-Undoable os w j p q))).1

module _ (parts : String → List String) (suffix : String → String)
    (migrate : State → World → Outcome) (a : Agent) where
  -- What is to be shown of an activation.
  abbrev Goal : World → State → Outcome → Type 0
  Goal w0 s0 x =
      Post Anything
        (Undoable a w0 s0 (release_files parts suffix a) (previous_files parts suffix w0)) x

  activate_at_staged :
      (o : Oracle) (w : World) (s : State)
      → s.phase ≡ Phase.staged
      → s.additive_migration ≡ false
      → activate_at parts suffix migrate a o s.phase s w ≡ activate_staged parts suffix a o s w
  unfolding activate_at
  activate_at_staged o w s p m =
      ap (λ q. activate_at parts suffix migrate a o q s w) p
      ∙ ap
          (λ b.
            if b
            then (migrate s w
                >>= activate_staged parts suffix a o (record s { additive_receipt = true }))
            else activate_staged parts suffix a o s w)
          m

  staged_activation-Post :
      (o : Oracle) (w0 : World) (s0 : State)
      → Post Anything
          (Undoable a w0 s0 (release_files parts suffix a) (previous_files parts suffix w0))
          (activate_staged parts suffix a o s0 w0)
  unfolding activate_staged
  staged_activation-Post o w0 s0 =
      staged-Post a w0 s0 (release_files parts suffix a) (previous_files parts suffix w0) o

  activate-Post :
      (o : Oracle) (w0 : World) (s0 : State)
      → w0.journal ≡ some s0
      → s0.phase ≡ Phase.staged
      → s0.additive_migration ≡ false
      → Post Anything
          (Undoable a w0 s0 (release_files parts suffix a) (previous_files parts suffix w0))
          (activate parts suffix migrate a o w0)
  unfolding activate
  activate-Post o w0 s0 j p m = elim (Bool-cases (maintained w0)) [
    | inr e ↦
        subst
          (λ b.
            Goal w0 s0
              (if b then activate_state parts suffix migrate a o (state a w0) w0 else raised w0))
          (sym e) (inl nothing)
    | inl e ↦
        subst
          (λ b.
            Goal w0 s0
              (if b then activate_state parts suffix migrate a o (state a w0) w0 else raised w0))
          (sym e)
          (elim (state_or_none a w0 s0 j) [
            | inl f ↦
                subst (λ t. Goal w0 s0 (activate_state parts suffix migrate a o t w0)) (sym f)
                  (inl nothing)
            | inr f ↦
                subst (λ t. Goal w0 s0 (activate_state parts suffix migrate a o t w0)) (sym f)
                  (subst (Goal w0 s0) (sym (activate_at_staged o w0 s0 p m))
                    (staged_activation-Post o w0 s0))
          ])
  ]
    where
      nothing : IsUntouched w0 w0
      nothing = ((refl, refl), (refl, (refl, refl)))

  -- After an activation of a staged release that raised anywhere, at any command, copy or write, and
  -- after any rollbacks that failed in turn, a rollback that succeeds leaves every file, the
  -- environment, the virtualenv and the pointer to the current release as they were before the
  -- activation; the temporary file .env.release may be left. The release has no additive migration.
  pub rollback-activate :
      (o : Oracle) (w0 : World) (s0 : State)
      → w0.journal ≡ some s0
      → s0.phase ≡ Phase.staged
      → s0.additive_migration ≡ false
      → (w1 : World) → activate parts suffix migrate a o w0 ≡ raised w1
      → (os : List Oracle) (o2 : Oracle) (w2 : World) → rollback a o2 (rollbacks a os w1) ≡ ok w2
      → IsRestored w0 w2
  rollback-activate o w0 s0 j p m w1 e os o2 w2 f =
      undone a w0 s0 (release_files parts suffix a) (previous_files parts suffix w0) os o2 w1 w2 j p
        (subst
          (Post Anything
            (Undoable a w0 s0 (release_files parts suffix a) (previous_files parts suffix w0)))
          e (activate-Post o w0 s0 j p m))
        f
