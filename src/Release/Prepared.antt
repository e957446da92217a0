-- ===== src/Release/Prepared.antt =====
-- The preparation of an activation: where it is cut off nothing of the instance has changed, and where
-- it succeeds the backup is complete.
use cloud_billing_console.Prelude.{
  String, ◌≡◌, refl, sym, ap, ◌∙◌, inl, inr, Bool, true, false, not, Option, none, some, List, [],
  ◌∷◌, arith, str_eq, if◌then◌else◌, str_eq_iff, Bool-cases, is_some, In,
}
use cloud_billing_console.Prelude.Texts.{has}
use cloud_billing_console.Release.Files.{Files, content, content-store}
use cloud_billing_console.Release.World.{
  Environment, Venv, State, Backup, World, Agent, Oracle, ◌>>=◌, attempt, run, require, has_web,
  has_collector,
}
use cloud_billing_console.Release.Rollback.{when, torn_environment}
use cloud_billing_console.Release.Activate.{
  listed, prepare, back_up, back_up_content, back_up_web, with_copy, in_backup, map_backup,
  with_environment, empty_backup, prepared_state, is_absent, link_target,
}
use cloud_billing_console.Release.Outcomes.{
  Post, >>=-Post, attempt-Post, when-Post, require-Post, run-Post,
}
use cloud_billing_console.Release.Recoverable.{
  listed_in, venv_in, saved_in, environment_in, is_directory, IsSafeVenv, IsSafe, IsPrepared,
}

-- Nothing of the instance has changed, nor the journal.
abbrev pub IsUntouched : World → World → Type 0
IsUntouched w0 w =
    ((w.root ≡ w0.root) × (w.env ≡ w0.env))
    × ((w.venv ≡ w0.venv) × ((w.current ≡ w0.current) × (w.journal ≡ w0.journal)))

listed_exact :
    (root : Files) (ns : List String) (name : String) (e : Bool)
    → In (name, e) (listed root ns)
    → e ≡ is_some (content root name)
unfolding listed
listed_exact root [] name e i = absurd i
listed_exact root (n ∷ ns) name e (inl h) =
    ap (λ (i : String × Bool). i.1) h
    ∙ ap (λ x. is_some (content root x)) (sym (ap (λ (i : String × Bool). i.0) h))
listed_exact root (n ∷ ns) name e (inr i) = listed_exact root ns name e i

pub listed_in-has :
    (root : Files) (ns : List String) (name : String)
    → listed_in (listed root ns) name ≡ has ns name
unfolding listed
listed_in-has root [] name = refl
listed_in-has root (n ∷ ns) name =
    ground (arith, listed_in-has root ns name, str_eq_iff n name, str_eq_iff name n)

str_eq_flip : (x y : String) → str_eq x y ≡ str_eq y x
str_eq_flip x y = ground (arith, str_eq_iff x y, str_eq_iff y x)

saved_copied :
    (b : Option Backup) (n c name : String)
    → is_some b ≡ true
    → saved_in (map_backup (with_copy n c) b) name
      ≡ (if str_eq n name then some c else saved_in b name)
saved_copied none n c name e = cc
saved_copied (some b) n c name e = content-store b.saved n c name

map_backup_some : (f : Backup → Backup) (b : Option Backup) → is_some (map_backup f b) ≡ is_some b
map_backup_some f none = refl
map_backup_some f (some b) = refl

module _ (a : Agent) (w0 : World) (s0 : State) (all_names : List String) where
  abbrev Untouched : World → Type 0
  Untouched w = IsUntouched w0 w

  -- The backup has all names but those of `todo`.
  abbrev BackedUp : List String → World → Type 0
  BackedUp todo w =
      Untouched w
      × (((is_some w.backup ≡ true) × (venv_in w.backup ≡ none))
          × ((name c : String)
              → has all_names name ≡ true
              → has todo name ≡ false
              → content w0.root name ≡ some c
              → saved_in w.backup name ≡ some c))

  no_venv :
      (b : Option Backup) (n c : String)
      → venv_in b ≡ none
      → venv_in (map_backup (with_copy n c) b) ≡ none
  no_venv none n c e = e
  no_venv (some b) n c e = e

  back_up_content-Post :
      (o : Oracle) (n : String) (ns : List String) (c : Option String) (w : World)
      → content w0.root n ≡ c
      → BackedUp (n ∷ ns) w
      → Post (BackedUp ns) Untouched (back_up_content o n c w)
  unfolding back_up_content
  back_up_content-Post o n ns none w e (same, (b, done)) =
      (same, (b, (λ name c h t f. done name c h (rw (absent_differs name c f) t) f)))
    where
      absent_differs : (name c : String) → content w0.root name ≡ some c → str_eq name n ≡ false
      absent_differs name c f = elim (Bool-cases (str_eq name n)) [
        | inl h ↦ absurd (let g = sym f ∙ ap (content w0.root) ((str_eq_iff name n).0 h) ∙ e in cc)
        | inr h ↦ h
      ]
  back_up_content-Post o n ns (some c) w e (same, ((b, v), done)) =
      attempt-Post (BackedUp ns) Untouched o (in_backup (with_copy n c))
        (in_backup (with_copy n (o.torn w.ticks))) w
        (
          same,
          (
            (map_backup_some (with_copy n c) w.backup ∙ b, no_venv w.backup n c v),
            (λ name d h t f. saved_copied w.backup n c name b ∙ chosen name d h t f),
          ),
        )
        same same
    where
      chosen :
          (name d : String)
          → has all_names name ≡ true
          → has ns name ≡ false
          → content w0.root name ≡ some d
          → (if str_eq n name then some c else saved_in w.backup name) ≡ some d
      chosen name d h t f = elim (Bool-cases (str_eq n name)) [
        | inl g ↦ rw g (sym e ∙ ap (content w0.root) ((str_eq_iff n name).0 g) ∙ f)
        | inr g ↦ rw g (done name d h (rw (str_eq_flip name n ∙ g) t) f)
      ]

  back_up-Post :
      (o : Oracle) (ns : List String) (w : World)
      → BackedUp ns w
      → Post (BackedUp []) Untouched (back_up o ns w)
  unfolding back_up
  back_up-Post o [] w q = q
  back_up-Post o (n ∷ ns) w q =
      >>=-Post (BackedUp ns) Untouched (BackedUp []) (back_up_content o n (content w.root n) w)
        (back_up o ns)
        (back_up_content-Post o n ns (content w.root n) w (ap (λ fs. content fs n) (sym q.0.0.0)) q)
        (λ v r. back_up-Post o ns v r)

  abbrev WithWeb : World → Type 0
  WithWeb w = BackedUp [] w × (has_web a ≡ true → environment_in w.backup ≡ some w0.env)

  abbrev pub IsComplete : World → Type 0
  IsComplete w = WithWeb w × (has_collector a ≡ true → is_absent w.venv ≡ false)

  environment_saved :
      (b : Option Backup) (e : Environment)
      → is_some b ≡ true
      → environment_in (map_backup (with_environment e) b) ≡ some e
  environment_saved none e h = cc
  environment_saved (some b) e h = refl

  web_keeps :
      (w : World) (e : Environment) → BackedUp [] w → BackedUp [] (in_backup (with_environment e) w)
  web_keeps w e (same, ((b, v), done)) = (
    same,
    (
      (map_backup_some (with_environment e) w.backup ∙ b, same_venv w.backup ∙ v),
      (λ n c h t f. same_saved w.backup n ∙ done n c h t f),
    ),
  )
    where
      same_venv : (b : Option Backup) → venv_in (map_backup (with_environment e) b) ≡ venv_in b
      same_venv none = refl
      same_venv (some b) = refl

      same_saved :
          (b : Option Backup) (n : String)
          → saved_in (map_backup (with_environment e) b) n ≡ saved_in b n
      same_saved none n = refl
      same_saved (some b) n = refl

  back_up_web-Post :
      (o : Oracle) (w : World) → BackedUp [] w → Post WithWeb Untouched (back_up_web o s0 w)
  unfolding back_up_web
  back_up_web-Post o w q =
      >>=-Post WithWeb Untouched WithWeb
        (attempt o (in_backup (with_environment w.env))
          (in_backup (with_environment (torn_environment o w))) w)
        (when (not s0.additive_receipt) (run o))
        (attempt-Post WithWeb Untouched o (in_backup (with_environment w.env))
          (in_backup (with_environment (torn_environment o w))) w
          (web_keeps w w.env q, (λ _. environment_saved w.backup w.env q.1.0.0 ∙ ap some q.0.0.1))
          q.0 q.0)
        (λ v r.
          when-Post WithWeb Untouched (not s0.additive_receipt) (run o) v
            (λ _. run-Post WithWeb Untouched o (λ u t. (t, t.0.0)) v r) (λ _. r))

  pub prepare-Post : (o : Oracle) → Post IsComplete Untouched (prepare a o s0 all_names w0)
  unfolding prepare
  prepare-Post o =
      >>=-Post WithWeb Untouched IsComplete
        (require (not (is_some w0.backup)) w0
          >>= attempt o (λ v. record v { backup = some empty_backup })
              (λ v. record v { backup = some empty_backup })
          >>= back_up o all_names
          >>= when (has_web a) (back_up_web o s0))
        (when (has_collector a) (λ v. require (not (is_absent v.venv)) v))
        (>>=-Post (BackedUp []) Untouched WithWeb
          (require (not (is_some w0.backup)) w0
            >>= attempt o (λ v. record v { backup = some empty_backup })
                (λ v. record v { backup = some empty_backup })
            >>= back_up o all_names)
          (when (has_web a) (back_up_web o s0))
          (>>=-Post (BackedUp all_names) Untouched (BackedUp [])
            (require (not (is_some w0.backup)) w0
              >>= attempt o (λ v. record v { backup = some empty_backup })
                  (λ v. record v { backup = some empty_backup }))
            (back_up o all_names)
            (>>=-Post Untouched Untouched (BackedUp all_names)
              (require (not (is_some w0.backup)) w0)
              (attempt o (λ v. record v { backup = some empty_backup })
                (λ v. record v { backup = some empty_backup }))
              (require-Post Untouched Untouched (not (is_some w0.backup)) w0 (λ _. nothing) nothing)
              (λ v q.
                attempt-Post (BackedUp all_names) Untouched o
                  (λ u. record u { backup = some empty_backup })
                  (λ u. record u { backup = some empty_backup }) v
                  (q, ((refl, refl), (λ n c h t f. absurd (let g = sym h ∙ t in cc)))) q q))
            (λ v q. back_up-Post o all_names v q))
          (λ v q.
            when-Post WithWeb Untouched (has_web a) (back_up_web o s0) v
              (λ _. back_up_web-Post o v q) (λ e. (q, (λ f. absurd (let g = sym e ∙ f in cc))))))
        (λ v q.
          when-Post IsComplete Untouched (has_collector a) (λ u. require (not (is_absent u.venv)) u)
            v
            (λ _.
              require-Post IsComplete Untouched (not (is_absent v.venv)) v
                (λ e. (q, (λ _. not_true (is_absent v.venv) e))) q.0.0)
            (λ e. (q, (λ f. absurd (let g = sym e ∙ f in cc)))))
    where
      nothing : IsUntouched w0 w0
      nothing = ((refl, refl), (refl, (refl, refl)))

      not_true : (b : Bool) → not b ≡ true → b ≡ false
      not_true b e = ground arith

  -- The journal that is saved then says what is needed.
  pub prepared-IsPrepared : IsPrepared a w0 (prepared_state a w0 s0 all_names)
  prepared-IsPrepared = (
    (λ name e i. listed_exact w0.root all_names name e i),
    (refl, (λ c. ap (λ b. if b then link_target w0.venv else none) c)),
  )

  pub complete-IsSafe :
      (w : World) → IsComplete w → IsSafe a w0 (prepared_state a w0 s0 all_names) w
  complete-IsSafe w (((same, ((b, v), done)), web), collector) =
      ((
        (
          (
            (λ n h. ap (λ fs. content fs n) same.0.0),
            (λ n c h f. done n c (sym (listed_in-has w0.root all_names n) ∙ h) refl f),
          ),
          (web, (λ _. same.0.1)),
        ),
        (
          (
            (λ c. safe_venv w0.venv w.venv (venv_in w.backup) same.1.0 (collector c) v),
            (λ _. same.1.0),
          ),
          b,
        ),
      ))
    where
      safe_venv :
          (v0 u : Venv) (d : Option String)
          → u ≡ v0
          → is_absent u ≡ false
          → d ≡ none
          → IsSafeVenv v0 u d
      safe_venv Venv.absent u d e f g = let h = ap is_absent e in cc
      safe_venv (Venv.link t) u d e f g = (ap is_directory e, g)
      safe_venv (Venv.directory x) u d e f g = inl (e, g)
