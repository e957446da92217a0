-- ===== src/Scheduler/Settled.antt =====
-- One job of a slot: the request for it leaves a pending job or its key, and does nothing where
-- there is one already.
use cloud_billing_console.Prelude.{
  ℕ, String, ◌≡◌, refl, sym, ap, ◌∙◌, subst, Bool, true, ◌||◌, Option, none, some, List, [], ◌∷◌,
  arith, str_eq, if◌then◌else◌, is_some, any, select,
}
use Prim.Native.String.{◌++◌ as text_append}
use cloud_billing_console.Jobs.Types.{Job, Db, Settings}
use cloud_billing_console.Jobs.Enqueue.{Request, job_key}
use cloud_billing_console.Connection.Tables.{BillingSource, Config}
use cloud_billing_console.Scheduler.Slots.{Format, is_pending, oldest, pending_job, key_at}
use cloud_billing_console.Scheduler.Schedule.{Plan, queue_once, also, unless_pending}
use cloud_billing_console.Scheduler.Once.{
  Extends, has_key, IsIdle, queue_once-IsIdle, queue_once-Adds, again-IsIdle,
}

any-or_left : (p q : Job → Bool) (xs : List Job) → any p xs ≡ true → any (λ j. p j || q j) xs ≡ true
any-or_left p q [] e = e
any-or_left p q (x ∷ xs) e = ground (arith, any-or_left p q xs)

any-or_right :
    (p q : Job → Bool) (xs : List Job) → any q xs ≡ true → any (λ j. p j || q j) xs ≡ true
any-or_right p q [] e = e
any-or_right p q (x ∷ xs) e = ground (arith, any-or_right p q xs)

-- Without a job that `oldest` finds, the other test is what holds of a row.
oldest-none :
    (p q : Job → Bool) (xs : List Job)
    → oldest (select p xs) ≡ none
    → any (λ j. p j || q j) xs ≡ true
    → any q xs ≡ true
unfolding oldest
oldest-none p q [] n e = e
oldest-none p q (x ∷ xs) n e = ground (arith, oldest-none p q xs)

oldest-any : (p : Job → Bool) (xs : List Job) → is_some (oldest (select p xs)) ≡ any p xs
unfolding oldest
oldest-any p [] = refl
oldest-any p (x ∷ xs) = ground (arith, oldest-any p xs)

module _ (f : Format) (cfg : Config) (set : Settings) where
  -- The key that `enqueue` gives the job of a slot.
  abbrev pub source_key : BillingSource → String → ℕ → String
  source_key s kind slot =
      if str_eq (key_at f s kind slot) ""
      then text_append kind (text_append ":" (f.name s.id))
      else key_at f s kind slot

  abbrev pub Keyed : String → Db → Type 0
  Keyed k d = any (has_key k) d.jobs ≡ true

  -- A job of the kind is pending, or the key has been used.
  abbrev pub IsSettled : BillingSource → String → ℕ → Db → Type 0
  IsSettled s kind slot d =
      any (λ j. is_pending s kind j || has_key (source_key s kind slot) j) d.jobs ≡ true

  pub unless_pending-Adds :
      (s : BillingSource) (kind : String) (slot : ℕ) (r : Request) (now : ℕ) (d : Db)
      (found : Option Job)
      → r.once ≡ true
      → job_key f.name r ≡ source_key s kind slot
      → pending_job s kind d.jobs ≡ found
      → let p : Plan = unless_pending f cfg set found r now d in
        Extends d p.queue × IsSettled s kind slot p.queue
  unfolding unless_pending pending_job
  unless_pending-Adds s kind slot r now d none o e h =
      let (x, k) = queue_once-Adds f cfg set r now d o in
      let d' : Db = (queue_once f cfg set r now d).queue in
      (
        x,
        any-or_right (is_pending s kind) (has_key (source_key s kind slot)) d'.jobs
            (subst (λ k. Keyed k d') e k),
      )
  unless_pending-Adds s kind slot r now d (some j) o e h = (
    λ p i. i,
    any-or_left (is_pending s kind) (has_key (source_key s kind slot)) d.jobs
        (sym (oldest-any (is_pending s kind) d.jobs) ∙ ap is_some h),
  )

  pub unless_pending-IsIdle :
      (s : BillingSource) (kind : String) (slot : ℕ) (r : Request) (now : ℕ) (d : Db)
      (found : Option Job)
      → r.once ≡ true
      → job_key f.name r ≡ source_key s kind slot
      → pending_job s kind d.jobs ≡ found
      → IsSettled s kind slot d
      → IsIdle f cfg set (unless_pending f cfg set found r now d) d
  unfolding unless_pending pending_job
  unless_pending-IsIdle s kind slot r now d none o e h i = queue_once-IsIdle f cfg set r now d o (
      subst (λ k. Keyed k d) (sym e)
        (oldest-none (is_pending s kind) (has_key (source_key s kind slot)) d.jobs h i))
  unless_pending-IsIdle s kind slot r now d (some j) o e h i = (refl, refl)

  pub also-Adds :
      (s : BillingSource) (kind : String) (slot : ℕ) (r : Request) (now : ℕ) (p : Plan)
      → r.once ≡ true
      → job_key f.name r ≡ source_key s kind slot
      → Extends p.queue (also f cfg set r now p).queue
        × Keyed (source_key s kind slot) (also f cfg set r now p).queue
  unfolding also
  also-Adds s kind slot r now p o e =
      let (x, k) = queue_once-Adds f cfg set r now p.queue o in
      (x, subst (λ k. Keyed k (queue_once f cfg set r now p.queue).queue) e k)

  pub also-IsIdle :
      (s : BillingSource) (kind : String) (slot : ℕ) (r : Request) (now : ℕ) (p : Plan) (d : Db)
      → r.once ≡ true
      → job_key f.name r ≡ source_key s kind slot
      → Keyed (source_key s kind slot) d
      → IsIdle f cfg set p d
      → IsIdle f cfg set (also f cfg set r now p) d
  also-IsIdle s kind slot r now p d o e k i =
      again-IsIdle f cfg set r now p d o (subst (λ k. Keyed k d) (sym e) k) i
