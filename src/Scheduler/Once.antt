-- ===== src/Scheduler/Once.antt =====
-- Requests that are to be made once: what the first leaves, and that the next ones do nothing.
use cloud_billing_console.Prelude.{
  ℕ, String, ◌≡◌, refl, sym, ◌∙◌, subst, inl, inr, Bool, true, false, ◌||◌, none, List, [], ◌∷◌,
  ◌++◌, arith, str_eq, if◌then◌else◌, str_eq_iff, Bool-cases, any, select,
}
use cloud_billing_console.Jobs.Types.{Job, Db, Settings, is_active}
use cloud_billing_console.Jobs.Enqueue.{
  Request, enqueued, enqueue, enqueue_body, job_key, new_job, permitted, newest, join_or_insert,
  with_key, active_with_key,
}
use cloud_billing_console.Jobs.Coalescing.{current, insert-IsServed}
use cloud_billing_console.Connection.Tables.{Config}
use cloud_billing_console.Scheduler.Schedule.{also, Plan, plan_of, queue_once}
use cloud_billing_console.Scheduler.Slots.{Format}

abbrev pub has_key : String → Job → Bool
has_key k j = str_eq j.key k

-- Whatever a row of the one queue has, a row of the other has.
abbrev pub Extends : Db → Db → Type 0
Extends d d' = (p : Job → Bool) → any p d.jobs ≡ true → any p d'.jobs ≡ true

any-append : (p : Job → Bool) (xs ys : List Job) → any p (xs ++ ys) ≡ (any p xs || any p ys)
any-append p [] ys = refl
any-append p (x ∷ xs) ys = ground (arith, any-append p xs ys)

any-select : (p : Job → Bool) (xs : List Job) → any (λ x. true) (select p xs) ≡ any p xs
any-select p [] = refl
any-select p (x ∷ xs) = ground (arith, any-select p xs)

none_selected : (p q : Job → Bool) (xs : List Job) → any p xs ≡ false → select q (select p xs) ≡ []
none_selected p q [] e = refl
none_selected p q (x ∷ xs) e = ground (arith, none_selected p q xs)

none_active :
    (k : String) (xs : List Job) → any (has_key k) xs ≡ false → any (active_with_key k) xs ≡ false
none_active k [] e = refl
none_active k (x ∷ xs) e = ground (arith, none_active k xs)

module _ (f : Format) (cfg : Config) (set : Settings) where
  -- A plan that makes no job and leaves the queue `d` as it is.
  abbrev pub IsIdle : Plan → Db → Type 0
  IsIdle p d = (p.created ≡ 0) × (p.queue ≡ d)

  abbrev pub KeyIn : Request → Db → Type 0
  KeyIn r d = any (has_key (job_key f.name r)) d.jobs ≡ true

  abbrev rows : Request → Db → List Job
  rows r d = with_key f.name set none r (current d)

  -- The plan that `enqueue` makes, by its own two tests.
  queue_once_lem :
      (r : Request) (now : ℕ) (d : Db)
      → r.once ≡ true
      → queue_once f cfg set r now d
        ≡ plan_of (
            if any (λ x. true) (rows r d)
            then (enqueued (newest (rows r d)) false, d)
            else join_or_insert f.name set none r now
                (current d)
                d
                (newest (select (λ x. is_active x.status) (rows r d))))
  unfolding queue_once enqueue enqueue_body permitted
  queue_once_lem r now d o = rw o refl

  pub queue_once-IsIdle :
      (r : Request) (now : ℕ) (d : Db)
      → r.once ≡ true
      → KeyIn r d
      → IsIdle (queue_once f cfg set r now d) d
  queue_once-IsIdle r now d o k =
      subst (λ p. IsIdle p d) (sym (queue_once_lem r now d o))
        (rw (any-select (has_key (job_key f.name r)) d.jobs ∙ k) (refl, refl))

  -- A new row is the last one, and has the key.
  insert-Adds :
      (r : Request) (now : ℕ) (d : Db)
      → any (has_key (job_key f.name r)) d.jobs ≡ false
      → let p : Plan = plan_of (
          join_or_insert f.name set none r now
            (current d)
            d
            (newest (select (λ x. is_active x.status) (rows r d)))) in
        Extends d p.queue × KeyIn r p.queue
  unfolding join_or_insert newest new_job
  insert-Adds r now d e =
      rw
        (
          none_selected (has_key (job_key f.name r)) (λ x. is_active x.status) d.jobs e,
          insert-IsServed f.name set none r now d (none_active (job_key f.name r) d.jobs e),
        )
        (
          λ p h. any-append p d.jobs _ ∙ rw h refl,
          any-append (has_key (job_key f.name r)) d.jobs _
              ∙ ground (arith, str_eq_iff (job_key f.name r) (job_key f.name r)),
        )

  -- Whatever the queue was, the key is in it afterwards, and nothing is lost.
  pub queue_once-Adds :
      (r : Request) (now : ℕ) (d : Db)
      → r.once ≡ true
      → Extends d (queue_once f cfg set r now d).queue
        × KeyIn r (queue_once f cfg set r now d).queue
  queue_once-Adds r now d o = elim (Bool-cases (any (has_key (job_key f.name r)) d.jobs)) [
    | inl k ↦ (
      subst (λ q. Extends d q) (sym (queue_once-IsIdle r now d o k).1) (λ p h. h),
      subst (λ q. KeyIn r q) (sym (queue_once-IsIdle r now d o k).1) k,
    )
    | inr e ↦
        subst (λ (p : Plan). Extends d p.queue × KeyIn r p.queue) (sym (queue_once_lem r now d o))
          (rw (any-select (has_key (job_key f.name r)) d.jobs ∙ e) (insert-Adds r now d e))
  ]

  -- The same for `also`, on a queue that is `d`.
  pub again-IsIdle :
      (r : Request) (now : ℕ) (p : Plan) (d : Db)
      → r.once ≡ true
      → KeyIn r d
      → IsIdle p d
      → IsIdle (also f cfg set r now p) d
  unfolding also
  again-IsIdle r now p d o k (z, q) =
      let (z', q') = queue_once-IsIdle r now p.queue o (subst (λ x. KeyIn r x) (sym q) k) in
      (omega arith, q' ∙ q)
