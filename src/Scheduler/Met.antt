-- ===== src/Scheduler/Met.antt =====
-- What a tick leaves for the connections that it goes through: their jobs of the slot.
use cloud_billing_console.Prelude.{
  ℕ, String, ◌≡◌, refl, sym, ap, ◌∙◌, subst, inl, inr, Bool, true, false, Option, none, some, List,
  [], ◌∷◌, ◌==◌, str_eq, In,
}
use cloud_billing_console.Prelude.Rows.{update}
use cloud_billing_console.Jobs.Types.{Settings}
use cloud_billing_console.Connection.Tables.{BillingSource, Tables, Config, source_row}
use cloud_billing_console.Scheduler.Slots.{Format, slot_for, collection_readiness}
use cloud_billing_console.Scheduler.Schedule.{
  plan_for, next_time, planned, schedule_source, schedule_if, schedule_row, schedule_one,
  schedule_each,
}
use cloud_billing_console.Scheduler.Idempotent.{IsPlanned, plan_for-Adds}
use cloud_billing_console.Scheduler.Later.{
  find-AreReplanned, update-AreReplanned, IsLater, IsLater-refl, IsLater-trans, IsMet, IsMet-later,
  readiness_replanned, IsPlanned-replanned,
}

some_injective : {a b : BillingSource} → some a ≡ some b → a ≡ b
some_injective e = cc

not_both : {b : Bool} → b ≡ true → b ≡ false → ⊥
not_both e f = cc

missing_row : {s : BillingSource} {o : Option BillingSource} → o ≡ none → o ≡ some s → ⊥
missing_row e f = cc

module _ (f : Format) (cfg : Config) (set : Settings) where
  schedule_source-IsLater :
      (jitter now : ℕ) (s : BillingSource) (t : Tables)
      → IsLater f cfg set t (schedule_source f cfg set jitter s now t).1
  unfolding schedule_source
  schedule_source-IsLater jitter now s t =
      let time : ℕ = next_time f cfg set (plan_for f cfg set jitter s now t.queue).primary now in
      record {
        sources =
            update (λ (r : BillingSource). r.id == s.id) (planned f cfg set (some time)) t.sources;
        queue = (plan_for f cfg set jitter s now t.queue).queue;
        same = refl;
        plans =
            update-AreReplanned (λ (r : BillingSource). r.id == s.id)
              (planned f cfg set (some time)) t.sources (λ r. (some time, false, refl));
        jobs = (plan_for-Adds f cfg set jitter s now t.queue).0;
      }

  unready-IsLater :
      (jitter : ℕ → ℕ) (now pk : ℕ) (t : Tables) (s : BillingSource)
      → IsLater f cfg set t (schedule_if f cfg set jitter now pk t s false).1
  unready-IsLater jitter now pk t s = record {
    sources =
        update (λ (r : BillingSource). r.id == pk)
          (λ (r : BillingSource). record r { next_run = none }) t.sources;
    queue = t.queue;
    same = refl;
    plans =
        update-AreReplanned (λ (r : BillingSource). r.id == pk)
          (λ (r : BillingSource). record r { next_run = none }) t.sources
          (λ r. (none, r.sync_requested, refl));
    jobs = λ p i. i;
  }

  -- The row of the key in later tables has the readiness and the jobs of the row before.
  meets :
      (slot pk : ℕ) (t u : Tables) (s : BillingSource) (l : IsLater f cfg set t u)
      → source_row t pk ≡ some s
      → (str_eq (collection_readiness cfg t s) "" ≡ true
          → IsPlanned f cfg set s slot (IsLater.queue l))
      → IsMet f cfg set slot pk u
  meets slot pk t u s l found planned = subst (IsMet f cfg set slot pk) (sym l.same) (λ r e ready.
      let (s', found', (time, sync, same)) = find-AreReplanned pk t.sources l.sources r l.plans e in
      let back : s ≡ s' = some_injective (sym found ∙ found') in
      let was_ready : str_eq (collection_readiness cfg t s) "" ≡ true =
        ap (λ (x : String). str_eq x "")
          (ap (collection_readiness cfg t) back
            ∙ sym (readiness_replanned f cfg set t time sync s' l.queue l.sources)
            ∙ sym (
                ap (collection_readiness cfg (record t { queue = l.queue; sources = l.sources }))
                  same))
        ∙ ready in
      subst (λ x. IsPlanned f cfg set x slot l.queue) (sym same)
        (IsPlanned-replanned f cfg set time sync s' slot l.queue
          (subst (λ x. IsPlanned f cfg set x slot l.queue) back (planned was_ready))))

  if-IsMet :
      (jitter : ℕ → ℕ) (now pk : ℕ) (t : Tables) (s : BillingSource) (b : Bool)
      → source_row t pk ≡ some s
      → str_eq (collection_readiness cfg t s) "" ≡ b
      → IsLater f cfg set t (schedule_if f cfg set jitter now pk t s b).1
        × IsMet f cfg set (slot_for now) pk (schedule_if f cfg set jitter now pk t s b).1
  if-IsMet jitter now pk t s true e h =
      let l : IsLater f cfg set t (schedule_source f cfg set (jitter pk) s now t).1 =
        schedule_source-IsLater (jitter pk) now s t in
      (
        l,
        meets (slot_for now) pk t (schedule_source f cfg set (jitter pk) s now t).1 s l e (λ r.
            unfold schedule_source-IsLater in
            (plan_for-Adds f cfg set (jitter pk) s now t.queue).1),
      )
  if-IsMet jitter now pk t s false e h = (
    unready-IsLater jitter now pk t s,
    meets (slot_for now) pk t (schedule_if f cfg set jitter now pk t s false).1 s
        (unready-IsLater jitter now pk t s) e (λ r. absurd (not_both r h)),
  )

  pub row-IsMet :
      (jitter : ℕ → ℕ) (now pk : ℕ) (t : Tables) (o : Option BillingSource)
      → source_row t pk ≡ o
      → IsLater f cfg set t (schedule_row f cfg set jitter now pk t o).1
        × IsMet f cfg set (slot_for now) pk (schedule_row f cfg set jitter now pk t o).1
  row-IsMet jitter now pk t none e = (IsLater-refl f cfg set t, λ s k r. absurd (missing_row e k))
  row-IsMet jitter now pk t (some s) e = if-IsMet jitter now pk t s _ e refl

  -- What is so for each key of the list.
  abbrev pub AllMet : ℕ → List ℕ → Tables → Type 0
  AllMet slot pks t = (pk : ℕ) → In pk pks → IsMet f cfg set slot pk t

  pub each-IsMet :
      (jitter : ℕ → ℕ) (now : ℕ) (pks : List ℕ) (t : Tables)
      → IsLater f cfg set t (schedule_each f cfg set jitter now pks t).1
        × AllMet (slot_for now) pks (schedule_each f cfg set jitter now pks t).1
  unfolding schedule_each schedule_one
  each-IsMet jitter now [] t = (IsLater-refl f cfg set t, λ pk i. absurd i)
  each-IsMet jitter now (pk ∷ pks) t =
      let t' : Tables = (schedule_one f cfg set jitter now pk t).1 in
      let u : Tables = (schedule_each f cfg set jitter now pks t').1 in
      let (l, m) = row-IsMet jitter now pk t (source_row t pk) refl in
      let (k, n) = each-IsMet jitter now pks t' in
      (
        IsLater-trans f cfg set t t' u l k,
        λ x i. elim i [
          | inl e ↦
              subst (λ y. IsMet f cfg set (slot_for now) y u) (sym e)
                (IsMet-later f cfg set (slot_for now) pk t' u k m)
          | inr j ↦ n x j
        ],
      )
