-- ===== src/Scheduler/Later.antt =====
-- What scheduling leaves as it is: every table but the queue, to which jobs are added, and two
-- columns of the connections.
use cloud_billing_console.Prelude.{
  ℕ, String, ◌≡◌, refl, sym, ap, ◌∙◌, subst, ◌⊎◌, inl, inr, Bool, true, false, Option, some, List,
  [], ◌∷◌, map, ◌==◌, str_eq, if◌then◌else◌, Bool-cases, any, select, find,
}
use cloud_billing_console.Prelude.Rows.{update, touch}
use cloud_billing_console.Jobs.Types.{Db, Settings}
use cloud_billing_console.Connection.Tables.{BillingSource, Tables, Config, source_row}
use cloud_billing_console.Connection.Approval.{approval_ready}
use cloud_billing_console.Scheduler.Slots.{
  Format, collection_readiness, imports_budgets, budget_success, collection_initialized, is_pending,
}
use cloud_billing_console.Scheduler.Schedule.{is_connected}
use cloud_billing_console.Scheduler.Once.{Extends}
use cloud_billing_console.Scheduler.Idempotent.{IsPlanned, IsPlanned-Extends}

abbrev pub with_plan : Option ℕ → Bool → BillingSource → BillingSource
with_plan time sync s = record s { next_run = time; sync_requested = sync }

-- The rows are the same but for their plans.
abbrev pub AreReplanned : List BillingSource → List BillingSource → Type 0
AreReplanned [] [] = Unit
AreReplanned (s ∷ ss) (r ∷ rs) =
    ((time : Option ℕ) × (sync : Bool) × (r ≡ with_plan time sync s)) × AreReplanned ss rs
AreReplanned _ _ = ⊥

pub AreReplanned-refl : (ss : List BillingSource) → AreReplanned ss ss
AreReplanned-refl [] = tt
AreReplanned-refl (s ∷ ss) = ((s.next_run, s.sync_requested, refl), AreReplanned-refl ss)

pub AreReplanned-trans :
    (xs ys zs : List BillingSource) → AreReplanned xs ys → AreReplanned ys zs → AreReplanned xs zs
AreReplanned-trans [] [] [] a b = tt
AreReplanned-trans (x ∷ xs) (y ∷ ys) (z ∷ zs) ((t, s, e), a) ((t', s', e'), b) =
    ((t', s', e' ∙ ap (with_plan t' s') e), AreReplanned-trans xs ys zs a b)
AreReplanned-trans [] [] (z ∷ zs) a b = b
AreReplanned-trans [] (y ∷ ys) zs a b = absurd a
AreReplanned-trans (x ∷ xs) [] zs a b = absurd a
AreReplanned-trans (x ∷ xs) (y ∷ ys) [] a b = b

first_found :
    (b : Bool) (o : Option BillingSource) (y r : BillingSource)
    → (if b then some y else o) ≡ some r
    → ((b ≡ true) × (r ≡ y)) ⊎ ((b ≡ false) × (o ≡ some r))
first_found true o y r e = inl (refl, cc)
first_found false o y r e = inr (refl, e)

-- The row of a key, before the change of the plans.
pub find-AreReplanned :
    (pk : ℕ) (ss rs : List BillingSource) (r : BillingSource)
    → AreReplanned ss rs
    → find (λ (x : BillingSource). x.id == pk) rs ≡ some r
    → (s : BillingSource) × (find (λ (x : BillingSource). x.id == pk) ss ≡ some s)
      × ((time : Option ℕ) × (sync : Bool) × (r ≡ with_plan time sync s))
find-AreReplanned pk [] [] r a e = cc
find-AreReplanned pk [] (x ∷ rs) r a e = absurd a
find-AreReplanned pk (s ∷ ss) [] r a e = absurd a
find-AreReplanned pk (s ∷ ss) (x ∷ rs) r ((time, sync, same), a) e =
    elim (first_found (s.id == pk) (find (λ (y : BillingSource). y.id == pk) rs)
      (with_plan time sync s) r
      (subst (λ y. find (λ (z : BillingSource). z.id == pk) (y ∷ rs) ≡ some r) same e)) [
        | inl (h, k) ↦ (s, rw h refl, (time, sync, k))
        | inr (h, k) ↦ let (s', f, g) = find-AreReplanned pk ss rs r a k in (s', rw h f, g)
      ]

touch_plan :
    (q : BillingSource → Bool) (u : BillingSource → BillingSource) (s : BillingSource)
    → ((s : BillingSource) → (time : Option ℕ) × (sync : Bool) × (u s ≡ with_plan time sync s))
    → (time : Option ℕ) × (sync : Bool) × (touch q u s ≡ with_plan time sync s)
touch_plan q u s h = elim (Bool-cases (q s)) [
  | inl e ↦ rw e (h s)
  | inr e ↦ rw e (s.next_run, s.sync_requested, refl)
]

pub update-AreReplanned :
    (q : BillingSource → Bool) (u : BillingSource → BillingSource) (ss : List BillingSource)
    → ((s : BillingSource) → (time : Option ℕ) × (sync : Bool) × (u s ≡ with_plan time sync s))
    → AreReplanned ss (update q u ss)
update-AreReplanned q u [] h = tt
update-AreReplanned q u (s ∷ ss) h = (touch_plan q u s h, update-AreReplanned q u ss h)

id_of : BillingSource → ℕ
id_of s = s.id

ids_pick :
    (b c : Bool) (s r : BillingSource) (xs ys : List BillingSource)
    → b ≡ c
    → r.id ≡ s.id
    → map id_of xs ≡ map id_of ys
    → map id_of (if b then r ∷ xs else xs) ≡ map id_of (if c then s ∷ ys else ys)
unfolding id_of
ids_pick true true s r xs ys e i h = rw (i, h) refl
ids_pick false false s r xs ys e i h = h
ids_pick true false s r xs ys e i h = cc
ids_pick false true s r xs ys e i h = cc

module _ (f : Format) (cfg : Config) (set : Settings) where
  pub ids-AreReplanned :
      (t u : Tables) (ss rs : List BillingSource)
      → ((s : BillingSource) (time : Option ℕ) (sync : Bool)
          → is_connected f cfg set u (with_plan time sync s) ≡ is_connected f cfg set t s)
      → AreReplanned ss rs
      → map (λ (s : BillingSource). s.id) (select (is_connected f cfg set u) rs)
        ≡ map (λ (s : BillingSource). s.id) (select (is_connected f cfg set t) ss)
  unfolding id_of
  ids-AreReplanned t u [] [] h a = refl
  ids-AreReplanned t u [] (r ∷ rs) h a = absurd a
  ids-AreReplanned t u (s ∷ ss) [] h a = absurd a
  ids-AreReplanned t u (s ∷ ss) (r ∷ rs) h ((time, sync, e), a) =
      ids_pick (is_connected f cfg set u r) (is_connected f cfg set t s) s r
        (select (is_connected f cfg set u) rs) (select (is_connected f cfg set t) ss)
        (ap (is_connected f cfg set u) e ∙ h s time sync) (ap (λ (x : BillingSource). x.id) e)
        (ids-AreReplanned t u ss rs h a)

  -- The tables `u` are later ones: all but the queue and the plans is the same.
  pub record IsLater (t u : Tables) : Type 0 where
    pub sources : List BillingSource
    pub queue : Db
    pub same : u ≡ record t { queue = queue; sources = sources }
    pub plans : AreReplanned t.sources sources
    pub jobs : Extends t.queue queue

  pub IsLater-refl : (t : Tables) → IsLater t t
  IsLater-refl t = record {
    sources = t.sources;
    queue = t.queue;
    same = refl;
    plans = AreReplanned-refl t.sources;
    jobs = λ p i. i;
  }

  pub IsLater-trans : (t u v : Tables) → IsLater t u → IsLater u v → IsLater t v
  IsLater-trans t u v a b = record {
    sources = b.sources;
    queue = b.queue;
    same = b.same ∙ ap (λ (x : Tables). record x { queue = b.queue; sources = b.sources }) a.same;
    plans =
        AreReplanned-trans t.sources a.sources b.sources a.plans
          (subst (λ (x : Tables). AreReplanned x.sources b.sources) a.same b.plans);
    jobs = λ p i.
        subst (λ (x : Tables). any p x.queue.jobs ≡ true → any p b.queue.jobs ≡ true) a.same
          (b.jobs p) (a.jobs p i);
  }

  -- A connection that a tick has met: if it is ready, it has its jobs of the slot.
  abbrev pub IsMet : ℕ → ℕ → Tables → Type 0
  IsMet slot pk t =
      (s : BillingSource)
      → source_row t pk ≡ some s
      → str_eq (collection_readiness cfg t s) "" ≡ true
      → IsPlanned f cfg set s slot t.queue

  pub readiness_replanned :
      (t : Tables) (time : Option ℕ) (sync : Bool) (s : BillingSource) (d : Db)
      (rows : List BillingSource)
      → collection_readiness cfg (record t { queue = d; sources = rows }) (with_plan time sync s)
        ≡ collection_readiness cfg t s
  unfolding collection_readiness approval_ready imports_budgets
  readiness_replanned t time sync s d rows = refl

  pub IsPlanned-replanned :
      (time : Option ℕ) (sync : Bool) (s : BillingSource) (slot : ℕ) (d : Db)
      → IsPlanned f cfg set s slot d
      → IsPlanned f cfg set (with_plan time sync s) slot d
  unfolding imports_budgets budget_success collection_initialized is_pending
  IsPlanned-replanned time sync s slot d h = h

  abbrev later_tables : (t : Tables) → {u : Tables} → IsLater t u → Tables
  later_tables t l = record t { queue = l.queue; sources = l.sources }

  pub IsMet-later : (slot pk : ℕ) (t u : Tables) → IsLater t u → IsMet slot pk t → IsMet slot pk u
  unfolding collection_readiness
  IsMet-later slot pk t u l m = subst (IsMet slot pk) (sym l.same) (λ r e ready.
      let (s, found, (time, sync, same)) = find-AreReplanned pk t.sources l.sources r l.plans e in
      subst (λ x. IsPlanned f cfg set x slot l.queue) (sym same)
        (IsPlanned-replanned time sync s slot l.queue (
          IsPlanned-Extends f cfg set s slot t.queue l.queue l.jobs (
            m s found (
              ap (λ (x : String). str_eq x "")
                (sym (
                  ap (collection_readiness cfg (later_tables t l)) same
                  ∙ readiness_replanned t time sync s l.queue l.sources))
              ∙ ready)))))
