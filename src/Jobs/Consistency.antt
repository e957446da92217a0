-- ===== src/Jobs/Consistency.antt =====
-- The consistency of the table `Job`: what holds of each row and of each two rows, and which
-- updates keep it.
use cloud_billing_console.Prelude.{
  In, ℕ, ◌≤◌, ◌<◌, ◌≡◌, ◌≢◌, Bool, true, Option, some, List, [], ◌∷◌, arith, is_some, All, inl, inr,
}
use mathlib.Core.Path.{subst₂, sym}
use cloud_billing_console.Prelude.Rows.{
  touch, update, Pairs, All-update, All-and, All-map, All-In, Pairs-update,
}
use cloud_billing_console.Jobs.Types.{Job, Db, is_queued, is_leased, is_active}

-- `n` is the key that the table gives to its next row.
pub record RowFits (n : ℕ) (j : Job) : Type 0 where
  pub known : j.pk < n
  pub bounded : j.attempts ≤ j.max_attempts
  pub attempts_left : is_queued j.status ≡ true → j.attempts < j.max_attempts
  pub attempt_made : is_leased j.status ≡ true → 0 < j.attempts
  pub lease_set : is_some j.lease_expires ≡ is_leased j.status

abbrev pub SourcesDiffer : Option ℕ → Option ℕ → Type 0
SourcesDiffer (some a) (some b) = a ≢ b
SourcesDiffer _ _ = Unit

-- Two rows: their keys differ, at most one of a key is active, one of a source is leased.
pub record Compatible (x y : Job) : Type 0 where
  pub keys : x.pk ≢ y.pk
  pub active_keys : is_active x.status ≡ true → is_active y.status ≡ true → x.key ≢ y.key
  pub leased_sources :
      is_leased x.status ≡ true → is_leased y.status ≡ true → SourcesDiffer x.source y.source

pub record IsConsistent (d : Db) : Type 0 where
  pub rows : All (RowFits d.next_pk) d.jobs
  pub pairs : Pairs Compatible d.jobs

-- `x` claims no more than `y`: it is the same job, active or leased only if `y` is.
pub record Weaker (x y : Job) : Type 0 where
  pub same_pk : x.pk ≡ y.pk
  pub same_key : x.key ≡ y.key
  pub same_source : x.source ≡ y.source
  pub active : is_active x.status ≡ true → is_active y.status ≡ true
  pub leased : is_leased x.status ≡ true → is_leased y.status ≡ true

pub Weaker-Compatible :
    (x y x' y' : Job) → Weaker x' x → Weaker y' y → Compatible x y → Compatible x' y'
Weaker-Compatible x y x' y' wx wy c = record {
  keys = ground arith;
  active_keys = λ a b e. c.active_keys (wx.active a) (wy.active b) (cc);
  leased_sources = λ a b.
      subst₂ SourcesDiffer (sym wx.same_source) (sym wy.same_source)
        (c.leased_sources (wx.leased a) (wy.leased b));
}

pub update-Pairs :
    (q : Job → Bool) (u : Job → Job) (xs : List Job)
    → ((r : Job) → Weaker (touch q u r) r)
    → Pairs Compatible xs
    → Pairs Compatible (update q u xs)
update-Pairs q u xs w p =
    Pairs-update (λ r. Unit {0}) Compatible Compatible q u
      (λ x y a b c. Weaker-Compatible x y (touch q u x) (touch q u y) (w x) (w y) c) xs
      (all_unit xs) p
  where
    all_unit : (ys : List Job) → All (λ r. Unit {0}) ys
    all_unit [] = tt
    all_unit (y ∷ ys) = (tt, all_unit ys)

-- The rows may be taken to satisfy a side condition that all of them satisfy.
pub update-rows :
    (S : Job → Type 0) (n : ℕ) (q : Job → Bool) (u : Job → Job) (xs : List Job)
    → ((r : Job) → S r → RowFits n r → RowFits n (touch q u r))
    → All S xs
    → All (RowFits n) xs
    → All (RowFits n) (update q u xs)
update-rows S n q u xs f s a =
    All-update (λ r. S r × RowFits n r) (RowFits n) q u (λ r (b, c). f r b c) xs
      (All-and S (RowFits n) xs s a)

-- An update that keeps the rows in shape and weakens them keeps the table consistent.
pub update-IsConsistent :
    (q : Job → Bool) (u : Job → Job) (d : Db)
    → ((r : Job) → RowFits d.next_pk r → RowFits d.next_pk (touch q u r))
    → ((r : Job) → Weaker (touch q u r) r)
    → IsConsistent d
    → IsConsistent (record d { jobs = update q u d.jobs })
update-IsConsistent q u d f w c = record {
  rows = All-update (RowFits d.next_pk) (RowFits d.next_pk) q u f d.jobs c.rows;
  pairs = update-Pairs q u d.jobs w c.pairs;
}

-- The keys are distinct: a row with the key of `j` is `j`.
pub only_row :
    (xs : List Job) (j : Job) → Pairs Compatible xs → In j xs → All (λ r. r.pk ≡ j.pk → r ≡ j) xs
only_row [] j p i = tt
only_row (x ∷ xs) j (r, p) (inl e) = (
  λ _. sym e,
  All-map (Compatible x) (λ y. y.pk ≡ j.pk → y ≡ j) (λ y c q. absurd (c.keys (cc))) xs r,
)
only_row (x ∷ xs) j (r, p) (inr i) =
    (λ q. absurd ((All-In (Compatible x) xs r i).keys q), only_row xs j p i)
