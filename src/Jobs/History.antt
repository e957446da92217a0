-- ===== src/Jobs/History.antt =====
-- How the rows of `Job` may change: none is deleted, what names a job never changes, and its
-- attempts only grow. Each operation moves the table forward in this sense.
use cloud_billing_console.Prelude.{ℕ, ◌≤◌, ◌≡◌, Bool, List, [], ◌∷◌, ◌++◌, arith, All}
use cloud_billing_console.Prelude.Rows.{touch, update, All-map}
use cloud_billing_console.Jobs.Types.{Job, Db}

-- `y` is a later state of the row `x`.
pub record Evolves (x y : Job) : Type 0 where
  pub pk : y.pk ≡ x.pk
  pub kind : y.kind ≡ x.kind
  pub key : y.key ≡ x.key
  pub source : y.source ≡ x.source
  pub payload : y.payload ≡ x.payload
  pub max_attempts : y.max_attempts ≡ x.max_attempts
  pub created_at : y.created_at ≡ x.created_at
  pub attempts : x.attempts ≤ y.attempts

-- The rows `ys` are later states of `xs`, in order, and new rows with keys from `n` on.
abbrev pub Extends : ℕ → List Job → List Job → Type 0
Extends n [] ys = All (λ y. n ≤ y.pk) ys
Extends n (x ∷ xs) [] = ⊥
Extends n (x ∷ xs) (y ∷ ys) = Evolves x y × Extends n xs ys

infix 40 ◌⊑◌
pub record ◌⊑◌ (d e : Db) : Type 0 where
  pub rows : Extends d.next_pk d.jobs e.jobs
  pub keys : d.next_pk ≤ e.next_pk

pub Evolves-refl : (x : Job) → Evolves x x
Evolves-refl x = ground arith

Evolves-trans : {x y z : Job} → Evolves x y → Evolves y z → Evolves x z
Evolves-trans f g = ground arith

pub All-Extends :
    (S : Job → Type 0) (n : ℕ) (xs ys : List Job)
    → ((x y : Job) → Evolves x y → S x → S y)
    → ((y : Job) → n ≤ y.pk → S y)
    → Extends n xs ys
    → All S xs
    → All S ys
All-Extends S n [] ys closed fresh e a = All-map (λ y. n ≤ y.pk) S fresh ys e
All-Extends S n (x ∷ xs) [] closed fresh e a = absurd e
All-Extends S n (x ∷ xs) (y ∷ ys) closed fresh (f, e) (s, a) =
    (closed x y f s, All-Extends S n xs ys closed fresh e a)

pub Extends-refl : (n : ℕ) (xs : List Job) → Extends n xs xs
Extends-refl n [] = tt
Extends-refl n (x ∷ xs) = (Evolves-refl x, Extends-refl n xs)

pub Extends-trans :
    (n m : ℕ) (xs ys zs : List Job) → n ≤ m → Extends n xs ys → Extends m ys zs → Extends n xs zs
Extends-trans n m [] ys zs h e f =
    All-Extends (λ y. n ≤ y.pk) m ys zs (λ x y v p. omega (arith, v.pk)) (λ y p. omega arith) f e
Extends-trans n m (x ∷ xs) [] zs h e f = absurd e
Extends-trans n m (x ∷ xs) (y ∷ ys) [] h e f = absurd f
Extends-trans n m (x ∷ xs) (y ∷ ys) (z ∷ zs) h (v, e) (w, f) =
    (Evolves-trans v w, Extends-trans n m xs ys zs h e f)

pub ⊑-refl : (d : Db) → d ⊑ d
⊑-refl d = record { rows = Extends-refl d.next_pk d.jobs; keys = omega arith }

pub ⊑-trans : {d e f : Db} → d ⊑ e → e ⊑ f → d ⊑ f
⊑-trans {d} {e} {f} a b = record {
  rows = Extends-trans d.next_pk e.next_pk d.jobs e.jobs f.jobs a.keys a.rows b.rows;
  keys = omega (arith, a.keys, b.keys);
}

-- An update of columns that may change; the rows may be taken to satisfy a side condition.
pub update-Extends :
    (S : Job → Type 0) (n : ℕ) (q : Job → Bool) (u : Job → Job) (xs : List Job)
    → ((r : Job) → S r → Evolves r (touch q u r))
    → All S xs
    → Extends n xs (update q u xs)
update-Extends S n q u [] f a = tt
update-Extends S n q u (x ∷ xs) f (s, a) = (f x s, update-Extends S n q u xs f a)

Always : Job → Type 0
Always r = Unit

always : (xs : List Job) → All Always xs
unfolding Always
always [] = tt
always (x ∷ xs) = (tt, always xs)

pub plain-Extends :
    (n : ℕ) (q : Job → Bool) (u : Job → Job) (xs : List Job)
    → ((r : Job) → Evolves r (touch q u r))
    → Extends n xs (update q u xs)
plain-Extends n q u xs f = update-Extends Always n q u xs (λ r s. f r) (always xs)

pub append-Extends : (n : ℕ) (xs : List Job) (y : Job) → n ≤ y.pk → Extends n xs (xs ++ y ∷ [])
append-Extends n [] y h = (h, tt)
append-Extends n (x ∷ xs) y h = (Evolves-refl x, append-Extends n xs y h)
