-- ===== src/Prelude/Rows.antt =====
-- Tables as lists of rows: `QuerySet.filter(...).update(...)`, and predicates on all rows and on
-- all pairs of rows that such updates keep.
use Prim.Native.Nat.{suc, ◌+◌}
use mathlib.Core.Path.{◌≡◌, refl, ap, sym, ◌∙◌}
use mathlib.Core.Logic.{inl, inr, ◌⊎◌}
use mathlib.Core.Bool.{Bool, false}
use mathlib.Core.List.{List, [], ◌∷◌, ◌++◌}
use native.Mathlib.Omega.{arith}
use cloud_billing_console.Prelude.Tests.{if◌then◌else◌}
use cloud_billing_console.Prelude.Lists.{All, In, length, any}

module _ {ℓ} {A : Type ℓ} where
  -- What an update with the filter `q` makes of one row.
  abbrev pub touch : (A → Bool) → (A → A) → A → A
  touch q u x = if q x then u x else x

  abbrev pub update : (A → Bool) → (A → A) → List A → List A
  update q u [] = []
  update q u (x ∷ xs) = touch q u x ∷ update q u xs

  -- `R` holds of every two rows at different places, the earlier one first.
  abbrev pub Pairs {κ} : (A → A → Type κ) → List A → Type (ℓ ⊔ κ)
  Pairs R [] = Unit
  Pairs R (x ∷ xs) = All (R x) xs × Pairs R xs

module _ {ℓ κ} {A : Type ℓ} where
  pub All-update :
      (P Q : A → Type κ) (q : A → Bool) (u : A → A)
      → ((x : A) → P x → Q (touch q u x))
      → (xs : List A) → All P xs
      → All Q (update q u xs)
  All-update P Q q u h [] a = tt
  All-update P Q q u h (x ∷ xs) (p, a) = (h x p, All-update P Q q u h xs a)

  pub update-All :
      (Q : A → Type κ) (q : A → Bool) (u : A → A) (xs : List A)
      → ((x : A) → Q (touch q u x))
      → All Q (update q u xs)
  update-All Q q u [] h = tt
  update-All Q q u (x ∷ xs) h = (h x, update-All Q q u xs h)

  pub All-map : (P Q : A → Type κ) → ((x : A) → P x → Q x) → (xs : List A) → All P xs → All Q xs
  All-map P Q h [] a = tt
  All-map P Q h (x ∷ xs) (p, a) = (h x p, All-map P Q h xs a)

  pub All-and : (P Q : A → Type κ) (xs : List A) → All P xs → All Q xs → All (λ x. P x × Q x) xs
  All-and P Q [] a b = tt
  All-and P Q (x ∷ xs) (p, a) (q, b) = ((p, q), All-and P Q xs a b)

  pub All-append-one :
      (P : A → Type κ) (xs : List A) (y : A) → All P xs → P y → All P (xs ++ y ∷ [])
  All-append-one P [] y a p = (p, tt)
  All-append-one P (x ∷ xs) y (h, a) p = (h, All-append-one P xs y a p)

  pub All-append : (P : A → Type κ) (xs ys : List A) → All P xs → All P ys → All P (xs ++ ys)
  All-append P [] ys a b = b
  All-append P (x ∷ xs) ys (p, a) b = (p, All-append P xs ys a b)

  -- Every row may be taken to satisfy what all rows satisfy.
  pub Pairs-update :
      (Q : A → Type κ) (R S : A → A → Type κ) (q : A → Bool) (u : A → A)
      → ((x y : A) → Q x → Q y → R x y → S (touch q u x) (touch q u y))
      → (xs : List A) → All Q xs
      → Pairs R xs
      → Pairs S (update q u xs)
  Pairs-update Q R S q u h [] a p = tt
  Pairs-update Q R S q u h (x ∷ xs) (c, a) (r, p) = (row xs a r, Pairs-update Q R S q u h xs a p)
    where
      row : (ys : List A) → All Q ys → All (R x) ys → All (S (touch q u x)) (update q u ys)
      row [] b s = tt
      row (y ∷ ys) (d, b) (e, s) = (h x y c d e, row ys b s)

  pub Pairs-append-one :
      (R : A → A → Type κ) (xs : List A) (y : A)
      → Pairs R xs
      → All (λ x. R x y) xs
      → Pairs R (xs ++ y ∷ [])
  Pairs-append-one R [] y p a = (tt, tt)
  Pairs-append-one R (x ∷ xs) y (r, p) (h, a) =
      (All-append-one (R x) xs y r h, Pairs-append-one R xs y p a)

module _ {κ} {A : Type 0} where
  pub All-In : (P : A → Type κ) (xs : List A) {x : A} → All P xs → In x xs → P x
  All-In P [] a i = absurd i
  All-In P (y ∷ ys) (p, a) (inl e) = rw e p
  All-In P (y ∷ ys) (p, a) (inr i) = All-In P ys a i

module _ {A : Type 0} where
  pub update-unmatched :
      (q : A → Bool) (u : A → A) (xs : List A) → All (λ x. q x ≡ false) xs → update q u xs ≡ xs
  update-unmatched q u [] a = refl
  update-unmatched q u (x ∷ xs) (h, a) = rw (h, update-unmatched q u xs a)

  pub any-unmatched : (q : A → Bool) (xs : List A) → All (λ x. q x ≡ false) xs → any q xs ≡ false
  any-unmatched q [] a = refl
  any-unmatched q (x ∷ xs) (h, a) = rw h (any-unmatched q xs a)

  -- Two members of the list are one, or related one way round.
  pub Pairs-In :
      (R : A → A → Type 0) (xs : List A) (x y : A)
      → Pairs R xs
      → In x xs
      → In y xs
      → (x ≡ y) ⊎ (R x y ⊎ R y x)
  Pairs-In R [] x y p i k = absurd i
  Pairs-In R (z ∷ zs) x y (r, p) (inl e) (inl f) = inl (cc)
  Pairs-In R (z ∷ zs) x y (r, p) (inl e) (inr k) = inr (inl (rw e (All-In (R z) zs r k)))
  Pairs-In R (z ∷ zs) x y (r, p) (inr i) (inl f) = inr (inr (rw f (All-In (R z) zs r i)))
  Pairs-In R (z ∷ zs) x y (r, p) (inr i) (inr k) = Pairs-In R zs x y p i k

  pub In-update_unmatched :
      (q : A → Bool) (u : A → A) (xs : List A) (x : A)
      → q x ≡ false
      → In x xs
      → In x (update q u xs)
  In-update_unmatched q u [] x h i = absurd i
  In-update_unmatched q u (y ∷ ys) x h (inl e) =
      inl (ap (λ (b : Bool). if b then u x else x) (sym h) ∙ ap (touch q u) e)
  In-update_unmatched q u (y ∷ ys) x h (inr i) = inr (In-update_unmatched q u ys x h i)

  pub In-update :
      (q : A → Bool) (u : A → A) (xs : List A) (x : A) → In x xs → In (touch q u x) (update q u xs)
  In-update q u [] x i = absurd i
  In-update q u (y ∷ ys) x (inl e) = inl (ap (touch q u) e)
  In-update q u (y ∷ ys) x (inr i) = inr (In-update q u ys x i)

  pub In-append_last : (xs : List A) (y : A) → In y (xs ++ y ∷ [])
  In-append_last [] y = inl refl
  In-append_last (x ∷ xs) y = inr (In-append_last xs y)

  pub length-update : (q : A → Bool) (u : A → A) (xs : List A) → length (update q u xs) ≡ length xs
  length-update q u [] = refl
  length-update q u (x ∷ xs) = ap suc (length-update q u xs)

  pub length-append-one : (xs : List A) (y : A) → length (xs ++ y ∷ []) ≡ length xs + 1
  length-append-one [] y = omega arith
  length-append-one (x ∷ xs) y = omega (arith, length-append-one xs y)
