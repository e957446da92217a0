-- ===== src/Prelude/Search.antt =====
-- Membership under `select`, and what `find` finds.
use mathlib.Core.Path.{◌≡◌, refl, sym, subst}
use mathlib.Core.Logic.{inl, inr}
use mathlib.Core.Bool.{Bool, true, false}
use mathlib.Core.Option.{none, some}
use mathlib.Core.List.{List, [], ◌∷◌, ◌++◌}
use native.Mathlib.Omega.{arith}
use cloud_billing_console.Prelude.Tests.{Bool-cases}
use cloud_billing_console.Prelude.Lists.{All, In, any, all, select, find}
use cloud_billing_console.Prelude.Rows.{Pairs, All-In}

module _ {A : Type 0} where
  pub In-of_select :
      (p : A → Bool) (xs : List A) (x : A) → In x (select p xs) → In x xs × (p x ≡ true)
  In-of_select p [] x i = absurd i
  In-of_select p (y ∷ ys) x i = ground (arith, In-of_select p ys x)

  pub In-select : (p : A → Bool) (xs : List A) (x : A) → In x xs → p x ≡ true → In x (select p xs)
  In-select p [] x i h = absurd i
  In-select p (y ∷ ys) x i h = ground (arith, In-select p ys x)

  pub In-append_left : (xs ys : List A) (a : A) → In a xs → In a (xs ++ ys)
  In-append_left [] ys a i = absurd i
  In-append_left (x ∷ xs) ys a (inl e) = inl e
  In-append_left (x ∷ xs) ys a (inr i) = inr (In-append_left xs ys a i)

  pub In-append_right : (xs ys : List A) (a : A) → In a ys → In a (xs ++ ys)
  In-append_right [] ys a i = i
  In-append_right (x ∷ xs) ys a i = inr (In-append_right xs ys a i)

  pub all-In : (p : A → Bool) (xs : List A) (x : A) → all p xs ≡ true → In x xs → p x ≡ true
  all-In p [] x h i = absurd i
  all-In p (y ∷ ys) x h i = ground (arith, all-In p ys x)

  pub select-All {κ} :
      (P : A → Type κ) (p : A → Bool) (xs : List A) → All P xs → All P (select p xs)
  select-All P p [] a = tt
  select-All P p (x ∷ xs) (h, a) = elim (Bool-cases (p x)) [
    | inl e ↦ rw e (h, select-All P p xs a)
    | inr e ↦ rw e (select-All P p xs a)
  ]

  pub All-of_In {κ} : (P : A → Type κ) (xs : List A) → ((x : A) → In x xs → P x) → All P xs
  All-of_In P [] h = tt
  All-of_In P (x ∷ xs) h = (h x (inl refl), All-of_In P xs (λ y i. h y (inr i)))

  pub find-some : (p : A → Bool) (xs : List A) {x : A} → find p xs ≡ some x → In x xs × (p x ≡ true)
  find-some p [] e = cc
  find-some p (y ∷ ys) {x} e = ground (arith, find-some p ys {x = x})

  pub find-none : (p : A → Bool) (xs : List A) (x : A) → find p xs ≡ none → In x xs → p x ≡ false
  find-none p [] x e i = absurd i
  find-none p (y ∷ ys) x e i = ground (arith, find-none p ys x)

  pub any-true : (p : A → Bool) (xs : List A) (x : A) → In x xs → p x ≡ true → any p xs ≡ true
  any-true p [] x i h = absurd i
  any-true p (y ∷ ys) x i h = ground (arith, any-true p ys x)

  pub any-false : (p : A → Bool) (xs : List A) → any p xs ≡ false → All (λ x. p x ≡ false) xs
  any-false p [] e = tt
  any-false p (y ∷ ys) e = ground (arith, any-false p ys)

  -- In a sorted list the first hit comes before every other hit.
  pub find-first :
      (R : A → A → Type 0) (p : A → Bool) (xs : List A)
      → ((a : A) → R a a)
      → Pairs R xs
      → (x y : A) → find p xs ≡ some x
      → In y xs
      → p y ≡ true
      → R x y
  find-first R p [] reflexive s x y e i h = absurd i
  find-first R p (z ∷ zs) reflexive (r, s) x y e i h = elim (Bool-cases (p z)) [
    | inl hit ↦ subst (λ v. R v y) (ground arith) (from_head i)
    | inr miss ↦ find-first R p zs reflexive s x y (rw miss at e) (ground arith) h
  ]
    where
      from_head : In y (z ∷ zs) → R z y
      from_head (inl same) = subst (R z) (sym same) (reflexive z)
      from_head (inr there) = All-In (R z) zs r there

  pub any-In : (p : A → Bool) (xs : List A) → any p xs ≡ true → (x : A) × In x xs × (p x ≡ true)
  any-In p [] e = cc
  any-In p (y ∷ ys) e = elim (Bool-cases (p y)) [
    | inl h ↦ (y, inl refl, h)
    | inr h ↦ (let (x, i, f) = any-In p ys (ground arith) in (x, inr i, f))
  ]

  pub any-refuted :
      (p : A → Bool) (xs : List A) → ((x : A) → In x xs → p x ≡ true → ⊥) → any p xs ≡ false
  any-refuted p xs h = elim (Bool-cases (any p xs)) [
    | inl e ↦ (let (x, i, f) = any-In p xs e in absurd (h x i f))
    | inr e ↦ e
  ]
