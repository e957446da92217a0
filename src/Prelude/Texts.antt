-- ===== src/Prelude/Texts.antt =====
-- Sets of texts as Python's `set` and `sorted(set(...))` make them.
use Prim.Native.String.{String, compare}
use Prim.Native.Nat.{Ordering}
use mathlib.Core.Path.{◌≡◌, refl, sym, subst}
use mathlib.Core.Logic.{◌⊎◌}
use mathlib.Core.Bool.{Bool, true}
use mathlib.Core.List.{List, [], ◌∷◌}
use native.Mathlib.Omega.{arith}
use cloud_billing_console.Prelude.Tests.{str_eq, str_eq_iff}
use cloud_billing_console.Prelude.Lists.{In, any}
use cloud_billing_console.Prelude.Search.{any-In, any-true}

-- a in xs
abbrev pub has : List String → String → Bool
has xs a = any (str_eq a) xs

-- The truth value of set(xs) & set(ys).
abbrev pub meets : List String → List String → Bool
meets xs ys = any (has ys) xs

insert_text : String → List String → List String
insert_text a [] = a ∷ []
insert_text a (b ∷ bs) = elim (compare a b) [
  | Ordering.lt ↦ a ∷ b ∷ bs
  | Ordering.eq ↦ b ∷ bs
  | Ordering.gt ↦ b ∷ insert_text a bs
]

-- sorted(set(xs)): texts compare by their characters.
unfoldable pub sorted_set : List String → List String
unfolding insert_text
sorted_set [] = []
sorted_set (a ∷ as_) = insert_text a (sorted_set as_)

pub has-In : (xs : List String) (a : String) → has xs a ≡ true → In a xs
has-In xs a h =
    let (x, i, e) = any-In (str_eq a) xs h in subst (λ y. In y xs) (sym ((str_eq_iff a x).0 e)) i

pub In-has : (xs : List String) (a : String) → In a xs → has xs a ≡ true
In-has xs a i = any-true (str_eq a) xs a i ((str_eq_iff a a).1 refl)

pub In-meets : (xs ys : List String) (a : String) → In a xs → In a ys → meets xs ys ≡ true
In-meets xs ys a i k = any-true (has ys) xs a i (In-has ys a k)

insert_text-In : (a x : String) (bs : List String) → (x ≡ a) ⊎ In x bs → In x (insert_text a bs)
unfolding insert_text
insert_text-In a x [] i = i
insert_text-In a x (b ∷ bs) i = ground (arith, insert_text-In a x bs, str_eq_iff a b)

In-insert_text : (a x : String) (bs : List String) → In x (insert_text a bs) → (x ≡ a) ⊎ In x bs
unfolding insert_text
In-insert_text a x [] i = i
In-insert_text a x (b ∷ bs) i = ground (arith, In-insert_text a x bs, str_eq_iff a b)

pub sorted_set-In : (xs : List String) (x : String) → In x xs → In x (sorted_set xs)
unfolding sorted_set
sorted_set-In [] x i = i
sorted_set-In (a ∷ xs) x i = ground (arith, insert_text-In a x (sorted_set xs), sorted_set-In xs x)

pub In-sorted_set : (xs : List String) (x : String) → In x (sorted_set xs) → In x xs
unfolding sorted_set
In-sorted_set [] x i = i
In-sorted_set (a ∷ xs) x i = ground (arith, In-insert_text a x (sorted_set xs), In-sorted_set xs x)
