-- ===== src/Scope/Windows.antt =====
-- `ownership_windows` of billing/scope.py: intervals in which a customer owns the same accounts of a
-- connection.
use cloud_billing_console.Prelude.{
  ℕ, min, max, String, Bool, true, ◌&&◌, Option, none, some, List, [], ◌∷◌, ◌++◌, map, ltb, ◌==◌,
  if◌then◌else◌, select,
}
use cloud_billing_console.Prelude.Texts.{has, sorted_set}
use cloud_billing_console.Scope.Ownership.{Assignment, ends_after, owned_on}

pub record Window : Type 0 where
  pub left : ℕ
  pub right : ℕ
  pub ids : Option (List String)

abbrev pub insert_number : ℕ → List ℕ → List ℕ
insert_number a [] = a ∷ []
insert_number a (b ∷ bs) =
    let rest = insert_number a bs in
    if ltb a b then a ∷ b ∷ bs else if a == b then b ∷ bs else b ∷ rest

-- sorted(...) of a set of days
unfoldable pub sorted_days : List ℕ → List ℕ
sorted_days [] = []
sorted_days (a ∷ as_) = insert_number a (sorted_days as_)

-- The assignments that overlap the interval.
abbrev pub is_overlapping : ℕ → ℕ → ℕ → ℕ → Assignment → Bool
is_overlapping customer source start end a =
    (a.customer == customer) && (a.source == source) && ltb a.start end && ends_after start a.end

abbrev pub starts : ℕ → List Assignment → List ℕ
starts start [] = []
starts start (a ∷ as_) = max start a.start ∷ starts start as_

abbrev pub with_end : ℕ → Option ℕ → List ℕ → List ℕ
with_end end none rest = rest
with_end end (some e) rest = min end e ∷ rest

abbrev pub ends : ℕ → List Assignment → List ℕ
ends end [] = []
ends end (a ∷ as_) = with_end end a.end (ends end as_)

unfoldable pub boundaries : ℕ → ℕ → List Assignment → List ℕ
unfolding sorted_days
boundaries start end rows = sorted_days (start ∷ end ∷ (starts start rows ++ ends end rows))

-- not permitted or account in permitted, of the accounts that the access names for the customer.
abbrev pub permits : Option (List String) → String → Bool
permits none account = true
permits (some []) account = true
permits (some (p ∷ ps)) account = has (p ∷ ps) account

abbrev pub covers_permitted : Option (List String) → ℕ → Assignment → Bool
covers_permitted permitted day a = owned_on (some day) a && permits permitted a.account_id

unfoldable pub ids_at : Option (List String) → List Assignment → ℕ → List String
unfolding sorted_set
ids_at permitted rows day =
    sorted_set
      (map (λ (a : Assignment). a.account_id) (select (covers_permitted permitted day) rows))

abbrev pub with_window : ℕ → ℕ → List String → List Window → List Window
with_window left right [] rest = rest
with_window left right (i ∷ is_) rest =
    record { left = left; right = right; ids = some (i ∷ is_) } ∷ rest

-- The loop over zip(boundaries, boundaries[1:]), from the boundary `left` on.
unfoldable pub windows : (ℕ → List String) → ℕ → List ℕ → List Window
windows f left [] = []
windows f left (right ∷ rest) = with_window left right (f left) (windows f right rest)

abbrev pub windows_of : (ℕ → List String) → List ℕ → List Window
windows_of f [] = []
windows_of f (left ∷ rest) = windows f left rest

unfoldable pub ownership_windows :
    List Assignment → ℕ → Option ℕ → ℕ → ℕ → Option (List String) → List Window
unfolding boundaries ids_at windows
ownership_windows rows source none start end permitted =
    record { left = start; right = end; ids = none } ∷ []
ownership_windows rows source (some customer) start end permitted =
    let overlapping : List Assignment = select (is_overlapping customer source start end) rows in
    windows_of (ids_at permitted overlapping) (boundaries start end overlapping)
