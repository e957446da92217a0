-- ===== src/Activation/Calls.antt =====
-- Calls that may end in an exception: what holds of their values, and what a value says of the calls
-- before it; and the lookup of a request that has been saved.
use cloud_billing_console.Prelude.{
  ℕ, String, ◌≡◌, refl, subst, Bool, true, false, not, Option, none, some, List, [], ◌∷◌, arith,
  ◌==◌, if◌then◌else◌, find,
}
use cloud_billing_console.Prelude.Rows.{update}
use cloud_billing_console.Jobs.Types.{Job}
use cloud_billing_console.Connection.Tables.{
  ActivationRequest, Tables, Try, refused, broken, done, unless, then_do,
}
use cloud_billing_console.Activation.Process.{request_row, save_request}
use cloud_billing_console.Activation.Completion.{missing_reason}

-- What holds of the value of a call, if it gives one.
pub record Gives {A : Type 0} (P : A → Type 0) (x : Try A) : Type 0 where
  pub given : (a : A) → x ≡ done a → P a

pub done_injective : {A : Type 0} {a b : A} → done a ≡ done b → a ≡ b
done_injective e = cc

module _ {A : Type 0} (P : A → Type 0) where
  pub unless-Gives :
      {b : Bool} (message : String) {x : Try A}
      → (b ≡ true → Gives P x)
      → Gives P (unless b message x)
  unless-Gives {b = true} message h = h refl
  unless-Gives {b = false} message h = record { given = λ a e. cc }

  pub refused-Gives : {message : String} → Gives P (refused message)
  refused-Gives = record { given = λ a e. cc }

  pub if-Gives :
      {b : Bool} {x y : Try A}
      → (b ≡ true → Gives P x)
      → (b ≡ false → Gives P y)
      → Gives P (if b then x else y)
  if-Gives {b = true} h k = h refl
  if-Gives {b = false} h k = k refl

  pub done-Gives : {v : A} → P v → Gives P (done v)
  done-Gives {v = v} p = record { given = λ a e. subst P (done_injective e) p }

pub missing_reason-Gives :
    (o : Option Job) (P : Type 0) → Gives (λ b. b ≡ true → P) (missing_reason o)
missing_reason-Gives none P = refused-Gives _
missing_reason-Gives (some j) P = if-Gives _ (λ i. refused-Gives _) (λ i. refused-Gives _)

pub no_value : {A : Type 0} {a : A} → broken ≡ done a → ⊥
no_value e = cc

pub true_of_refuted : (b : Bool) → not b ≡ false → b ≡ true
true_of_refuted true e = refl
true_of_refuted false e = cc

pub apart : false ≡ true → ⊥
apart e = cc

module _ {A : Type 0} where
  pub unless-done :
      (b : Bool) (message : String) (x : Try A) (v : A) → unless b message x ≡ done v → x ≡ done v
  unless-done true message x v e = e
  unless-done false message x v e = cc

  pub then_do-done :
      {B : Type 0} (x : Try B) (g : B → Try A) (a : A)
      → then_do x g ≡ done a
      → (b : B) × (x ≡ done b) × (g b ≡ done a)
  then_do-done (done b) g a e = (b, refl, e)
  then_do-done (refused message) g a e = cc
  then_do-done broken g a e = cc

  find-update :
      (p : A → Bool) (u : A → A) (xs : List A) (q : A)
      → ((x : A) → p x ≡ true → p (u x) ≡ true)
      → find p xs ≡ some q
      → find p (update p u xs) ≡ some (u q)
  find-update p u [] q h e = cc
  find-update p u (x ∷ xs) q h e = ground (arith, h x, find-update p u xs q h)

pub request_row-saved :
    (t : Tables) (pk : ℕ) (u : ActivationRequest → ActivationRequest) (q : ActivationRequest)
    → ((x : ActivationRequest) → (u x).id ≡ x.id)
    → request_row t pk ≡ some q
    → request_row (save_request pk u t) pk ≡ some (u q)
request_row-saved t pk u q h e =
    find-update (λ (r : ActivationRequest). r.id == pk) u t.requests q (λ x i. rw (h x) i) e
