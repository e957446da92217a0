-- ===== src/Activation/Allowlist.antt =====
-- billing/activation.py: the file of the roles that the collector may assume.
use cloud_billing_console.Prelude.{
  ℕ, String, ◌≡◌, refl, ◌⊎◌, inl, inr, Bool, true, false, not, ◌&&◌, ◌||◌, Option, none, some, List,
  [], ◌∷◌, ◌++◌, arith, ◌==◌, str_eq, if◌then◌else◌, Bool-cases, In,
}
use cloud_billing_console.Prelude.Texts.{has, sorted_set, has-In, sorted_set-In, In-sorted_set}
use cloud_billing_console.Prelude.Rows.{In-append_last}
use cloud_billing_console.Prelude.Search.{In-append_left}
use cloud_billing_console.Connection.Tables.{Config, Try, refused, broken, done, then_do}
use cloud_billing_console.Connection.Approval.{Arn, validate_role_arn}

-- The file and the process: none in `entries` is no JSON list of texts.
pub record AllowFile : Type 0 where
  pub configured : Bool
  pub is_symlink : Bool
  pub is_regular : Bool
  pub others_may_write : Bool
  pub runs_as_root : Bool
  pub owned_by_root : Bool
  pub entries : Option (List String)

-- Where writing the file fails: before the replacement, after it, or not at all.
pub data Write : Type 0 where
  fails_before fails_after succeeds : Write

-- The answer of the onboarding authorizer's function.
pub record BrokerAnswer : Type 0 where
  pub function_error : Bool
  pub status_code : ℕ
  pub body : Option (String × String)

module _ (role_re : String → Option Arn) (role_name : String → Bool) (is_wild : String → Bool)
    (cfg : Config) where
  abbrev is_role_arn : String → Try Arn
  is_role_arn arn = validate_role_arn role_re role_name is_wild cfg arn none

  abbrev validate_all : List String → Try Unit
  validate_all [] = done tt
  validate_all (x ∷ xs) = then_do (is_role_arn x) (λ m. validate_all xs)

  abbrev is_safe : AllowFile → Bool
  is_safe file =
      file.configured
      && not file.is_symlink
      && file.is_regular
      && not file.others_may_write
      && (not file.runs_as_root || file.owned_by_root)

  -- os.replace is atomic: the entries are the old ones or the new ones.
  abbrev replaced : Write → List String → AllowFile → Try Unit × AllowFile
  replaced Write.fails_before xs file = (broken, file)
  replaced Write.fails_after xs file = (broken, record file { entries = some xs })
  replaced Write.succeeds xs file = (done tt, record file { entries = some xs })

  abbrev merge_checked : Write → String → List String → AllowFile → Try Unit → Try Unit × AllowFile
  merge_checked w arn xs file (done u) =
      if has xs arn then (done tt, file) else replaced w (sorted_set (xs ++ arn ∷ [])) file
  merge_checked w arn xs file (refused message) = (refused message, file)
  merge_checked w arn xs file broken = (broken, file)

  abbrev merge_entries : Write → String → AllowFile → Option (List String) → Try Unit × AllowFile
  merge_entries w arn file none = (broken, file)
  merge_entries w arn file (some xs) = merge_checked w arn xs file (validate_all xs)

  -- A plain ValueError is `broken` here: the service retries it.
  unfoldable pub merge_allowlist : Write → String → AllowFile → Try Unit × AllowFile
  unfolding validate_role_arn sorted_set
  merge_allowlist w arn file =
      if not (is_safe file) then (broken, file) else merge_entries w arn file file.entries

  -- `body` is the answer's JSON if that is an object with just the keys role_arn and status.
  unfoldable pub allow_role_via_broker : (String → Option BrokerAnswer) → String → Try Unit
  allow_role_via_broker invoke arn =
      if str_eq cfg.onboarding_broker_function "" then broken else elim (invoke arn) [
        | none ↦ broken
        | some a ↦ elim a.body [
          | none ↦ broken
          | some (role, status) ↦
              if not a.function_error
                && (a.status_code == 200)
                && str_eq role arn
                && str_eq status "allowed"
              then done tt
              else broken
        ]
      ]

  -- The roles that the file lists.
  abbrev pub listed : AllowFile → List String
  listed file = elim file.entries [ none ↦ [] | some xs ↦ xs ]

  -- No role is lost, at most this role is new, and it is there where the call succeeds.
  abbrev pub Keeps : String → AllowFile → Try Unit × AllowFile → Type 0
  Keeps arn file (result, file') =
      ((x : String) → In x (listed file) → In x (listed file'))
      × ((x : String) → In x (listed file') → (x ≡ arn) ⊎ In x (listed file))
      × (result ≡ done tt → In arn (listed file'))

  same-Keeps :
      (arn : String) (file : AllowFile) (result : Try Unit)
      → (result ≡ done tt → In arn (listed file))
      → Keeps arn file (result, file)
  same-Keeps arn file result h = (λ x i. i, λ x i. inr i, h)

  if-Keeps :
      (b : Bool) (arn : String) (file : AllowFile) (q r : Try Unit × AllowFile)
      → Keeps arn file q
      → Keeps arn file r
      → Keeps arn file (if b then q else r)
  if-Keeps true arn file q r h k = h
  if-Keeps false arn file q r h k = k

  In-merged : (arn x : String) (xs : List String) → In x xs → In x (sorted_set (xs ++ arn ∷ []))
  In-merged arn x xs i = sorted_set-In (xs ++ arn ∷ []) x (In-append_left xs (arn ∷ []) x i)

  last_or_before : (arn x : String) (xs : List String) → In x (xs ++ arn ∷ []) → (x ≡ arn) ⊎ In x xs
  last_or_before arn x [] (inl e) = inl e
  last_or_before arn x [] (inr i) = absurd i
  last_or_before arn x (y ∷ xs) (inl e) = inr (inl e)
  last_or_before arn x (y ∷ xs) (inr i) = ground (arith, last_or_before arn x xs i)

  merged-In :
      (arn x : String) (xs : List String) → In x (sorted_set (xs ++ arn ∷ [])) → (x ≡ arn) ⊎ In x xs
  merged-In arn x xs i = last_or_before arn x xs (In-sorted_set (xs ++ arn ∷ []) x i)

  merged_arn : (arn : String) (xs : List String) → In arn (sorted_set (xs ++ arn ∷ []))
  merged_arn arn xs = sorted_set-In (xs ++ arn ∷ []) arn (In-append_last xs arn)

  replaced-Keeps :
      (w : Write) (arn : String) (xs : List String) (file : AllowFile)
      → file.entries ≡ some xs
      → Keeps arn file (replaced w (sorted_set (xs ++ arn ∷ [])) file)
  replaced-Keeps Write.fails_before arn xs file e = same-Keeps arn file broken (λ h. cc)
  replaced-Keeps Write.fails_after arn xs file e =
      rw e (λ x i. In-merged arn x xs i, λ x i. merged-In arn x xs i, λ h. merged_arn arn xs)
  replaced-Keeps Write.succeeds arn xs file e =
      rw e (λ x i. In-merged arn x xs i, λ x i. merged-In arn x xs i, λ h. merged_arn arn xs)

  checked-Keeps :
      (w : Write) (arn : String) (xs : List String) (file : AllowFile) (o : Try Unit)
      → file.entries ≡ some xs
      → Keeps arn file (merge_checked w arn xs file o)
  checked-Keeps w arn xs file (done u) e = elim (Bool-cases (has xs arn)) [
    | inl h ↦ rw h (same-Keeps arn file (done tt) (λ d. rw e (has-In xs arn h)))
    | inr h ↦ rw h (replaced-Keeps w arn xs file e)
  ]
  checked-Keeps w arn xs file (refused message) e = same-Keeps arn file (refused message) (λ h. cc)
  checked-Keeps w arn xs file broken e = same-Keeps arn file broken (λ h. cc)

  entries-Keeps :
      (w : Write) (arn : String) (file : AllowFile) (o : Option (List String))
      → file.entries ≡ o
      → Keeps arn file (merge_entries w arn file o)
  entries-Keeps w arn file none e = same-Keeps arn file broken (λ h. cc)
  entries-Keeps w arn file (some xs) e = checked-Keeps w arn xs file (validate_all xs) e

  -- However the file is and wherever writing it fails, every role of the file stays in it, no role
  -- but the given one is added, and after a call that succeeds the given one is in it.
  pub merge_allowlist-Keeps :
      (w : Write) (arn : String) (file : AllowFile) → Keeps arn file (merge_allowlist w arn file)
  unfolding merge_allowlist
  merge_allowlist-Keeps w arn file =
      if-Keeps (not (is_safe file)) arn file (broken, file) (merge_entries w arn file file.entries)
        (same-Keeps arn file broken (λ h. cc)) (entries-Keeps w arn file file.entries refl)
