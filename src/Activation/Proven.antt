-- ===== src/Activation/Proven.antt =====
-- A connection is reported as connected only when everything that the report says has been checked.
use cloud_billing_console.Prelude.{
  ℕ, ◌≡◌, refl, sym, ap, ◌∙◌, subst, ◌⊎◌, inl, inr, Bool, true, false, not, ◌&&◌, ◌||◌, Option,
  none, some, arith, str_eq, if◌then◌else◌, str_eq_iff, select, In,
}
use cloud_billing_console.Prelude.Texts.{has}
use cloud_billing_console.Prelude.Search.{In-of_select}
use cloud_billing_console.Json
use cloud_billing_console.Jobs.Types.{Status, Job, Settings}
use cloud_billing_console.Jobs.Enqueue.{newest}
use cloud_billing_console.Jobs.Coalescing.{newest-In}
use cloud_billing_console.Connection.Tables.{
  BillingSource, Progress, ActivationRequest, Tables, Config, Try, refused, broken, done, unless,
  then_do, collects_costs, source_row,
}
use cloud_billing_console.Connection.Approval.{approval_ready, trust_confirmed}
use cloud_billing_console.Scheduler.Slots.{Format}
use cloud_billing_console.Scheduler.Requests.{is_status}
use cloud_billing_console.Activation.Snapshots.{is_true}
use cloud_billing_console.Activation.Requests.{
  revalidate, is_unchanged, still_valid, reauthorized, revalidate_row,
}
use cloud_billing_console.Activation.Allowlist.{AllowFile}
use cloud_billing_console.Activation.Process.{Service, request_row, revalidated, activation_key}
use cloud_billing_console.Activation.Completion.{
  since, error_or, is_discovery, discovery_missing, connection_proven, proven_since, verified,
  complete_from, is_complete, completed, progress, retried, settled, progress_row, process_from,
  process_activation,
}
use cloud_billing_console.Activation.Calls.{
  Gives, done_injective, missing_reason-Gives, no_value, true_of_refuted, apart, unless-Gives,
  unless-done, then_do-done, refused-Gives, if-Gives, done-Gives, request_row-saved,
}

module _ (sv : Service) (f : Format) (cfg : Config) (set : Settings) where
  proven_since-done :
      (s : BillingSource) (t : Tables) (o : Option ℕ)
      → proven_since sv f cfg set s t o ≡ done true
      → (start : ℕ) × (o ≡ some start) × (connection_proven sv f cfg set start s t ≡ done true)
  proven_since-done s t none e = absurd (no_value e)
  proven_since-done s t (some start) e = (start, refl, e)

  unverified :
      (r : ActivationRequest) (s : BillingSource) (t : Tables)
      → verified sv f cfg set r s t none ≡ done true
      → ⊥
  unfolding verified
  unverified r s t e = cc

  -- What holds of a connection whose request has been completed from `verifying`.
  pub record IsProven (t : Tables) (r : ActivationRequest) (s : BillingSource) (start : ℕ)
      : Type 0 where
    pub activated : r.activated_at ≡ some start
    pub row : source_row t r.source ≡ some s
    pub approved : approval_ready cfg t s ≡ true
    pub job :
        (j : Job) × In j t.queue.jobs
        × (j.key ≡ activation_key sv f cfg set r "verify")
        × (is_status Status.done j ≡ true)
        × (newest (select (λ x. str_eq x.key (activation_key sv f cfg set r "verify")) t.queue.jobs)
            ≡ some j)
    pub verified_since : since start s.verified_at ≡ true
    pub trusted : trust_confirmed s ≡ true
    pub budgets :
        has s.approved_capabilities "budgets" ≡ true
        → is_true (Json.get s.capabilities "budgets") ≡ true
    pub discovered : collects_costs s ≡ true → since start s.discovered_at ≡ true

  still_valid-Gives :
      (r : ActivationRequest) (now : ℕ) (t : Tables) (s : BillingSource)
      → Gives
          (λ x. (x ≡ s) × (approval_ready cfg t s ≡ true))
          (still_valid sv.strip sv.digest sv.role_re sv.role_name sv.is_wild cfg true r now t s)
  unfolding still_valid
  still_valid-Gives r now t s =
      unless-Gives _
        {b = is_unchanged sv.strip sv.digest sv.role_re sv.role_name sv.is_wild cfg r s}
        "The connection changed. Review the account and submit a new request."
        {x = unless (approval_ready cfg t s) "Connection approval was revoked or changed." (done s)}
        (λ b. unless-Gives _ _ (λ c. done-Gives _ (refl, c)))

  discovery_missing-Gives :
      (start : ℕ) (s : BillingSource) (t : Tables) (P : Type 0)
      → Gives (λ b. b ≡ true → P) (discovery_missing sv f cfg set start s t)
  discovery_missing-Gives start s t P =
      if-Gives _ (λ i. done-Gives _ (λ h. absurd (apart h)))
        (λ i.
          missing_reason-Gives
            (newest (select (λ j. is_discovery s j && since start j.started_at) t.queue.jobs)) P)

  connection_proven-Gives :
      (start : ℕ) (s : BillingSource) (t : Tables)
      → Gives
          (λ b.
            b ≡ true
            → ((since start s.verified_at && trust_confirmed s) ≡ true)
              × ((not (has s.approved_capabilities "budgets")
                    || is_true (Json.get s.capabilities "budgets"))
                  ≡ true)
              × ((collects_costs s && not (since start s.discovered_at)) ≡ false))
          (connection_proven sv f cfg set start s t)
  unfolding connection_proven
  connection_proven-Gives start s t = unless-Gives _ _ (λ a. unless-Gives _ _ (λ b.
      if-Gives _ (λ c. discovery_missing-Gives start s t _) (λ c. done-Gives _ (λ h. (a, b, c)))))

  verified-Gives :
      (r : ActivationRequest) (s : BillingSource) (t : Tables) (j : Job)
      → Gives
          (λ b.
            b ≡ true
            → (is_status Status.done j ≡ true)
              × ((start : ℕ) × (r.activated_at ≡ some start)
                  × (connection_proven sv f cfg set start s t ≡ done true)))
          (verified sv f cfg set r s t (some j))
  unfolding verified
  verified-Gives r s t j =
      if-Gives _ {b = is_status Status.failed j}
        {x = refused
          (error_or "AWS access verification failed. Check the customer role and try again." j)}
        (λ i. refused-Gives _)
        (λ i.
          if-Gives _ (λ k. done-Gives _ (λ h. absurd (apart h)))
            (λ k. record {
              given = λ b e h. (
                true_of_refuted (is_status Status.done j) k,
                proven_since-done s t r.activated_at (e ∙ ap done h),
              );
            }))

  abbrev Proven : Tables → ActivationRequest → Type 0
  Proven t r = (s : BillingSource) × (start : ℕ) × IsProven t r s start

  verified-Proven :
      (r : ActivationRequest) (s : BillingSource) (t : Tables) (o : Option Job)
      → source_row t r.source ≡ some s
      → approval_ready cfg t s ≡ true
      → newest (select (λ j. str_eq j.key (activation_key sv f cfg set r "verify")) t.queue.jobs)
        ≡ o
      → verified sv f cfg set r s t o ≡ done true
      → Proven t r
  verified-Proven r s t none row ok e v = absurd (unverified r s t v)
  verified-Proven r s t (some j) row ok e v =
      let (d, (start, a, c)) = Gives.given (verified-Gives r s t j) true v refl in
      let (x, y, z) = Gives.given (connection_proven-Gives start s t) true c refl in
      let (i, k) =
        In-of_select (λ j. str_eq j.key (activation_key sv f cfg set r "verify")) t.queue.jobs j
          (newest-In _ j e) in
      (
        s,
        start,
        record {
          activated = a;
          row = row;
          approved = ok;
          job = (j, i, (str_eq_iff j.key (activation_key sv f cfg set r "verify")).0 k, d, e);
          verified_since = ground arith;
          trusted = ground arith;
          budgets = λ h. ground arith;
          discovered = λ h. ground arith;
        },
      )

  revalidate_row-done :
      (r : ActivationRequest) (now : ℕ) (t : Tables) (s : BillingSource) (o : Option BillingSource)
      → revalidate_row sv.strip sv.digest sv.role_re sv.role_name sv.is_wild cfg true r now t o
        ≡ done s
      → (o ≡ some s) × (approval_ready cfg t s ≡ true)
  revalidate_row-done r now t s none e = absurd (no_value e)
  revalidate_row-done r now t s (some x) e =
      let (u, h, k) =
        then_do-done (reauthorized sv.strip sv.digest sv.role_re sv.role_name sv.is_wild cfg t x r)
          (λ u.
            still_valid sv.strip sv.digest sv.role_re sv.role_name sv.is_wild cfg true r now t x)
          s e in
      let (same, ok) = Gives.given (still_valid-Gives r now t x) s k in
      (ap some (sym same), subst (λ y. approval_ready cfg t y ≡ true) (sym same) ok)

  completed_or_not : ActivationRequest → ℕ → Tables → BillingSource → Bool → Try Tables
  completed_or_not r now t s b = done (if b then completed sv f cfg set r s now t else t)

  waits_or_Proven :
      (r : ActivationRequest) (now : ℕ) (t u : Tables) (s : BillingSource) (b : Bool)
      → r.status ≡ Progress.verifying
      → source_row t r.source ≡ some s
      → approval_ready cfg t s ≡ true
      → is_complete sv f cfg set r s t ≡ done b
      → completed_or_not r now t s b ≡ done u
      → (u ≡ t) ⊎ Proven t r
  unfolding is_complete completed_or_not
  waits_or_Proven r now t u s true h row ok e k =
      inr (verified-Proven r s t _ row ok refl (sym (ap (complete_from sv f cfg set r s t) h) ∙ e))
  waits_or_Proven r now t u s false h row ok e k = inl (sym (done_injective k))

  progress-Gives :
      (r : ActivationRequest) (now : ℕ) (t : Tables)
      → r.status ≡ Progress.verifying
      → Gives (λ u. (u ≡ t) ⊎ Proven t r) (progress sv f cfg set r now t)
  unfolding progress revalidate completed_or_not
  progress-Gives r now t h = record {
    given = λ u e.
        let (s, x, k) =
          then_do-done (revalidated sv f cfg set true r now t)
            (λ s. then_do (is_complete sv f cfg set r s t) (completed_or_not r now t s)) u e in
        let (b, l, m) =
          then_do-done (is_complete sv f cfg set r s t) (completed_or_not r now t s) u k in
        let (row, ok) = revalidate_row-done r now t s (source_row t r.source) x in
        waits_or_Proven r now t u s b h row ok l m;
  }

  still_verifying :
      (r q : ActivationRequest) (t u : Tables)
      → r.status ≡ Progress.verifying
      → request_row t r.id ≡ some r
      → u ≡ t
      → request_row u r.id ≡ some q
      → q.status ≡ Progress.completed
      → ⊥
  still_verifying r q t u h e same k c = cc

  not_completed :
      (p q : ActivationRequest) {o : Option ActivationRequest}
      → o ≡ some p
      → o ≡ some q
      → (p.status ≡ Progress.completed → ⊥)
      → q.status ≡ Progress.completed
      → ⊥
  not_completed p q e k n c = n cc

  retry-verifying :
      (r : ActivationRequest) (now : ℕ)
      → r.status ≡ Progress.verifying
      → (retried sv f cfg set now r).status ≡ Progress.completed
      → ⊥
  retry-verifying r now h e = ground arith

  settled-Proven :
      (r q : ActivationRequest) (now : ℕ) (t : Tables) (o : Try Tables)
      → r.status ≡ Progress.verifying
      → request_row t r.id ≡ some r
      → Gives (λ u. (u ≡ t) ⊎ Proven t r) o
      → request_row (settled sv f cfg set r now t o) r.id ≡ some q
      → q.status ≡ Progress.completed
      → Proven t r
  unfolding settled
  settled-Proven r q now t (done u) h e g k c = elim (Gives.given g u refl) [
    | inr p ↦ p
    | inl same ↦ absurd (still_verifying r q t u h e same k c)
  ]
  settled-Proven r q now t (refused message) h e g k c =
      absurd (not_completed _ q (request_row-saved t r.id _ r (λ x. refl) e) k (λ i. cc) c)
  settled-Proven r q now t broken h e g k c = absurd (
      not_completed _ q (request_row-saved t r.id (retried sv f cfg set now) r (λ x. refl) e) k
        (λ i. retry-verifying r now h i) c)

  process-settled :
      (r : ActivationRequest) (now : ℕ) (t u : Tables) (file file' : AllowFile)
      → r.status ≡ Progress.verifying
      → request_row t r.id ≡ some r
      → process_activation sv f cfg set r now t file ≡ done (u, file')
      → settled sv f cfg set r now t (progress sv f cfg set r now t) ≡ u
  unfolding process_activation
  process-settled r now t u file file' h e p =
      let k : process_from sv f cfg set r now t file Progress.verifying ≡ done (u, file') =
        sym (ap (process_from sv f cfg set r now t file) h)
        ∙ unless-done (str_eq cfg.runtime_role "admin") _
            (process_from sv f cfg set r now t file r.status) (u, file') p in
      sym (ap (λ o. settled sv f cfg set r now t (progress_row sv f cfg set now t o)) e)
      ∙ ap (λ (x : Tables × AllowFile). x.0) (done_injective k)

  -- A request that is verifying is completed by a call of the service only if its newest
  -- verification job is done and its connection has been verified since the activation, has trust
  -- checks that all passed for the current version, approvals of the customer and of the role that
  -- stand, access to budgets where it was asked for, and accounts discovered since the activation
  -- where it collects costs.
  pub process_activation-Proven :
      (r q : ActivationRequest) (now : ℕ) (t u : Tables) (file file' : AllowFile)
      → r.status ≡ Progress.verifying
      → request_row t r.id ≡ some r
      → process_activation sv f cfg set r now t file ≡ done (u, file')
      → request_row u r.id ≡ some q
      → q.status ≡ Progress.completed
      → Proven t r
  process_activation-Proven r q now t u file file' h e p k c =
      settled-Proven r q now t (progress sv f cfg set r now t) h e (progress-Gives r now t h)
        (ap (λ (x : Tables). request_row x r.id) (process-settled r now t u file file' h e p) ∙ k) c
