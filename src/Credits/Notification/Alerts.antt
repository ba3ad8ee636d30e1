-- ===== src/Credits/Notification/Alerts.antt =====
-- Which threshold a usage alert notes and tells of.
use entity_developer_dashboa.Prelude.{
  ℕ, Bool, Option, none, some, List, [], ◌∷◌, ◌++◌, ◌≡◌, refl, ap, ◌⊎◌, inl, inr, ◌==◌, arith,
  Bool-cases,
}
use mathlib.Core.Path.{subst}
use entity_developer_dashboa.Exec.{skip, if_some, ◌>>=◌}
use entity_developer_dashboa.Exec.Triple.{Triple, Triple-bind, Triple-Keeps, Triple-ends}
use entity_developer_dashboa.Collection.{Misses, Hit}
use entity_developer_dashboa.Double.{percentage}
use entity_developer_dashboa.Credits.Schema.{CreditPlan}
use entity_developer_dashboa.Credits.Thresholds.{usage_thresholds, reached_threshold, note_usage}
use entity_developer_dashboa.Credits.Thresholds.Reached.{IsReached, reached_threshold_lem}
use entity_developer_dashboa.World.{
  World, Services, Mail, CustomerDetails, usage_alert, update_plan, add_mail,
}
use entity_developer_dashboa.World.Calls.{Triple-call, bump}
use entity_developer_dashboa.World.Keeps.{Uncounted}
use entity_developer_dashboa.Credits.Notification.Reading.{
  Keeps-resolve_recipient, Keeps-details_for,
}
use entity_developer_dashboa.Credits.Notification.{
  Recipient, resolve_recipient, usage_filter, send_usage_alert, claim_usage, notify_usage_threshold,
}

-- The floored percentage of its credits that a plan has used, as the code computes it in doubles.
abbrev pub used_percentage : CreditPlan → ℕ
used_percentage plan = percentage plan.api_credit.used plan.api_credit.total

-- An alert on the plan with the percentage and the threshold.
abbrev pub IsUsageAlert : CreditPlan → ℕ → Mail → Type 0
IsUsageAlert plan threshold mail =
    (mail.kind ≡ usage_alert)
    × (mail.service_id ≡ plan.service_id)
    × (mail.shown
        ≡ used_percentage plan ∷ threshold ∷ plan.api_credit.total ∷ plan.api_credit.used ∷ [])

abbrev pub IsQuiet : List CreditPlan → List Mail → World → Type 0
IsQuiet ps ms w = (w.plans ≡ ps) × (w.mails ≡ ms)

-- The threshold is noted in the plan, which had no note of it or of a higher one.
abbrev pub IsNoted : CreditPlan → ℕ → List CreditPlan → World → Type 0
IsNoted plan threshold ps w =
    (hit : Hit (usage_filter plan threshold) ps) × (w.plans
      ≡ hit.before ++ note_usage threshold hit.doc ∷ hit.after)

-- It is noted, and at most one mail was sent, which tells of it.
abbrev pub IsClaimed : CreditPlan → ℕ → List CreditPlan → List Mail → World → Type 0
IsClaimed plan threshold ps ms w =
    IsNoted plan threshold ps w
    × ((w.mails ≡ ms)
        ⊎ ((mail : Mail) × (w.mails ≡ ms ++ mail ∷ []) × IsUsageAlert plan threshold mail))

-- The greatest of the configured thresholds that the plan's usage reaches is noted and told of.
abbrev pub IsAlerted : List ℕ → CreditPlan → List CreditPlan → List Mail → World → Type 0
IsAlerted configured plan ps ms w =
    (threshold : ℕ) × IsReached configured (used_percentage plan) (some threshold)
    × IsClaimed plan threshold ps ms w

-- Why there is nothing to note.
abbrev pub IsSilent : List ℕ → CreditPlan → List CreditPlan → Type 0
IsSilent configured plan ps =
    (plan.api_credit.total ≡ 0)
    ⊎ IsReached configured (used_percentage plan) none
    ⊎ ((threshold : ℕ) × IsReached configured (used_percentage plan) (some threshold)
        × Misses (usage_filter plan threshold) ps)

abbrev Noted : CreditPlan → ℕ → List CreditPlan → List Mail → World → Type 0
Noted plan threshold ps ms w = IsNoted plan threshold ps w × (w.mails ≡ ms)

Noted-Uncounted :
    (plan : CreditPlan) (threshold : ℕ) (ps : List CreditPlan) (ms : List Mail)
    → Uncounted (Noted plan threshold ps ms)
Noted-Uncounted plan threshold ps ms = record { at = λ w c r d h. h }

abbrev alert_of : CreditPlan → ℕ → Recipient → Option CustomerDetails → Mail
alert_of plan threshold r details = record {
  kind = usage_alert;
  to = r.to;
  cc = r.cc;
  service_id = plan.service_id;
  shown = used_percentage plan ∷ threshold ∷ plan.api_credit.total ∷ plan.api_credit.used ∷ [];
  for_super_admin = r.is_super_admin;
  customer = details;
}

module _ (sv : Services) (plan : CreditPlan) (ps : List CreditPlan) (ms : List Mail) where
  send_usage_alert-Claimed :
      (threshold : ℕ) (o : Option Recipient)
      → Triple
          (Noted plan threshold ps ms)
          (send_usage_alert sv plan (used_percentage plan) threshold o)
          (λ u w. IsClaimed plan threshold ps ms w)
          (IsClaimed plan threshold ps ms)
  unfolding send_usage_alert skip add_mail
  send_usage_alert-Claimed threshold none = record { at = λ w h. (h.0, inl h.1) }
  send_usage_alert-Claimed threshold (some r) =
      Triple-bind
        (Triple-Keeps
          (Keeps-details_for sv (Noted-Uncounted plan threshold ps ms) r plan.service_id)
          (λ o w h. h) (λ w h. (h.0, inl h.1)))
        λ details.
          Triple-call sv _ (λ w h. (h.0, inl h.1)) (λ w h. sent threshold r details w h)
            (λ w h. sent threshold r details w h)
    where
      sent :
          (threshold : ℕ) (r : Recipient) (details : Option CustomerDetails) (w : World)
          → Noted plan threshold ps ms w
          → IsNoted plan threshold ps w
            × ((w.mails ++ alert_of plan threshold r details ∷ [] ≡ ms)
                ⊎ ((mail : Mail) × (w.mails ++ alert_of plan threshold r details ∷ []
                      ≡ ms ++ mail ∷ [])
                    × IsUsageAlert plan threshold mail))
      sent threshold r details w h = (
        h.0,
        inr (
          alert_of plan threshold r details,
          ap (λ l. l ++ alert_of plan threshold r details ∷ []) h.1,
          (refl, refl, refl),
        ),
      )

  -- What is known of the state after the update, by the document that it answers with.
  abbrev After : ℕ → Option CreditPlan → World → Type 0
  After threshold none w = IsQuiet ps ms w × Misses (usage_filter plan threshold) ps
  After threshold (some p) w = Noted plan threshold ps ms w

  abbrev Ends : ℕ → World → Type 0
  Ends threshold w = IsQuiet ps ms w ⊎ IsClaimed plan threshold ps ms w

  abbrev updated : ℕ → World → Option CreditPlan × List CreditPlan
  updated threshold w =
      sv.plan_store.find_one_and_update (usage_filter plan threshold) (note_usage threshold) w.plans

  update-Noted :
      (threshold : ℕ)
      → Triple
          (IsQuiet ps ms)
          (update_plan sv (usage_filter plan threshold) (note_usage threshold))
          (After threshold)
          (Ends threshold)
  unfolding update_plan
  update-Noted threshold =
      Triple-call sv _ (λ w h. inl h) (λ w h. returned (bump w) h) (λ w h. ended (bump w) h)
    where
      f : CreditPlan → Bool
      f p = usage_filter plan threshold p

      noted :
          (w : World)
          → w.plans ≡ ps
          → (hit : Hit f w.plans)
          → (k : Hit f ps) × (hit.before ++ note_usage threshold hit.doc ∷ hit.after
              ≡ k.before ++ note_usage threshold k.doc ∷ k.after)
      noted w h hit =
          subst
            (λ l.
              (k : Hit f l) × (hit.before ++ note_usage threshold hit.doc ∷ hit.after
                ≡ k.before ++ note_usage threshold k.doc ∷ k.after))
            h (hit, refl)

      returned :
          (w : World)
          → IsQuiet ps ms w
          → After threshold (updated threshold w).0 (record w { plans = (updated threshold w).1 })
      returned w h = elim (sv.plan_store.update_lem f (note_usage threshold) w.plans) [
        | inl (misses, e) ↦ rw e (h, subst (λ l. Misses f l) h.0 misses)
        | inr (hit, e) ↦ rw e (noted w h.0 hit, h.1)
      ]

      ended :
          (w : World)
          → IsQuiet ps ms w
          → Ends threshold (record w { plans = (updated threshold w).1 })
      ended w h = elim (sv.plan_store.update_lem f (note_usage threshold) w.plans) [
        | inl (misses, e) ↦ rw e (inl h)
        | inr (hit, e) ↦ rw e (inr (noted w h.0 hit, inl h.1))
      ]

  -- The update is refused, misses, or notes the threshold; after that the mail is tried.
  claim_usage-Claimed :
      (threshold : ℕ)
      → Triple
          (IsQuiet ps ms)
          (claim_usage sv plan (used_percentage plan) (some threshold))
          (λ u w.
            (IsQuiet ps ms w × Misses (usage_filter plan threshold) ps)
            ⊎ IsClaimed plan threshold ps ms w)
          (Ends threshold)
  unfolding claim_usage if_some
  claim_usage-Claimed threshold = Triple-bind (update-Noted threshold) λ o. go o
    where
      go :
          (o : Option CreditPlan)
          → Triple
              (After threshold o)
              (if_some o (λ p.
                resolve_recipient sv plan.service_id
                >>= send_usage_alert sv plan (used_percentage plan) threshold))
              (λ u w.
                (IsQuiet ps ms w × Misses (usage_filter plan threshold) ps)
                ⊎ IsClaimed plan threshold ps ms w)
              (Ends threshold)
      go none = record { at = λ w h. inl h }
      go (some p) =
          Triple-ends
            (Triple-bind
              (Triple-Keeps
                (Keeps-resolve_recipient sv (Noted-Uncounted plan threshold ps ms) plan.service_id)
                (λ o w h. h) (λ w h. (h.0, inl h.1)))
              λ o. send_usage_alert-Claimed threshold o)
            (λ u w h. inr h) (λ w h. inr h)

  -- Whatever becomes of the calls, an alert on the usage of a plan leaves the plans and the mails as they
  -- were, or it notes the greatest of the configured thresholds that the floored percentage of the
  -- usage reaches, in a plan that has no note of it or of a higher one, and sends at most one mail,
  -- which tells of that threshold and percentage. If it returns and notes nothing, then the plan has no
  -- credits, or no threshold is reached, or no such plan is left to note it in.
  pub notify_usage_threshold-Alerted :
      (configured : List ℕ)
      → Triple
          (IsQuiet ps ms)
          (notify_usage_threshold sv (usage_thresholds configured) plan)
          (λ u w.
            (IsQuiet ps ms w × IsSilent configured plan ps) ⊎ IsAlerted configured plan ps ms w)
          (λ w. IsQuiet ps ms w ⊎ IsAlerted configured plan ps ms w)
  unfolding notify_usage_threshold claim_usage skip
  notify_usage_threshold-Alerted configured = elim (Bool-cases (plan.api_credit.total == 0)) [
    | inl e ↦ rw e (record { at = λ w h. inl (h, inl (ground arith)) })
    | inr e ↦ rw e (
        go (reached_threshold (usage_thresholds configured) (used_percentage plan))
          (reached_threshold_lem configured (used_percentage plan)))
  ]
    where
      go :
          (o : Option ℕ)
          → IsReached configured (used_percentage plan) o
          → Triple
              (IsQuiet ps ms)
              (claim_usage sv plan (used_percentage plan) o)
              (λ u w.
                (IsQuiet ps ms w × IsSilent configured plan ps) ⊎ IsAlerted configured plan ps ms w)
              (λ w. IsQuiet ps ms w ⊎ IsAlerted configured plan ps ms w)
      go none r = record { at = λ w h. inl (h, inr (inl r)) }
      go (some m) r =
          Triple-ends (claim_usage-Claimed m)
            (λ u w h. elim h [ inl q ↦ inl (q.0, inr (inr (m, r, q.1))) | inr c ↦ inr (m, r, c) ])
            (λ w h. elim h [ inl q ↦ inl q | inr c ↦ inr (m, r, c) ])
