-- ===== src/Credits/Notification.antt =====
-- src/credits/services/credit-notification.service.ts: the alerts on usage, on the on-chain
-- allowance and on expiry. Thresholds are whole numbers.
pub mod Timing
pub mod Reading
pub mod Sparing
pub mod Alerts
use entity_developer_dashboa.Prelude.{
  ℕ, zero, suc, ◌+◌, ◌-◌, ◌*◌, ◌/◌, ◌%◌, String, Bool, true, false, not, ◌&&◌, ◌||◌, Option, none,
  some, List, [], ◌∷◌, reverse, ltb, leb, ◌==◌, ◌===◌, truthy, if◌then◌else◌, any, find, keep,
  or_default,
}
use entity_developer_dashboa.Exec.{
  Exec, rejected, pure, throw, skip, for_each, if_some, ◌>>=◌, ◌>>◌,
}
use entity_developer_dashboa.Double.{percentage}
use entity_developer_dashboa.Credits.Schema.{
  CreditPlan, NotificationState, OnChainAllowance, active, is_active,
}
use entity_developer_dashboa.Credits.Wallet.{ssi_api}
use entity_developer_dashboa.World.{
  Services, Action, App, User, Onboarding, Mail, usage_alert, allowance_alert, expiry_alert,
  expired_alert, CustomerDetails, now, ask, find_plans, update_plan, add_mail,
}
use entity_developer_dashboa.Credits.Thresholds.{
  day_in_ms, usage_thresholds, expiry_thresholds, reached_threshold, is_new_high, is_new_low,
  note_usage, note_allowance, note_expiry, remaining_days, last_of, expiry_threshold, is_expiring,
}

pub record Recipient : Type 0 where
  pub to : String
  pub cc : List String
  pub is_super_admin : Bool

abbrev pub some_truthy : Option String → Option String
some_truthy none = none
some_truthy (some s) = if truthy s then some s else none

-- a || b
abbrev pub first_truthy : Option String → Option String → Option String
first_truthy a b = elim (some_truthy a) [ none ↦ b | some s ↦ some s ]

abbrev pub is_ssi_app : Option App → Bool
is_ssi_app none = false
is_ssi_app (some app) = any (λ id. id === ssi_api) app.services

abbrev pub super_admin_recipient : List String → Option Recipient
super_admin_recipient [] = none
super_admin_recipient (to ∷ cc) = some (record { to = to; cc = cc; is_super_admin = true })

abbrev pub admin_recipient : Option String → Option Recipient
admin_recipient none = none
admin_recipient (some email) =
    if truthy email then some (record { to = email; cc = []; is_super_admin = false }) else none

-- keep non-empty texts
abbrev keep_texts : List String → List String
keep_texts [] = []
keep_texts (s ∷ ss) = if truthy s then s ∷ keep_texts ss else keep_texts ss

abbrev pub user_field : (User → Option String) → Option User → Option String
user_field f none = none
user_field f (some u) = f u

-- the filter of notifyUsageThreshold: the plan, without a note of this threshold or a higher one
abbrev pub usage_filter : CreditPlan → ℕ → CreditPlan → Bool
usage_filter plan threshold p =
    p.id === plan.id && is_new_high threshold p.notification.last_notified_usage_threshold

module _ (sv : Services) where
  unfoldable pub resolve_recipient : String → Action (Option Recipient)
  resolve_recipient service_id = do
    app ← ask sv (λ _. sv.find_app service_id)
    if is_ssi_app app
        then (do
          emails ← ask sv (λ _. sv.super_admin_emails)
          pure (super_admin_recipient (keep_texts emails)))
        else do email ← ask sv (λ _. sv.admin_email service_id); pure (admin_recipient email)

  owner_of : Option String → Action (Option User)
  owner_of none = pure none
  owner_of (some id) = if truthy id then ask sv (λ _. sv.find_user id) else pure none

  describe : Option Onboarding → Action (Option CustomerDetails)
  unfolding owner_of
  describe none = pure none
  describe (some o) = do
    user ← owner_of o.user_id
    pure (
        some (record {
          company_name = o.company_name;
          name = user_field (λ u. u.name) user;
          email = first_truthy o.customer_email (user_field (λ u. u.email) user);
        }))

  unfoldable pub get_ssi_customer_details : String → Action (Option CustomerDetails)
  unfolding describe
  get_ssi_customer_details service_id = do
    onboarding ← ask sv (λ _. sv.find_onboarding service_id)
    describe onboarding

  pub details_for : Recipient → String → Action (Option CustomerDetails)
  details_for r service_id =
      if r.is_super_admin then get_ssi_customer_details service_id else pure none

  -- the end of notifyUsageThreshold, once the threshold is claimed
  pub send_usage_alert : CreditPlan → ℕ → ℕ → Option Recipient → Action (Unit {0})
  unfolding details_for
  send_usage_alert plan used threshold none = skip
  send_usage_alert plan used threshold (some r) = do
    details ← details_for r plan.service_id
    add_mail sv (record {
      kind = usage_alert;
      to = r.to;
      cc = r.cc;
      service_id = plan.service_id;
      shown = used ∷ threshold ∷ plan.api_credit.total ∷ plan.api_credit.used ∷ [];
      for_super_admin = r.is_super_admin;
      customer = details;
    })

  pub claim_usage : CreditPlan → ℕ → Option ℕ → Action (Unit {0})
  unfolding send_usage_alert
  claim_usage plan used none = skip
  claim_usage plan used (some threshold) = do
    claimed ← update_plan sv (usage_filter plan threshold) (note_usage threshold)
    if_some claimed
        (λ _. resolve_recipient plan.service_id >>= send_usage_alert plan used threshold)

  unfoldable pub notify_usage_threshold : List ℕ → CreditPlan → Action (Unit {0})
  unfolding claim_usage
  notify_usage_threshold thresholds plan =
      if plan.api_credit.total == 0
      then skip
      else (let used = percentage plan.api_credit.used plan.api_credit.total in
          claim_usage plan used (reached_threshold thresholds used))

  -- the end of notifyAllowanceUsageThreshold
  send_allowance_alert : CreditPlan → OnChainAllowance → ℕ → Option Recipient → Action (Unit {0})
  send_allowance_alert plan allowance used none = skip
  send_allowance_alert plan allowance used (some r) = if not r.is_super_admin then skip else do
    details ← get_ssi_customer_details plan.service_id
    add_mail sv (record {
      kind = allowance_alert;
      to = r.to;
      cc = r.cc;
      service_id = plan.service_id;
      shown = used ∷ allowance.amount ∷ or_default allowance.used_amount 0 ∷ [];
      for_super_admin = true;
      customer = details;
    })

  claim_allowance : CreditPlan → OnChainAllowance → ℕ → Option ℕ → Action (Unit {0})
  unfolding send_allowance_alert
  claim_allowance plan allowance used none = skip
  claim_allowance plan allowance used (some threshold) = do
    claimed ←
        update_plan sv
          (λ p.
            p.id === plan.id
            && is_new_high threshold p.notification.last_notified_allowance_usage_threshold)
          (note_allowance threshold)
    if_some claimed
        (λ _. resolve_recipient plan.service_id >>= send_allowance_alert plan allowance used)

  check_allowance : List ℕ → CreditPlan → Option OnChainAllowance → Action (Unit {0})
  unfolding claim_allowance
  check_allowance thresholds plan none = skip
  check_allowance thresholds plan (some a) =
      if a.amount == 0
      then skip
      else (let used = percentage (or_default a.used_amount 0) a.amount in
          claim_allowance plan a used (reached_threshold thresholds used))

  unfoldable pub notify_allowance_usage_threshold : List ℕ → CreditPlan → Action (Unit {0})
  unfolding check_allowance
  notify_allowance_usage_threshold thresholds plan =
      if not (plan.service_type === ssi_api)
      then skip
      else check_allowance thresholds plan plan.on_chain_allowance

  -- one round of scanExpiringCredits
  send_expiry_alert : CreditPlan → ℕ → ℕ → ℕ → Option Recipient → Action (Unit {0})
  unfolding details_for
  send_expiry_alert plan expires_at remaining threshold none = skip
  send_expiry_alert plan expires_at remaining threshold (some r) = do
    details ← details_for r plan.service_id
    add_mail sv (record {
      kind = if threshold == 0 then expired_alert else expiry_alert;
      to = r.to;
      cc = r.cc;
      service_id = plan.service_id;
      shown = remaining ∷ plan.api_credit.total ∷ plan.api_credit.used ∷ expires_at ∷ [];
      for_super_admin = r.is_super_admin;
      customer = details;
    })

  claim_expiry : CreditPlan → ℕ → ℕ → Option ℕ → Action (Unit {0})
  unfolding send_expiry_alert
  claim_expiry plan expires_at remaining none = skip
  claim_expiry plan expires_at remaining (some threshold) = do
    claimed ←
        update_plan sv
          (λ p. p.id === plan.id && is_new_low threshold p.notification.expiry_thresholds_sent)
          (note_expiry threshold)
    if_some claimed (λ _.
        resolve_recipient plan.service_id >>= send_expiry_alert plan expires_at remaining threshold)

  check_expiry : List ℕ → ℕ → CreditPlan → Action (Unit {0})
  unfolding claim_expiry
  check_expiry thresholds time plan = if_some plan.expires_at λ t.
      let remaining = remaining_days time t in
      claim_expiry plan t remaining (expiry_threshold thresholds remaining)

  -- With no threshold the limit is no date, and the query is refused.
  unfoldable pub scan_expiring_credits : List ℕ → Action (Unit {0})
  unfolding check_expiry
  scan_expiring_credits [] = throw (rejected "Cast to date failed")
  scan_expiring_credits (first ∷ rest) = do
    time ← now sv
    plans ← find_plans sv (is_expiring (time + first * day_in_ms))
    for_each plans (check_expiry (first ∷ rest) time)
