-- ===== src/Credits/Notification/Sparing.antt =====
-- The alerts and the expiry scan, and the robust predicates.
use entity_developer_dashboa.Prelude.{ℕ, Option, none, some, List, ◌∷◌, [], refl}
use entity_developer_dashboa.Exec.Keeps.{Keeps, keeps_rules, Keeps-if_some, Keeps-bind}
use entity_developer_dashboa.Credits.Schema.{CreditPlan, OnChainAllowance}
use entity_developer_dashboa.Credits.Meters.{Spares}
use entity_developer_dashboa.Credits.Robust.{Robust, robust_rules, Robust-update_plan}
use entity_developer_dashboa.World.{World, Services}
use entity_developer_dashboa.Credits.Thresholds.{note_usage, note_allowance, note_expiry}
use entity_developer_dashboa.Credits.Notification.Reading.{
  Keeps-resolve_recipient, Keeps-details, Keeps-details_for,
}
use entity_developer_dashboa.Credits.Notification.{
  Recipient, send_usage_alert, claim_usage, notify_usage_threshold, send_allowance_alert,
  claim_allowance, check_allowance, notify_allowance_usage_threshold, send_expiry_alert,
  claim_expiry, check_expiry, scan_expiring_credits,
}

note_usage-Spares : (threshold : ℕ) → Spares (note_usage threshold)
unfolding note_usage
note_usage-Spares threshold = record {
  same_use = λ k id p. refl;
  within = λ p h. record { api = h.api; allowance = h.allowance };
}

note_allowance-Spares : (threshold : ℕ) → Spares (note_allowance threshold)
unfolding note_allowance
note_allowance-Spares threshold = record {
  same_use = λ k id p. refl;
  within = λ p h. record { api = h.api; allowance = h.allowance };
}

note_expiry-Spares : (threshold : ℕ) → Spares (note_expiry threshold)
unfolding note_expiry
note_expiry-Spares threshold = record {
  same_use = λ k id p. refl;
  within = λ p h. record { api = h.api; allowance = h.allowance };
}

module _ {sv : Services} {P : World → Type 0} (r : Robust sv P) where
  Robust-send_usage_alert :
      (p : CreditPlan) (used threshold : ℕ) (o : Option Recipient)
      → Keeps P (send_usage_alert sv p used threshold o)
  unfolding send_usage_alert
  Robust-send_usage_alert p used threshold none = search keeps_rules
  Robust-send_usage_alert p used threshold (some c) =
      search (keeps_rules, robust_rules, Keeps-details_for sv r.free)

  Robust-claim_usage :
      (p : CreditPlan) (used : ℕ) (o : Option ℕ) → Keeps P (claim_usage sv p used o)
  unfolding claim_usage
  Robust-claim_usage p used none = search keeps_rules
  Robust-claim_usage p used (some threshold) =
      Keeps-bind (Robust-update_plan r _ _ (note_usage-Spares threshold)) λ o. Keeps-if_some o λ _.
        Keeps-bind (Keeps-resolve_recipient sv r.free p.service_id)
          (Robust-send_usage_alert p used threshold)

  pub Robust-notify_usage_threshold :
      (ts : List ℕ) (p : CreditPlan) → Keeps P (notify_usage_threshold sv ts p)
  unfolding notify_usage_threshold
  Robust-notify_usage_threshold ts p = search (keeps_rules, Robust-claim_usage)

  Robust-send_allowance_alert :
      (p : CreditPlan) (a : OnChainAllowance) (used : ℕ) (o : Option Recipient)
      → Keeps P (send_allowance_alert sv p a used o)
  unfolding send_allowance_alert
  Robust-send_allowance_alert p a used none = search keeps_rules
  Robust-send_allowance_alert p a used (some c) =
      search (keeps_rules, robust_rules, Keeps-details sv r.free)

  Robust-claim_allowance :
      (p : CreditPlan) (a : OnChainAllowance) (used : ℕ) (o : Option ℕ)
      → Keeps P (claim_allowance sv p a used o)
  unfolding claim_allowance
  Robust-claim_allowance p a used none = search keeps_rules
  Robust-claim_allowance p a used (some threshold) =
      Keeps-bind (Robust-update_plan r _ _ (note_allowance-Spares threshold)) λ o.
        Keeps-if_some o λ _.
          Keeps-bind (Keeps-resolve_recipient sv r.free p.service_id)
            (Robust-send_allowance_alert p a used)

  Robust-check_allowance :
      (ts : List ℕ) (p : CreditPlan) (a : Option OnChainAllowance)
      → Keeps P (check_allowance sv ts p a)
  unfolding check_allowance
  Robust-check_allowance ts p none = search keeps_rules
  Robust-check_allowance ts p (some a) = search (keeps_rules, Robust-claim_allowance)

  pub Robust-notify_allowance_usage_threshold :
      (ts : List ℕ) (p : CreditPlan) → Keeps P (notify_allowance_usage_threshold sv ts p)
  unfolding notify_allowance_usage_threshold
  Robust-notify_allowance_usage_threshold ts p = search (keeps_rules, Robust-check_allowance)

  Robust-send_expiry_alert :
      (p : CreditPlan) (expires_at remaining threshold : ℕ) (o : Option Recipient)
      → Keeps P (send_expiry_alert sv p expires_at remaining threshold o)
  unfolding send_expiry_alert
  Robust-send_expiry_alert p expires_at remaining threshold none = search keeps_rules
  Robust-send_expiry_alert p expires_at remaining threshold (some c) =
      search (keeps_rules, robust_rules, Keeps-details_for sv r.free)

  Robust-claim_expiry :
      (p : CreditPlan) (expires_at remaining : ℕ) (o : Option ℕ)
      → Keeps P (claim_expiry sv p expires_at remaining o)
  unfolding claim_expiry
  Robust-claim_expiry p expires_at remaining none = search keeps_rules
  Robust-claim_expiry p expires_at remaining (some threshold) =
      Keeps-bind (Robust-update_plan r _ _ (note_expiry-Spares threshold)) λ o. Keeps-if_some o λ _.
        Keeps-bind (Keeps-resolve_recipient sv r.free p.service_id)
          (Robust-send_expiry_alert p expires_at remaining threshold)

  Robust-check_expiry :
      (ts : List ℕ) (time : ℕ) (p : CreditPlan) → Keeps P (check_expiry sv ts time p)
  unfolding check_expiry
  Robust-check_expiry ts time p = Keeps-if_some p.expires_at λ t. Robust-claim_expiry p t _ _

  pub Robust-scan_expiring_credits : (ts : List ℕ) → Keeps P (scan_expiring_credits sv ts)
  unfolding scan_expiring_credits
  Robust-scan_expiring_credits [] = search keeps_rules
  Robust-scan_expiring_credits (t ∷ ts) = search (keeps_rules, robust_rules, Robust-check_expiry)
