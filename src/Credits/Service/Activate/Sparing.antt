-- ===== src/Credits/Service/Activate/Sparing.antt =====
-- activateCredit and the robust predicates.
use entity_developer_dashboa.Prelude.{
  ℕ, String, Option, none, some, List, refl, inl, inr, Option-cases,
}
use entity_developer_dashboa.Exec.Keeps.{
  Keeps, keeps_rules, Keeps-if, Keeps-bind, Keeps-or_throw, Keeps-pure,
}
use entity_developer_dashboa.Credits.Schema.{CreditPlan, OnChainAllowance, Scope}
use entity_developer_dashboa.Credits.Meters.{Spares}
use entity_developer_dashboa.Credits.Robust.{Robust, robust_rules, Robust-update_plan, Robust-now}
use entity_developer_dashboa.Credits.Command.Sparing.{Robust-grant_credit_plan}
use entity_developer_dashboa.Credits.Repository.Activation.{activate_ssi_credit_plan}
use entity_developer_dashboa.Credits.Repository.Commit.Status.{activate_ssi-Spares}
use entity_developer_dashboa.Credits.Service.Allowance.Sparing.{Robust-grant_ssi_allowance}
use entity_developer_dashboa.World.{World, Services, App}
use entity_developer_dashboa.Credits.Service.Activate.{
  Supported, kyc, ssi, set_critical_balance, set_expiry, check_expiry, normalize, stable_expiry,
  resolve_expiry, activate_with, activate_ssi_plan, activate_for, activate_credit,
}

set_critical_balance-Spares :
    (critical : ℕ) (service_type : String) → Spares (set_critical_balance critical service_type)
unfolding set_critical_balance
set_critical_balance-Spares critical service_type = record {
  same_use = λ k id p. refl;
  within = λ p h. record { api = h.api; allowance = h.allowance };
}

set_expiry-Spares : (t : ℕ) → Spares (set_expiry t)
unfolding set_expiry
set_expiry-Spares t = record {
  same_use = λ k id p. refl;
  within = λ p h. record { api = h.api; allowance = h.allowance };
}

module _ {sv : Services} {P : World → Type 0} (r : Robust sv P) where
  Robust-activate_ssi_credit_plan :
      (app_id id : String) (t critical : ℕ) (a : Option OnChainAllowance)
      (scopes : Option (List Scope))
      → Keeps P (activate_ssi_credit_plan sv app_id id t critical a scopes)
  unfolding activate_ssi_credit_plan
  Robust-activate_ssi_credit_plan app_id id t critical a scopes =
      Keeps-bind (Robust-now r)
        λ time. Robust-update_plan r _ _ (activate_ssi-Spares time t critical a scopes)

  Robust-check_expiry : (o : Option ℕ) → Keeps P (check_expiry sv o)
  unfolding check_expiry
  Robust-check_expiry none = search keeps_rules
  Robust-check_expiry (some t) = search (keeps_rules, robust_rules)

  Robust-normalize :
      (p : CreditPlan) (id app_id : String) (s : Supported) (critical : ℕ)
      → Keeps P (normalize sv p id app_id s critical)
  unfolding normalize
  Robust-normalize p id app_id s critical = Keeps-if _ (Keeps-pure p) (
      Keeps-bind (Robust-update_plan r _ _ (set_critical_balance-Spares critical _))
        λ o. Keeps-or_throw _ o)

  Robust-stable_expiry :
      (id app_id : String) (o : Option CreditPlan) → Keeps P (stable_expiry sv id app_id o)
  unfolding stable_expiry
  Robust-stable_expiry id app_id none = search (keeps_rules, robust_rules)
  Robust-stable_expiry id app_id (some p) = search keeps_rules

  Robust-resolve_expiry :
      (o : Option ℕ) (days : ℕ) (id app_id : String) (s : Supported)
      → Keeps P (resolve_expiry sv o days id app_id s)
  unfolding resolve_expiry
  Robust-resolve_expiry (some t) days id app_id s = search keeps_rules
  Robust-resolve_expiry none days id app_id ssi = search (keeps_rules, robust_rules)
  Robust-resolve_expiry none days id app_id kyc = Keeps-bind (Robust-now r) λ time.
      Keeps-bind (Robust-update_plan r _ _ (set_expiry-Spares _)) (Robust-stable_expiry id app_id)

  Robust-activate_with :
      (id app_id : String) (app : App) (t critical : ℕ) (a : Option OnChainAllowance)
      (scopes : Option (List Scope))
      → Keeps P (activate_with sv id app_id app t critical a scopes)
  unfolding activate_with
  Robust-activate_with id app_id app t critical a scopes =
      search (keeps_rules, robust_rules, Robust-activate_ssi_credit_plan, Robust-grant_credit_plan)

  Robust-activate_ssi_plan :
      (p : CreditPlan) (id app_id : String) (app : App) (t critical : ℕ)
      → Keeps P (activate_ssi_plan sv p id app_id app t critical)
  unfolding activate_ssi_plan
  Robust-activate_ssi_plan p id app_id app t critical = elim (Option-cases p.on_chain_allowance) [
    | inl e ↦ rw e (search (keeps_rules, Robust-activate_with, Robust-grant_ssi_allowance))
    | inr (a, e) ↦ rw e (search (keeps_rules, Robust-activate_with))
  ]

  Robust-activate_for :
      (p : CreditPlan) (id app_id : String) (s : App × Supported) (t critical : ℕ)
      → Keeps P (activate_for sv p id app_id s t critical)
  unfolding activate_for
  Robust-activate_for p id app_id (app, ssi) t critical =
      Robust-activate_ssi_plan p id app_id app t critical
  Robust-activate_for p id app_id (app, kyc) t critical =
      search (keeps_rules, Robust-grant_credit_plan)

  pub Robust-activate_credit : (id app_id : String) → Keeps P (activate_credit sv id app_id)
  unfolding activate_credit
  Robust-activate_credit id app_id =
      search
        (
          keeps_rules, robust_rules, Robust-check_expiry, Robust-normalize, Robust-resolve_expiry,
          Robust-activate_for,
        )
        depth 40
