-- ===== src/Credits/Command/Sparing.antt =====
-- The commands and the robust predicates.
use entity_developer_dashboa.Prelude.{ℕ, String, Option, none, some}
use entity_developer_dashboa.Exec.Keeps.{Keeps, keeps_rules}
use entity_developer_dashboa.Credits.Schema.{CreditPlan}
use entity_developer_dashboa.Credits.Robust.{Robust, robust_rules}
use entity_developer_dashboa.World.{World, Services}
use entity_developer_dashboa.Credits.Command.{
  WalletGrant, granted_time, grant_wallet, grant_credit_plan, Settlement, settle_ssi_transaction,
}

module _ {sv : Services} {P : World → Type 0} (r : Robust sv P) where
  Robust-granted_time : (o : Option ℕ) → Keeps P (granted_time sv o)
  unfolding granted_time
  Robust-granted_time none = search (keeps_rules, robust_rules)
  Robust-granted_time (some t) = search keeps_rules

  Robust-grant_wallet :
      (p : CreditPlan) (service_type : String) (tenant : Option String) (from until : ℕ)
      (g : WalletGrant)
      → Keeps P (grant_wallet sv p service_type tenant from until g)
  unfolding grant_wallet
  Robust-grant_wallet p service_type tenant from until g = search (keeps_rules, robust_rules)

  pub Robust-grant_credit_plan :
      (p : CreditPlan) (service_type : String) (tenant : Option String)
      → Keeps P (grant_credit_plan sv p service_type tenant)
  unfolding grant_credit_plan
  Robust-grant_credit_plan p service_type tenant =
      search (keeps_rules, robust_rules, Robust-granted_time, Robust-grant_wallet) depth 14

  pub Robust-settle_ssi_transaction : (s : Settlement) → Keeps P (settle_ssi_transaction sv s)
  unfolding settle_ssi_transaction
  Robust-settle_ssi_transaction s = search (keeps_rules, robust_rules)
