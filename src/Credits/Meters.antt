-- ===== src/Credits/Meters.antt =====
-- The two meters of a plan and their limits, and the changes of a plan that leave them alone.
use entity_developer_dashboa.Prelude.{
  ℕ, ◌≤◌, String, Bool, Option, none, some, ◌≡◌, ◌===◌, if◌then◌else◌, or_default,
}
use entity_developer_dashboa.Credits.Schema.{CreditPlan, OnChainAllowance}

-- `$ifNull: ['$onChainAllowance.usedAmount', 0]`
abbrev pub allowance_used : Option OnChainAllowance → ℕ
allowance_used none = 0
allowance_used (some a) = or_default a.used_amount 0

-- What a meter of a plan shows.
abbrev pub meter : Bool → CreditPlan → ℕ
meter is_api p = if is_api then p.api_credit.used else allowance_used p.on_chain_allowance

abbrev pub plan_use : Bool → String → CreditPlan → ℕ
plan_use is_api id p = if p.id === id then meter is_api p else 0

-- No meter is above its limit.
abbrev pub IsWithinAllowance : Option OnChainAllowance → Type 0
IsWithinAllowance none = Unit
IsWithinAllowance (some a) = or_default a.used_amount 0 ≤ a.amount

pub record IsWithin (p : CreditPlan) : Type 0 where
  pub api : p.api_credit.used ≤ p.api_credit.total
  pub allowance : IsWithinAllowance p.on_chain_allowance

-- An update that moves no meter and breaks no limit.
pub record Spares (u : CreditPlan → CreditPlan) : Type 0 where
  pub same_use :
      (is_api : Bool) (id : String) (p : CreditPlan)
      → plan_use is_api id (u p) ≡ plan_use is_api id p
  pub within : (p : CreditPlan) → IsWithin p → IsWithin (u p)
