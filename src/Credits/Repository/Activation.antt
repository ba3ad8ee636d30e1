-- ===== src/Credits/Repository/Activation.antt =====
-- activateSsiCreditPlan: an SSI plan is activated by one update against the latest document.
use entity_developer_dashboa.Prelude.{
  ℕ, String, ◌&&◌, Option, none, some, List, [], ltb, if◌then◌else◌,
}
use entity_developer_dashboa.Exec.{◌>>=◌}
use entity_developer_dashboa.Credits.Schema.{CreditPlan, OnChainAllowance, active, inactive, Scope}
use entity_developer_dashboa.Credits.Wallet.{ssi_api}
use entity_developer_dashboa.Credits.Repository.{is_plan_of}
use entity_developer_dashboa.Credits.Meters.{allowance_used}
use entity_developer_dashboa.World.{Services, Action, now, update_plan}

-- `$ifNull: ['$onChainAllowance', allowance]`, where a new allowance is given
abbrev pub keep_allowance :
    Option OnChainAllowance → Option OnChainAllowance → Option OnChainAllowance
keep_allowance (some a) new = some a
keep_allowance none none = none
keep_allowance none (some a) = some (record a { used_amount = some 0 })

-- the scopes of the document unless it has none
abbrev pub keep_scopes : List Scope → Option (List Scope) → List Scope
keep_scopes [] (some new) = new
keep_scopes old _ = old

-- `$ifNull: ['$onChainAllowance.amount', 0]`
abbrev pub allowance_amount : Option OnChainAllowance → ℕ
allowance_amount none = 0
allowance_amount (some a) = a.amount

-- the two `$set` stages
unfoldable pub activate_ssi :
    ℕ → ℕ → ℕ → Option OnChainAllowance → Option (List Scope) → CreditPlan → CreditPlan
activate_ssi time expires_at critical new_allowance new_scopes p =
    let allowance = keep_allowance p.on_chain_allowance new_allowance in
    record p {
      service_type = ssi_api;
      expires_at = some expires_at;
      critical_balance = some critical;
      on_chain_allowance = allowance;
      on_chain_allowance_scopes = keep_scopes p.on_chain_allowance_scopes new_scopes;
      status =
          if ltb time expires_at
            && ltb p.api_credit.used p.api_credit.total
            && ltb (allowance_used allowance) (allowance_amount allowance)
          then active
          else inactive;
    }

module _ (sv : Services) where
  unfoldable pub activate_ssi_credit_plan :
      String
      → String
      → ℕ
      → ℕ
      → Option OnChainAllowance
      → Option (List Scope)
      → Action (Option CreditPlan)
  activate_ssi_credit_plan app_id plan_id expires_at critical new_allowance new_scopes = do
    time ← now sv
    update_plan sv (is_plan_of plan_id app_id)
        (activate_ssi time expires_at critical new_allowance new_scopes)
