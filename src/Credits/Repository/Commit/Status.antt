-- ===== src/Credits/Repository/Commit/Status.antt =====
-- When a charge or an activation leaves a plan active.
use entity_developer_dashboa.Prelude.{ℕ, Bool, ◌&&◌, ◌||◌, ◌==◌, Option, List, ◌≡◌, arith}
use entity_developer_dashboa.Credits.Schema.{CreditPlan, OnChainAllowance, is_inactive, Scope}
use entity_developer_dashboa.Credits.Wallet.{ssi_api}
use entity_developer_dashboa.Credits.Meters.{allowance_used, Spares}
use entity_developer_dashboa.Credits.Repository.Commit.{is_allowance, charge}
use entity_developer_dashboa.Credits.Repository.Activation.{activate_ssi}

-- Both meters of an SSI plan are full.
abbrev pub is_spent : CreditPlan → Bool
is_spent p =
    p.api_credit.used == p.api_credit.total
    && is_allowance p.on_chain_allowance (allowance_used p.on_chain_allowance)

-- A charged SSI plan is inactive exactly if it was before or both of its meters are full now,
-- whichever of the two was charged.
pub charge-status :
    (is_api : Bool) (amount : ℕ) (p : CreditPlan)
    → is_inactive (charge is_api amount ssi_api p).status
      ≡ (is_inactive p.status || is_spent (charge is_api amount ssi_api p))
unfolding charge
charge-status is_api amount p = ground arith

-- An activation moves no meter, and no meter is above its limit after it that was not before.
pub activate_ssi-Spares :
    (time expires_at critical : ℕ) (new : Option OnChainAllowance) (scopes : Option (List Scope))
    → Spares (activate_ssi time expires_at critical new scopes)
unfolding activate_ssi
activate_ssi-Spares time expires_at critical new scopes = record {
  same_use = λ k id p. ground arith;
  within = λ p h. ground arith;
}
