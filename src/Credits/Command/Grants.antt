-- ===== src/Credits/Command/Grants.antt =====
-- The amounts that walletGrants hands out.
use entity_developer_dashboa.Prelude.{ℕ, ◌<◌, String, Option, none, some, List, ◌≡◌, All, arith}
use entity_developer_dashboa.Exec.{ok}
use entity_developer_dashboa.Credits.Schema.{CreditPlan, OnChainAllowance}
use entity_developer_dashboa.Credits.Command.{WalletGrant, wallet_grants, ssi_wallets}

-- The wallets of an SSI plan: one for the API credits and one for an allowance of which some is
-- left.
ssi_wallets-positive :
    (p : CreditPlan) (critical : ℕ) (o : Option OnChainAllowance) (ws : List WalletGrant)
    → 0 < p.api_credit.total
    → ssi_wallets p critical o ≡ ok ws
    → All (λ g. 0 < g.amount) ws
unfolding ssi_wallets
ssi_wallets-positive p critical none ws h e = cc
ssi_wallets-positive p critical (some a) ws h e = ground arith

-- No wallet is granted an amount of zero: neither that of a KYC plan of which something is left,
-- nor one of the two of an SSI plan.
pub wallet_grants-positive :
    (p : CreditPlan) (critical : ℕ) (service_type : String) (ws : List WalletGrant)
    → p.api_credit.used < p.api_credit.total
    → wallet_grants p critical service_type ≡ ok ws
    → All (λ g. 0 < g.amount) ws
unfolding wallet_grants
wallet_grants-positive p critical service_type ws h e =
    ground (arith, ssi_wallets-positive p critical p.on_chain_allowance ws)
