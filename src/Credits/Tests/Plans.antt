-- ===== src/Credits/Tests/Plans.antt =====
-- Plans, their activation and their amounts at concrete inputs.
use entity_developer_dashboa.Prelude.{
  ℕ, String, true, not, ◌&&◌, ◌||◌, ◌==◌, Option, none, some, List, [], ◌∷◌, ◌≡◌, refl, arith, ◌+◌,
  ◌*◌, ◌≤◌, ◌<◌, ◌↔◌, ◌⊎◌, All, length, is_some, if◌then◌else◌, or_default,
}
use entity_developer_dashboa.Exec.{ok}
use entity_developer_dashboa.Json.{text, max_safe_integer}
use entity_developer_dashboa.Credits.Schema.{OnChainAllowance, is_inactive}
use entity_developer_dashboa.Credits.Meters.{Spares}
use entity_developer_dashboa.Credits.Wallet.{is_ssi_credit_type, sdk_plan_id, dashboard_plan_id}
use entity_developer_dashboa.Credits.Wallet.RoundTrip.{
  dashboard_plan_id-sdk_plan_id, dashboard_plan_id-suffix,
}
use entity_developer_dashboa.Credits.Repository.Commit.{charge}
use entity_developer_dashboa.Credits.Repository.Commit.Status.{
  is_spent, charge-status, activate_ssi-Spares,
}
use entity_developer_dashboa.Credits.Repository.Activation.{activate_ssi}
use entity_developer_dashboa.Credits.Command.{WalletGrant, wallet_grants}
use entity_developer_dashboa.Credits.Command.Grants.{wallet_grants-positive}
use entity_developer_dashboa.Credits.Service.{
  ssi_on_chain_allowance, assert_usable_allowance, get_credit_validity, days, month, year,
}
use entity_developer_dashboa.Credits.Service.Allowance.{fee_units, grant_messages}
use entity_developer_dashboa.Credits.Service.Amounts.{
  ssi_on_chain_allowance_lem, assert_usable_allowance_lem, fee_units_lem, grant_messages-fee_units,
  Lasts, get_credit_validity_lem,
}
use entity_developer_dashboa.Credits.Thresholds.{day_in_ms, remaining_days, usage_thresholds}
use entity_developer_dashboa.Credits.Notification.{notify_usage_threshold}
use entity_developer_dashboa.Credits.Notification.Alerts.{
  IsQuiet, IsSilent, IsAlerted, notify_usage_threshold-Alerted,
}
use entity_developer_dashboa.Exec.Triple.{Post}
use entity_developer_dashboa.Credits.Notification.Timing.{remaining_days_lem, remaining_days_zero}
use entity_developer_dashboa.Credits.Tests.Fixture.{services, opened, kyc_plan, ssi_plan}

charge-status_example :
    is_inactive (charge true 60 "SSI_API" ssi_plan).status
    ≡ (is_inactive ssi_plan.status || is_spent (charge true 60 "SSI_API" ssi_plan))
charge-status_example = charge-status true 60 ssi_plan

abbrev fresh_allowance : Option OnChainAllowance
fresh_allowance = some (record { amount = 4000; denom = "uhid"; used_amount = none })

activate_ssi-Spares_example : Spares (activate_ssi 1000 9000 40 fresh_allowance none)
activate_ssi-Spares_example = activate_ssi-Spares 1000 9000 40 fresh_allowance none

dashboard_plan_id-sdk_plan_id_example :
    dashboard_plan_id (sdk_plan_id "plan" "SSI_API" "API_CREDIT") "SSI_API" (text "API_CREDIT")
    ≡ ok "plan"
dashboard_plan_id-sdk_plan_id_example =
    dashboard_plan_id-sdk_plan_id "plan" "SSI_API" "API_CREDIT" refl

accepted_plan : dashboard_plan_id "plan.API_CREDIT" "SSI_API" (text "API_CREDIT") ≡ ok "plan"
unfolding sdk_plan_id
accepted_plan = dashboard_plan_id-sdk_plan_id "plan" "SSI_API" "API_CREDIT" refl

dashboard_plan_id-suffix_example :
    (t : String) × (is_ssi_credit_type t ≡ true)
    × (sdk_plan_id "plan" "SSI_API" t ≡ "plan.API_CREDIT")
dashboard_plan_id-suffix_example =
    dashboard_plan_id-suffix "plan.API_CREDIT" (text "API_CREDIT") "plan" accepted_plan

abbrev kyc_wallets : List WalletGrant
kyc_wallets = record { credit_type = "API_CREDIT"; amount = 60; critical_balance = 40 } ∷ []

granted_wallets : wallet_grants kyc_plan 40 "CAVACH_API" ≡ ok kyc_wallets
unfolding wallet_grants
granted_wallets = refl

wallet_grants-positive_example : All (λ g. 0 < g.amount) kyc_wallets
wallet_grants-positive_example =
    wallet_grants-positive kyc_plan 40 "CAVACH_API" kyc_wallets (omega arith) granted_wallets

ssi_on_chain_allowance_lem_example :
    ssi_on_chain_allowance 60 ≡ ok 120000
    ↔ ((0 < 60) × (120000 ≡ 60 * 2000) × (120000 ≤ max_safe_integer))
ssi_on_chain_allowance_lem_example = ssi_on_chain_allowance_lem 60 120000

abbrev half_used : OnChainAllowance
half_used = record { amount = 2000; denom = "uhid"; used_amount = some 1000 }

assert_usable_allowance_lem_example : assert_usable_allowance half_used ≡ ok tt ↔ (
    (or_default half_used.used_amount 0 < half_used.amount) × (half_used.amount ≤ max_safe_integer))
assert_usable_allowance_lem_example = assert_usable_allowance_lem half_used

fee_units_lem_example :
    (0 < fee_units 8) × (8 ≤ 7 * fee_units 8) × (0 < 8 → 7 * fee_units 8 < 8 + 7)
fee_units_lem_example = fee_units_lem 8

abbrev one_grant : List String
one_grant = "/hypersign.ssi.v1.MsgRegisterDID" ∷ []

abbrev old_allowance : Option String
old_allowance = some "7"

grant_messages-fee_units_example :
    fee_units (length (grant_messages services "hid1" one_grant old_allowance 4000 (1, 12)))
    ≡ (if length one_grant == 0 && not (is_some old_allowance) then 1 else 2)
grant_messages-fee_units_example =
    grant_messages-fee_units services "hid1" one_grant old_allowance 4000 (1, 12) (omega arith)

get_credit_validity_lem_example :
    Lasts 487 7 (get_credit_validity 7 month none)
    × Lasts 5844 7 (get_credit_validity 7 year none)
    × Lasts 16 7 (get_credit_validity 7 days none)
get_credit_validity_lem_example = get_credit_validity_lem 7 none (omega arith) (omega arith)

remaining_days_lem_example :
    (5000 ≤ 1000 + remaining_days 1000 5000 * day_in_ms)
    × (1000 + remaining_days 1000 5000 * day_in_ms < 5000 + day_in_ms)
remaining_days_lem_example = remaining_days_lem 1000 5000 (omega arith)

remaining_days_zero_example :
    (remaining_days 1000 900 ≡ 0 → 900 ≤ 1000) × (900 ≤ 1000 → remaining_days 1000 900 ≡ 0)
remaining_days_zero_example = remaining_days_zero 1000 900

abbrev configured : List ℕ
configured = 80 ∷ 60 ∷ 90 ∷ []

notify_usage_threshold-Alerted_example :
    Post
      (λ u w.
        (IsQuiet opened.plans opened.mails w × IsSilent configured kyc_plan opened.plans)
        ⊎ IsAlerted configured kyc_plan opened.plans opened.mails w)
      (λ w.
        IsQuiet opened.plans opened.mails w
        ⊎ IsAlerted configured kyc_plan opened.plans opened.mails w)
      (notify_usage_threshold services (usage_thresholds configured) kyc_plan opened)
notify_usage_threshold-Alerted_example =
    (notify_usage_threshold-Alerted services kyc_plan opened.plans opened.mails configured).at
      opened (refl, refl)
