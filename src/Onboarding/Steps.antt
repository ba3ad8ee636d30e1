-- ===== src/Onboarding/Steps.antt =====
-- The switch of processCustomerOnboarding: each step by its name.
pub mod Calm
pub mod Ssi
pub mod Kyc
use entity_developer_dashboa.Exec.{Exec, pure}
use entity_developer_dashboa.Onboarding.Schema.{
  OnboardingStep, give_dashboard_access, create_team_role, create_ssi_service, credit_ssi_service,
  create_did, register_did, create_kyc_service, credit_kyc_service, setup_kyc_widget,
  setup_kyb_widget, configure_kyc_verifier_page, configure_kyb_verifier_page, completed,
}
use entity_developer_dashboa.Onboarding.Desk.{Desk, Office}
use entity_developer_dashboa.Onboarding.Locals.{Locals, Case}
use entity_developer_dashboa.Onboarding.Steps.Ssi.{
  give_dashboard_access_step, create_team_role_step, create_ssi_service_step,
  credit_ssi_service_step, create_did_step, register_did_step,
}
use entity_developer_dashboa.Onboarding.Steps.Kyc.{
  create_kyc_service_step, credit_kyc_service_step, setup_kyc_widget_step,
  configure_kyc_verifier_page_step, setup_kyb_widget_step, configure_kyb_verifier_page_step,
}

module _ {S : Type 0} (of : Office S) where
  -- The step `completed` changes nothing of the shared variables but the status, which the loop
  -- sets.
  unfoldable pub run_step : OnboardingStep → Case → Locals → Exec (Desk S) Locals
  run_step give_dashboard_access c l = give_dashboard_access_step of c l
  run_step create_team_role c l = create_team_role_step of c l
  run_step create_ssi_service c l = create_ssi_service_step of c l
  run_step credit_ssi_service c l = credit_ssi_service_step of c l
  run_step create_did c l = create_did_step of c l
  run_step register_did c l = register_did_step of c l
  run_step create_kyc_service c l = create_kyc_service_step of c l
  run_step credit_kyc_service c l = credit_kyc_service_step of c l
  run_step setup_kyc_widget c l = setup_kyc_widget_step of c l
  run_step setup_kyb_widget c l = setup_kyb_widget_step of c l
  run_step configure_kyc_verifier_page c l = configure_kyc_verifier_page_step of c l
  run_step configure_kyb_verifier_page c l = configure_kyb_verifier_page_step of c l
  run_step completed c l = pure l
