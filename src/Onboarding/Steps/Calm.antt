-- ===== src/Onboarding/Steps/Calm.antt =====
-- What the steps leave of the onboardings and of the readings of the clock.
use entity_developer_dashboa.Prelude.{ℕ, List, Option, none, some, String}
use entity_developer_dashboa.Exec.{Exec}
use entity_developer_dashboa.Exec.Keeps.{Keeps, keeps_rules, Keeps-pure, Keeps-skip}
use entity_developer_dashboa.Onboarding.Schema.{
  OnboardingStep, CustomerOnboarding, Role, give_dashboard_access, create_team_role,
  create_ssi_service, credit_ssi_service, create_did, register_did, create_kyc_service,
  credit_kyc_service, setup_kyc_widget, setup_kyb_widget, configure_kyc_verifier_page,
  configure_kyb_verifier_page, completed,
}
use entity_developer_dashboa.Onboarding.Desk.{Desk, Office, App, Session, Request, TokenData}
use entity_developer_dashboa.Onboarding.Desk.Calm.{
  Calm, Calm-outside, Calm-find_user, Calm-update_user, Calm-find_role, Calm-create_role,
}
use entity_developer_dashboa.Onboarding.Calls.{
  store_data_in_redis, get_access_token, make_external_request,
}
use entity_developer_dashboa.Onboarding.Locals.{Locals, Case}
use entity_developer_dashboa.Onboarding.Steps.{run_step}
use entity_developer_dashboa.Onboarding.Steps.Ssi.{
  give_dashboard_access_step, create_team_role_step, create_ssi_service_step,
  credit_ssi_service_step, create_did_step, register_did_step, load_service, store_if_missing,
  handle_credit_service, create_missing_role, resolve_document, known_token,
}
use entity_developer_dashboa.Onboarding.Steps.Kyc.{
  create_kyc_service_step, credit_kyc_service_step, setup_kyc_widget_step,
  configure_kyc_verifier_page_step, setup_kyb_widget_step, configure_kyb_verifier_page_step,
}
use entity_developer_dashboa.Credits.Service.Grant.{CreditRequest}

module _ {S : Type 0} {docs : List CustomerOnboarding} {readings : ℕ} (of : Office S) where
  Calm-request :
      (request : Request) (text : String)
      → Keeps (Calm docs readings) (make_external_request of request text)
  unfolding make_external_request
  Calm-request request text = search (keeps_rules, Calm-outside)

  Calm-token :
      (data_ : TokenData) (life : String)
      → Keeps (Calm docs readings) (get_access_token of data_ life)
  unfolding get_access_token
  Calm-token data_ life = Calm-outside _

  Calm-load :
      (app : Option App) (stored : Option String)
      → Keeps (Calm docs readings) (load_service of app stored)
  unfolding load_service
  Calm-load (some app) stored = Keeps-pure _
  Calm-load none none = Keeps-pure _
  Calm-load none (some id) = search (keeps_rules, Calm-outside)

  Calm-store :
      (found : Option Session) (grant_type : String) (app : Option App) (access : List String)
      (key : String)
      → Keeps (Calm docs readings) (store_if_missing of found grant_type app access key)
  unfolding store_if_missing store_data_in_redis
  Calm-store (some session) grant_type app access key = Keeps-skip
  Calm-store none grant_type app access key = search (keeps_rules, Calm-outside)

  Calm-credit :
      (detail : CreditRequest) (id : Option String) (admin reference : String)
      → Keeps (Calm docs readings) (handle_credit_service of detail id admin reference)
  unfolding handle_credit_service
  Calm-credit detail id admin reference = Calm-outside _

  Calm-missing_role :
      (found : Option Role) (user_id : String)
      → Keeps (Calm docs readings) (create_missing_role of found user_id)
  unfolding create_missing_role
  Calm-missing_role (some role) user_id = Keeps-skip
  Calm-missing_role none user_id = Calm-create_role of _ _

  Calm-known :
      (known : Option String) (draw : Exec (Desk S) String)
      → Keeps (Calm docs readings) draw
      → Keeps (Calm docs readings) (known_token of known draw)
  unfolding known_token
  Calm-known (some token) draw h = Keeps-pure _
  Calm-known none draw h = h

  Calm-resolve :
      (document : Option String) (token : String) (app : Option App) (did : Option String)
      → Keeps (Calm docs readings) (resolve_document of document token app did)
  unfolding resolve_document
  Calm-resolve (some document) token app did = Keeps-pure _
  Calm-resolve none token app did = search (keeps_rules, Calm-request) depth 40

  ruleset calm_rules = (
    keeps_rules, Calm-outside, Calm-find_user, Calm-update_user, Calm-find_role, Calm-request,
    Calm-token, Calm-load, Calm-store, Calm-credit, Calm-missing_role, Calm-known, Calm-resolve,
  )

  Calm-give_dashboard_access :
      (c : Case) (l : Locals) → Keeps (Calm docs readings) (give_dashboard_access_step of c l)
  unfolding give_dashboard_access_step
  Calm-give_dashboard_access c l = search calm_rules depth 40

  Calm-create_team_role :
      (c : Case) (l : Locals) → Keeps (Calm docs readings) (create_team_role_step of c l)
  unfolding create_team_role_step
  Calm-create_team_role c l = search calm_rules depth 40

  Calm-create_ssi_service :
      (c : Case) (l : Locals) → Keeps (Calm docs readings) (create_ssi_service_step of c l)
  unfolding create_ssi_service_step
  Calm-create_ssi_service c l = search calm_rules depth 40

  Calm-credit_ssi_service :
      (c : Case) (l : Locals) → Keeps (Calm docs readings) (credit_ssi_service_step of c l)
  unfolding credit_ssi_service_step
  Calm-credit_ssi_service c l = search calm_rules depth 40

  Calm-create_did : (c : Case) (l : Locals) → Keeps (Calm docs readings) (create_did_step of c l)
  unfolding create_did_step
  Calm-create_did c l = search calm_rules depth 40

  Calm-register_did :
      (c : Case) (l : Locals) → Keeps (Calm docs readings) (register_did_step of c l)
  unfolding register_did_step
  Calm-register_did c l = search calm_rules depth 40

  Calm-create_kyc_service :
      (c : Case) (l : Locals) → Keeps (Calm docs readings) (create_kyc_service_step of c l)
  unfolding create_kyc_service_step
  Calm-create_kyc_service c l = search calm_rules depth 40

  Calm-credit_kyc_service :
      (c : Case) (l : Locals) → Keeps (Calm docs readings) (credit_kyc_service_step of c l)
  unfolding credit_kyc_service_step
  Calm-credit_kyc_service c l = search calm_rules depth 40

  Calm-setup_kyc_widget :
      (c : Case) (l : Locals) → Keeps (Calm docs readings) (setup_kyc_widget_step of c l)
  unfolding setup_kyc_widget_step
  Calm-setup_kyc_widget c l = search calm_rules depth 40

  Calm-setup_kyb_widget :
      (c : Case) (l : Locals) → Keeps (Calm docs readings) (setup_kyb_widget_step of c l)
  unfolding setup_kyb_widget_step
  Calm-setup_kyb_widget c l = search calm_rules depth 40

  Calm-configure_kyc_verifier_page :
      (c : Case) (l : Locals) → Keeps (Calm docs readings) (configure_kyc_verifier_page_step of c l)
  unfolding configure_kyc_verifier_page_step
  Calm-configure_kyc_verifier_page c l = search calm_rules depth 40

  Calm-configure_kyb_verifier_page :
      (c : Case) (l : Locals) → Keeps (Calm docs readings) (configure_kyb_verifier_page_step of c l)
  unfolding configure_kyb_verifier_page_step
  Calm-configure_kyb_verifier_page c l = search calm_rules depth 40

  pub Calm-run_step :
      (step : OnboardingStep) (c : Case) (l : Locals)
      → Keeps (Calm docs readings) (run_step of step c l)
  unfolding run_step
  Calm-run_step give_dashboard_access c l = Calm-give_dashboard_access c l
  Calm-run_step create_team_role c l = Calm-create_team_role c l
  Calm-run_step create_ssi_service c l = Calm-create_ssi_service c l
  Calm-run_step credit_ssi_service c l = Calm-credit_ssi_service c l
  Calm-run_step create_did c l = Calm-create_did c l
  Calm-run_step register_did c l = Calm-register_did c l
  Calm-run_step create_kyc_service c l = Calm-create_kyc_service c l
  Calm-run_step credit_kyc_service c l = Calm-credit_kyc_service c l
  Calm-run_step setup_kyc_widget c l = Calm-setup_kyc_widget c l
  Calm-run_step setup_kyb_widget c l = Calm-setup_kyb_widget c l
  Calm-run_step configure_kyc_verifier_page c l = Calm-configure_kyc_verifier_page c l
  Calm-run_step configure_kyb_verifier_page c l = Calm-configure_kyb_verifier_page c l
  Calm-run_step completed c l = Keeps-pure l
