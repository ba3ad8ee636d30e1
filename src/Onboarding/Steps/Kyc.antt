-- ===== src/Onboarding/Steps/Kyc.antt =====
-- The steps of processCustomerOnboarding for the KYC service, its widgets and its pages.
use entity_developer_dashboa.Prelude.{
  String, true, false, Option, none, some, [], ◌∷◌, ◌⋅◌, if◌then◌else◌,
}
use entity_developer_dashboa.Exec.{Exec, pure, lift, or_throw, ◌>>=◌, ◌>>◌}
use entity_developer_dashboa.Url.{sanitize_url, url_sanitizer}
use entity_developer_dashboa.Access.Policy.{id_dashboard, includes}
use entity_developer_dashboa.Onboarding.Schema.{kyb}
use entity_developer_dashboa.Onboarding.Desk.{
  Desk, Office, App, Body, Detail, outside, kyc_widget_body, kyb_widget_body,
}
use entity_developer_dashboa.Onboarding.Calls.{
  type_error, or_else, get_access_token, make_external_request, onboarding_lifetime,
}
use entity_developer_dashboa.Onboarding.Plan.{
  should_use_baby_jub_jub_issuer, should_enable_proof_of_age,
}
use entity_developer_dashboa.Onboarding.Locals.{
  Locals, Case, service_id, service_subdomain, issuer_verification_method, session_access,
}
use entity_developer_dashboa.Onboarding.Steps.Ssi.{
  load_service, store_if_missing, handle_credit_service, reference,
}

module _ {S : Type 0} (of : Office S) where
  abbrev issuer_did_of : Case → Locals → Option String
  issuer_did_of c l = or_else l.issuer_did c.stored.business_id

  abbrev issuer_method_of : Case → Locals → String
  issuer_method_of c l =
      issuer_verification_method (issuer_did_of c l)
        (should_use_baby_jub_jub_issuer c.stored.interested_service)

  unfoldable pub create_kyc_service_step : Case → Locals → Exec (Desk S) Locals
  create_kyc_service_step c l = do
    cavach ← lift (sanitize_url (of.config "CAVACH_API_DOMAIN") false)
    widget ← lift (url_sanitizer (of.config "KYC_WIDGET_URL") false)
    verifier ← lift (url_sanitizer (of.config "KYC_VERIFIER_APP_BASE_URL") false)
    client ← lift (url_sanitizer (of.config "CLIENT_APP_URL") false)
    business ← lift (
        url_sanitizer
          (or_else (of.config "KYB_WIDGET_URL") (some "https://verify.business.hypersign.id"))
          false)
    app ← outside (
        of.create_an_app
          (record {
            app_name = c.stored.company_name;
            domain = c.stored.domain;
            service_ids = "CAVACH_API" ∷ [];
            whitelisted_cors = cavach ∷ widget ∷ verifier ∷ client ∷ business ∷ [];
            dependent_services = service_id l.ssi_service c.stored.ssi_service_id ∷ [];
            logo_url = c.stored.company_logo;
            issuer_did = issuer_did_of c l;
            issuer_verification_method_id = some (issuer_method_of c l);
          })
          c.stored.user_id)
    pure (record l {
      kyc_service = some app;
      kyc_redis_key = of.generate_hash (app.app_id ⋅ "_" ⋅ id_dashboard);
      update = record l.update { kyc_subdomain = app.subdomain; kyc_service_id = some app.app_id };
    })

  unfoldable pub credit_kyc_service_step : Case → Locals → Exec (Desk S) Locals
  credit_kyc_service_step c l = do
    app ← load_service of l.kyc_service c.stored.kyc_service_id
    handle_credit_service of c.dto.kyc_credit_detail (service_id app c.stored.kyc_service_id)
        c.super_admin_user_id (reference of c.id "kyc")
    pure (record l { kyc_service = app })

  -- the session of the KYC service, and a token for it
  kyc_token : Case → Locals → Option App → String → Exec (Desk S) String
  kyc_token c l app grant_type = do
    user ← or_throw type_error l.user_detail
    detail ← outside (of.redis_get l.kyc_redis_key)
    store_if_missing of detail grant_type app (session_access "CAVACH_API" user) l.kyc_redis_key
    known ← or_throw type_error app
    get_access_token of
        (record {
          app_id = service_id app c.stored.kyc_service_id;
          app_name = some known.app_name;
          grant_type = grant_type;
          subdomain = service_subdomain app c.stored.kyc_subdomain;
          session_id = l.kyc_redis_key;
        })
        onboarding_lifetime

  -- POST to a path of the KYC service
  post_kyc : String → String → Body → Exec (Desk S) (Option Detail)
  post_kyc path token body = do
    base ← lift (sanitize_url (of.config "CAVACH_API_DOMAIN") true)
    make_external_request of
        (record { url = base ⋅ path; method = "POST"; token = token; origin = none; body = body })
        "Failed to set up widget configuration"

  abbrev data_id_of : Option Detail → Option String
  data_id_of none = none
  data_id_of (some detail) = detail.data_id

  unfoldable pub setup_kyc_widget_step : Case → Locals → Exec (Desk S) Locals
  unfolding kyc_token post_kyc
  setup_kyc_widget_step c l = do
    app ← load_service of l.kyc_service c.stored.kyc_service_id
    token ← kyc_token c l app "access_service_kyc"
    reply ← post_kyc "api/v1/e-kyc/verification/widget-config" token (
        kyc_widget_body (issuer_did_of c l) (issuer_method_of c l)
          (should_enable_proof_of_age c.stored.interested_service) c.stored.domain
          c.stored.company_logo)
    pure (record l { kyc_service = app; widget_id = data_id_of reply })

  unfoldable pub configure_kyc_verifier_page_step : Case → Locals → Exec (Desk S) Locals
  configure_kyc_verifier_page_step c l = do
    outside (
        of.store_web_page_config (service_id l.kyc_service c.stored.kyc_service_id) (record {
          page_title = "KYC Verification";
          page_description = "Complete your KYC verification to proceed";
          expiry_type = "1month";
          page_type = "kyc";
          contact_email = c.stored.customer_email;
          theme_color = "vibrant";
          linked_widget_config_ids = some (l.widget_id ∷ []);
        }))
    pure l

  wants_kyb : Case → Exec (Desk S) Locals → Locals → Exec (Desk S) Locals
  wants_kyb c step l = if includes c.stored.interested_service kyb then step else pure l

  unfoldable pub setup_kyb_widget_step : Case → Locals → Exec (Desk S) Locals
  unfolding kyc_token post_kyc wants_kyb
  setup_kyb_widget_step c l =
      wants_kyb c
        (do
          app ← load_service of l.kyc_service c.stored.kyc_service_id
          token ← kyc_token c l app "access_service_kyb"
          post_kyc "api/v1/e-kyb/verification/widget-config" token (
              kyb_widget_body (issuer_did_of c l) (issuer_method_of c l) c.stored.company_name
                c.stored.company_logo)
          pure (record l { kyc_service = app }))
        l

  unfoldable pub configure_kyb_verifier_page_step : Case → Locals → Exec (Desk S) Locals
  unfolding wants_kyb
  configure_kyb_verifier_page_step c l =
      wants_kyb c
        (do
          outside (
              of.store_web_page_config (service_id l.kyc_service c.stored.kyc_service_id) (record {
                page_title = "KYB Verification";
                page_description = "Complete your KYB verification to proceed";
                expiry_type = "1month";
                page_type = "kyb";
                contact_email = c.stored.customer_email;
                theme_color = "vibrant";
                linked_widget_config_ids = none;
              }))
          pure l)
        l
