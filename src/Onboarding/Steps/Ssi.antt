-- ===== src/Onboarding/Steps/Ssi.antt =====
-- The steps of processCustomerOnboarding up to the registration of the DID.
use entity_developer_dashboa.Prelude.{
  String, Bool, true, false, ◌&&◌, Option, none, some, List, [], ◌∷◌, ◌⋅◌, ◌===◌, truthy,
  if◌then◌else◌, or_default,
}
use entity_developer_dashboa.Exec.{Exec, pure, lift, or_throw, skip, ◌>>=◌, ◌>>◌}
use entity_developer_dashboa.Url.{sanitize_url, url_sanitizer}
use entity_developer_dashboa.Credits.Schema.{customer_onboarding}
use entity_developer_dashboa.Credits.Service.Grant.{CreditRequest}
use entity_developer_dashboa.Access.Policy.{id_dashboard}
use entity_developer_dashboa.Onboarding.Schema.{Role}
use entity_developer_dashboa.Onboarding.Desk.{
  Desk, Office, App, outside, find_role, create_role, update_user, create_did_body,
  register_did_body, no_body, Session,
}
use entity_developer_dashboa.Onboarding.Calls.{
  type_error, or_else, show, store_data_in_redis, get_access_token, make_external_request,
  onboarding_lifetime,
}
use entity_developer_dashboa.Onboarding.Plan.{should_use_baby_jub_jub_issuer}
use entity_developer_dashboa.Onboarding.Locals.{
  Locals, Case, app_name_of, origin_of, service_id, service_subdomain, full_access,
  get_did_register_sign_infos, give_access, session_access,
}

-- ONBORDING_CONSTANT_DATA
abbrev pub admin_role : String → Role
admin_role user_id = record {
  user_id = user_id;
  role_name = "Admin";
  role_description = "Admin role with all permissions";
  permissions =
      full_access "SSI_API"
      ∷ full_access "CAVACH_API"
      ∷ full_access "QUEST"
      ∷ full_access "DASHBOARD"
      ∷ [];
}

module _ {S : Type 0} (of : Office S) where
  unfoldable pub give_dashboard_access_step : Case → Locals → Exec (Desk S) Locals
  give_dashboard_access_step c l = do
    user ←
        update_user of (λ u. u.user_id === c.stored.user_id)
          (λ u. record u { access_list = give_access u.access_list })
    pure (record l { user_detail = user })

  unfoldable pub create_missing_role : Option Role → String → Exec (Desk S) (Unit {0})
  create_missing_role (some role) user_id = skip
  create_missing_role none user_id =
      create_role of (λ r. r.user_id === user_id && r.role_name === "Admin") (admin_role user_id)

  unfoldable pub create_team_role_step : Case → Locals → Exec (Desk S) Locals
  create_team_role_step c l = do
    existing_role ← find_role of (λ r. r.user_id === c.stored.user_id)
    create_missing_role existing_role c.stored.user_id
    pure l

  unfoldable pub create_ssi_service_step : Case → Locals → Exec (Desk S) Locals
  create_ssi_service_step c l = do
    client ← lift (sanitize_url (of.config "CLIENT_APP_URL") false)
    cavach ← lift (sanitize_url (of.config "CAVACH_API_DOMAIN") false)
    ssi ← lift (sanitize_url (of.config "SSI_API_DOMAIN") false)
    verifier ← lift (url_sanitizer (of.config "KYC_VERIFIER_APP_BASE_URL") false)
    app ← outside (
        of.create_an_app
          (record {
            app_name = c.stored.company_name;
            domain = c.stored.domain;
            service_ids = "SSI_API" ∷ [];
            whitelisted_cors = client ∷ cavach ∷ ssi ∷ verifier ∷ [];
            dependent_services = [];
            logo_url = c.stored.company_logo;
            issuer_did = none;
            issuer_verification_method_id = none;
          })
          c.stored.user_id)
    pure (record l {
      ssi_service = some app;
      ssi_redis_key = of.generate_hash (app.app_id ⋅ "_" ⋅ id_dashboard);
      update = record l.update { ssi_subdomain = app.subdomain; ssi_service_id = some app.app_id };
    })

  -- the reference under which a run grants the credit of a service
  abbrev pub reference : String → String → String
  reference id service = "customer-onboarding:" ⋅ id ⋅ ":" ⋅ service

  -- the credit of a service of the record
  unfoldable pub handle_credit_service :
      CreditRequest → Option String → String → String → Exec (Desk S) (Unit {0})
  handle_credit_service credit_detail app_id super_admin_user_id reference_id = outside (
      of.grant_credit app_id credit_detail super_admin_user_id customer_onboarding
        (some reference_id))

  unfoldable pub credit_ssi_service_step : Case → Locals → Exec (Desk S) Locals
  credit_ssi_service_step c l = do
    handle_credit_service c.dto.ssi_credit_detail (service_id l.ssi_service c.stored.ssi_service_id)
        c.super_admin_user_id (reference c.id "ssi")
    pure l

  -- `if (!service && stored) service = await findOne({ appId: stored })`
  unfoldable pub load_service : Option App → Option String → Exec (Desk S) (Option App)
  load_service (some app) stored = pure (some app)
  load_service none none = pure none
  load_service none (some id) = if truthy id then outside (of.find_app id) else pure none

  unfoldable pub store_if_missing :
      Option Session → String → Option App → List String → String → Exec (Desk S) (Unit {0})
  store_if_missing (some session) grant_type app access_list key = skip
  store_if_missing none grant_type app access_list key =
      store_data_in_redis of grant_type app access_list key

  -- the session of the SSI service, under a key that it may have already
  ssi_session : Locals → Option App → Exec (Desk S) (Unit {0})
  ssi_session l app = do
    detail ← outside (of.redis_get l.ssi_redis_key)
    user ← or_throw type_error l.user_detail
    store_if_missing detail "access_service_ssi" app (session_access "SSI_API" user) l.ssi_redis_key

  ssi_token_of : Case → Locals → Option App → Exec (Desk S) String
  ssi_token_of c l app =
      get_access_token of
        (record {
          app_id = service_id app c.stored.ssi_service_id;
          app_name = app_name_of app;
          grant_type = "access_service_ssi";
          subdomain = service_subdomain app c.stored.ssi_subdomain;
          session_id = l.ssi_redis_key;
        })
        onboarding_lifetime

  abbrev use_baby_jub_jub : Case → Bool
  use_baby_jub_jub c = should_use_baby_jub_jub_issuer c.stored.interested_service

  -- POST api/v1/did/create
  abbrev key_types : Bool → List String
  key_types false = []
  key_types true = "Ed25519VerificationKey2020" ∷ "BabyJubJubKey2021" ∷ []

  unfoldable pub create_did_step : Case → Locals → Exec (Desk S) Locals
  unfolding ssi_session ssi_token_of
  create_did_step c l = do
    app ← load_service l.ssi_service c.stored.ssi_service_id
    ssi_session l app
    token ← ssi_token_of c l app
    base ← lift (sanitize_url (of.config "SSI_API_DOMAIN") true)
    reply ←
        make_external_request of
          (record {
            url = base ⋅ "api/v1/did/create";
            method = "POST";
            token = token;
            origin = origin_of app;
            body =
                create_did_body (or_default (of.config "HID_NETWORK_NAMESPACE") "")
                  (key_types (use_baby_jub_jub c));
          })
          "Failed to create DID"
    detail ← or_throw type_error reply
    document ← or_throw type_error detail.meta_data
    pure (record l {
      ssi_service = app;
      ssi_token = some token;
      issuer_did = detail.did;
      did_document = document;
      update = record l.update { business_id = detail.did };
    })

  -- didDocument, or the one that the DID resolves to
  unfoldable pub resolve_document :
      Option String → String → Option App → Option String → Exec (Desk S) (Option String)
  resolve_document (some document) token app did = pure (some document)
  resolve_document none token app did = do
    base ← lift (sanitize_url (of.config "SSI_API_DOMAIN") true)
    reply ←
        make_external_request of
          (record {
            url = base ⋅ "api/v1/did/resolve/" ⋅ show did;
            method = "GET";
            token = token;
            origin = origin_of app;
            body = no_body;
          })
          "Failed to resolve DID"
    detail ← or_throw type_error reply
    pure detail.did_document

  unfoldable pub known_token : Option String → Exec (Desk S) String → Exec (Desk S) String
  known_token (some token) draw = pure token
  known_token none draw = draw

  unfoldable pub register_did_step : Case → Locals → Exec (Desk S) Locals
  unfolding ssi_session ssi_token_of
  register_did_step c l = do
    app ← load_service l.ssi_service c.stored.ssi_service_id
    or_throw type_error app
    ssi_session l app
    token ← known_token l.ssi_token (ssi_token_of c l app)
    let did = or_else l.issuer_did c.stored.business_id
    document ← resolve_document l.did_document token app did
    base ← lift (sanitize_url (of.config "SSI_API_DOMAIN") true)
    make_external_request of
        (record {
          url = base ⋅ "api/v1/did/register/v2";
          method = "POST";
          token = token;
          origin = none;
          body = register_did_body document (get_did_register_sign_infos did (use_baby_jub_jub c));
        })
        "Failed to register DID"
    pure (record l { ssi_service = app; ssi_token = some token; did_document = document })
