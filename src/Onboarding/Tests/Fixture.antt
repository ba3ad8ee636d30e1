-- ===== src/Onboarding/Tests/Fixture.antt =====
-- Services that all answer, a customer, and the records of an onboarding.
use entity_developer_dashboa.Prelude.{String, true, none, some, [], ◌∷◌, List, ◌+◌}
use entity_developer_dashboa.Exec.{pure, ok, error, throw}
use entity_developer_dashboa.Json.{nat}
use entity_developer_dashboa.Collection.InMemory.{in_memory}
use entity_developer_dashboa.World.{done}
use entity_developer_dashboa.Credits.Service.{days}
use entity_developer_dashboa.Credits.Service.Grant.{CreditRequest}
use entity_developer_dashboa.Onboarding.Schema.{
  CustomerOnboarding, User, ProcessDto, initiated, admin,
}
use entity_developer_dashboa.Onboarding.Desk.{Desk, Office, App, Detail}

abbrev pub ssi_app : App
ssi_app = record {
  app_id = "ssi";
  user_id = none;
  app_name = "Acme";
  subdomain = some "ent-1";
  whitelisted_cors = "https://client" ∷ [];
  kms_id = some "kms";
  edv_id = some "edv";
  env = some "dev";
  issuer_did = none;
  issuer_verification_method_id = none;
  dependent_services = [];
}

abbrev detail : Detail
detail = record {
  error_details = none;
  message = none;
  printed = "{}";
  did = some "did:hid:1";
  meta_data = some (some "document");
  did_document = some "document";
  data_id = some "widget";
}

abbrev pub office : Office (Unit {0})
office = record {
  clock = λ n. 100 + n;
  fate = λ n. done;
  onboarding_store = in_memory;
  user_store = in_memory;
  role_store = in_memory;
  is_object_id = λ id. true;
  config = λ key. some "https://service";
  generate_hash = λ s. s;
  object_id = λ n. "new";
  find_app = λ id. pure (some ssi_app);
  create_an_app = λ dto user_id. pure ssi_app;
  grant_credit = λ app_id request user source reference. pure tt;
  redis_get = λ key. pure none;
  redis_set = λ key session expiry. pure tt;
  sign = λ payload life. pure "token";
  fetch = λ request. pure (record { is_ok = true; detail = ok (some detail) });
  store_web_page_config = λ id config. pure tt;
  add_mail = λ letter. pure tt;
}

-- No application can be created.
abbrev pub no_apps : Office (Unit {0})
no_apps = record office { create_an_app = λ dto user_id. throw (error "no vault") }

abbrev pub acme : CustomerOnboarding
acme = record {
  id = "acme";
  user_id = "user";
  company_name = "Acme";
  customer_email = "a@acme";
  company_logo = none;
  domain = none;
  interested_service = "Age Verification" ∷ [];
  onboarding_status = initiated;
  logs = [];
  business_id = none;
  ssi_subdomain = none;
  kyc_subdomain = none;
  ssi_service_id = none;
  kyc_service_id = none;
}

abbrev pub user : User
user = record { user_id = "user"; email = "u@acme"; name = none; access_list = []; role = admin }

abbrev pub desk : Desk (Unit {0})
desk = record {
  onboardings = acme ∷ [];
  users = user ∷ [];
  roles = [];
  calls = 0;
  readings = 0;
  outside = tt;
}

abbrev pub credit : CreditRequest
credit = record { amount = nat 500; validity_period = 60; validity_period_unit = days }

abbrev pub dto : ProcessDto
dto = record { ssi_credit_detail = credit; kyc_credit_detail = credit }

abbrev pub services : String → List String
services id = "Age Verification" ∷ []
