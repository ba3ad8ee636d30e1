-- ===== src/Onboarding/Locals.antt =====
-- The variables that the steps of one run share, and the pure helpers of the steps.
use entity_developer_dashboa.Prelude.{
  String, Bool, not, Option, none, some, List, [], ◌∷◌, ◌++◌, ◌⋅◌, if◌then◌else◌, any, ◌===◌, keep,
}
use entity_developer_dashboa.Access.Policy.{UserAccess, evaluate_access_policy, id_dashboard}
use entity_developer_dashboa.Access.Policy.{get_access_list_for_module}
use entity_developer_dashboa.Access.{dashboard}
use entity_developer_dashboa.Onboarding.Schema.{CustomerOnboarding, User, ProcessDto}
use entity_developer_dashboa.Onboarding.Desk.{App}
use entity_developer_dashboa.Onboarding.Calls.{or_else, show}

-- onboardingUpdateData: a field that is absent is not written.
pub record UpdateData : Type 0 where
  pub ssi_subdomain : Option String
  pub ssi_service_id : Option String
  pub business_id : Option String
  pub kyc_subdomain : Option String
  pub kyc_service_id : Option String

pub record Locals : Type 0 where
  pub ssi_service : Option App
  pub kyc_service : Option App
  -- widgetConfigDetail?.data?._id
  pub widget_id : Option String
  -- ssiAccessToken.access_token
  pub ssi_token : Option String
  -- issuerDidData?.did
  pub issuer_did : Option String
  pub did_document : Option String
  pub user_detail : Option User
  pub ssi_redis_key : String
  pub kyc_redis_key : String
  pub update : UpdateData

-- What a run is called with, and the record that it has loaded.
pub record Case : Type 0 where
  pub id : String
  pub dto : ProcessDto
  pub super_admin_user_id : String
  pub stored : CustomerOnboarding

abbrev pub app_id_of : Option App → Option String
app_id_of none = none
app_id_of (some app) = some app.app_id

abbrev pub app_name_of : Option App → Option String
app_name_of none = none
app_name_of (some app) = some app.app_name

abbrev pub subdomain_of : Option App → Option String
subdomain_of none = none
subdomain_of (some app) = app.subdomain

abbrev first_of : List String → Option String
first_of [] = none
first_of (s ∷ rest) = some s

-- service?.whitelistedCors[0]
abbrev pub origin_of : Option App → Option String
origin_of none = none
origin_of (some app) = first_of app.whitelisted_cors

-- service?.appId || stored
abbrev pub service_id : Option App → Option String → Option String
service_id app stored = or_else (app_id_of app) stored

abbrev pub service_subdomain : Option App → Option String → Option String
service_subdomain app stored = or_else (subdomain_of app) stored

-- getIssuerDetails: the verification method of the issuer
unfoldable pub issuer_verification_method : Option String → Bool → String
issuer_verification_method did use_baby_jub_jub_issuer =
    show did ⋅ "#" ⋅ (if use_baby_jub_jub_issuer then "key-2" else "key-1")

unfoldable pub get_did_register_sign_infos : Option String → Bool → List String
get_did_register_sign_infos did use_baby_jub_jub_issuer =
    (show did ⋅ "#key-1") ∷ (if use_baby_jub_jub_issuer then (show did ⋅ "#key-2") ∷ [] else [])

-- The entries of GIVE_DASHBOARD_ACCESS
abbrev pub full_access : String → UserAccess
full_access service_type = record { service_type = service_type; access = "ALL" }

abbrev pub new_access : List UserAccess
new_access = full_access "CAVACH_API" ∷ full_access "SSI_API" ∷ full_access "DASHBOARD" ∷ []

-- $concatArrays of the list and the new entries whose service it has not
unfoldable pub give_access : List UserAccess → List UserAccess
give_access access_list =
    access_list
    ++ keep (λ new. not (any (λ existing. existing.service_type === new.service_type) access_list))
        new_access

abbrev require_list : Option (List String) → List String
require_list none = []
require_list (some xs) = xs

-- the access list of a session: what the dashboard may do, as far as the user may
unfoldable pub session_access : String → User → List String
session_access service_type user =
    evaluate_access_policy (require_list (get_access_list_for_module dashboard service_type none))
      service_type user.access_list (some id_dashboard)
