-- ===== src/Onboarding/Calls.antt =====
-- Requests to other services (makeExternalRequest), and the sessions and access tokens that they
-- need (storeDataInRedis and getAccessToken of app-auth.service.ts).
use entity_developer_dashboa.Prelude.{
  ℕ, String, not, Option, none, some, List, [], ◌∷◌, ◌⋅◌, truthy, if◌then◌else◌, or_default,
}
use entity_developer_dashboa.Exec.{
  Exec, Failure, error, pure, lift, throw_if, or_throw, ◌>>=◌, ◌>>◌,
}
use entity_developer_dashboa.Onboarding.Desk.{
  Desk, Office, App, Session, TokenData, Request, Detail, MessageText, one, many, outside,
}

-- reading a property of undefined or null
abbrev pub type_error : Failure
type_error = error "TypeError"

-- a || b of texts that may be absent
abbrev pub or_else : Option String → Option String → Option String
or_else none b = b
or_else (some a) b = if truthy a then some a else b

abbrev truthy_only : Option String → Option String
truthy_only o = or_else o none

-- `${s}`
abbrev pub show : Option String → String
show o = or_default o "undefined"

-- xs.join(', ')
abbrev join : List String → String
join [] = ""
join (s ∷ []) = s
join (s ∷ t ∷ rest) = s ⋅ ", " ⋅ join (t ∷ rest)

abbrev message_text : Option MessageText → Option String
message_text none = none
message_text (some (one s)) = some s
message_text (some (many xs)) = some (join xs)

unfoldable pub server_error : Option Detail → String
server_error none = "null"
server_error (some d) =
    or_default
      (or_else d.error_details (or_else (message_text d.message) (or_else (some d.printed) none)))
      "Unknown error from external service"

-- EXPIRY_CONFIG.DASHBOARD_ACCESS.redisExpiryTime, a week
abbrev pub dashboard_expiry : ℕ
dashboard_expiry = 604800

-- EXPIRY_CONFIG.ONBOARDING_ACCESS, as the lifetime of a token
abbrev pub onboarding_lifetime : String
onboarding_lifetime = "10m"

abbrev linked : List String → List String
linked [] = []
linked (id ∷ ids) = if truthy id then id ∷ ids else []

unfoldable pub session_of : String → App → List String → Session
session_of grant_type app access_list = record {
  app_id = app.app_id;
  user_id = app.user_id;
  grant_type = grant_type;
  kms_id = app.kms_id;
  whitelisted_cors = app.whitelisted_cors;
  subdomain = app.subdomain;
  edv_id = app.edv_id;
  access_list = access_list;
  env = or_default (truthy_only app.env) "dev";
  app_name = app.app_name;
  issuer_did = truthy_only app.issuer_did;
  issuer_verification_method_id = truthy_only app.issuer_verification_method_id;
  dependent_services = linked app.dependent_services;
}

module _ {S : Type 0} (of : Office S) where
  -- with neither a hash of the access list nor a kept lifetime, as the onboarding calls it
  unfoldable pub store_data_in_redis :
      String → Option App → List String → String → Exec (Desk S) (Unit {0})
  store_data_in_redis grant_type app access_list session_id = do
    detail ← or_throw type_error app
    outside (of.redis_set session_id (session_of grant_type detail access_list) dashboard_expiry)

  -- The token itself; the type and the lifetime beside it are not read by the onboarding.
  unfoldable pub get_access_token : TokenData → String → Exec (Desk S) String
  get_access_token payload lifetime = outside (of.sign payload lifetime)

  unfoldable pub make_external_request : Request → String → Exec (Desk S) (Option Detail)
  make_external_request request error_message = do
    response ← outside (of.fetch request)
    detail ← lift response.detail
    throw_if (not response.is_ok) (error (error_message ⋅ ": " ⋅ server_error detail))
    pure detail
