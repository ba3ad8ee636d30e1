-- ===== src/Onboarding/Desk.antt =====
-- The state of the onboarding, and the services that it calls. The collections of the dashboard are
-- part of the state; what the other services keep is a state of their own, of which the onboarding
-- knows nothing. An access to the database has a fate, like the calls of the credit services.
pub mod Calm
use entity_developer_dashboa.Prelude.{
  ℕ, suc, String, Bool, false, List, [], ◌∷◌, ◌++◌, Option, none, some,
}
use entity_developer_dashboa.Exec.{Exec, Failure, Result, ok, err, catch, skip}
use entity_developer_dashboa.Collection.{Collection}
use entity_developer_dashboa.World.{Fate, done, refused, lost}
use entity_developer_dashboa.Credits.Schema.{CreditSource}
use entity_developer_dashboa.Credits.Service.Grant.{CreditRequest}
use entity_developer_dashboa.Onboarding.Schema.{CustomerOnboarding, User, Role}

-- A mail of addAJob: its kind, and what its text shows.
pub record Letter : Type 0 where
  pub mail_type : String
  pub to : Option String
  pub cc : List String
  pub subject : String
  pub shown : List String

pub record Desk (S : Type 0) : Type 0 where
  pub onboardings : List CustomerOnboarding
  pub users : List User
  pub roles : List Role
  -- how many calls were made, and how often the clock was read
  pub calls : ℕ
  pub readings : ℕ
  pub outside : S

-- An application, as the onboarding and its sessions read it. The answer of createAnApp has no
-- userId.
pub record App : Type 0 where
  pub app_id : String
  pub user_id : Option String
  pub app_name : String
  pub subdomain : Option String
  pub whitelisted_cors : List String
  pub kms_id : Option String
  pub edv_id : Option String
  pub env : Option String
  pub issuer_did : Option String
  pub issuer_verification_method_id : Option String
  pub dependent_services : List String

-- CreateAppDto
pub record CreateApp : Type 0 where
  pub app_name : String
  pub domain : Option String
  pub service_ids : List String
  pub whitelisted_cors : List String
  pub dependent_services : List (Option String)
  pub logo_url : Option String
  pub issuer_did : Option String
  pub issuer_verification_method_id : Option String

-- The session that storeDataInRedis writes.
pub record Session : Type 0 where
  pub app_id : String
  pub user_id : Option String
  pub grant_type : String
  pub kms_id : Option String
  pub whitelisted_cors : List String
  pub subdomain : Option String
  pub edv_id : Option String
  pub access_list : List String
  pub env : String
  pub app_name : String
  pub issuer_did : Option String
  pub issuer_verification_method_id : Option String
  pub dependent_services : List String

-- The payload of an access token.
pub record TokenData : Type 0 where
  pub app_id : Option String
  pub app_name : Option String
  pub grant_type : String
  pub subdomain : Option String
  pub session_id : String

-- The bodies of the requests to the SSI and KYC services.
pub data Body : Type 0 where
  no_body : Body
  -- namespace, and the key types of the options if there are some
  create_did_body : String → List String → Body
  -- DID document, verification methods of signInfos
  register_did_body : Option String → List String → Body
  -- issuer DID, its verification method, whether a proof of age is asked for, domain, logo
  kyc_widget_body : Option String → String → Bool → Option String → Option String → Body
  -- issuer DID, its verification method, business name, logo
  kyb_widget_body : Option String → String → String → Option String → Body

pub record Request : Type 0 where
  pub url : String
  pub method : String
  -- the authorization header, or x-kyc-access-token
  pub token : String
  pub origin : Option String
  pub body : Body

pub data MessageText : Type 0 where
  one : String → MessageText
  many : List String → MessageText

-- The parsed text of a response, as far as it is read.
pub record Detail : Type 0 where
  pub error_details : Option String
  pub message : Option MessageText
  -- JSON.stringify(detail)
  pub printed : String
  pub did : Option String
  -- metaData and its didDocument
  pub meta_data : Option (Option String)
  pub did_document : Option String
  -- data._id
  pub data_id : Option String

pub record Response : Type 0 where
  pub is_ok : Bool
  -- null for an empty text; a text that is no JSON throws.
  pub detail : Result (Option Detail)

-- CreateWebpageConfigDto
pub record PageConfig : Type 0 where
  pub page_title : String
  pub page_description : String
  pub expiry_type : String
  pub page_type : String
  pub contact_email : String
  pub theme_color : String
  pub linked_widget_config_ids : Option (List (Option String))

pub record Office (S : Type 0) : Type 0 where
  pub clock : ℕ → ℕ
  pub fate : ℕ → Fate
  pub onboarding_store : Collection CustomerOnboarding
  pub user_store : Collection User
  pub role_store : Collection Role
  -- Types.ObjectId.isValid
  pub is_object_id : String → Bool
  -- config.get
  pub config : String → Option String
  -- generateHash, a SHA-256
  pub generate_hash : String → String
  -- the `_id` that the next document has, and the place where an e-mail address is split
  pub object_id : ℕ → String
  -- appAuthRepository.findOne({ appId })
  pub find_app : String → Exec S (Option App)
  pub create_an_app : CreateApp → String → Exec S App
  pub grant_credit :
      Option String → CreditRequest → String → CreditSource → Option String → Exec S (Unit {0})
  pub redis_get : String → Exec S (Option Session)
  pub redis_set : String → Session → ℕ → Exec S (Unit {0})
  -- jwt.signAsync, with its lifetime
  pub sign : TokenData → String → Exec S String
  pub fetch : Request → Exec S Response
  pub store_web_page_config : Option String → PageConfig → Exec S (Unit {0})
  -- mailQueue.add
  pub add_mail : Letter → Exec S (Unit {0})

module _ {S A : Type 0} where
  abbrev put_outside : Desk S → Result A × S → Result A × Desk S
  put_outside d (r, s) = (r, record d { outside = s })

  -- A call of another service.
  unfoldable pub outside : Exec S A → Exec (Desk S) A
  outside m d = put_outside d (m d.outside)

  abbrev pub settle : Fate → A × Desk S → Desk S → Result A × Desk S
  settle done (a, after) before = (ok a, after)
  settle (refused e) (a, after) before = (err (Failure.rejected e), before)
  settle (lost e) (a, after) before = (err (Failure.rejected e), after)

  -- An access to the database.
  unfoldable pub reach : Office S → (Desk S → A × Desk S) → Exec (Desk S) A
  reach of f d = let d' = record d { calls = suc d.calls } in settle (of.fate d.calls) (f d') d'

module _ {S : Type 0} (of : Office S) where
  -- new Date()
  unfoldable pub new_date : Exec (Desk S) ℕ
  new_date d = (ok (of.clock d.readings), record d { readings = suc d.readings })

  unfoldable pub find_onboarding :
      (CustomerOnboarding → Bool) → Exec (Desk S) (Option CustomerOnboarding)
  find_onboarding f = reach of (λ d. (of.onboarding_store.find_one f d.onboardings, d))

  abbrev pub with_onboardings :
      Desk S
      → Option CustomerOnboarding × List CustomerOnboarding
      → Option CustomerOnboarding × Desk S
  with_onboardings d (found, docs) = (found, record d { onboardings = docs })

  unfoldable pub update_onboarding :
      (CustomerOnboarding → Bool)
      → (CustomerOnboarding → CustomerOnboarding)
      → Exec (Desk S) (Option CustomerOnboarding)
  update_onboarding f u =
      reach of (λ d. with_onboardings d (of.onboarding_store.find_one_and_update f u d.onboardings))

  unfoldable pub find_user : (User → Bool) → Exec (Desk S) (Option User)
  find_user f = reach of (λ d. (of.user_store.find_one f d.users, d))

  unfoldable pub find_users : (User → Bool) → Exec (Desk S) (List User)
  find_users f = reach of (λ d. (of.user_store.find_many f d.users, d))

  abbrev with_users : Desk S → Option User × List User → Option User × Desk S
  with_users d (found, docs) = (found, record d { users = docs })

  unfoldable pub update_user : (User → Bool) → (User → User) → Exec (Desk S) (Option User)
  update_user f u = reach of (λ d. with_users d (of.user_store.find_one_and_update f u d.users))

  unfoldable pub find_role : (Role → Bool) → Exec (Desk S) (Option Role)
  find_role f = reach of (λ d. (of.role_store.find_one f d.roles, d))

  abbrev pub or_duplicate :
      {D : Type 0} → (List D → Desk S) → Desk S → Option (List D) → Result (Unit {0}) × Desk S
  or_duplicate put d none = (err Failure.duplicate_key, d)
  or_duplicate put d (some docs) = (ok tt, put docs)

  abbrev join_result : Result (Result (Unit {0})) → Result (Unit {0})
  join_result (ok r) = r
  join_result (err e) = err e

  abbrev pub joined : Result (Result (Unit {0})) × Desk S → Result (Unit {0}) × Desk S
  joined (r, d) = (join_result r, d)

  -- new roleModel(role).save(), under its unique index
  unfoldable pub create_role : (Role → Bool) → Role → Exec (Desk S) (Unit {0})
  create_role same role d = joined (
      reach of
        (λ v.
          or_duplicate (λ docs. record v { roles = docs }) v
            (of.role_store.insert same role v.roles))
        d)

  -- new customerOnboardingModel(data).save(), under the unique index of the company name
  unfoldable pub save_onboarding :
      (CustomerOnboarding → Bool) → CustomerOnboarding → Exec (Desk S) (Unit {0})
  save_onboarding same doc d = joined (
      reach of
        (λ v.
          or_duplicate (λ docs. record v { onboardings = docs }) v
            (of.onboarding_store.insert same doc v.onboardings))
        d)

  -- mailNotificationService.addAJob, which logs a failure and goes on
  unfoldable pub add_a_job : Letter → Exec (Desk S) (Unit {0})
  add_a_job letter = catch (outside (of.add_mail letter)) λ e. skip
