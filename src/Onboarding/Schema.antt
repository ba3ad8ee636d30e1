-- ===== src/Onboarding/Schema.antt =====
-- The documents of the onboarding (schemas/customer-onboarding.schema.ts, constants/enum.ts), of the
-- users and their roles, as far as the onboarding reads or writes them.
use entity_developer_dashboa.Prelude.{ℕ, String, Bool, Option, List, [], ◌∷◌, ◌==◌}
use entity_developer_dashboa.Access.Policy.{UserAccess}
use entity_developer_dashboa.Credits.Service.Grant.{CreditRequest}

pub data OnboardingStep : Type 0 where
  give_dashboard_access create_team_role create_ssi_service credit_ssi_service create_did
        register_did create_kyc_service credit_kyc_service setup_kyc_widget setup_kyb_widget
        configure_kyc_verifier_page configure_kyb_verifier_page completed :
      OnboardingStep

-- The place of a step in the enumeration, from 0.
abbrev pub index : OnboardingStep → ℕ
index give_dashboard_access = 0
index create_team_role = 1
index create_ssi_service = 2
index credit_ssi_service = 3
index create_did = 4
index register_did = 5
index create_kyc_service = 6
index credit_kyc_service = 7
index setup_kyc_widget = 8
index setup_kyb_widget = 9
index configure_kyc_verifier_page = 10
index configure_kyb_verifier_page = 11
index completed = 12

-- a === b
abbrev pub same_step : OnboardingStep → OnboardingStep → Bool
same_step a b = index a == index b

-- Object.values(OnboardingStep)
abbrev pub all_steps : List OnboardingStep
all_steps =
    give_dashboard_access ∷ create_team_role ∷ create_ssi_service ∷ credit_ssi_service ∷ create_did
    ∷ register_did ∷ create_kyc_service ∷ credit_kyc_service ∷ setup_kyc_widget ∷ setup_kyb_widget
    ∷ configure_kyc_verifier_page ∷ configure_kyb_verifier_page ∷ completed ∷ []

-- A LogDetail: a failure has its reason.
pub data StepStatus : Type 0 where
  success : StepStatus
  failed : String → StepStatus

pub record LogDetail : Type 0 where
  pub step : OnboardingStep
  pub status : StepStatus
  pub time : ℕ

-- CreditStatus of the onboarding
pub data OnboardingStatus : Type 0 where
  initiated processing approved failure : OnboardingStatus

pub record CustomerOnboarding : Type 0 where
  pub id : String
  pub user_id : String
  pub company_name : String
  pub customer_email : String
  pub company_logo : Option String
  pub domain : Option String
  pub interested_service : List String
  pub onboarding_status : OnboardingStatus
  pub logs : List LogDetail
  pub business_id : Option String
  pub ssi_subdomain : Option String
  pub kyc_subdomain : Option String
  pub ssi_service_id : Option String
  pub kyc_service_id : Option String

-- The members of InterestedService that the code tests
abbrev pub kyb : String
kyb = "Know Your Business (KYB)"

abbrev pub age_verification : String
age_verification = "Age Verification"

abbrev pub proof_of_personhood : String
proof_of_personhood = "Proof of Personhood"

pub data UserRole : Type 0 where
  admin super_admin : UserRole

pub record User : Type 0 where
  pub user_id : String
  pub email : String
  pub name : Option String
  pub access_list : List UserAccess
  pub role : UserRole

pub record Role : Type 0 where
  pub user_id : String
  pub role_name : String
  pub role_description : String
  pub permissions : List UserAccess

-- CustomerOnboardingProcessDto
pub record ProcessDto : Type 0 where
  pub ssi_credit_detail : CreditRequest
  pub kyc_credit_detail : CreditRequest
