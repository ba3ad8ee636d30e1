-- ===== src/Onboarding/Request.antt =====
-- The other operations of customer-onboarding.service.ts: the request of a customer, its retry, and
-- the two queries.
pub mod Access
use entity_developer_dashboa.Prelude.{
  ℕ, String, Bool, true, false, not, ◌||◌, Option, none, some, List, [], ◌∷◌, ◌===◌, truthy, map,
  keep, if◌then◌else◌, or_default,
}
use entity_developer_dashboa.Exec.{
  Exec, Failure, bad_request, conflict, forbidden, error, duplicate_key, message, Result, ok, err,
  pure, throw, gets, lift, catch, throw_if, or_throw, ◌>>=◌, ◌>>◌,
}
use entity_developer_dashboa.Onboarding.Schema.{
  CustomerOnboarding, User, UserRole, admin, super_admin, OnboardingStatus, initiated, approved,
  failure, LogDetail, StepStatus, success, failed, OnboardingStep,
}
use entity_developer_dashboa.Onboarding.Desk.{
  Desk, Office, Letter, find_onboarding, find_users, save_onboarding, add_a_job,
}
use entity_developer_dashboa.Onboarding.Plan.{is_success}
use entity_developer_dashboa.Onboarding.Process.{unless_http}

-- CreateCustomerOnboardingDto, as far as it is stored in the model
pub record CreateDto : Type 0 where
  pub company_name : String
  pub customer_email : String
  pub company_logo : Option String
  pub domain : Option String
  pub interested_service : List String

-- The user of a request.
pub record Caller : Type 0 where
  pub user_id : String
  pub role : UserRole
  pub name : Option String

abbrev is_admin : UserRole → Bool
is_admin admin = true
is_admin super_admin = false

abbrev pub is_super_admin : UserRole → Bool
is_super_admin super_admin = true
is_super_admin admin = false

-- emails[0] and emails.slice(1)
abbrev first_email : List String → Option String
first_email [] = none
first_email (e ∷ es) = some e

abbrev other_emails : List String → List String
other_emails [] = []
other_emails (e ∷ es) = es

-- A new record has the defaults of the schema.
abbrev pub new_onboarding : String → CreateDto → String → CustomerOnboarding
new_onboarding id dto user_id = record {
  id = id;
  user_id = user_id;
  company_name = dto.company_name;
  customer_email = dto.customer_email;
  company_logo = dto.company_logo;
  domain = dto.domain;
  interested_service = dto.interested_service;
  onboarding_status = initiated;
  logs = [];
  business_id = none;
  ssi_subdomain = none;
  kyc_subdomain = none;
  ssi_service_id = none;
  kyc_service_id = none;
}

abbrev refuse_second : Option CustomerOnboarding → Result (Unit {0})
refuse_second none = ok tt
refuse_second (some existing) = err (error "TypeError")

abbrev create_failure : Failure → Failure
create_failure duplicate_key = conflict "already exists"
create_failure e = bad_request (message e)

abbrev is_failed_status : OnboardingStatus → Bool
is_failed_status failure = true
is_failed_status _ = false

abbrev is_approved_status : OnboardingStatus → Bool
is_approved_status approved = true
is_approved_status _ = false

-- The reasons of the failed entries, and the first of them
abbrev reasons : List LogDetail → List String
reasons [] = []
reasons (x ∷ xs) = elim x.status [ success ↦ reasons xs | failed r ↦ r ∷ reasons xs ]

abbrev first_reason : List String → String
first_reason [] = "Failure reason not recorded"
first_reason (r ∷ rs) = if truthy r then r else "Failure reason not recorded"

module _ {S : Type 0} (of : Office S) where
  -- sendOnboardingRequestMailToSuperAdmin: the mail goes to the first super admin, with a copy to the others
  unfoldable pub send_to_super_admins : String → List String → Exec (Desk S) (Unit {0})
  send_to_super_admins subject shown = do
    super_admins ← find_users of (λ u. is_super_admin u.role)
    let emails = map (λ u. u.email) super_admins
    add_a_job of (record {
      mail_type = "send-credit-request-notification-mail";
      to = first_email emails;
      cc = other_emails emails;
      subject = subject;
      shown = shown;
    })

  -- An admin may ask once. The code indexes the exception's class by the message, so that what it
  -- throws is a TypeError.
  only_once : Caller → Exec (Desk S) (Unit {0})
  only_once caller =
      if is_admin caller.role
      then (do
        existing ← find_onboarding of (λ doc. doc.user_id === caller.user_id)
        lift (refuse_second existing))
      else pure tt

  create_checked : CreateDto → Caller → String → Exec (Desk S) CustomerOnboarding
  unfolding only_once
  create_checked dto caller logged_in_email = do
    only_once caller
    calls ← gets (λ d. d.calls)
    let doc = new_onboarding (of.object_id calls) dto caller.user_id
    save_onboarding of (λ other. other.company_name === dto.company_name) doc
    send_to_super_admins "New Customer Onboarding Request Received"
        (caller.user_id ∷ dto.customer_email ∷ doc.id ∷ dto.company_name ∷ logged_in_email ∷ [])
    pure doc

  unfoldable pub create_customer_onboarding_detail :
      CreateDto → Caller → String → Exec (Desk S) CustomerOnboarding
  unfolding create_checked
  create_customer_onboarding_detail dto caller logged_in_email =
      catch (create_checked dto caller logged_in_email) λ e. throw (create_failure e)

  may_read : Caller → CustomerOnboarding → Bool
  may_read caller doc = is_super_admin caller.role || doc.user_id === caller.user_id

  unfoldable pub find_one : String → Caller → Exec (Desk S) CustomerOnboarding
  unfolding may_read
  find_one id caller =
      catch
        (do
          found ← find_onboarding of (λ doc. doc.id === id)
          doc ← or_throw (bad_request "Customer Onboarding detail not found") found
          throw_if (not (may_read caller doc))
              (forbidden "You are not authorized to access this resource")
          pure doc)
        λ e. throw (unless_http bad_request e)

  -- The order that the code asks for stands in the filter, as a field that the schema has not: it is
  -- not applied.
  unfoldable pub find_user_onboarding_detail : Caller → Exec (Desk S) CustomerOnboarding
  find_user_onboarding_detail caller =
      catch
        (do
          found ← find_onboarding of (λ doc. doc.user_id === caller.user_id)
          or_throw (bad_request "No onboarding detail found for user") found)
        λ e. throw (unless_http bad_request e)

  unfoldable pub notify_admin_on_onboarding_retry :
      CreateDto → String → Exec (Desk S) CustomerOnboarding
  notify_admin_on_onboarding_retry dto user_id = do
    found ← find_onboarding of (λ doc. doc.user_id === user_id)
    doc ← or_throw (bad_request "No customer onboarding detail found for userId") found
    throw_if (is_approved_status doc.onboarding_status)
        (bad_request "Customer onboarding is already done")
    let failures = if is_failed_status doc.onboarding_status then reasons doc.logs else []
    send_to_super_admins "Re-Onboarding Request Received"
        (user_id ∷ dto.customer_email ∷ first_reason failures ∷ doc.id ∷ [])
    pure doc
