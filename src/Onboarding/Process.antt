-- ===== src/Onboarding/Process.antt =====
-- processCustomerOnboarding: the loop over the remaining steps, the update of the record and the
-- answer.
pub mod Runs
pub mod Finished
pub mod Preserved
pub mod Sound
pub mod Run
use entity_developer_dashboa.Prelude.{
  ℕ, String, Bool, true, false, not, Option, none, some, List, [], ◌∷◌, ◌⋅◌, ◌===◌, if◌then◌else◌,
  or_default, find,
}
use entity_developer_dashboa.Exec.{
  Exec, Failure, bad_request, unauthorized, not_found, conflict, forbidden, internal_server_error,
  message, Result, ok, err, pure, throw, lift, catch, throw_if, or_throw, skip, ◌>>=◌, ◌>>◌,
}
use entity_developer_dashboa.Access.Policy.{id_dashboard}
use entity_developer_dashboa.Onboarding.Schema.{
  OnboardingStep, same_step, completed, LogDetail, StepStatus, success, failed, OnboardingStatus,
  approved, failure, CustomerOnboarding, User, ProcessDto,
}
use entity_developer_dashboa.Onboarding.Desk.{
  Desk, Office, Letter, new_date, find_onboarding, update_onboarding, find_user, add_a_job,
}
use entity_developer_dashboa.Onboarding.Calls.{type_error, show}
use entity_developer_dashboa.Onboarding.Plan.{remaining_steps, merge_logs, is_success}
use entity_developer_dashboa.Onboarding.Locals.{Locals, Case, UpdateData}
use entity_developer_dashboa.Onboarding.Steps.{run_step}

-- What the loop leaves: onboardingUpdateData, onboardingStatus and onboardingLogs.
pub record Outcome : Type 0 where
  pub update : UpdateData
  pub status : Option OnboardingStatus
  pub logs : List LogDetail

abbrev pub log_step_success : OnboardingStep → ℕ → LogDetail
log_step_success step time = record { step = step; status = success; time = time }

abbrev pub log_step_failure : OnboardingStep → ℕ → Failure → LogDetail
log_step_failure step time e = record { step = step; status = failed (message e); time = time }

-- The assignment of the step `completed`; a later failure takes its place.
abbrev pub status_after : OnboardingStep → Option OnboardingStatus → Option OnboardingStatus
status_after step (some s) = some s
status_after step none = if same_step step completed then some approved else none

abbrev pub succeeded : OnboardingStep → ℕ → Outcome → Outcome
succeeded step time o = record {
  update = o.update;
  status = status_after step o.status;
  logs = log_step_success step time ∷ o.logs;
}

abbrev pub stopped : OnboardingStep → ℕ → Failure → Locals → Outcome
stopped step time e l = record {
  update = l.update;
  status = some failure;
  logs = log_step_failure step time e ∷ [];
}

abbrev pub nothing_done : Locals → Outcome
nothing_done l = record { update = l.update; status = none; logs = [] }

-- try { m } catch: the result of the step as a value
unfoldable pub attempt : {S A : Type 0} → Exec S A → Exec S (Result A)
attempt m d = let (r, after) = m d in (ok r, after)

abbrev or_kept : Option String → Option String → Option String
or_kept none kept = kept
or_kept (some new) kept = some new

-- The update of the record: the fields that the run has set, the status and the merged logs.
unfoldable pub finish : CustomerOnboarding → Outcome → CustomerOnboarding → CustomerOnboarding
finish stored o doc = record doc {
  onboarding_status = or_default o.status doc.onboarding_status;
  logs = merge_logs stored.logs o.logs;
  business_id = or_kept o.update.business_id doc.business_id;
  ssi_subdomain = or_kept o.update.ssi_subdomain doc.ssi_subdomain;
  kyc_subdomain = or_kept o.update.kyc_subdomain doc.kyc_subdomain;
  ssi_service_id = or_kept o.update.ssi_service_id doc.ssi_service_id;
  kyc_service_id = or_kept o.update.kyc_service_id doc.kyc_service_id;
}

abbrev pub is_empty {ℓ} : {A : Type ℓ} → List A → Bool
is_empty [] = true
is_empty (x ∷ xs) = false

abbrev is_failed : LogDetail → Bool
is_failed log = not (is_success log.status)

-- `if (failed) throw`
abbrev raise_failed : Option LogDetail → Result (Unit {0})
raise_failed none = ok tt
raise_failed (some log) = err (internal_server_error "Step failed")

abbrev is_approved : Option OnboardingStatus → Bool
is_approved (some approved) = true
is_approved _ = false

-- An HttpException is thrown on, everything else becomes another failure.
abbrev pub unless_http : (String → Failure) → Failure → Failure
unless_http as_ (bad_request m) = bad_request m
unless_http as_ (not_found m) = not_found m
unless_http as_ (unauthorized m) = unauthorized m
unless_http as_ (conflict m) = conflict m
unless_http as_ (forbidden m) = forbidden m
unless_http as_ (internal_server_error m) = internal_server_error m
unless_http as_ e = as_ (message e)

abbrev blank_update : UpdateData
blank_update = record {
  ssi_subdomain = none;
  ssi_service_id = none;
  business_id = none;
  kyc_subdomain = none;
  kyc_service_id = none;
}

module _ {S : Type 0} (of : Office S) where
  -- The variables before the first step; a key is the hash of the stored service.
  unfoldable pub initial : CustomerOnboarding → Option User → Locals
  initial stored user = record {
    ssi_service = none;
    kyc_service = none;
    widget_id = none;
    ssi_token = none;
    issuer_did = none;
    did_document = none;
    user_detail = user;
    ssi_redis_key = of.generate_hash (show stored.ssi_service_id ⋅ "_" ⋅ id_dashboard);
    kyc_redis_key = of.generate_hash (show stored.kyc_service_id ⋅ "_" ⋅ id_dashboard);
    update = blank_update;
  }

  unfoldable pub run_steps : List OnboardingStep → Case → Locals → Exec (Desk S) Outcome
  run_steps [] c l = pure (nothing_done l)
  run_steps (step ∷ rest) c l = do
    r ← attempt (run_step of step c l)
    time ← new_date of
    elim r [
      | err e ↦ pure (stopped step time e l)
      | ok l' ↦ do o ← run_steps rest c l'; pure (succeeded step time o)
    ]

  unfoldable pub notify : Bool → CustomerOnboarding → Exec (Desk S) (Unit {0})
  notify false stored = skip
  notify true stored = do
    found ← find_user of (λ u. u.user_id === stored.user_id)
    user ← or_throw type_error found
    add_a_job of (record {
      mail_type = "send-credit-approval-notification-mail";
      to = some user.email;
      cc = stored.customer_email ∷ [];
      subject = "Hypersign Dashboard  - Onboarding Approved";
      shown = or_default user.name "undefined" ∷ [];
    })

  process_found : String → ProcessDto → String → CustomerOnboarding → Exec (Desk S) (Unit {0})
  process_found id dto admin stored = do
    let steps = remaining_steps stored
    throw_if (is_empty steps) (bad_request "Customer onboarding is already done")
    user ← find_user of (λ u. u.user_id === stored.user_id)
    o ←
        run_steps steps
          (record { id = id; dto = dto; super_admin_user_id = admin; stored = stored })
          (initial stored user)
    update_onboarding of (λ doc. doc.id === id) (finish stored o)
    lift (raise_failed (find is_failed o.logs))
    notify (is_approved o.status) stored

  process_known : String → ProcessDto → String → Exec (Desk S) (Unit {0})
  unfolding process_found
  process_known id dto admin = do
    found ← find_onboarding of (λ doc. doc.id === id)
    stored ← or_throw (bad_request "Customer onboarding detail not found for id") found
    process_found id dto admin stored

  unfoldable pub process_customer_onboarding :
      String → ProcessDto → String → Exec (Desk S) (Unit {0})
  unfolding process_known
  process_customer_onboarding id dto admin =
      if of.is_object_id id
      then catch (process_known id dto admin) (λ e. throw (unless_http internal_server_error e))
      else throw (bad_request "Invalid customer onboarding ID")
