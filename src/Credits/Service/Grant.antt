-- ===== src/Credits/Service/Grant.antt =====
-- grantCredit: a plan is granted once for each reference.
pub mod Sparing
use entity_developer_dashboa.Prelude.{
  ℕ, ◌+◌, String, Bool, true, false, not, ◌&&◌, ◌||◌, Option, none, some, List, [], ◌∷◌, ltb, ◌==◌,
  ◌===◌, truthy, trim, if◌then◌else◌, is_some, is_number,
}
use entity_developer_dashboa.Exec.{
  error, Exec, Failure, message, internal_server_error, bad_request, Result, ok, err, pure, throw,
  lift, catch, throw_if, skip, ◌>>=◌, ◌>>◌,
}
use entity_developer_dashboa.Json.{Number, nat, neg, frac, is_safe}
use entity_developer_dashboa.Double.{two_fifths}
use entity_developer_dashboa.Credits.Schema.{
  CreditPlan, CreditStatus, active, inactive, is_active, is_inactive, CreditSource, manual_recharge,
  customer_onboarding, migration, payment, adjustment, OnChainAllowance, Scope,
}
use entity_developer_dashboa.Credits.Wallet.{ssi_api, cavach_api}
use entity_developer_dashboa.Credits.Repository.{
  has_reference, find_active_credit_for_service, create_plan,
}
use entity_developer_dashboa.Credits.Command.{grant_credit_plan}
use entity_developer_dashboa.Credits.Service.{
  TimeUnit, Validity, get_credit_validity, get_period_in_years, credit_for_middleware_grant,
  ssi_on_chain_allowance,
}
use entity_developer_dashboa.Credits.Service.Allowance.{grant_ssi_allowance}
use entity_developer_dashboa.World.{Services, Action, App, now, random_uuid, ask, find_plan}

-- CreditRequestDto; the amount is the number that its text denotes
pub record CreditRequest : Type 0 where
  pub amount : Number
  pub validity_period : ℕ
  pub validity_period_unit : TimeUnit

-- a positive safe integer
unfoldable pub positive_amount : Number → Result ℕ
positive_amount (nat n) =
    if not (is_safe n) || n == 0
    then err (bad_request "amount must be a positive safe integer")
    else ok n
positive_amount _ = err (bad_request "amount must be a positive safe integer")

abbrev pub same_source : CreditSource → CreditSource → Bool
same_source manual_recharge manual_recharge = true
same_source customer_onboarding customer_onboarding = true
same_source migration migration = true
same_source payment payment = true
same_source adjustment adjustment = true
same_source _ _ = false

abbrev pub is_source : Option CreditSource → CreditSource → Bool
is_source none s = false
is_source (some t) s = same_source t s

-- The plan has the semantics that the request asks for.
unfoldable pub same_semantics : ℕ → ℕ → ℕ → CreditSource → CreditPlan → Bool
same_semantics total critical validity_days source p =
    p.api_credit.total == total
    && is_number p.critical_balance critical
    && p.validity_days == validity_days
    && is_source p.source source

abbrev pub blank_plan : CreditPlan
blank_plan = record {
  id = "";
  service_id = "";
  service_type = "";
  reference_id = "";
  api_credit = record { total = 0; used = 0 };
  validity_days = 0;
  critical_balance = none;
  expires_at = none;
  status = inactive;
  on_chain_allowance = none;
  on_chain_allowance_scopes = [];
  credited_by = none;
  source = none;
  migration_source = none;
  legacy_credit_id = none;
  notification = record {
    last_notified_usage_threshold = none;
    last_notified_allowance_usage_threshold = none;
    expiry_thresholds_sent = none;
  };
  created_at = none;
}

abbrev require_service : Option App → Result (App × String)
require_service none = err (bad_request "No app found for appId")
require_service (some app) = elim app.services [
  | [] ↦ err (bad_request "No service configured for appId")
  | id ∷ ids ↦ ok (app, id)
]

-- Mongoose refuses to write an Invalid Date.
abbrev pub cast_expiry : Option (Option ℕ) → Result (Option ℕ)
cast_expiry none = ok none
cast_expiry (some none) = err (error "Cast to date failed")
cast_expiry (some (some t)) = ok (some t)

abbrev require_expiry : Option ℕ → Result ℕ
require_expiry none = err (internal_server_error "Credit plan expiry could not be persisted")
require_expiry (some t) = ok t

-- a BadRequestException is thrown on, everything else becomes an internal server error
abbrev pub wrap_failure : Failure → Failure
wrap_failure (bad_request m) = bad_request m
wrap_failure e = internal_server_error (message e)

module _ (sv : Services) where
  reference_or_new : Option String → Action String
  reference_or_new none = random_uuid sv
  reference_or_new (some r) = if truthy (trim r) then pure (trim r) else random_uuid sv

  -- a grant of the same reference is delivered again while it may be missing
  unfoldable pub regrant : CreditPlan → String → App → Action (Unit {0})
  regrant existing service app = elim existing.expires_at [
    | none ↦ skip
    | some t ↦
        if (service === cavach_api && is_inactive existing.status)
          || (service === ssi_api
              && is_active existing.status
              && is_some existing.on_chain_allowance)
        then grant_credit_plan sv (credit_for_middleware_grant existing t) service app.subdomain
        else skip
  ]

  start_of : Bool → Action (Option ℕ)
  start_of true = do time ← now sv; pure (some time)
  start_of false = pure none

  new_on_chain : Bool → String → ℕ → CreditRequest → Action (Option OnChainAllowance × List Scope)
  new_on_chain false app_id total request = pure (none, [])
  new_on_chain true app_id total request = do
    period ← lift (get_period_in_years request.validity_period request.validity_period_unit)
    allowance ← lift (ssi_on_chain_allowance total)
    g ← grant_ssi_allowance sv app_id allowance period
    pure (some (record { amount = g.amount; denom = "uhid"; used_amount = some 0 }), g.scopes)

  announce : Bool → Bool → CreditPlan → Option ℕ → String → App → Action (Unit {0})
  announce false is_ssi credit expires_at service app = skip
  announce true is_ssi credit expires_at service app = do
    expiry ← lift (require_expiry (elim credit.expires_at [ none ↦ expires_at | some t ↦ some t ]))
    grant_credit_plan sv (if is_ssi then credit else credit_for_middleware_grant credit expiry)
        service app.subdomain

  -- the part of grantCredit for a reference that is new
  grant_new :
      String
      → App
      → String
      → ℕ
      → ℕ
      → String
      → CreditRequest
      → String
      → CreditSource
      → Action (Unit {0})
  unfolding start_of new_on_chain announce
  grant_new app_id app service total critical reference request user source = do
    active_credit ← find_active_credit_for_service sv app_id none
    let should_activate = not (is_some active_credit)
    start ← start_of should_activate
    validity ← lift (get_credit_validity request.validity_period request.validity_period_unit start)
    let is_ssi = service === ssi_api
    chain ← new_on_chain (is_ssi && should_activate) app_id total request
    expires_at ← lift (cast_expiry validity.expires_at)
    credit ← create_plan sv (record blank_plan {
      service_id = app.app_id;
      service_type = service;
      reference_id = reference;
      api_credit = record { total = total; used = 0 };
      validity_days = validity.validity_days;
      critical_balance = some critical;
      status = if should_activate && is_ssi then active else inactive;
      expires_at = if should_activate then expires_at else none;
      on_chain_allowance = chain.0;
      on_chain_allowance_scopes = chain.1;
      credited_by = some user;
      source = some source;
    })
    throw_if (not (same_semantics total critical validity.validity_days source credit))
        (bad_request "referenceId was reused with different credit semantics")
    announce should_activate is_ssi credit expires_at service app

  grant_known :
      String
      → App
      → String
      → ℕ
      → ℕ
      → String
      → CreditRequest
      → String
      → CreditSource
      → ℕ
      → Option CreditPlan
      → Action (Unit {0})
  unfolding grant_new
  grant_known app_id app service total critical reference request user source days none =
      grant_new app_id app service total critical reference request user source
  grant_known app_id app service total critical reference request user source days (some p) = do
    throw_if (not (same_semantics total critical days source p))
        (bad_request "referenceId was reused with different credit semantics")
    regrant p service app

  grant_checked : String → CreditRequest → String → CreditSource → Option String → Action (Unit {0})
  unfolding reference_or_new grant_known
  grant_checked app_id request user source reference_id = do
    detail ← ask sv (λ _. sv.find_app app_id)
    configured ← lift (require_service detail)
    total ← lift (positive_amount request.amount)
    let critical = two_fifths total
    reference ← reference_or_new reference_id
    validity ← lift (get_credit_validity request.validity_period request.validity_period_unit none)
    existing ← find_plan sv (has_reference app_id reference)
    grant_known app_id configured.0 configured.1 total critical reference request user source
        validity.validity_days existing

  unfoldable pub grant_credit :
      String → CreditRequest → String → CreditSource → Option String → Action (Unit {0})
  unfolding grant_checked
  grant_credit app_id request user source reference_id =
      catch (grant_checked app_id request user source reference_id) λ e. throw (wrap_failure e)
