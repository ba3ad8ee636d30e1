-- ===== src/Credits/Service/Activate.antt =====
-- activateCredit
pub mod Sparing
use entity_developer_dashboa.Prelude.{
  ℕ, ◌+◌, ◌-◌, String, Bool, true, false, not, ◌&&◌, ◌||◌, Option, none, some, List, [], ◌∷◌, leb,
  ◌==◌, ◌===◌, if◌then◌else◌, is_some, is_number,
}
use entity_developer_dashboa.Exec.{
  Exec, Failure, internal_server_error, bad_request, not_found, Result, ok, err, pure, throw, lift,
  throw_if, or_throw, ◌>>=◌, ◌>>◌,
}
use entity_developer_dashboa.Calendar.{add_days}
use entity_developer_dashboa.Credits.Schema.{
  CreditPlan, CreditStatus, is_active, OnChainAllowance, Scope,
}
use entity_developer_dashboa.Credits.Wallet.{ssi_api, cavach_api}
use entity_developer_dashboa.Credits.Repository.{is_plan_of}
use entity_developer_dashboa.Credits.Repository.Activation.{activate_ssi_credit_plan}
use entity_developer_dashboa.Credits.Command.{grant_credit_plan}
use entity_developer_dashboa.Credits.Service.{
  resolve_critical_balance, credit_for_middleware_grant, assert_usable_allowance,
  ssi_on_chain_allowance,
}
use entity_developer_dashboa.Credits.Service.Allowance.{Grant, grant_ssi_allowance}
use entity_developer_dashboa.World.{Services, Action, App, now, ask, find_plan, update_plan}

-- The service that a request can be for.
pub data Supported : Type 0 where
  kyc ssi : Supported

abbrev pub supported_text : Supported → String
supported_text kyc = cavach_api
supported_text ssi = ssi_api

-- appDetail?.services?.[0]?.id, where it is one of the two
abbrev pub supported_service : Option App → Option (App × Supported)
supported_service none = none
supported_service (some app) = elim app.services [
  | [] ↦ none
  | id ∷ ids ↦
      if id === cavach_api
      then some (app, kyc)
      else if id === ssi_api
      then some (app, ssi)
      else none
]

unfoldable pub set_critical_balance : ℕ → String → CreditPlan → CreditPlan
set_critical_balance critical service_type p = record p {
  critical_balance = some critical;
  service_type = service_type;
}

unfoldable pub set_expiry : ℕ → CreditPlan → CreditPlan
set_expiry expires_at p = record p { expires_at = some expires_at }

-- `{ _id, serviceId }` without an expiry
unfoldable pub lacks_expiry : String → String → CreditPlan → Bool
lacks_expiry id app_id p = is_plan_of id app_id p && not (is_some p.expires_at)

module _ (sv : Services) where
  -- the expiry of the document has not passed
  check_expiry : Option ℕ → Action (Unit {0})
  check_expiry none = pure tt
  check_expiry (some t) = do
    time ← now sv
    throw_if (leb t time) (bad_request "Expired credit cannot be activated")

  -- a plan whose critical balance is missing gets one before anything else is done
  normalize : CreditPlan → String → String → Supported → ℕ → Action CreditPlan
  normalize credit credit_id app_id service critical =
      if is_number credit.critical_balance critical then pure credit else do
        updated ←
            update_plan sv (is_plan_of credit_id app_id)
              (set_critical_balance critical (supported_text service))
        or_throw
            (internal_server_error "Legacy credit plan critical balance could not be persisted")
            updated

  stable_expiry : String → String → Option CreditPlan → Action (Option ℕ)
  stable_expiry credit_id app_id (some p) = pure p.expires_at
  stable_expiry credit_id app_id none = do
    found ← find_plan sv (is_plan_of credit_id app_id)
    pure (elim found [ none ↦ none | some p ↦ p.expires_at ])

  -- the expiry: the one of the document, or one counted from now, which a KYC plan persists
  resolve_expiry : Option ℕ → ℕ → String → String → Supported → Action (Option ℕ)
  unfolding stable_expiry
  resolve_expiry (some t) days credit_id app_id service = pure (some t)
  resolve_expiry none days credit_id app_id ssi = do time ← now sv; pure (some (add_days time days))
  resolve_expiry none days credit_id app_id kyc = do
    time ← now sv
    persisted ← update_plan sv (lacks_expiry credit_id app_id) (set_expiry (add_days time days))
    stable_expiry credit_id app_id persisted

  new_allowance : Grant → OnChainAllowance
  new_allowance g = record { amount = g.amount; denom = "uhid"; used_amount = some 0 }

  -- the end of activateCredit for an SSI plan
  activate_with :
      String
      → String
      → App
      → ℕ
      → ℕ
      → Option OnChainAllowance
      → Option (List Scope)
      → Action CreditPlan
  activate_with credit_id app_id app expires_at critical allowance scopes = do
    activated ← activate_ssi_credit_plan sv app_id credit_id expires_at critical allowance scopes
    plan ←
        or_throw (internal_server_error "SSI credit plan activation could not be persisted")
          activated
    throw_if (not (is_active plan.status))
        (bad_request "Fully used SSI blockchain allowance cannot be activated")
    grant_credit_plan sv plan ssi_api app.subdomain
    pure plan

  activate_ssi_plan : CreditPlan → String → String → App → ℕ → ℕ → Action CreditPlan
  unfolding activate_with new_allowance
  activate_ssi_plan credit credit_id app_id app expires_at critical =
      elim credit.on_chain_allowance [
        | some a ↦ do
          lift (assert_usable_allowance a)
          activate_with credit_id app_id app expires_at critical none none
        | none ↦ do
          allowance ←
              lift (ssi_on_chain_allowance (credit.api_credit.total - credit.api_credit.used))
          g ← grant_ssi_allowance sv app_id allowance (credit.validity_days, 365)
          activate_with credit_id app_id app expires_at critical (some (new_allowance g))
              (some g.scopes)
      ]

  activate_for : CreditPlan → String → String → App × Supported → ℕ → ℕ → Action CreditPlan
  unfolding activate_ssi_plan
  activate_for credit credit_id app_id (app, ssi) expires_at critical =
      activate_ssi_plan credit credit_id app_id app expires_at critical
  activate_for credit credit_id app_id (app, kyc) expires_at critical = do
    grant_credit_plan sv (credit_for_middleware_grant credit expires_at) cavach_api app.subdomain
    pure credit

  unfoldable pub activate_credit : String → String → Action CreditPlan
  unfolding check_expiry normalize resolve_expiry activate_for
  activate_credit credit_id app_id = do
    throw_if (not (sv.is_object_id credit_id)) (bad_request "Invalid credit id")
    found ← find_plan sv (is_plan_of credit_id app_id)
    credit ← or_throw (not_found "No credit detail found for creditId") found
    check_expiry credit.expires_at
    throw_if (leb credit.api_credit.total credit.api_credit.used)
        (bad_request "Fully used credit plan cannot be activated")
    detail ← ask sv (λ _. sv.find_app app_id)
    service ←
        or_throw (bad_request "No supported service configured for appId")
          (supported_service detail)
    let critical = resolve_critical_balance credit
    activation ← normalize credit credit_id app_id service.1 critical
    expiry ← resolve_expiry activation.expires_at credit.validity_days credit_id app_id service.1
    expires_at ← or_throw (internal_server_error "Credit plan expiry could not be persisted") expiry
    activate_for activation credit_id app_id service expires_at critical
