-- ===== src/Credits/Command.antt =====
-- src/credits/services/credit-command.service.ts: the commands that the dashboard queues for the
-- middleware.
pub mod Sparing
pub mod Grants
use entity_developer_dashboa.Prelude.{
  ℕ, ◌+◌, ◌-◌, String, Bool, true, false, not, ◌&&◌, ◌||◌, Option, none, some, List, [], ◌∷◌, ltb,
  leb, ◌==◌, ◌===◌, ◌⋅◌, truthy, trim, if◌then◌else◌, or_default,
}
use entity_developer_dashboa.Exec.{
  Exec, Result, ok, err, error, pure, throw, lift, throw_if, fail_if, skip, for_each, ◌>>=◌, ◌>>◌,
  ◌>>=?◌,
}
use entity_developer_dashboa.Json.{is_safe}
use entity_developer_dashboa.Double.{two_fifths}
use entity_developer_dashboa.Credits.Schema.{CreditPlan, OnChainAllowance, is_active}
use entity_developer_dashboa.Credits.Wallet.{
  ssi_api, cavach_api, api_credit, blockchain_txn_credit, sdk_plan_id, sdk_reference_id,
}
use entity_developer_dashboa.World.{
  Services, Action, Payload, grant, settle, QueuedJob, grant_requested, commit_requested,
  rollback_requested, now, random_uuid, add_job,
}

pub record WalletGrant : Type 0 where
  pub credit_type : String
  pub amount : ℕ
  pub critical_balance : ℕ

-- the part of walletGrants for an SSI plan
ssi_wallets : CreditPlan → ℕ → Option OnChainAllowance → Result (List WalletGrant)
ssi_wallets credit critical none =
    err (error "An SSI credit plan must have a positive on-chain allowance balance")
ssi_wallets credit critical (some a) =
    let used = or_default a.used_amount 0 in
    if leb a.amount used || not (is_safe (a.amount - used))
    then err (error "An SSI credit plan must have a positive on-chain allowance balance")
    else ok (
        record {
          credit_type = api_credit;
          amount = credit.api_credit.total;
          critical_balance = critical;
        }
        ∷ record {
          credit_type = blockchain_txn_credit;
          amount = a.amount;
          critical_balance = two_fifths a.amount;
        }
        ∷ [])

-- walletGrants, with the critical balance that grantCreditPlan has tested
unfoldable pub wallet_grants : CreditPlan → ℕ → String → Result (List WalletGrant)
unfolding ssi_wallets
wallet_grants credit critical service_type =
    if service_type === cavach_api
    then ok (
        record {
          credit_type = api_credit;
          amount = credit.api_credit.total - credit.api_credit.used;
          critical_balance = critical;
        }
        ∷ [])
    else ssi_wallets credit critical credit.on_chain_allowance

abbrev pub safe_critical_balance : Option ℕ → Result ℕ
safe_critical_balance none =
    err (error "Credit plan criticalBalance must be a non-negative safe integer")
safe_critical_balance (some n) =
    if is_safe n
    then ok n
    else err (error "Credit plan criticalBalance must be a non-negative safe integer")

abbrev pub expiry_after : ℕ → Option ℕ → Result ℕ
expiry_after granted_at none = err (error "Credit plan must expire after it was created")
expiry_after granted_at (some t) =
    if not (is_safe t) || leb t granted_at
    then err (error "Credit plan must expire after it was created")
    else ok t

-- the tests of grantCreditPlan before the creation time is looked at
check_plan : CreditPlan → String → Result ℕ
check_plan credit service_type =
    fail_if (not (is_active credit.status)) (error "Only an active credit plan can be granted")
    >>=? λ _.
        fail_if (not (service_type === cavach_api) && not (service_type === ssi_api))
          (error "No SDK credit catalog configured for service type")
        >>=? λ _. fail_if (not (truthy credit.id)) (error "Credit plan must have an id") >>=? λ _.
            fail_if
              (not (is_safe credit.api_credit.total)
                || credit.api_credit.total == 0
                || not (is_safe credit.api_credit.used)
                || leb credit.api_credit.total credit.api_credit.used)
              (error "Credit plan must have a positive remaining balance")
            >>=? λ _. safe_critical_balance credit.critical_balance >>=? λ critical.
                fail_if (not (truthy (trim credit.reference_id)))
                  (error "Credit plan referenceId is required")
                >>=? λ _. ok critical

abbrev tenant_of : Option String → Option String
tenant_of none = none
tenant_of (some t) = if truthy t then some t else none

module _ (sv : Services) where
  -- createdAt ?? Date.now()
  granted_time : Option ℕ → Action ℕ
  granted_time none = now sv
  granted_time (some t) = pure t

  -- one round of the loop over the wallets
  unfoldable pub grant_wallet :
      CreditPlan → String → Option String → ℕ → ℕ → WalletGrant → Action (Unit {0})
  grant_wallet credit service_type tenant_id granted_at expires_at wallet = do
    let plan_id = sdk_plan_id credit.id service_type wallet.credit_type
    let command_id = "grant-" ⋅ service_type ⋅ "-" ⋅ plan_id
    uuid ← random_uuid sv
    time ← now sv
    add_job sv (record {
      queue = "credit.commands." ⋅ service_type;
      name = grant_requested;
      job_id = command_id ⋅ "-" ⋅ uuid;
      command_id = command_id;
      service_type = service_type;
      requested_at = time;
      payload =
          grant credit.service_id (tenant_of tenant_id) wallet.credit_type plan_id wallet.amount
            wallet.critical_balance granted_at expires_at
            (sdk_reference_id (trim credit.reference_id) service_type wallet.credit_type);
    })

  unfoldable pub grant_credit_plan : CreditPlan → String → Option String → Action (Unit {0})
  unfolding check_plan granted_time
  grant_credit_plan credit service_type tenant_id = do
    critical ← lift (check_plan credit service_type)
    granted_at ← granted_time credit.created_at
    throw_if (not (is_safe granted_at) || granted_at == 0)
        (error "Credit plan must have a valid creation time")
    expires_at ← lift (expiry_after granted_at credit.expires_at)
    wallets ← lift (wallet_grants credit critical service_type)
    for_each wallets (grant_wallet credit service_type tenant_id granted_at expires_at)

-- SsiTransactionSettlement; a missing text is the empty one, and the status is the one of a result
pub data SettlementStatus : Type 0 where
  succeeded failed : SettlementStatus
  other_status : String → SettlementStatus

pub record Settlement : Type 0 where
  pub transaction_job_id : String
  pub reservation_id : String
  pub status : SettlementStatus
  pub reason : Option String

abbrev pub is_terminal : SettlementStatus → Bool
is_terminal (other_status s) = false
is_terminal _ = true

abbrev pub is_commit : SettlementStatus → Bool
is_commit succeeded = true
is_commit _ = false

-- settlement.reason?.trim() || 'blockchain_transaction_failed'
abbrev pub failure_reason : Option String → String
failure_reason none = "blockchain_transaction_failed"
failure_reason (some r) = if truthy (trim r) then trim r else "blockchain_transaction_failed"

module _ (sv : Services) where
  unfoldable pub settle_ssi_transaction : Settlement → Action (Unit {0})
  settle_ssi_transaction s = do
    let job = trim s.transaction_job_id
    let reservation = trim s.reservation_id
    throw_if (not (truthy job) || not (truthy reservation))
        (error "SSI transaction settlement requires transactionJobId and reservationId")
    throw_if (not (is_terminal s.status)) (error "Unsupported SSI transaction settlement status")
    let commits = is_commit s.status
    let command_id =
        "settle-SSI_API-" ⋅ reservation ⋅ "-" ⋅ (if commits then "commit" else "rollback")
    uuid ← random_uuid sv
    time ← now sv
    add_job sv (record {
      queue = "credit.commands." ⋅ ssi_api;
      name = if commits then commit_requested else rollback_requested;
      job_id = command_id ⋅ "-" ⋅ uuid;
      command_id = command_id;
      service_type = ssi_api;
      requested_at = time;
      payload = settle reservation job (if commits then none else some (failure_reason s.reason));
    })
