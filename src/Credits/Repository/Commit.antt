-- ===== src/Credits/Repository/Commit.antt =====
-- applyPlanCreditCommit: one event of consumption is written to the outbox and charged to its plan
-- in one transaction.
pub mod Progress
pub mod Status
pub mod Charge
pub mod Books
use entity_developer_dashboa.Prelude.{
  ℕ, ◌+◌, String, Bool, true, false, not, ◌&&◌, ◌||◌, Option, none, some, leb, ◌==◌, ◌===◌,
  if◌then◌else◌, or_default,
}
use entity_developer_dashboa.Exec.{
  Failure, duplicate_key, error, pure, throw, throw_if, catch, ◌>>=◌, ◌>>◌,
}
use entity_developer_dashboa.Credits.Schema.{
  CreditPlan, ApiCredit, OnChainAllowance, CreditStatus, inactive, LedgerEvent, OutboxEntry,
  pending,
}
use entity_developer_dashboa.Credits.Wallet.{ssi_api, api_credit, blockchain_txn_credit}
use entity_developer_dashboa.Credits.Meters.{allowance_used}
use entity_developer_dashboa.World.{Services, Action, update_plan, save_entry}

-- `used === '$onChainAllowance.amount'`, false where there is no allowance
abbrev pub is_allowance : Option OnChainAllowance → ℕ → Bool
is_allowance none used = false
is_allowance (some a) used = used == a.amount

-- `used <= '$onChainAllowance.amount'`: a number is not at most an absent field
abbrev pub within_allowance : Option OnChainAllowance → ℕ → Bool
within_allowance none used = false
within_allowance (some a) used = leb used a.amount

abbrev pub spend_allowance : Option OnChainAllowance → ℕ → Option OnChainAllowance
spend_allowance none used = none
spend_allowance (some a) used = some (record a { used_amount = some used })

module _ (is_api : Bool) (amount : ℕ) where
  -- updatedUsed
  abbrev pub updated_used : CreditPlan → ℕ
  updated_used p =
      if is_api then p.api_credit.used + amount else allowance_used p.on_chain_allowance + amount

  -- `$lte: [updatedUsed, totalField]`
  unfoldable pub within_limit : CreditPlan → Bool
  within_limit p =
      if is_api
      then leb (updated_used p) p.api_credit.total
      else within_allowance p.on_chain_allowance (updated_used p)

  -- statusCondition: an SSI plan is exhausted when both of its meters are full
  unfoldable pub is_exhausted : String → CreditPlan → Bool
  is_exhausted service_type p =
      if service_type === ssi_api
      then (if is_api then updated_used p else p.api_credit.used) == p.api_credit.total
        && is_allowance p.on_chain_allowance
            (if is_api then allowance_used p.on_chain_allowance else updated_used p)
      else if is_api
      then updated_used p == p.api_credit.total
      else is_allowance p.on_chain_allowance (updated_used p)

  -- the filter of the update
  unfoldable pub is_chargeable : String → String → String → CreditPlan → Bool
  is_chargeable app_id plan_id service_type p =
      p.id === plan_id
      && p.service_id === app_id
      && p.service_type === service_type
      && within_limit p

  -- the `$set` stage
  unfoldable pub charge : String → CreditPlan → CreditPlan
  unfolding is_exhausted
  charge service_type p =
      let status = if is_exhausted service_type p then inactive else p.status in
      if is_api
      then record p {
        api_credit = record { total = p.api_credit.total; used = updated_used p };
        status = status;
      }
      else record p {
        on_chain_allowance = spend_allowance p.on_chain_allowance (updated_used p);
        status = status;
      }

abbrev pub new_entry : LedgerEvent → OutboxEntry
new_entry event = record {
  event = event;
  ledger_status = pending;
  ledger_lease_token = none;
  ledger_lease_until = none;
  ledger_attempts = 0;
  ledger_written_at = none;
  ledger_last_error = none;
}

abbrev pub same_event : String → OutboxEntry → Bool
same_event event_id e = e.event.event_id === event_id

abbrev pub require_updated : Option CreditPlan → Action CreditPlan
require_updated none =
    throw (error "Credit commit exceeds the plan balance or the plan does not exist")
require_updated (some p) = pure p

abbrev pub null_if_duplicate : Failure → Action (Option CreditPlan)
null_if_duplicate duplicate_key = pure none
null_if_duplicate e = throw e

module _ (sv : Services) where
  -- the callback of the transaction
  unfoldable pub commit_body : String → String → ℕ → Bool → String → LedgerEvent → Action CreditPlan
  commit_body app_id plan_id amount is_api service_type event = do
    save_entry sv (same_event event.event_id) (new_entry event)
    updated ←
        update_plan sv (is_chargeable is_api amount app_id plan_id service_type)
          (charge is_api amount service_type)
    require_updated updated

  unfoldable pub apply_plan_credit_commit :
      String → String → ℕ → String → String → LedgerEvent → Action (Option CreditPlan)
  apply_plan_credit_commit app_id plan_id amount credit_type service_type event =
      let is_api = credit_type === api_credit in
      do
        throw_if (not is_api && not (credit_type === blockchain_txn_credit))
            (error "Unsupported committed credit type")
        catch
            (do
              updated ←
                  sv.with_transaction (commit_body app_id plan_id amount is_api service_type event)
              pure (some updated))
            null_if_duplicate
