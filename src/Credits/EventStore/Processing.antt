-- ===== src/Credits/EventStore/Processing.antt =====
-- append, processLifecycleEvent, processCommit, persistCommitLedger and the smaller handlers.
pub mod Steps
pub mod Life
pub mod Books
use entity_developer_dashboa.Prelude.{
  ℕ, String, Bool, true, false, not, ◌&&◌, Option, none, some, List, ◌===◌, if◌then◌else◌, is_some,
}
use entity_developer_dashboa.Exec.{
  Exec, Failure, message, error, Result, ok, err, pure, throw, lift, catch, throw_if, or_throw,
  skip, if_some, ◌>>=◌, ◌>>◌, ◌>>=?◌,
}
use entity_developer_dashboa.Json.{as_nat}
use entity_developer_dashboa.Credits.Schema.{
  CreditPlan, active, inactive, is_active, is_inactive, LedgerEvent,
}
use entity_developer_dashboa.Credits.Event.{
  JobName, job_committed, job_plan_expired, job_reserved, job_rolled_back, job_expired,
  job_credit_granted, job_critical_balance, job_credit_observed, job_command_rejected, other_job,
  Event, EventType, committed, plan_expired, reserved, rolled_back, expired, credit_granted,
  critical_balance, credit_observed, Envelope, Rejection, JobData, no_object, lifecycle, rejection,
  Job,
}
use entity_developer_dashboa.Credits.Wallet.{api_credit, blockchain_txn_credit}
use entity_developer_dashboa.Credits.Repository.{
  is_plan_of, find_active_credit_for_service, ledger_exists, ledger_create,
}
use entity_developer_dashboa.Credits.Repository.Commit.{apply_plan_credit_commit}
use entity_developer_dashboa.Credits.Repository.Lease.{
  has_processed_commit, claim_commit_ledger_write, mark_commit_ledger_written,
  release_commit_ledger_write,
}
use entity_developer_dashboa.Credits.Notification.{
  notify_usage_threshold, notify_allowance_usage_threshold,
}
use entity_developer_dashboa.Credits.Service.Activate.{activate_credit}
use entity_developer_dashboa.Credits.EventStore.Validation.{
  validate_lifecycle_envelope, validate_event_type, validate_observed_event,
  validate_command_rejection, credit_type_of, grant_expiry, event_plan_id,
}
use entity_developer_dashboa.Credits.EventStore.Measurement.{
  to_event_measurement, command_rejection_event_id, to_command_rejection_measurement,
}
use entity_developer_dashboa.World.{Services, Action, now, find_plan, update_plan}

-- `{ _id, serviceId, status: ACTIVE }` and the update of processPlanExpired
unfoldable pub is_running : String → String → CreditPlan → Bool
is_running plan_id app_id p = is_plan_of plan_id app_id p && is_active p.status

unfoldable pub stop_plan : CreditPlan → CreditPlan
stop_plan p = record p { status = inactive }

-- `{ _id, serviceId, status: INACTIVE }` and the update of processCreditGranted
unfoldable pub is_waiting : String → String → CreditPlan → Bool
is_waiting plan_id app_id p = is_plan_of plan_id app_id p && is_inactive p.status

unfoldable pub start_plan : ℕ → CreditPlan → CreditPlan
start_plan expires_at p = record p { status = active; expires_at = some expires_at }

-- Mongoose refuses a document with an Invalid Date. The transaction of a commit undoes what it has
-- done before that, so the refusal stands where the measurement is made.
unfoldable pub cast_timestamp : LedgerEvent → Result LedgerEvent
cast_timestamp event = elim event.timestamp [
  | none ↦ err (error "Cast to date failed")
  | some t ↦ ok event
]

-- the filter for a replacement in processCriticalBalance
unfoldable pub is_replacement : String → CreditPlan → Bool
is_replacement app_id p =
    p.service_id === app_id && is_inactive p.status && not (is_some p.expires_at)

module _ (sv : Services) (thresholds : List ℕ) where
  unfoldable pub process_plan_expired : String → String → Action (Unit {0})
  process_plan_expired app_id plan_id = do
    update_plan sv (is_running plan_id app_id) stop_plan
    skip

  unfoldable pub process_credit_granted : String → String → Option ℕ → Action (Unit {0})
  process_credit_granted app_id plan_id date = do
    expires_at ← or_throw (error "Cast to date failed") date
    update_plan sv (is_waiting plan_id app_id) (start_plan expires_at)
    skip

  unfoldable pub process_critical_balance : String → String → Action (Unit {0})
  process_critical_balance app_id plan_id = do
    other ← find_active_credit_for_service sv app_id (some plan_id)
    if is_some other then skip else do
      replacement ← find_plan sv (is_replacement app_id)
      if_some replacement (λ p. activate_credit sv p.id app_id >> skip)

  -- the ledger write under a lease; a failure gives the lease back and is thrown on
  write_under_lease : LedgerEvent → String → Action (Unit {0})
  write_under_lease event token =
      catch
        (do
          exists ← ledger_exists sv event.event_id
          if exists then skip else ledger_create sv event
          mark_commit_ledger_written sv event.event_id (some token))
        λ e. do
          catch (release_commit_ledger_write sv event.event_id token (message e)) (λ _. skip)
          throw e

  write_if_claimed : LedgerEvent → Option String → Action (Unit {0})
  unfolding write_under_lease
  write_if_claimed event (some token) = write_under_lease event token
  write_if_claimed event none = do
    exists ← ledger_exists sv event.event_id
    if exists
        then mark_commit_ledger_written sv event.event_id none
        else throw (error "Credit ledger write is already in progress")

  unfoldable pub persist_commit_ledger : LedgerEvent → Action (Unit {0})
  unfolding write_if_claimed
  persist_commit_ledger event = do
    token ← claim_commit_ledger_write sv event.event_id
    write_if_claimed event token

  -- the alerts of a commit that was applied now, and the test of one that was not
  after_commit : String → String → String → Option CreditPlan → Action (Unit {0})
  after_commit app_id event_id credit_type none = do
    processed ← has_processed_commit sv app_id event_id
    throw_if (not processed) (error "Credit commit could not be applied")
  after_commit app_id event_id credit_type (some plan) = do
    if credit_type === api_credit then notify_usage_threshold sv thresholds plan else skip
    if credit_type === blockchain_txn_credit
        then notify_allowance_usage_threshold sv thresholds plan
        else skip

  unfoldable pub process_commit : Envelope → Event → LedgerEvent → Action (Unit {0})
  unfolding after_commit
  process_commit envelope e event = do
    plan_id ← lift (event_plan_id envelope.service_type e)
    credit_type ← lift (credit_type_of e)
    updated ←
        apply_plan_credit_commit sv e.app_id plan_id (as_nat e.amount) credit_type
          envelope.service_type event
    after_commit e.app_id envelope.event_id credit_type updated
    persist_commit_ledger event

  pub measure : Envelope → Event → Action LedgerEvent
  measure envelope e = do
    time ← now sv
    lift (to_event_measurement time envelope e >>=? λ m. cast_timestamp m)

  -- the record of an event that is no commit, after its effect
  pub record_event : Envelope → Event → Action (Unit {0})
  unfolding measure
  record_event envelope e = do event ← measure envelope e; ledger_create sv event

  -- the `switch` of processLifecycleEvent
  dispatch : JobName → Envelope → Event → Action (Unit {0})
  unfolding record_event
  dispatch job_committed envelope e = do
    lift (validate_event_type e committed)
    event ← measure envelope e
    process_commit envelope e event
  dispatch job_plan_expired envelope e = do
    lift (validate_event_type e plan_expired)
    plan_id ← lift (event_plan_id envelope.service_type e)
    process_plan_expired e.app_id plan_id
    record_event envelope e
  dispatch job_reserved envelope e = do
    lift (validate_event_type e reserved)
    record_event envelope e
  dispatch job_rolled_back envelope e = do
    lift (validate_event_type e rolled_back)
    record_event envelope e
  dispatch job_expired envelope e = do lift (validate_event_type e expired); record_event envelope e
  dispatch job_credit_granted envelope e = do
    lift (validate_event_type e credit_granted)
    plan_id ← lift (event_plan_id envelope.service_type e)
    expires_at ← lift (grant_expiry e)
    process_credit_granted e.app_id plan_id expires_at
    record_event envelope e
  dispatch job_critical_balance envelope e = do
    lift (validate_event_type e critical_balance)
    plan_id ← lift (event_plan_id envelope.service_type e)
    process_critical_balance e.app_id plan_id
    record_event envelope e
  dispatch job_credit_observed envelope e = do
    lift (validate_event_type e credit_observed)
    lift (validate_observed_event e)
    record_event envelope e
  dispatch _ envelope e = throw (error "Unsupported credit lifecycle job")

  -- an event that the ledger has is not processed again
  known_event : JobName → String → Action (Unit {0})
  known_event job_committed event_id = mark_commit_ledger_written sv event_id none
  known_event _ event_id = skip

  unfoldable pub process_lifecycle_event : JobName → Envelope → Action (Unit {0})
  unfolding dispatch known_event
  process_lifecycle_event name envelope = do
    e ← lift (validate_lifecycle_envelope envelope)
    exists ← ledger_exists sv envelope.event_id
    if exists then known_event name envelope.event_id else dispatch name envelope e

  reject_command : Rejection → Action (Unit {0})
  reject_command r = do
    lift (validate_command_rejection r)
    let event_id = command_rejection_event_id r
    exists ← ledger_exists sv event_id
    if exists then skip else do
      event ← lift (to_command_rejection_measurement r event_id >>=? λ m. cast_timestamp m)
      ledger_create sv event

  append_rejection : JobData → Action (Unit {0})
  unfolding reject_command
  append_rejection (rejection r) = reject_command r
  append_rejection _ = throw (error "Invalid credit command rejection")

  append_lifecycle : JobName → JobData → Action (Unit {0})
  append_lifecycle name (lifecycle envelope) = process_lifecycle_event name envelope
  append_lifecycle name _ = throw (error "Invalid credit lifecycle event envelope")

  append_named : JobName → JobData → Action (Unit {0})
  unfolding append_rejection append_lifecycle
  append_named job_command_rejected d = append_rejection d
  append_named name d = append_lifecycle name d

  unfoldable pub append : Job → Action (Unit {0})
  unfolding append_named
  append job = append_named job.name job.data_of
