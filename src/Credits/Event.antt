-- ===== src/Credits/Event.antt =====
-- The jobs of the lifecycle queue, as credit-middleware writes them: its names and event types are
-- enumerations, and what the code tests with `typeof` or `Number` is an untyped value. A missing
-- text, which the code tests by its truth only, is the empty one.
use entity_developer_dashboa.Prelude.{String, Bool, true, false, Option}
use entity_developer_dashboa.Json.{Value}

-- CREDIT_EVENT_NAMES, as job names; a name that is none of them is `other_job`.
pub data JobName : Type 0 where
  job_committed job_plan_expired job_reserved job_rolled_back job_expired job_credit_granted
        job_critical_balance job_credit_observed job_command_rejected :
      JobName
  other_job : String → JobName

-- CreditEventType
pub data EventType : Type 0 where
  committed plan_expired reserved rolled_back expired credit_granted critical_balance
        credit_observed :
      EventType
  other_type : String → EventType

-- The `eventType` of a ledger record: the type of the event, or CREDIT_EVENT_NAMES.COMMAND_REJECTED.
pub data LedgerKind : Type 0 where
  of_event : EventType → LedgerKind
  command_rejection : LedgerKind

-- event.type === expected, for the types that the code expects
abbrev pub same_type : EventType → EventType → Bool
same_type committed committed = true
same_type plan_expired plan_expired = true
same_type reserved reserved = true
same_type rolled_back rolled_back = true
same_type expired expired = true
same_type credit_granted credit_granted = true
same_type critical_balance critical_balance = true
same_type credit_observed credit_observed = true
same_type _ _ = false

-- AnyCreditEvent
pub record Event : Type 0 where
  pub type : EventType
  pub app_id : String
  pub tenant_id : Value
  pub app_type : Value
  pub credit_type : Value
  pub plan_id : Value
  pub operation : Value
  pub reservation_id : Value
  pub timestamp : Value
  pub amount : Value
  pub total_amount : Value
  pub allocation_index : Value
  pub allocation_count : Value
  pub plan_balance_after : Value
  pub balance_after : Value
  pub expires_at : Value
  pub environment : Value
  pub billing_mode : Value
  pub deducted_amount : Value
  pub requested_amount : Value
  pub request_id : Value

-- CreditLifecycleEventEnvelope
pub record Envelope : Type 0 where
  pub schema_version : Value
  pub event_id : String
  pub catalog_version : String
  pub service_type : String
  pub event : Option Event

-- CreditCommandRejection, untyped until it is validated
pub record Rejection : Type 0 where
  pub schema_version : Value
  pub service_type : String
  pub command_id : Value
  pub reason : Value
  pub timestamp : Value
  pub plan_id : Option String

-- The data of a job: no object, or an object read as an envelope or as a rejection.
pub data JobData : Type 0 where
  no_object : JobData
  lifecycle : Envelope → JobData
  rejection : Rejection → JobData

pub record Job : Type 0 where
  pub name : JobName
  pub data_of : JobData
