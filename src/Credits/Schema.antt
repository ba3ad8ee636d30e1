-- ===== src/Credits/Schema.antt =====
-- src/credits/schemas: the documents of the credit plans, of the commit outbox and of the ledger.
-- Stored numbers are non-negative integers; a date is its time in milliseconds.
use entity_developer_dashboa.Prelude.{ℕ, String, List, Option, Bool, true, false}
use entity_developer_dashboa.Json.{Number, Value}
use entity_developer_dashboa.Credits.Event.{LedgerKind}

pub data Scope : Type 0 where
  register_did update_did deactivate_did register_schema register_status update_status : Scope

pub data CreditStatus : Type 0 where
  active inactive : CreditStatus

abbrev pub is_active : CreditStatus → Bool
is_active active = true
is_active inactive = false

abbrev pub is_inactive : CreditStatus → Bool
is_inactive active = false
is_inactive inactive = true

pub data CreditSource : Type 0 where
  manual_recharge customer_onboarding migration payment adjustment : CreditSource

pub data MigrationSource : Type 0 where
  id_service ssi_service : MigrationSource

-- CreditNotificationState
pub record NotificationState : Type 0 where
  pub last_notified_usage_threshold : Option ℕ
  pub last_notified_allowance_usage_threshold : Option ℕ
  pub expiry_thresholds_sent : Option ℕ

-- OnChainCreditAllowance
pub record OnChainAllowance : Type 0 where
  pub amount : ℕ
  pub denom : String
  pub used_amount : Option ℕ

pub record ApiCredit : Type 0 where
  pub total : ℕ
  pub used : ℕ

-- `id` is Mongo's `_id`, `created_at` its time stamp. `critical_balance` is none in a document
-- written before the field was there.
pub record CreditPlan : Type 0 where
  pub id : String
  pub service_id : String
  pub service_type : String
  pub reference_id : String
  pub api_credit : ApiCredit
  pub validity_days : ℕ
  pub critical_balance : Option ℕ
  pub expires_at : Option ℕ
  pub status : CreditStatus
  pub on_chain_allowance : Option OnChainAllowance
  pub on_chain_allowance_scopes : List Scope
  pub credited_by : Option String
  pub source : Option CreditSource
  pub migration_source : Option MigrationSource
  pub legacy_credit_id : Option String
  pub notification : NotificationState
  pub created_at : Option ℕ

-- CreditLedgerMetadata
pub record LedgerMetadata : Type 0 where
  pub tenant_id : Value
  pub service_id : Value
  pub service_type : String
  pub credit_type : Value

-- CreditLedger and CreateCreditLedgerEvent
pub record LedgerEvent : Type 0 where
  -- none is an Invalid Date
  pub timestamp : Option ℕ
  pub metadata : LedgerMetadata
  pub event_type : LedgerKind
  pub plan_id : Option String
  pub operation : Option String
  pub event_id : String
  pub schema_version : Value
  pub catalog_version : Option String
  pub reservation_id : Option String
  pub amount : Option Number
  pub total_amount : Option Number
  pub allocation_index : Option Number
  pub allocation_count : Option Number
  pub plan_balance_after : Option Number
  pub balance_after : Option Number

-- CreditCommitLedgerStatus
pub data LedgerStatus : Type 0 where
  pending writing written : LedgerStatus

-- CreditCommitOutbox: the measurement and the state of its ledger write.
pub record OutboxEntry : Type 0 where
  pub event : LedgerEvent
  pub ledger_status : LedgerStatus
  pub ledger_lease_token : Option String
  pub ledger_lease_until : Option ℕ
  pub ledger_attempts : ℕ
  pub ledger_written_at : Option ℕ
  pub ledger_last_error : Option String
