-- ===== src/Credits/EventStore/Measurement.antt =====
-- What an event writes into the ledger.
pub mod Described
use entity_developer_dashboa.Prelude.{
  ℕ, String, Bool, true, false, ◌&&◌, Option, none, some, ◌⋅◌, truthy, if◌then◌else◌,
}
use entity_developer_dashboa.Exec.{Result, ok, err, ◌>>=?◌}
use entity_developer_dashboa.Calendar.{new_date}
use entity_developer_dashboa.Json.{
  Value, undefined, text, is_safe_integer, is_positive, as_text, as_number, as_nat,
}
use entity_developer_dashboa.Credits.Event.{Event, of_event, command_rejection, Envelope, Rejection}
use entity_developer_dashboa.Credits.Schema.{LedgerEvent, LedgerMetadata}
use entity_developer_dashboa.Credits.Wallet.{dashboard_plan_id}
use entity_developer_dashboa.Credits.EventStore.Validation.{event_plan_id}

-- the plan id of the measurement, where the event has one
unfoldable pub measured_plan : String → Event → Result (Option String)
measured_plan service_type e = elim e.plan_id [
  | text p ↦ event_plan_id service_type e >>=? λ plan. ok (some plan)
  | _ ↦ ok none
]

-- toEventMeasurement; `time` is the clock's, for an event without a usable time stamp
unfoldable pub to_event_measurement : ℕ → Envelope → Event → Result LedgerEvent
unfolding measured_plan new_date
to_event_measurement time envelope e = measured_plan envelope.service_type e >>=? λ plan.
    ok (record {
      timestamp =
          if is_safe_integer e.timestamp && is_positive e.timestamp
          then new_date (as_nat e.timestamp)
          else some time;
      metadata = record {
        tenant_id = e.tenant_id;
        service_id = text e.app_id;
        service_type = envelope.service_type;
        credit_type = e.credit_type;
      };
      event_type = of_event e.type;
      plan_id = plan;
      operation = as_text e.operation;
      event_id = envelope.event_id;
      schema_version = envelope.schema_version;
      catalog_version = some envelope.catalog_version;
      reservation_id = as_text e.reservation_id;
      amount = as_number e.amount;
      total_amount = as_number e.total_amount;
      allocation_index = as_number e.allocation_index;
      allocation_count = as_number e.allocation_count;
      plan_balance_after = as_number e.plan_balance_after;
      balance_after = as_number e.balance_after;
    })

-- commandRejectionEventId
unfoldable pub command_rejection_event_id : Rejection → String
command_rejection_event_id r =
    r.service_type ⋅ ":" ⋅ (elim (as_text r.command_id) [ none ↦ "" | some c ↦ c ]) ⋅ ":rejected"

unfoldable pub rejected_plan : Rejection → Result (Option String)
rejected_plan r = elim r.plan_id [
  | none ↦ ok none
  | some p ↦
      if truthy p
      then (dashboard_plan_id p r.service_type undefined >>=? λ plan. ok (some plan))
      else ok none
]

-- toCommandRejectionMeasurement
unfoldable pub to_command_rejection_measurement : Rejection → String → Result LedgerEvent
unfolding rejected_plan new_date
to_command_rejection_measurement r event_id = rejected_plan r >>=? λ plan. ok (record {
  timestamp = new_date (as_nat r.timestamp);
  metadata = record {
    tenant_id = undefined;
    service_id = undefined;
    service_type = r.service_type;
    credit_type = undefined;
  };
  event_type = command_rejection;
  plan_id = plan;
  operation = none;
  event_id = event_id;
  schema_version = r.schema_version;
  catalog_version = none;
  reservation_id = none;
  amount = none;
  total_amount = none;
  allocation_index = none;
  allocation_count = none;
  plan_balance_after = none;
  balance_after = none;
})
