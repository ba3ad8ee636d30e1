-- ===== src/Credits/EventStore/Measurement/Described.antt =====
-- The measurement of a commit is about the plan, the credit type and the amount of its event.
use entity_developer_dashboa.Prelude.{ℕ, String, none, some, ◌≡◌, ap, sym, ◌∙◌, arith}
use entity_developer_dashboa.Exec.{ok, from_ok}
use entity_developer_dashboa.Json.{as_nat, as_number}
use entity_developer_dashboa.Credits.Event.{Event, Envelope}
use entity_developer_dashboa.Credits.Schema.{LedgerEvent}
use entity_developer_dashboa.Credits.Repository.Commit.Books.{Describes}
use entity_developer_dashboa.Credits.EventStore.Validation.{
  credit_type_of, event_plan_id, plan_id_of,
}
use entity_developer_dashboa.Credits.EventStore.Validation.Accepted.{IsAmount, credit_type_of_lem}
use entity_developer_dashboa.Credits.EventStore.Measurement.{measured_plan, to_event_measurement}

measured_plan_lem :
    (service_type : String) (e : Event) (plan : String)
    → event_plan_id service_type e ≡ ok plan
    → measured_plan service_type e ≡ ok (some plan)
unfolding measured_plan event_plan_id plan_id_of
measured_plan_lem service_type e plan h = ground arith

-- A measurement that was made of an event carries its credit type, its amount, its plan and the id
-- of the envelope.
to_event_measurement_lem :
    (time : ℕ) (envelope : Envelope) (e : Event) (event : LedgerEvent)
    → to_event_measurement time envelope e ≡ ok event
    → (event.metadata.credit_type ≡ e.credit_type)
      × (event.amount ≡ as_number e.amount)
      × (measured_plan envelope.service_type e ≡ ok event.plan_id)
unfolding to_event_measurement
to_event_measurement_lem time envelope e event h = ground arith

-- The measurement of an event with an accepted amount, plan and credit type names that plan, that
-- credit type and that amount.
pub to_event_measurement-Describes :
    (time : ℕ) (envelope : Envelope) (e : Event) (event : LedgerEvent) (plan t : String)
    → to_event_measurement time envelope e ≡ ok event
    → IsAmount e.amount
    → event_plan_id envelope.service_type e ≡ ok plan
    → credit_type_of e ≡ ok t
    → Describes event plan t (as_nat e.amount)
to_event_measurement-Describes time envelope e event plan t h a p k =
    let (kind, sum, plan_eq) = to_event_measurement_lem time envelope e event h in
    record {
      plan = ap (from_ok none) (sym plan_eq ∙ measured_plan_lem envelope.service_type e plan p);
      kind = kind ∙ credit_type_of_lem e t k;
      sum = sum ∙ rw a.is;
    }
