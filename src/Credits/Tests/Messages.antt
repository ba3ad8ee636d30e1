-- ===== src/Credits/Tests/Messages.antt =====
-- Events and messages at concrete inputs.
use entity_developer_dashboa.Prelude.{String, none, some, List, [], ◌∷◌, ◌≡◌, refl, ◌⊎◌, ◌↔◌, ◌≢◌}
use entity_developer_dashboa.Exec.{ok}
use entity_developer_dashboa.Json.{Value, number, nat, text, as_nat, is_safe_integer, is_positive}
use entity_developer_dashboa.Calendar.{new_date}
use entity_developer_dashboa.Credits.Event.{committed}
use entity_developer_dashboa.Credits.Repository.Commit.Books.{Describes}
use entity_developer_dashboa.Credits.EventStore.Validation.{
  validate_lifecycle_envelope, validate_event_type, grant_expiry, event_plan_id, credit_type_of,
}
use entity_developer_dashboa.Credits.EventStore.Validation.Accepted.{
  IsAmount, IsDateOf, committed_amount, grant_expiry_lem,
}
use entity_developer_dashboa.Credits.EventStore.Measurement.{to_event_measurement}
use entity_developer_dashboa.Credits.EventStore.Measurement.Described.{
  to_event_measurement-Describes,
}
use entity_developer_dashboa.Credits.Wallet.{dashboard_plan_id}
use entity_developer_dashboa.Credits.SsiResults.{
  Item, item, ResultItem, RawResult, TransactionResult, Channel, told, ack, result_unknown,
  result_failed, parse_items, consume, settle_items,
}
use entity_developer_dashboa.Credits.SsiResults.Settling.{
  IsParsed, parse_items_lem, Unreadable, IsRead, Settled, consume_lem,
}
use entity_developer_dashboa.Credits.Tests.Fixture.{
  services, opened, commit_envelope, commit_event, measurement,
}

commit_envelope-valid : validate_lifecycle_envelope commit_envelope ≡ ok commit_event
unfolding validate_lifecycle_envelope
commit_envelope-valid = refl

commit_event-type : validate_event_type commit_event committed ≡ ok tt
unfolding validate_event_type
commit_event-type = refl

committed_amount_example : IsAmount commit_event.amount
committed_amount_example =
    committed_amount commit_envelope commit_event tt commit_envelope-valid commit_event-type

grant_expiry_lem_example :
    grant_expiry commit_event ≡ ok (some 9000)
    ↔ ((a : IsAmount commit_event.expires_at) × IsDateOf a.value (some 9000))
grant_expiry_lem_example = grant_expiry_lem commit_event (some 9000)

commit_event-measured : to_event_measurement 1000 commit_envelope commit_event ≡ ok measurement
unfolding to_event_measurement event_plan_id dashboard_plan_id is_safe_integer is_positive new_date
commit_event-measured = refl

commit_event-plan : event_plan_id "CAVACH_API" commit_event ≡ ok "plan"
unfolding event_plan_id dashboard_plan_id
commit_event-plan = refl

commit_event-credit_type : credit_type_of commit_event ≡ ok "API_CREDIT"
unfolding credit_type_of
commit_event-credit_type = refl

to_event_measurement-Describes_example :
    Describes measurement "plan" "API_CREDIT" (as_nat commit_event.amount)
to_event_measurement-Describes_example =
    to_event_measurement-Describes 1000 commit_envelope commit_event measurement "plan" "API_CREDIT"
      commit_event-measured committed_amount_example commit_event-plan commit_event-credit_type

abbrev items : List Item
items = item (text "SSI_API") (text "job") (text "reservation") ∷ []

abbrev parsed_items : List ResultItem
parsed_items = record { transaction_job_id = "job"; reservation_id = "reservation" } ∷ []

items-parsed : parse_items items ≡ ok parsed_items
unfolding parse_items
items-parsed = refl

parse_items_lem_example : IsParsed items parsed_items
parse_items_lem_example = parse_items_lem items parsed_items items-parsed

abbrev failed_result : RawResult
failed_result = record {
  schema_version = number (nat 1);
  event_id = text "result";
  status = result_failed;
  raw_log = some "out of gas";
  reason = none;
  code = number (nat 11);
  items = some items;
}

abbrev no_text : Value → String
no_text v = ""

abbrev channel : Channel
channel = record { thrown_by = λ a. none }

consume_lem_example :
    (Unreadable (some failed_result)
      × (consume no_text services channel (some failed_result) opened
          ≡ (ok (told channel ack), opened)))
    ⊎ ((t : TransactionResult) × IsRead (some failed_result) t
        × Settled no_text services channel t opened
            (consume no_text services channel (some failed_result) opened)
        × (t.status ≢ result_unknown ⊎ (settle_items no_text services t opened ≡ (ok tt, opened))))
consume_lem_example = consume_lem no_text services channel (some failed_result) opened
