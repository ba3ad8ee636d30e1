-- ===== src/Credits/EventStore/Validation.antt =====
-- The tests that an event passes before it changes anything.
pub mod Accepted
use entity_developer_dashboa.Prelude.{
  ℕ, String, Bool, true, false, not, ◌&&◌, ◌||◌, Option, none, some, List, [], ◌∷◌, any, ◌===◌,
  truthy, if◌then◌else◌, is_some,
}
use entity_developer_dashboa.Exec.{Result, ok, err, error, fail_if, ◌>>=?◌}
use entity_developer_dashboa.Calendar.{new_date}
use entity_developer_dashboa.Json.{
  Value, is_safe_integer, is_truthy, is_positive, is_negative, is_ge, is_nat, is_text, as_text,
  as_nat, text,
}
use entity_developer_dashboa.Credits.Event.{
  Event, EventType, committed, same_type, Envelope, Rejection,
}
use entity_developer_dashboa.Credits.Wallet.{
  ssi_api, cavach_api, api_credit, is_ssi_credit_type, dashboard_plan_id,
}

-- isSupportedServiceType
abbrev pub is_supported : String → Bool
is_supported service_type = service_type === cavach_api || service_type === ssi_api

-- typeof value === 'string' && value
abbrev pub is_full_text : Value → Bool
is_full_text (text s) = truthy s
is_full_text _ = false

-- validateCommitAnalyticsFields
unfoldable pub validate_commit_analytics_fields : Event → Result (Unit {0})
unfolding is_safe_integer is_positive is_negative is_ge
validate_commit_analytics_fields e =
    let has_invalid_string =
      any (λ v. not (is_full_text v))
        (e.tenant_id ∷ e.app_type ∷ e.credit_type ∷ e.operation ∷ []) in
    let has_invalid_integer =
      any (λ v. not (is_safe_integer v))
        (e.timestamp ∷ e.total_amount ∷ e.allocation_index ∷ e.allocation_count
          ∷ e.plan_balance_after ∷ e.balance_after ∷ []) in
    fail_if
      (has_invalid_string
        || has_invalid_integer
        || not (is_positive e.timestamp)
        || not (is_positive e.total_amount)
        || is_negative e.allocation_index
        || not (is_positive e.allocation_count)
        || is_ge e.allocation_index e.allocation_count
        || is_negative e.plan_balance_after
        || is_negative e.balance_after)
      (error "Invalid committed credit analytics data")

-- creditType
unfoldable pub credit_type_of : Event → Result String
credit_type_of e = elim e.credit_type [
  | text t ↦ if truthy t then ok t else err (error "Credit lifecycle event is missing creditType")
  | _ ↦ err (error "Credit lifecycle event is missing creditType")
]

-- validateCreditType
unfoldable pub validate_credit_type : String → Event → Result (Unit {0})
unfolding credit_type_of
validate_credit_type service_type e = credit_type_of e >>=? λ t.
    fail_if (not (is_text e.app_type service_type))
      (error "Credit lifecycle appType does not match serviceType")
    >>=? λ _.
        fail_if
          (not (if service_type === cavach_api then t === api_credit else is_ssi_credit_type t))
          (error "Unsupported credit type")

-- the part of validateLifecycleEnvelope for a committed event
abbrev lacks_amount : Event → Bool
lacks_amount e =
    not (is_safe_integer e.amount)
    || not (is_positive e.amount)
    || not (is_truthy e.reservation_id)
    || not (is_truthy e.plan_id)

unfoldable pub validate_committed : String → Event → Result (Unit {0})
unfolding validate_commit_analytics_fields validate_credit_type is_truthy
validate_committed service_type e =
    fail_if (lacks_amount e) (error "Invalid committed credit lifecycle event") >>=? λ _.
    validate_commit_analytics_fields e >>=? λ _. validate_credit_type service_type e

-- the end of validateLifecycleEnvelope
validate_if_committed : Bool → String → Event → Result Event
validate_if_committed is_commit service_type e =
    if is_commit then (validate_committed service_type e >>=? λ _. ok e) else ok e

abbrev lacks_header : Envelope → Event → Bool
lacks_header envelope e =
    not (is_nat envelope.schema_version 3)
    || not (truthy envelope.event_id)
    || not (truthy envelope.catalog_version)
    || not (is_supported envelope.service_type)
    || not (truthy e.app_id)

validate_present : Envelope → Option Event → Result Event
unfolding validate_if_committed
validate_present envelope none = err (error "Invalid credit lifecycle event envelope")
validate_present envelope (some e) =
    fail_if (lacks_header envelope e) (error "Invalid credit lifecycle event envelope") >>=? λ _.
    validate_if_committed (same_type e.type committed) envelope.service_type e

-- validateLifecycleEnvelope; it gives the event, whose presence it has tested
unfoldable pub validate_lifecycle_envelope : Envelope → Result Event
unfolding validate_present validate_committed
validate_lifecycle_envelope envelope = validate_present envelope envelope.event

-- validateLifecycleEventType
unfoldable pub validate_event_type : Event → EventType → Result (Unit {0})
validate_event_type e expected =
    fail_if (not (same_type e.type expected))
      (error "Credit lifecycle job name and event type do not match")

-- validateObservedEvent
unfoldable pub validate_observed_event : Event → Result (Unit {0})
unfolding is_safe_integer is_positive is_truthy
validate_observed_event e =
    fail_if
      (not (is_text e.environment "DEV")
        || not (is_text e.billing_mode "OBSERVE")
        || not (is_nat e.deducted_amount 0)
        || not (is_safe_integer e.requested_amount)
        || not (is_positive e.requested_amount)
        || not (is_truthy e.request_id))
      (error "Invalid observed credit lifecycle event")

-- validateCommandRejection
unfoldable pub validate_command_rejection : Rejection → Result (Unit {0})
unfolding is_safe_integer is_positive
validate_command_rejection r =
    fail_if
      (not (is_nat r.schema_version 3)
        || not (is_supported r.service_type)
        || not (is_some (as_text r.command_id))
        || not (is_some (as_text r.reason))
        || not (is_safe_integer r.timestamp)
        || not (is_positive r.timestamp))
      (error "Invalid credit command rejection")

-- grantExpiry; none is an Invalid Date
unfoldable pub grant_expiry : Event → Result (Option ℕ)
unfolding is_safe_integer is_positive
grant_expiry e =
    fail_if (not (is_safe_integer e.expires_at) || not (is_positive e.expires_at))
      (error "Credit granted lifecycle event has an invalid expiry")
    >>=? λ _. ok (new_date (as_nat e.expires_at))

-- planId
unfoldable pub plan_id_of : Event → Result String
plan_id_of e = elim e.plan_id [
  | text p ↦ if truthy p then ok p else err (error "Credit lifecycle event is missing planId")
  | _ ↦ err (error "Credit lifecycle event is missing planId")
]

-- dashboardPlanId
unfoldable pub event_plan_id : String → Event → Result String
unfolding plan_id_of
event_plan_id service_type e =
    plan_id_of e >>=? λ plan. dashboard_plan_id plan service_type e.credit_type
