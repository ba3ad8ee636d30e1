-- ===== src/Credits/EventStore/Processing/Steps.antt =====
-- The books and the steps of the processing of an event.
use entity_developer_dashboa.Prelude.{
  ℕ, String, Bool, Option, none, some, List, ◌≡◌, refl, ap, ◌∙◌, arith,
}
use entity_developer_dashboa.Exec.{ok, lift, then_ok, ◌>>=?◌}
use entity_developer_dashboa.Exec.Keeps.{Keeps, keeps_rules, Keeps-bind, Keeps-lift_of}
use entity_developer_dashboa.Json.{as_nat}
use entity_developer_dashboa.Credits.Schema.{CreditPlan, LedgerEvent}
use entity_developer_dashboa.Credits.Event.{Envelope, Event}
use entity_developer_dashboa.Credits.Meters.{Spares}
use entity_developer_dashboa.Credits.Robust.{robust_rules}
use entity_developer_dashboa.Credits.Repository.{ledger_exists, ledger_create}
use entity_developer_dashboa.Credits.Repository.Commit.{apply_plan_credit_commit}
use entity_developer_dashboa.Credits.Repository.Commit.Books.{
  Describes, apply-Balanced, apply-IsWithin,
}
use entity_developer_dashboa.Credits.Repository.Lease.{
  has_processed_commit, claim_commit_ledger_write, mark_commit_ledger_written,
  release_commit_ledger_write, claim, mark_written, release,
}
use entity_developer_dashboa.Credits.Notification.Sparing.{
  Robust-notify_usage_threshold, Robust-notify_allowance_usage_threshold,
}
use entity_developer_dashboa.Credits.EventStore.Validation.{credit_type_of, event_plan_id}
use entity_developer_dashboa.Credits.EventStore.Validation.Accepted.{IsAmount}
use entity_developer_dashboa.Credits.EventStore.Measurement.{to_event_measurement}
use entity_developer_dashboa.Credits.EventStore.Measurement.Described.{
  to_event_measurement-Describes,
}
use entity_developer_dashboa.World.{World, Services, now}
use entity_developer_dashboa.World.Calls.{bind_ok}
use entity_developer_dashboa.World.Keeps.{Keeps-save_event}
use entity_developer_dashboa.Credits.EventStore.Processing.{
  cast_timestamp, stop_plan, start_plan, write_under_lease, write_if_claimed, persist_commit_ledger,
  after_commit, process_commit, measure, record_event,
}
use entity_developer_dashboa.Credits.EventStore.Processing.Books.{
  Sound, Sound-Robust, Sound-update_entry,
}

pub stop_plan-Spares : Spares stop_plan
unfolding stop_plan
stop_plan-Spares = record {
  same_use = λ k id p. refl;
  within = λ p h. record { api = h.api; allowance = h.allowance };
}

pub start_plan-Spares : (t : ℕ) → Spares (start_plan t)
unfolding start_plan
start_plan-Spares t = record {
  same_use = λ k id p. refl;
  within = λ p h. record { api = h.api; allowance = h.allowance };
}

cast_timestamp_ok : (m event : LedgerEvent) → cast_timestamp m ≡ ok event → m ≡ event
unfolding cast_timestamp
cast_timestamp_ok m event h = ground arith

module _ (sv : Services) (thresholds : List ℕ) where
  pub measured :
      (envelope : Envelope) (e : Event) (event : LedgerEvent) (w w' : World)
      → measure sv thresholds envelope e w ≡ (ok event, w')
      → (time : ℕ) × (to_event_measurement time envelope e ≡ ok event)
  unfolding measure lift
  measured envelope e event w w' h =
      let (time, v, first, rest) =
        bind_ok (now sv)
          (λ time. lift (to_event_measurement time envelope e >>=? λ m. cast_timestamp m)) w h in
      let (made, found, valid) =
        then_ok (to_event_measurement time envelope e) (λ m. cast_timestamp m)
          (ap (λ r. r.0) rest) in
      (time, found ∙ ap ok (cast_timestamp_ok made event valid))

module _ (sv : Services) (thresholds : List ℕ) {opening : Bool → String → ℕ} where
  pub Sound-ledger_create : (event : LedgerEvent) → Keeps (Sound opening) (ledger_create sv event)
  unfolding ledger_create
  Sound-ledger_create event =
      Keeps-save_event sv (Sound-Robust sv).free event
        λ w ledger h. record { balanced = record { books = h.balanced.books }; within = h.within }

  pub Sound-ledger_exists : (id : String) → Keeps (Sound opening) (ledger_exists sv id)
  unfolding ledger_exists
  Sound-ledger_exists id = search (keeps_rules, robust_rules, Sound-Robust)

  Sound-claim : (id : String) → Keeps (Sound opening) (claim_commit_ledger_write sv id)
  unfolding claim_commit_ledger_write claim
  Sound-claim id = search (keeps_rules, robust_rules, Sound-Robust, Sound-update_entry) depth 20

  pub Sound-mark :
      (id : String) (token : Option String)
      → Keeps (Sound opening) (mark_commit_ledger_written sv id token)
  unfolding mark_commit_ledger_written mark_written
  Sound-mark id token =
      search (keeps_rules, robust_rules, Sound-Robust, Sound-update_entry) depth 20

  Sound-release :
      (id token reason : String)
      → Keeps (Sound opening) (release_commit_ledger_write sv id token reason)
  unfolding release_commit_ledger_write release
  Sound-release id token reason =
      search (keeps_rules, robust_rules, Sound-Robust, Sound-update_entry) depth 20

  Sound-has_processed :
      (app_id id : String) → Keeps (Sound opening) (has_processed_commit sv app_id id)
  unfolding has_processed_commit
  Sound-has_processed app_id id = search (keeps_rules, robust_rules, Sound-Robust)

  Sound-write_under_lease :
      (event : LedgerEvent) (token : String)
      → Keeps (Sound opening) (write_under_lease sv thresholds event token)
  unfolding write_under_lease
  Sound-write_under_lease event token =
      search (keeps_rules, Sound-ledger_exists, Sound-ledger_create, Sound-mark, Sound-release)
        depth 30

  Sound-write_if_claimed :
      (event : LedgerEvent) (o : Option String)
      → Keeps (Sound opening) (write_if_claimed sv thresholds event o)
  unfolding write_if_claimed
  Sound-write_if_claimed event (some token) = Sound-write_under_lease event token
  Sound-write_if_claimed event none = search (keeps_rules, Sound-ledger_exists, Sound-mark) depth 30

  Sound-persist :
      (event : LedgerEvent) → Keeps (Sound opening) (persist_commit_ledger sv thresholds event)
  unfolding persist_commit_ledger
  Sound-persist event = search (keeps_rules, Sound-claim, Sound-write_if_claimed)

  Sound-apply :
      (app_id plan_id : String) (amount : ℕ) (credit_type service_type : String)
      (event : LedgerEvent)
      → Describes event plan_id credit_type amount
      → Keeps
          (Sound opening)
          (apply_plan_credit_commit sv app_id plan_id amount credit_type service_type event)
  Sound-apply app_id plan_id amount credit_type service_type event d = record {
    at = λ w h. record {
      balanced =
          apply-Balanced sv app_id plan_id amount credit_type service_type event w d h.balanced;
      within = apply-IsWithin sv app_id plan_id amount credit_type service_type event w h.within;
    };
  }

  Sound-after_commit :
      (app_id id credit_type : String) (o : Option CreditPlan)
      → Keeps (Sound opening) (after_commit sv thresholds app_id id credit_type o)
  unfolding after_commit
  Sound-after_commit app_id id credit_type none = search (keeps_rules, Sound-has_processed)
  Sound-after_commit app_id id credit_type (some p) =
      search
        (
          keeps_rules, Robust-notify_usage_threshold, Robust-notify_allowance_usage_threshold,
          Sound-Robust,
        )
        depth 20

  pub Sound-process_commit :
      (envelope : Envelope) (e : Event) (event : LedgerEvent) (time : ℕ)
      → to_event_measurement time envelope e ≡ ok event
      → IsAmount e.amount
      → Keeps (Sound opening) (process_commit sv thresholds envelope e event)
  unfolding process_commit
  Sound-process_commit envelope e event time h a =
      Keeps-lift_of (event_plan_id envelope.service_type e) λ plan p.
        Keeps-lift_of (credit_type_of e) λ t k.
          Keeps-bind
            (Sound-apply e.app_id plan (as_nat e.amount) t envelope.service_type event
              (to_event_measurement-Describes time envelope e event plan t h a p k))
            λ o.
              Keeps-bind (Sound-after_commit e.app_id envelope.event_id t o)
                λ _. Sound-persist event

  pub Sound-measure :
      (envelope : Envelope) (e : Event) → Keeps (Sound opening) (measure sv thresholds envelope e)
  unfolding measure
  Sound-measure envelope e = search (keeps_rules, robust_rules, Sound-Robust)

  pub Sound-record_event :
      (envelope : Envelope) (e : Event)
      → Keeps (Sound opening) (record_event sv thresholds envelope e)
  unfolding record_event
  Sound-record_event envelope e = search (keeps_rules, Sound-measure, Sound-ledger_create)
