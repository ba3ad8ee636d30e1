-- ===== src/Credits/EventStore/Processing/Life.antt =====
-- The books and the processing of a whole job: append and what it calls.
use entity_developer_dashboa.Prelude.{ℕ, String, Bool, Option, none, List, ◌≡◌}
use entity_developer_dashboa.Exec.{ok}
use entity_developer_dashboa.Exec.Keeps.{
  Keeps, keeps_rules, Keeps-bind, Keeps-bind_of, Keeps-lift_of, Keeps-or_throw, Keeps-skip,
}
use entity_developer_dashboa.Credits.Event.{
  Job, JobName, JobData, Envelope, Event, Rejection, committed, job_committed, job_plan_expired,
  job_reserved, job_rolled_back, job_expired, job_credit_granted, job_critical_balance,
  job_credit_observed, job_command_rejected, other_job, no_object, lifecycle, rejection,
}
use entity_developer_dashboa.Credits.Robust.{robust_rules, Robust-update_plan}
use entity_developer_dashboa.Credits.Repository.{find_active_credit_for_service}
use entity_developer_dashboa.Credits.Service.Activate.Sparing.{Robust-activate_credit}
use entity_developer_dashboa.Credits.EventStore.Validation.{
  validate_lifecycle_envelope, validate_event_type,
}
use entity_developer_dashboa.Credits.EventStore.Validation.Accepted.{committed_amount}
use entity_developer_dashboa.World.{Services}
use entity_developer_dashboa.Credits.EventStore.Processing.{
  process_plan_expired, process_credit_granted, process_critical_balance, dispatch, known_event,
  process_lifecycle_event, reject_command, append_rejection, append_lifecycle, append_named, append,
}
use entity_developer_dashboa.Credits.EventStore.Processing.Books.{Sound, Sound-Robust}
use entity_developer_dashboa.Credits.EventStore.Processing.Steps.{
  stop_plan-Spares, start_plan-Spares, measured, Sound-ledger_create, Sound-ledger_exists,
  Sound-mark, Sound-process_commit, Sound-measure, Sound-record_event,
}

module _ (sv : Services) (thresholds : List ℕ) {opening : Bool → String → ℕ} where
  Sound-process_plan_expired :
      (app_id id : String) → Keeps (Sound opening) (process_plan_expired sv thresholds app_id id)
  unfolding process_plan_expired
  Sound-process_plan_expired app_id id =
      Keeps-bind (Robust-update_plan (Sound-Robust sv) _ _ stop_plan-Spares) λ _. Keeps-skip

  Sound-process_credit_granted :
      (app_id id : String) (date : Option ℕ)
      → Keeps (Sound opening) (process_credit_granted sv thresholds app_id id date)
  unfolding process_credit_granted
  Sound-process_credit_granted app_id id date = Keeps-bind (Keeps-or_throw _ date) λ t.
      Keeps-bind (Robust-update_plan (Sound-Robust sv) _ _ (start_plan-Spares t)) λ _. Keeps-skip

  Sound-find_active :
      (app_id : String) (other : Option String)
      → Keeps (Sound opening) (find_active_credit_for_service sv app_id other)
  unfolding find_active_credit_for_service
  Sound-find_active app_id other = search (keeps_rules, robust_rules, Sound-Robust)

  Sound-process_critical_balance :
      (app_id id : String)
      → Keeps (Sound opening) (process_critical_balance sv thresholds app_id id)
  unfolding process_critical_balance
  Sound-process_critical_balance app_id id =
      search (keeps_rules, robust_rules, Sound-Robust, Robust-activate_credit, Sound-find_active)
        depth 20

  Sound-dispatch :
      (name : JobName) (envelope : Envelope) (e : Event)
      → validate_lifecycle_envelope envelope ≡ ok e
      → Keeps (Sound opening) (dispatch sv thresholds name envelope e)
  unfolding dispatch
  Sound-dispatch job_committed envelope e h = Keeps-lift_of (validate_event_type e committed) λ u k.
      Keeps-bind_of (Sound-measure sv thresholds envelope e) λ w w' event m.
        let (time, made) = measured sv thresholds envelope e event w w' m in
        Sound-process_commit sv thresholds envelope e event time made
          (committed_amount envelope e u h k)
  Sound-dispatch job_plan_expired envelope e h =
      search (keeps_rules, Sound-process_plan_expired, Sound-record_event)
  Sound-dispatch job_reserved envelope e h = search (keeps_rules, Sound-record_event)
  Sound-dispatch job_rolled_back envelope e h = search (keeps_rules, Sound-record_event)
  Sound-dispatch job_expired envelope e h = search (keeps_rules, Sound-record_event)
  Sound-dispatch job_credit_granted envelope e h =
      search (keeps_rules, Sound-process_credit_granted, Sound-record_event) depth 20
  Sound-dispatch job_critical_balance envelope e h =
      search (keeps_rules, Sound-process_critical_balance, Sound-record_event) depth 20
  Sound-dispatch job_credit_observed envelope e h = search (keeps_rules, Sound-record_event)
  Sound-dispatch job_command_rejected envelope e h = search keeps_rules
  Sound-dispatch (other_job s) envelope e h = search keeps_rules

  Sound-known_event :
      (name : JobName) (id : String) → Keeps (Sound opening) (known_event sv thresholds name id)
  unfolding known_event
  Sound-known_event job_committed id = Sound-mark sv thresholds id none
  Sound-known_event job_plan_expired id = Keeps-skip
  Sound-known_event job_reserved id = Keeps-skip
  Sound-known_event job_rolled_back id = Keeps-skip
  Sound-known_event job_expired id = Keeps-skip
  Sound-known_event job_credit_granted id = Keeps-skip
  Sound-known_event job_critical_balance id = Keeps-skip
  Sound-known_event job_credit_observed id = Keeps-skip
  Sound-known_event job_command_rejected id = Keeps-skip
  Sound-known_event (other_job s) id = Keeps-skip

  Sound-process :
      (name : JobName) (envelope : Envelope)
      → Keeps (Sound opening) (process_lifecycle_event sv thresholds name envelope)
  unfolding process_lifecycle_event
  Sound-process name envelope =
      Keeps-lift_of (validate_lifecycle_envelope envelope)
        λ e h. search (keeps_rules, Sound-ledger_exists, Sound-known_event, Sound-dispatch)

  Sound-reject : (r : Rejection) → Keeps (Sound opening) (reject_command sv thresholds r)
  unfolding reject_command
  Sound-reject r = search (keeps_rules, Sound-ledger_exists, Sound-ledger_create) depth 20

  Sound-append_rejection : (d : JobData) → Keeps (Sound opening) (append_rejection sv thresholds d)
  unfolding append_rejection
  Sound-append_rejection no_object = search keeps_rules
  Sound-append_rejection (lifecycle envelope) = search keeps_rules
  Sound-append_rejection (rejection r) = Sound-reject r

  Sound-append_lifecycle :
      (name : JobName) (d : JobData) → Keeps (Sound opening) (append_lifecycle sv thresholds name d)
  unfolding append_lifecycle
  Sound-append_lifecycle name no_object = search keeps_rules
  Sound-append_lifecycle name (lifecycle envelope) = Sound-process name envelope
  Sound-append_lifecycle name (rejection r) = search keeps_rules

  Sound-append_named :
      (name : JobName) (d : JobData) → Keeps (Sound opening) (append_named sv thresholds name d)
  unfolding append_named
  Sound-append_named job_command_rejected d = Sound-append_rejection d
  Sound-append_named job_committed d = Sound-append_lifecycle _ d
  Sound-append_named job_plan_expired d = Sound-append_lifecycle _ d
  Sound-append_named job_reserved d = Sound-append_lifecycle _ d
  Sound-append_named job_rolled_back d = Sound-append_lifecycle _ d
  Sound-append_named job_expired d = Sound-append_lifecycle _ d
  Sound-append_named job_credit_granted d = Sound-append_lifecycle _ d
  Sound-append_named job_critical_balance d = Sound-append_lifecycle _ d
  Sound-append_named job_credit_observed d = Sound-append_lifecycle _ d
  Sound-append_named (other_job s) d = Sound-append_lifecycle _ d

  pub Sound-append : (job : Job) → Keeps (Sound opening) (append sv thresholds job)
  unfolding append
  Sound-append job = Sound-append_named job.name job.data_of
