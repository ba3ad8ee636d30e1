-- ===== src/Onboarding/Process/Sound.antt =====
-- What a record says of its onboarding, and the state before and after each part of a run.
use entity_developer_dashboa.Prelude.{
  ℕ, ◌≤◌, String, false, some, List, [], ◌++◌, ◌≡◌, refl, sym, ap, ◌∙◌, ◌⊎◌, inl, inr,
}
use mathlib.Core.Path.{subst}
use entity_developer_dashboa.Onboarding.Schema.{CustomerOnboarding, LogDetail, initiated}
use entity_developer_dashboa.Onboarding.Plan.{filtered_steps, remaining_steps, merge_logs}
use entity_developer_dashboa.Onboarding.Plan.Trace.{
  IsTrace, IsProgress, IsTimed, rest_after, successes,
}
use entity_developer_dashboa.Onboarding.Plan.Merge.{
  merge_logs-append, IsTrace-append, IsTimed-append, IsTimed-raise,
}
use entity_developer_dashboa.Onboarding.Plan.Resume.{
  remaining_steps-rest_after, filtered_steps-IsRising,
}
use entity_developer_dashboa.Onboarding.Plan.Status.{
  status_of, logs_status, logs_status-IsTrace, rest_after-append, Ends-rest_after,
  filtered_steps-Ends,
}
use entity_developer_dashboa.Onboarding.Process.{Outcome, finish, is_empty}

-- A record of a customer whose services are given: nothing was tried yet, or its log is a trace of
-- the customer's plan and its status says whether the plan is done; the times of the log do not
-- fall and have passed.
pub record IsSound (services : String → List String) (high : ℕ) (doc : CustomerOnboarding)
    : Type 0 where
  pub wanted : doc.interested_service ≡ services doc.id
  pub timed : IsTimed 0 doc.logs high
  pub told :
      ((doc.logs ≡ []) × (doc.onboarding_status ≡ initiated))
      ⊎ (IsTrace (filtered_steps doc.interested_service) doc.logs
          × (doc.onboarding_status
              ≡ status_of (rest_after (filtered_steps doc.interested_service) doc.logs)))

-- What a run has left: a trace of the steps that remained, after the log of the record.
pub record IsRun (services : String → List String) (stored : CustomerOnboarding) (high : ℕ)
    (o : Outcome) : Type 0 where
  pub low : ℕ
  pub before : IsSound services low stored
  pub some_steps : is_empty (remaining_steps stored) ≡ false
  pub trace : IsTrace (remaining_steps stored) o.logs
  pub timed : IsTimed low o.logs high
  pub status : o.status ≡ logs_status o.logs

module _ {services : String → List String} where
  pub IsSound-IsProgress :
      {high : ℕ} {doc : CustomerOnboarding}
      → IsSound services high doc
      → IsProgress (filtered_steps doc.interested_service) doc.logs
  IsSound-IsProgress h = elim h.told [ inl (e, s) ↦ inl e | inr (t, s) ↦ inr t ]

  pub IsSound-raise :
      {low high : ℕ} {doc : CustomerOnboarding}
      → low ≤ high
      → IsSound services low doc
      → IsSound services high doc
  IsSound-raise {low} {high} {doc} le h = record {
    wanted = h.wanted;
    timed = IsTimed-raise 0 doc.logs low high le h.timed;
    told = h.told;
  }

  IsTrace-remaining :
      {low : ℕ} {stored : CustomerOnboarding} (logs : List LogDetail)
      → IsSound services low stored
      → IsTrace (remaining_steps stored) logs
      → IsTrace (rest_after (filtered_steps stored.interested_service) stored.logs) logs
  IsTrace-remaining {low} {stored} logs h t =
      subst (λ r. IsTrace r logs) (remaining_steps-rest_after stored (IsSound-IsProgress h)) t

  IsRun-merge_logs :
      {stored : CustomerOnboarding} {high : ℕ} {o : Outcome}
      → IsRun services stored high o
      → merge_logs stored.logs o.logs ≡ successes stored.logs ++ o.logs
  IsRun-merge_logs {stored} {high} {o} r =
      merge_logs-append (filtered_steps stored.interested_service) stored.logs o.logs 0 r.low high
        (filtered_steps-IsRising stored.interested_service) (IsSound-IsProgress r.before)
        (IsTrace-remaining o.logs r.before r.trace) r.before.timed r.timed

  IsRun-status :
      {stored : CustomerOnboarding} {high : ℕ} {o : Outcome}
      → IsRun services stored high o
      → o.status
        ≡ some (
            status_of (
              rest_after
                (filtered_steps stored.interested_service)
                (successes stored.logs ++ o.logs)))
  IsRun-status {stored} {high} {o} r =
      let plan = filtered_steps stored.interested_service in
      let p = IsSound-IsProgress r.before in
      let e = remaining_steps-rest_after stored p in
      r.status
      ∙ logs_status-IsTrace (rest_after plan stored.logs) o.logs
          (Ends-rest_after plan stored.logs (filtered_steps-Ends stored.interested_service))
          (ap (λ s. is_empty s) (sym e) ∙ r.some_steps) (IsTrace-remaining o.logs r.before r.trace)
      ∙ ap (λ s. some (status_of s)) (sym (rest_after-append plan stored.logs o.logs p))

  pub finish-IsSound :
      {stored doc : CustomerOnboarding} {high : ℕ} {o : Outcome}
      → IsRun services stored high o
      → IsSound services high doc
      → doc.id ≡ stored.id
      → IsSound services high (finish stored o doc)
  unfolding finish
  finish-IsSound {stored} {doc} {high} {o} r h same =
      let wants : doc.interested_service ≡ stored.interested_service =
        h.wanted ∙ ap services same ∙ sym r.before.wanted in
      record {
        wanted = h.wanted;
        timed =
            subst (λ l. IsTimed 0 l high) (sym (IsRun-merge_logs r))
              (IsTimed-append 0 r.low high stored.logs o.logs r.before.timed r.timed);
        told = inr (
          rw (wants, IsRun-merge_logs r)
              (IsTrace-append (filtered_steps stored.interested_service) stored.logs o.logs
                (IsSound-IsProgress r.before) (IsTrace-remaining o.logs r.before r.trace)),
          rw (wants, IsRun-merge_logs r, IsRun-status r) refl,
        );
      }
