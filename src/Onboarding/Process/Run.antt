-- ===== src/Onboarding/Process/Run.antt =====
-- The loop over the steps: what it returns, and what it leaves.
use entity_developer_dashboa.Prelude.{ℕ, suc, ◌≤◌, false, List, [], ◌∷◌, ◌≡◌, refl, ap, ◌∙◌, arith}
use entity_developer_dashboa.Exec.{Exec, Failure, Result, ok, err, pure, ◌>>=◌}
use entity_developer_dashboa.Onboarding.Schema.{
  OnboardingStep, same_step, completed, give_dashboard_access, create_team_role, create_ssi_service,
  credit_ssi_service, create_did, register_did, create_kyc_service, credit_kyc_service,
  setup_kyc_widget, setup_kyb_widget, configure_kyc_verifier_page, configure_kyb_verifier_page,
}
use entity_developer_dashboa.Onboarding.Desk.{Desk, Office, new_date}
use entity_developer_dashboa.Onboarding.Desk.Calm.{Calm}
use entity_developer_dashboa.Onboarding.Locals.{Locals, Case}
use entity_developer_dashboa.Onboarding.Steps.{run_step}
use entity_developer_dashboa.Onboarding.Steps.Calm.{Calm-run_step}
use entity_developer_dashboa.Onboarding.Plan.Trace.{IsTrace, IsTimed}
use entity_developer_dashboa.Onboarding.Plan.Merge.{IsTimed-lower}
use entity_developer_dashboa.Onboarding.Plan.Status.{logs_status}
use entity_developer_dashboa.Onboarding.Process.{
  Outcome, run_steps, attempt, succeeded, stopped, nothing_done, status_after,
}

-- The clock does not go back.
abbrev pub IsClock : (ℕ → ℕ) → Type 0
IsClock clock = (n : ℕ) → clock n ≤ clock (suc n)

-- The loop has returned, with a trace of its steps.
pub record Ran {S : Type 0} (of : Office S) (steps : List OnboardingStep) (d : Desk S)
    (out : Result Outcome × Desk S) : Type 0 where
  pub outcome : Outcome
  pub after : Desk S
  pub returned : out ≡ (ok outcome, after)
  pub trace : IsTrace steps outcome.logs
  pub timed : IsTimed (of.clock d.readings) outcome.logs (of.clock after.readings)
  pub status : outcome.status ≡ logs_status outcome.logs
  pub same_docs : after.onboardings ≡ d.onboardings

module _ {S : Type 0} (of : Office S) (mono : IsClock of.clock) where
  completed_ok :
      (step : OnboardingStep) (c : Case) (l : Locals) (d v : Desk S) (e : Failure)
      → run_step of step c l d ≡ (err e, v)
      → same_step step completed ≡ false
  unfolding run_step pure
  completed_ok give_dashboard_access c l d v e h = refl
  completed_ok create_team_role c l d v e h = refl
  completed_ok create_ssi_service c l d v e h = refl
  completed_ok credit_ssi_service c l d v e h = refl
  completed_ok create_did c l d v e h = refl
  completed_ok register_did c l d v e h = refl
  completed_ok create_kyc_service c l d v e h = refl
  completed_ok credit_kyc_service c l d v e h = refl
  completed_ok setup_kyc_widget c l d v e h = refl
  completed_ok setup_kyb_widget c l d v e h = refl
  completed_ok configure_kyc_verifier_page c l d v e h = refl
  completed_ok configure_kyb_verifier_page c l d v e h = refl
  completed_ok completed c l d v e h = cc

  pub run_steps_lem :
      (steps : List OnboardingStep) (c : Case) (l : Locals) (d : Desk S)
      → Ran of steps d (run_steps of steps c l d)
  unfolding run_steps ◌>>=◌ attempt new_date
  run_steps_lem [] c l d = record {
    outcome = nothing_done l;
    after = d;
    returned = refl;
    trace = tt;
    timed = omega arith;
    status = refl;
    same_docs = refl;
  }
  run_steps_lem (step ∷ rest) c l d =
      go (run_step of step c l d).0 (run_step of step c l d).1 refl
        ((Calm-run_step of step c l).at d (record { same_docs = refl; same_readings = refl }))
        (λ l' v. run_steps_lem rest c l' v)
    where
      next : ℕ → Result Locals → Exec (Desk S) Outcome
      next time (err e) = pure (stopped step time e l)
      next time (ok l') = run_steps of rest c l' >>= λ o. pure (succeeded step time o)

      from :
          (v : Desk S) → Calm d.onboardings d.readings v → of.clock d.readings ≤ of.clock v.readings
      from v calm = rw calm.same_readings (omega arith)

      go :
          (r : Result Locals) (v : Desk S)
          → run_step of step c l d ≡ (r, v)
          → Calm d.onboardings d.readings v
          → ((l' : Locals) (v : Desk S) → Ran of rest v (run_steps of rest c l' v))
          → Ran of
              (step ∷ rest)
              d
              (next (of.clock v.readings) r (record v { readings = suc v.readings }))
      go (err e) v h calm k = record {
        outcome = stopped step (of.clock v.readings) e l;
        after = record v { readings = suc v.readings };
        returned = refl;
        trace = (refl, (refl, completed_ok step c l d v e h));
        timed = (from v calm, mono v.readings);
        status = refl;
        same_docs = calm.same_docs;
      }
      go (ok l') v h calm k =
          let ih = k l' (record v { readings = suc v.readings }) in
          record {
            outcome = succeeded step (of.clock v.readings) ih.outcome;
            after = ih.after;
            returned = rw ih.returned refl;
            trace = (refl, ih.trace);
            timed = (
              from v calm,
              IsTimed-lower (of.clock v.readings) (of.clock (suc v.readings)) ih.outcome.logs
                  (of.clock ih.after.readings) (mono v.readings) ih.timed,
            );
            status = ap (status_after step) ih.status;
            same_docs = ih.same_docs ∙ calm.same_docs;
          }
