-- ===== src/Onboarding/Tests/Plans.antt =====
-- The theorems on plans, logs and finished onboardings at one customer.
use entity_developer_dashboa.Prelude.{ℕ, none, [], ◌∷◌, ◌++◌, ◌≡◌, refl, List, inr, arith}
use entity_developer_dashboa.Exec.{err, bad_request, forbidden}
use entity_developer_dashboa.Onboarding.Schema.{
  CustomerOnboarding, OnboardingStep, give_dashboard_access, create_team_role, create_ssi_service,
  credit_ssi_service, create_did, register_did, create_kyc_service, credit_kyc_service,
  setup_kyc_widget, configure_kyc_verifier_page, completed, LogDetail, success, failed, approved,
  failure, admin,
}
use entity_developer_dashboa.Onboarding.Desk.{Desk}
use entity_developer_dashboa.Onboarding.Plan.{remaining_steps, filtered_steps, merge_logs}
use entity_developer_dashboa.Onboarding.Plan.Trace.{rest_after, successes, IsTrace}
use entity_developer_dashboa.Onboarding.Plan.Merge.{merge_logs-append}
use entity_developer_dashboa.Onboarding.Plan.Resume.{remaining_steps-rest_after}
use entity_developer_dashboa.Onboarding.Request.{Caller, find_one}
use entity_developer_dashboa.Onboarding.Request.Access.{find_one_lem}
use entity_developer_dashboa.Onboarding.Process.{process_customer_onboarding}
use entity_developer_dashboa.Onboarding.Process.Sound.{IsSound}
use entity_developer_dashboa.Onboarding.Process.Finished.{process_customer_onboarding-approved}
use entity_developer_dashboa.Onboarding.Tests.Fixture.{office, acme, desk, dto, services}

abbrev entry : OnboardingStep → ℕ → LogDetail
entry s n = record { step = s; status = success; time = n }

abbrev slip : OnboardingStep → ℕ → LogDetail
slip s n = record { step = s; status = failed "no vault"; time = n }

-- A log that stops at the third step.
abbrev stopped_logs : List LogDetail
stopped_logs =
    entry give_dashboard_access 1 ∷ entry create_team_role 2 ∷ slip create_ssi_service 3 ∷ []

abbrev stopped_acme : CustomerOnboarding
stopped_acme = record acme { logs = stopped_logs; onboarding_status = failure }

stopped-IsTrace : IsTrace (filtered_steps stopped_acme.interested_service) stopped_logs
unfolding filtered_steps
stopped-IsTrace = (refl, (refl, (refl, (refl, refl))))

remaining_steps-rest_after_example :
    remaining_steps stopped_acme
    ≡ rest_after (filtered_steps stopped_acme.interested_service) stopped_acme.logs
remaining_steps-rest_after_example = remaining_steps-rest_after stopped_acme (inr stopped-IsTrace)

abbrev first_two : List OnboardingStep
first_two = give_dashboard_access ∷ completed ∷ []

merge_logs-append_example :
    merge_logs
      (slip give_dashboard_access 1 ∷ [])
      (entry give_dashboard_access 5 ∷ entry completed 6 ∷ [])
    ≡ successes (slip give_dashboard_access 1 ∷ [])
      ++ entry give_dashboard_access 5 ∷ entry completed 6 ∷ []
merge_logs-append_example =
    merge_logs-append first_two (slip give_dashboard_access 1 ∷ [])
      (entry give_dashboard_access 5 ∷ entry completed 6 ∷ []) 0 4 9 (omega arith)
      (inr (refl, (refl, refl))) (refl, (refl, tt)) (omega arith) (omega arith)

abbrev done_logs : List LogDetail
done_logs =
    entry give_dashboard_access 1
    ∷ entry create_team_role 2
    ∷ entry create_ssi_service 3
    ∷ entry credit_ssi_service 4
    ∷ entry create_did 5
    ∷ entry register_did 6
    ∷ entry create_kyc_service 7
    ∷ entry credit_kyc_service 8
    ∷ entry setup_kyc_widget 9
    ∷ entry configure_kyc_verifier_page 10
    ∷ entry completed 11
    ∷ []

abbrev done_acme : CustomerOnboarding
done_acme = record acme { logs = done_logs; onboarding_status = approved }

done_acme-IsSound : IsSound services 20 done_acme
unfolding filtered_steps
done_acme-IsSound = record {
  wanted = refl;
  timed = omega arith;
  told = inr (
    (refl, (refl, (refl, (refl, (refl, (refl, (refl, (refl, (refl, (refl, (refl, tt))))))))))),
    refl,
  );
}

abbrev done_desk : Desk (Unit {0})
done_desk = record desk { onboardings = done_acme ∷ [] }

process_customer_onboarding-approved_example :
    process_customer_onboarding office "acme" dto "root" done_desk
    ≡ (err (bad_request "Customer onboarding is already done"), record done_desk { calls = 1 })
process_customer_onboarding-approved_example =
    process_customer_onboarding-approved office services 20 "acme" dto "root" done_desk done_acme
      refl refl refl done_acme-IsSound refl

abbrev stranger : Caller
stranger = record { user_id = "other"; role = admin; name = none }

find_one_lem_example :
    (find_one office "acme" stranger desk).0
    ≡ err (forbidden "You are not authorized to access this resource")
find_one_lem_example = find_one_lem office "acme" stranger desk acme refl refl
