-- ===== src/Onboarding/Tests/Runs.antt =====
-- Runs of an onboarding, and the theorems on runs at them.
use entity_developer_dashboa.Prelude.{ℕ, suc, ◌+◌, ◌≤◌, arith, [], ◌∷◌, ◌≡◌, refl, map, List, inl}
use entity_developer_dashboa.Onboarding.Schema.{CustomerOnboarding, OnboardingStatus, approved}
use entity_developer_dashboa.Onboarding.Process.{process_customer_onboarding}
use entity_developer_dashboa.Onboarding.Process.Runs.{run_all, Attempt, run_all-IsSoundDesk}
use entity_developer_dashboa.Onboarding.Process.Preserved.{IsSoundDesk}
use entity_developer_dashboa.Onboarding.Tests.Fixture.{office, no_apps, desk, dto, services}
use entity_developer_dashboa.Onboarding.Process.{run_steps, attempt, finish, notify, initial}
use entity_developer_dashboa.Onboarding.Desk.{
  find_onboarding, reach, new_date, update_onboarding, find_user, outside, find_role, create_role,
  update_user, add_a_job,
}
use entity_developer_dashboa.Exec.{◌>>=◌}
use entity_developer_dashboa.Onboarding.Plan.{remaining_steps, merge_logs}
use entity_developer_dashboa.Onboarding.Steps.{run_step}
use entity_developer_dashboa.Onboarding.Steps.Ssi.{
  give_dashboard_access_step, create_team_role_step, create_ssi_service_step,
  credit_ssi_service_step, create_did_step, register_did_step, create_missing_role, load_service,
  store_if_missing, handle_credit_service, resolve_document, known_token,
}
use entity_developer_dashboa.Onboarding.Steps.Kyc.{
  create_kyc_service_step, credit_kyc_service_step, setup_kyc_widget_step,
  configure_kyc_verifier_page_step,
}
use entity_developer_dashboa.Url.{sanitize_url, url_sanitizer}
use entity_developer_dashboa.Onboarding.Calls.{
  store_data_in_redis, get_access_token, make_external_request,
}

abbrev request : Attempt
request = record { id = "acme"; dto = dto; super_admin_user_id = "root" }

abbrev statuses : List CustomerOnboarding → List OnboardingStatus
statuses docs = map (λ doc. doc.onboarding_status) docs

-- A run that fails twice at the first application and then resumes is approved.
resumed :
    statuses
      (run_all office (request ∷ []) (run_all no_apps (request ∷ request ∷ []) desk)).onboardings
    ≡ approved ∷ []
unfolding process_customer_onboarding find_onboarding reach ◌>>=◌ remaining_steps run_steps run_step
    attempt new_date update_onboarding finish merge_logs notify find_user give_dashboard_access_step
    create_team_role_step create_ssi_service_step credit_ssi_service_step create_did_step
    register_did_step create_kyc_service_step credit_kyc_service_step setup_kyc_widget_step
    configure_kyc_verifier_page_step outside find_role create_role create_missing_role update_user
    sanitize_url url_sanitizer load_service store_if_missing store_data_in_redis get_access_token
    make_external_request handle_credit_service resolve_document known_token add_a_job initial
resumed = refl

mono : (n : ℕ) → 100 + n ≤ 100 + suc n
mono n = omega arith

acme-IsSound : IsSoundDesk office services desk
acme-IsSound = (record { wanted = refl; timed = omega arith; told = inl (refl, refl) }, tt)

-- Two runs that fail at the first application, and one that does not.
run_all-IsSoundDesk_example :
    IsSoundDesk no_apps services (run_all no_apps (request ∷ request ∷ []) desk)
run_all-IsSoundDesk_example =
    run_all-IsSoundDesk no_apps services mono (request ∷ request ∷ []) desk acme-IsSound
