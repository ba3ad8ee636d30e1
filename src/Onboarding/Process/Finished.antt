-- ===== src/Onboarding/Process/Finished.antt =====
-- A run over an onboarding that is done.
use entity_developer_dashboa.Prelude.{
  ℕ, suc, String, true, some, List, [], ◌∷◌, ◌≡◌, refl, sym, ◌∙◌, inl, inr, ◌===◌,
}
use entity_developer_dashboa.Exec.{bad_request, err, ◌>>=◌}
use entity_developer_dashboa.World.{done}
use entity_developer_dashboa.Onboarding.Schema.{
  CustomerOnboarding, OnboardingStep, approved, initiated, ProcessDto,
}
use entity_developer_dashboa.Onboarding.Desk.{Desk, Office, find_onboarding, reach}
use entity_developer_dashboa.Onboarding.Plan.{remaining_steps, filtered_steps}
use entity_developer_dashboa.Onboarding.Plan.Trace.{rest_after}
use entity_developer_dashboa.Onboarding.Plan.Resume.{remaining_steps-rest_after}
use entity_developer_dashboa.Onboarding.Plan.Status.{status_of}
use entity_developer_dashboa.Onboarding.Process.{process_customer_onboarding}
use entity_developer_dashboa.Onboarding.Process.Sound.{IsSound, IsSound-IsProgress}

none_left : (rest : List OnboardingStep) → approved ≡ status_of rest → rest ≡ []
none_left [] h = refl
none_left (s ∷ ss) h = cc

-- Of a sound record that is approved, no step remains.
pub remaining_steps-approved :
    {services : String → List String} {high : ℕ} {doc : CustomerOnboarding}
    → IsSound services high doc
    → doc.onboarding_status ≡ approved
    → remaining_steps doc ≡ []
remaining_steps-approved {services} {high} {doc} h e = elim h.told [
  | inl (empty, s) ↦ let bad : approved ≡ initiated = sym e ∙ s in cc
  | inr (t, s) ↦
      remaining_steps-rest_after doc (IsSound-IsProgress h)
      ∙ none_left (rest_after (filtered_steps doc.interested_service) doc.logs) (sym e ∙ s)
]

-- If the record that is found is sound and approved, a run is refused and changes nothing.
pub process_customer_onboarding-approved :
    {S : Type 0} (of : Office S) (services : String → List String) (high : ℕ) (id : String)
    (dto : ProcessDto) (super_admin_user_id : String) (d : Desk S) (stored : CustomerOnboarding)
    → of.is_object_id id ≡ true
    → of.fate d.calls ≡ done
    → of.onboarding_store.find_one (λ doc. doc.id === id) d.onboardings ≡ some stored
    → IsSound services high stored
    → stored.onboarding_status ≡ approved
    → process_customer_onboarding of id dto super_admin_user_id d
      ≡ (err (bad_request "Customer onboarding is already done"), record d { calls = suc d.calls })
unfolding process_customer_onboarding ◌>>=◌ find_onboarding reach
process_customer_onboarding-approved of services high id dto admin d stored valid answers found h
      e =
    rw (valid, answers, found, remaining_steps-approved h e) refl
