-- ===== src/Onboarding/Plan.antt =====
-- Which steps a run of an onboarding takes, and how its log is merged with the earlier one
-- (processCustomerOnboarding and mergeLogs).
pub mod Status
pub mod Resume
pub mod Merge
pub mod Trace
use entity_developer_dashboa.Prelude.{
  ℕ, zero, suc, ◌+◌, String, Bool, true, false, not, ◌||◌, Option, none, some, List, [], ◌∷◌, map,
  keep, if◌then◌else◌, leb, ◌==◌,
}
use entity_developer_dashboa.Access.Policy.{includes}
use entity_developer_dashboa.Onboarding.Schema.{
  OnboardingStep, index, same_step, all_steps, configure_kyb_verifier_page, setup_kyb_widget,
  LogDetail, StepStatus, success, failed, CustomerOnboarding, kyb, age_verification,
  proof_of_personhood,
}

abbrev pub is_success : StepStatus → Bool
is_success success = true
is_success (failed reason) = false

-- xs.pop(), of which only the result is used
abbrev pub last {ℓ} : {A : Type ℓ} → List A → Option A
last [] = none
last (x ∷ []) = some x
last (x ∷ y ∷ ys) = last (y ∷ ys)

abbrev pub step_of : Option LogDetail → Option OnboardingStep
step_of none = none
step_of (some log) = some log.step

unfoldable pub last_step : List LogDetail → Option OnboardingStep
last_step logs = step_of (last (keep (λ log. is_success log.status) logs))

unfoldable pub start_index : Option OnboardingStep → ℕ
start_index none = 0
start_index (some s) = suc (index s)

abbrev pub is_kyb_step : OnboardingStep → Bool
is_kyb_step s = same_step s configure_kyb_verifier_page || same_step s setup_kyb_widget

-- allSteps.filter(...)
unfoldable pub filtered_steps : List String → List OnboardingStep
filtered_steps interested_service =
    keep (λ s. if is_kyb_step s then includes interested_service kyb else true) all_steps

-- xs.slice(n)
abbrev pub slice {ℓ} : {A : Type ℓ} → ℕ → List A → List A
slice zero xs = xs
slice (suc n) [] = []
slice (suc n) (x ∷ xs) = slice n xs

unfoldable pub remaining_steps : CustomerOnboarding → List OnboardingStep
unfolding last_step start_index filtered_steps
remaining_steps data_ =
    slice (start_index (last_step data_.logs)) (filtered_steps data_.interested_service)

-- map.set(log.step, log): a key that is there keeps its place.
abbrev pub set : LogDetail → List LogDetail → List LogDetail
set log [] = log ∷ []
set log (old ∷ olds) = if same_step old.step log.step then log ∷ olds else old ∷ set log olds

abbrev pub set_all : List LogDetail → List LogDetail → List LogDetail
set_all [] logs = logs
set_all (log ∷ rest) logs = set_all rest (set log logs)

-- A stable sort by time.
abbrev pub insert : LogDetail → List LogDetail → List LogDetail
insert log [] = log ∷ []
insert log (x ∷ xs) = if leb log.time x.time then log ∷ x ∷ xs else x ∷ insert log xs

abbrev pub sort : List LogDetail → List LogDetail
sort [] = []
sort (x ∷ xs) = insert x (sort xs)

unfoldable pub merge_logs : List LogDetail → List LogDetail → List LogDetail
merge_logs existing new_ones = sort (set_all new_ones (set_all existing []))

unfoldable pub should_use_baby_jub_jub_issuer : List String → Bool
should_use_baby_jub_jub_issuer interested_service =
    includes interested_service proof_of_personhood || includes interested_service age_verification

unfoldable pub should_enable_proof_of_age : List String → Bool
should_enable_proof_of_age interested_service = includes interested_service age_verification
