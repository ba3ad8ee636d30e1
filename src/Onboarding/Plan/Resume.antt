-- ===== src/Onboarding/Plan/Resume.antt =====
-- Where a run goes on: the steps that it takes after an earlier log.
use entity_developer_dashboa.Prelude.{
  ℕ, suc, ◌+◌, Bool, true, false, not, Option, none, some, List, [], ◌∷◌, keep, String, ◌≡◌, refl,
  sym, ap, ◌∙◌, inl, inr, arith, Bool-cases,
}
use mathlib.Core.Path.{subst}
use entity_developer_dashboa.Access.Policy.{includes}
use entity_developer_dashboa.Onboarding.Schema.{
  OnboardingStep, index, completed, configure_kyc_verifier_page, LogDetail, success,
  CustomerOnboarding, kyb, all_steps,
}
use entity_developer_dashboa.Onboarding.Plan.{
  is_success, is_kyb_step, last, step_of, last_step, start_index, slice, filtered_steps,
  remaining_steps,
}
use entity_developer_dashboa.Onboarding.Plan.Trace.{
  IsTrace, IsProgress, IsRising, rest_after, status_cases,
}
use entity_developer_dashboa.Onboarding.Plan.Merge.{IsProgress-cons}

-- startIndex, if n steps are done before the log
abbrev start_from : ℕ → Option OnboardingStep → ℕ
start_from n none = n
start_from n (some s) = suc (index s)

-- The index after the last success is right for every log of these steps.
Resumes : ℕ → List OnboardingStep → Type 0
Resumes n steps =
    (logs : List LogDetail)
    → IsProgress steps logs
    → (k : ℕ) × (start_from n (last_step logs) ≡ n + k) × (slice k steps ≡ rest_after steps logs)

start_from-last :
    (n m : ℕ) (y : LogDetail) (ys : List LogDetail)
    → start_from n (step_of (last (y ∷ ys))) ≡ start_from m (step_of (last (y ∷ ys)))
start_from-last n m y [] = refl
start_from-last n m y (z ∷ zs) = start_from-last n m z zs

start_from-cons :
    (n : ℕ) (x : LogDetail) (ys : List LogDetail)
    → start_from n (step_of (last (x ∷ ys))) ≡ start_from (suc (index x.step)) (step_of (last ys))
start_from-cons n x [] = refl
start_from-cons n x (y ∷ ys) = start_from-last n (suc (index x.step)) y ys

last_step-success :
    (n : ℕ) (x : LogDetail) (xs : List LogDetail)
    → x.status ≡ success
    → start_from n (last_step (x ∷ xs)) ≡ start_from (suc (index x.step)) (last_step xs)
unfolding last_step
last_step-success n x xs e =
    let b : is_success x.status ≡ true = rw e refl in
    rw b (start_from-cons n x (keep (λ log. is_success log.status) xs))

Resumes-nil : (n : ℕ) → Resumes n []
unfolding Resumes last_step
Resumes-nil n [] p = (0, omega arith, refl)
Resumes-nil n (x ∷ xs) p = elim (IsProgress-cons [] x xs p) [ ]

Resumes-cons :
    (n : ℕ) (s : OnboardingStep) (ss : List OnboardingStep)
    → index s ≡ n
    → Resumes (suc n) ss
    → Resumes n (s ∷ ss)
unfolding Resumes last_step
Resumes-cons n s ss h r [] p = (0, omega arith, refl)
Resumes-cons n s ss h r (x ∷ xs) p = elim (status_cases x.status) [
  | inl e ↦
      let (q, u) = rw e at (IsProgress-cons (s ∷ ss) x xs p) in
      let (k, a, b) = r xs (inr u) in
      let here : index x.step ≡ n = rw q h in
      let after : start_from (suc (index x.step)) (last_step xs) ≡ suc n + k = rw here a in
      (suc k, omega (arith, last_step-success n x xs e, after), rw e b)
  | inr (m, e) ↦
      let (q, u) = rw e at (IsProgress-cons (s ∷ ss) x xs p) in
      let b : is_success x.status ≡ false = rw e refl in (0, rw (b, u.0) (omega arith), rw e refl)
]

nil_only : (logs : List LogDetail) → IsTrace [] logs → logs ≡ []
nil_only [] t = refl
nil_only (x ∷ xs) t = elim t [ ]

-- A trace of the last step is its success.
completed_log :
    (n : ℕ) (logs : List LogDetail)
    → IsTrace (completed ∷ []) logs
    → (start_from n (last_step logs) ≡ 13) × (rest_after (completed ∷ []) logs ≡ [])
unfolding last_step
completed_log n [] t = elim t [ ]
completed_log n (y ∷ ys) t = elim (status_cases y.status) [
  | inl e ↦
      let (q, u) = rw e at t in
      let b : is_success y.status ≡ true = rw e refl in (rw (b, nil_only ys u, q) refl, rw e refl)
  | inr (m, e) ↦ let (q, u) = rw e at t in cc
]

-- The end of the plan without KYB: between two of its steps the enumeration has one of KYB, but
-- the step after it does not fail.
Resumes-short : Resumes 9 (configure_kyc_verifier_page ∷ completed ∷ [])
unfolding Resumes last_step
Resumes-short [] p = (0, refl, refl)
Resumes-short (x ∷ xs) p = elim (status_cases x.status) [
  | inl e ↦
      let (q, u) =
        rw e at (IsProgress-cons (configure_kyc_verifier_page ∷ completed ∷ []) x xs p) in
      let (last_index, none_left) = completed_log (suc (index x.step)) xs u in
      (4, last_step-success 9 x xs e ∙ last_index, rw e (sym none_left))
  | inr (m, e) ↦
      let (q, u) =
        rw e at (IsProgress-cons (configure_kyc_verifier_page ∷ completed ∷ []) x xs p) in
      let b : is_success x.status ≡ false = rw e refl in (0, rw (b, u.0) (omega arith), rw e refl)
]

abbrev pub plan_of : Bool → List OnboardingStep
plan_of true = all_steps
plan_of false = keep (λ s. not (is_kyb_step s)) all_steps

plan_of-Resumes : (b : Bool) → Resumes 0 (plan_of b)
plan_of-Resumes true = search (Resumes-cons, Resumes-nil) depth 40
plan_of-Resumes false = search (Resumes-cons, Resumes-short) depth 40

pub plan_of-IsRising : (b : Bool) → IsRising (plan_of b)
plan_of-IsRising true = omega arith
plan_of-IsRising false = omega arith

pub filtered_steps_lem : (s : List String) → filtered_steps s ≡ plan_of (includes s kyb)
unfolding filtered_steps
filtered_steps_lem s = elim (Bool-cases (includes s kyb)) [ inl e ↦ rw e refl | inr e ↦ rw e refl ]

start_index_lem : (o : Option OnboardingStep) → start_index o ≡ start_from 0 o
unfolding start_index
start_index_lem none = refl
start_index_lem (some s) = refl

remaining_steps_lem :
    (stored : CustomerOnboarding)
    → remaining_steps stored
      ≡ slice (start_from 0 (last_step stored.logs)) (filtered_steps stored.interested_service)
unfolding remaining_steps
remaining_steps_lem stored =
    ap (λ n. slice n (filtered_steps stored.interested_service))
      (start_index_lem (last_step stored.logs))

slice-Resumes :
    (steps : List OnboardingStep) (logs : List LogDetail)
    → Resumes 0 steps
    → IsProgress steps logs
    → slice (start_from 0 (last_step logs)) steps ≡ rest_after steps logs
unfolding Resumes
slice-Resumes steps logs r p =
    let (k, a, b) = r logs p in
    let e : start_from 0 (last_step logs) ≡ k = omega (arith, a) in ap (λ n. slice n steps) e ∙ b

-- After a log that is empty or a trace of the customer's plan, a run takes exactly the steps that
-- have not succeeded, from the one that failed on.
pub remaining_steps-rest_after :
    (stored : CustomerOnboarding)
    → IsProgress (filtered_steps stored.interested_service) stored.logs
    → remaining_steps stored ≡ rest_after (filtered_steps stored.interested_service) stored.logs
remaining_steps-rest_after stored p =
    remaining_steps_lem stored
    ∙ slice-Resumes (filtered_steps stored.interested_service) stored.logs
        (subst (Resumes 0) (sym (filtered_steps_lem stored.interested_service))
          (plan_of-Resumes (includes stored.interested_service kyb)))
        p

pub filtered_steps-IsRising : (s : List String) → IsRising (filtered_steps s)
filtered_steps-IsRising s =
    subst IsRising (sym (filtered_steps_lem s)) (plan_of-IsRising (includes s kyb))
