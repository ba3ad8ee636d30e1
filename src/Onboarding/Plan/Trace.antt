-- ===== src/Onboarding/Plan/Trace.antt =====
-- The log of a run as a trace of its steps: successes in their order, until the last step or the
-- first failure.
use entity_developer_dashboa.Prelude.{
  String, ℕ, ◌≤◌, ◌<◌, false, List, [], ◌∷◌, ◌≡◌, refl, ◌⊎◌, inl, inr, All,
}
use entity_developer_dashboa.Onboarding.Schema.{
  OnboardingStep, index, same_step, completed, LogDetail, StepStatus, success, failed,
}

abbrev pub by_status {ℓ} : {A : Type ℓ} → StepStatus → A → A → A
by_status success a b = a
by_status (failed reason) a b = b

pub status_cases : (r : StepStatus) → (r ≡ success) ⊎ ((m : String) × (r ≡ failed m))
status_cases success = inl refl
status_cases (failed reason) = inr (reason, refl)

-- The log tells of these steps in this order. The step `completed` does not fail.
abbrev pub IsTrace : List OnboardingStep → List LogDetail → Type 0
IsTrace [] [] = Unit
IsTrace [] (x ∷ xs) = ⊥
IsTrace (s ∷ ss) [] = ⊥
IsTrace (s ∷ ss) (x ∷ xs) =
    (x.step ≡ s) × by_status x.status (IsTrace ss xs) ((xs ≡ []) × (same_step s completed ≡ false))

-- A log that is empty or a trace.
abbrev pub IsProgress : List OnboardingStep → List LogDetail → Type 0
IsProgress steps logs = (logs ≡ []) ⊎ IsTrace steps logs

-- The steps that have not succeeded.
abbrev pub rest_after : List OnboardingStep → List LogDetail → List OnboardingStep
rest_after [] logs = []
rest_after (s ∷ ss) [] = s ∷ ss
rest_after (s ∷ ss) (x ∷ xs) = by_status x.status (rest_after ss xs) (s ∷ ss)

abbrev pub successes : List LogDetail → List LogDetail
successes [] = []
successes (x ∷ xs) = by_status x.status (x ∷ successes xs) (successes xs)

-- The times do not fall, between two bounds.
abbrev pub IsTimed : ℕ → List LogDetail → ℕ → Type 0
IsTimed low [] high = low ≤ high
IsTimed low (x ∷ xs) high = (low ≤ x.time) × IsTimed x.time xs high

abbrev pub IsRising : List OnboardingStep → Type 0
IsRising [] = Unit
IsRising (s ∷ ss) = All (λ t. index s < index t) ss × IsRising ss

module _ (P : OnboardingStep → Type 0) where
  abbrev pub AllSteps : List LogDetail → Type 0
  AllSteps logs = All (λ x. P x.step) logs

  pub AllSteps-IsTrace :
      (steps : List OnboardingStep) (logs : List LogDetail)
      → IsTrace steps logs
      → All P steps
      → AllSteps logs
  AllSteps-IsTrace [] [] t a = tt
  AllSteps-IsTrace [] (x ∷ xs) t a = elim t [ ]
  AllSteps-IsTrace (s ∷ ss) [] t a = tt
  AllSteps-IsTrace (s ∷ ss) (x ∷ xs) t a = elim (status_cases x.status) [
    | inl e ↦ let (p, u) = rw e at t in (rw p a.0, AllSteps-IsTrace ss xs u a.1)
    | inr (m, e) ↦ let (p, u) = rw e at t in (rw p a.0, rw u.0 tt)
  ]

  pub All-rest_after :
      (steps : List OnboardingStep) (logs : List LogDetail)
      → All P steps
      → All P (rest_after steps logs)
  All-rest_after [] logs a = tt
  All-rest_after (s ∷ ss) [] a = a
  All-rest_after (s ∷ ss) (x ∷ xs) a = elim (status_cases x.status) [
    | inl e ↦ rw e (All-rest_after ss xs a.1)
    | inr (m, e) ↦ rw e a
  ]

pub IsRising-rest_after :
    (steps : List OnboardingStep) (logs : List LogDetail)
    → IsRising steps
    → IsRising (rest_after steps logs)
IsRising-rest_after [] logs h = tt
IsRising-rest_after (s ∷ ss) [] h = h
IsRising-rest_after (s ∷ ss) (x ∷ xs) h = elim (status_cases x.status) [
  | inl e ↦ rw e (IsRising-rest_after ss xs h.1)
  | inr (m, e) ↦ rw e h
]
