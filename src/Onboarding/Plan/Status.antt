-- ===== src/Onboarding/Plan/Status.antt =====
-- The status that a trace gives, and what is left after two logs.
use entity_developer_dashboa.Prelude.{
  String, Bool, true, false, Option, none, some, List, [], ◌∷◌, ◌++◌, ◌≡◌, refl, sym, ap, ◌∙◌, inl,
  inr, if◌then◌else◌,
}
use mathlib.Core.Path.{subst}
use entity_developer_dashboa.Access.Policy.{includes}
use entity_developer_dashboa.Onboarding.Schema.{
  OnboardingStep, completed, LogDetail, OnboardingStatus, approved, failure, kyb,
}
use entity_developer_dashboa.Onboarding.Plan.{filtered_steps}
use entity_developer_dashboa.Onboarding.Process.{is_empty, status_after}
use entity_developer_dashboa.Onboarding.Plan.Trace.{
  IsTrace, IsProgress, rest_after, successes, status_cases, by_status,
}
use entity_developer_dashboa.Onboarding.Plan.Merge.{IsProgress-cons, successes-success}
use entity_developer_dashboa.Onboarding.Plan.Resume.{plan_of, filtered_steps_lem}

-- The last step is `completed`.
abbrev pub Ends : List OnboardingStep → Type 0
Ends [] = Unit
Ends (s ∷ []) = s ≡ completed
Ends (s ∷ t ∷ ss) = Ends (t ∷ ss)

pub filtered_steps-Ends : (s : List String) → Ends (filtered_steps s)
filtered_steps-Ends s = subst Ends (sym (filtered_steps_lem s)) (go (includes s kyb))
  where
    go : (b : Bool) → Ends (plan_of b)
    go true = refl
    go false = refl

Ends-tail : (s : OnboardingStep) (ss : List OnboardingStep) → Ends (s ∷ ss) → Ends ss
Ends-tail s [] h = tt
Ends-tail s (t ∷ ss) h = h

pub Ends-rest_after :
    (steps : List OnboardingStep) (logs : List LogDetail)
    → Ends steps
    → Ends (rest_after steps logs)
Ends-rest_after [] logs h = tt
Ends-rest_after (s ∷ ss) [] h = h
Ends-rest_after (s ∷ ss) (x ∷ xs) h = elim (status_cases x.status) [
  | inl e ↦ rw e (Ends-rest_after ss xs (Ends-tail s ss h))
  | inr (m, e) ↦ rw e h
]

-- The status that a run leaves which wrote this log.
abbrev pub logs_status : List LogDetail → Option OnboardingStatus
logs_status [] = none
logs_status (x ∷ xs) = by_status x.status (status_after x.step (logs_status xs)) (some failure)

abbrev pub status_of : List OnboardingStep → OnboardingStatus
status_of rest = if is_empty rest then approved else failure

pub logs_status-IsTrace :
    (steps : List OnboardingStep) (logs : List LogDetail)
    → Ends steps
    → is_empty steps ≡ false
    → IsTrace steps logs
    → logs_status logs ≡ some (status_of (rest_after steps logs))
logs_status-IsTrace [] logs h n t = cc
logs_status-IsTrace (s ∷ ss) [] h n t = elim t [ ]
logs_status-IsTrace (s ∷ []) (x ∷ []) h n t = elim (status_cases x.status) [
  | inl e ↦ let (q, u) = rw e at t in rw (e, q, h) refl
  | inr (m, e) ↦ rw e refl
]
logs_status-IsTrace (s ∷ []) (x ∷ y ∷ ys) h n t = elim (status_cases x.status) [
  | inl e ↦ let (q, u) = rw e at t in elim u [ ]
  | inr (m, e) ↦ rw e refl
]
logs_status-IsTrace (s ∷ r ∷ ss) (x ∷ xs) h n t = elim (status_cases x.status) [
  | inl e ↦
      let (q, u) = rw e at t in
      let later = logs_status-IsTrace (r ∷ ss) xs h refl u in rw (e, later) refl
  | inr (m, e) ↦ rw e refl
]

pub rest_after-append :
    (steps : List OnboardingStep) (old new : List LogDetail)
    → IsProgress steps old
    → rest_after steps (successes old ++ new) ≡ rest_after (rest_after steps old) new
rest_after-append [] [] new p = refl
rest_after-append (s ∷ ss) [] new p = refl
rest_after-append [] (x ∷ xs) new p = elim (IsProgress-cons [] x xs p) [ ]
rest_after-append (s ∷ ss) (x ∷ xs) new p = elim (status_cases x.status) [
  | inl e ↦
      let (q, u) = rw e at (IsProgress-cons (s ∷ ss) x xs p) in
      ap (λ r. rest_after (s ∷ ss) (r ++ new)) (successes-success x xs e)
      ∙ rw e (rest_after-append ss xs new (inr u))
  | inr (m, e) ↦ let (q, u) = rw e at (IsProgress-cons (s ∷ ss) x xs p) in rw (e, u.0) refl
]
