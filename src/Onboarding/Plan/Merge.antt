-- ===== src/Onboarding/Plan/Merge.antt =====
-- What mergeLogs makes of a log and the log of the run that went on from it.
use entity_developer_dashboa.Prelude.{
  String, ℕ, ◌≤◌, ◌<◌, true, false, List, [], ◌∷◌, ◌++◌, ◌≡◌, refl, sym, ap, ◌∙◌, inl, inr, All,
  arith, leb,
}
use mathlib.Core.Path.{subst}
use entity_developer_dashboa.Onboarding.Schema.{
  OnboardingStep, index, same_step, LogDetail, success, failed,
}
use entity_developer_dashboa.Onboarding.Plan.{set, set_all, insert, sort, merge_logs}
use entity_developer_dashboa.Onboarding.Plan.Trace.{
  IsTrace, IsProgress, IsTimed, IsRising, rest_after, successes, status_cases, AllSteps-IsTrace,
  All-rest_after, IsRising-rest_after,
}

other_step : (s t : OnboardingStep) → index s < index t → same_step s t ≡ false
other_step s t h = ground arith

set_all-skip :
    (x : LogDetail) (new logs : List LogDetail)
    → All (λ y. index x.step < index y.step) new
    → set_all new (x ∷ logs) ≡ x ∷ set_all new logs
set_all-skip x [] logs h = refl
set_all-skip x (y ∷ ys) logs h =
    rw (other_step x.step y.step h.0) (set_all-skip x ys (set y logs) h.1)

set_all-nil :
    (steps : List OnboardingStep) (logs : List LogDetail)
    → IsRising steps
    → IsTrace steps logs
    → set_all logs [] ≡ logs
set_all-nil [] [] h t = refl
set_all-nil [] (x ∷ xs) h t = elim t [ ]
set_all-nil (s ∷ ss) [] h t = refl
set_all-nil (s ∷ ss) (x ∷ xs) h t = elim (status_cases x.status) [
  | inl e ↦
      let (p, u) = rw e at t in
      let above = AllSteps-IsTrace (λ r. index x.step < index r) ss xs u (rw p h.0) in
      set_all-skip x xs [] above ∙ ap (λ r. x ∷ r) (set_all-nil ss xs h.1 u)
  | inr (m, e) ↦ let (p, u) = rw e at t in rw u.0 refl
]

same : (s : OnboardingStep) → same_step s s ≡ true
same s = ground arith

-- A step that failed is tried again first, and the new entry takes the place of the old one.
set_all-failed :
    (s : OnboardingStep) (ss : List OnboardingStep) (x : LogDetail) (new : List LogDetail)
    → x.step ≡ s
    → IsRising (s ∷ ss)
    → IsTrace (s ∷ ss) new
    → set_all new (x ∷ []) ≡ new
set_all-failed s ss x [] e h t = elim t [ ]
set_all-failed s ss x (y ∷ ys) e h t =
    let again : same_step x.step y.step ≡ true = rw (e, t.0) (same s) in
    rw again (set_all-nil (s ∷ ss) (y ∷ ys) h t)

pub IsProgress-cons :
    (steps : List OnboardingStep) (x : LogDetail) (xs : List LogDetail)
    → IsProgress steps (x ∷ xs)
    → IsTrace steps (x ∷ xs)
IsProgress-cons steps x xs (inl e) = cc
IsProgress-cons steps x xs (inr t) = t

pub successes-success :
    (x : LogDetail) (xs : List LogDetail)
    → x.status ≡ success
    → successes (x ∷ xs) ≡ x ∷ successes xs
successes-success x xs e = rw e refl

pub successes-failed : (x : LogDetail) (m : String) → x.status ≡ failed m → successes (x ∷ []) ≡ []
successes-failed x m e = rw e refl

set_all-IsProgress :
    (steps : List OnboardingStep) (old new : List LogDetail)
    → IsRising steps
    → IsProgress steps old
    → IsTrace (rest_after steps old) new
    → set_all new old ≡ successes old ++ new
set_all-IsProgress steps [] new h p t =
    set_all-nil (rest_after steps []) new (IsRising-rest_after steps [] h) t
set_all-IsProgress [] (x ∷ xs) new h p t = elim (IsProgress-cons [] x xs p) [ ]
set_all-IsProgress (s ∷ ss) (x ∷ xs) new h p t = elim (status_cases x.status) [
  | inl e ↦
      let (q, u) = rw e at (IsProgress-cons (s ∷ ss) x xs p) in
      let t' = rw e at t in
      let above =
        AllSteps-IsTrace (λ r. index x.step < index r) (rest_after ss xs) new t'
          (All-rest_after (λ r. index x.step < index r) ss xs (rw q h.0)) in
      set_all-skip x new xs above
      ∙ ap (λ r. x ∷ r) (set_all-IsProgress ss xs new h.1 (inr u) t')
      ∙ ap (λ r. r ++ new) (sym (successes-success x xs e))
  | inr (m, e) ↦
      let (q, u) = rw e at (IsProgress-cons (s ∷ ss) x xs p) in
      rw u.0 (
        set_all-failed s ss x new q h (rw e at t)
        ∙ ap (λ r. r ++ new) (sym (successes-failed x m e)))
]

pub IsTrace-append :
    (steps : List OnboardingStep) (old new : List LogDetail)
    → IsProgress steps old
    → IsTrace (rest_after steps old) new
    → IsTrace steps (successes old ++ new)
IsTrace-append [] [] new p t = t
IsTrace-append (s ∷ ss) [] new p t = t
IsTrace-append [] (x ∷ xs) new p t = elim (IsProgress-cons [] x xs p) [ ]
IsTrace-append (s ∷ ss) (x ∷ xs) new p t = elim (status_cases x.status) [
  | inl e ↦
      let (q, u) = rw e at (IsProgress-cons (s ∷ ss) x xs p) in
      subst (λ r. IsTrace (s ∷ ss) (r ++ new)) (sym (successes-success x xs e))
        (q, rw e (IsTrace-append ss xs new (inr u) (rw e at t)))
  | inr (m, e) ↦ let (q, u) = rw e at (IsProgress-cons (s ∷ ss) x xs p) in rw (e, u.0) (rw e at t)
]

pub IsTimed-lower :
    (a b : ℕ) (logs : List LogDetail) (c : ℕ) → a ≤ b → IsTimed b logs c → IsTimed a logs c
IsTimed-lower a b [] c h t = omega (arith, h, t)
IsTimed-lower a b (x ∷ xs) c h t = (omega (arith, h, t.0), t.1)

pub IsTimed-raise :
    (a : ℕ) (logs : List LogDetail) (b c : ℕ) → b ≤ c → IsTimed a logs b → IsTimed a logs c
IsTimed-raise a [] b c h t = omega (arith, h, t)
IsTimed-raise a (x ∷ xs) b c h t = (t.0, IsTimed-raise x.time xs b c h t.1)

pub IsTimed-append :
    (a b c : ℕ) (old new : List LogDetail)
    → IsTimed a old b
    → IsTimed b new c
    → IsTimed a (successes old ++ new) c
IsTimed-append a b c [] new s t = IsTimed-lower a b new c s t
IsTimed-append a b c (x ∷ xs) new s t =
    let rest = IsTimed-append x.time b c xs new s.1 t in
    elim (status_cases x.status) [
      | inl e ↦ rw e (s.0, rest)
      | inr (m, e) ↦ rw e (IsTimed-lower a x.time (successes xs ++ new) c s.0 rest)
    ]

insert-least :
    (low high : ℕ) (x : LogDetail) (xs : List LogDetail)
    → IsTimed x.time xs high
    → insert x xs ≡ x ∷ xs
insert-least low high x [] t = refl
insert-least low high x (y ∷ ys) t =
    let e : leb x.time y.time ≡ true = ground (arith, t.0) in rw e refl

sort-IsTimed : (low high : ℕ) (logs : List LogDetail) → IsTimed low logs high → sort logs ≡ logs
sort-IsTimed low high [] t = refl
sort-IsTimed low high (x ∷ xs) t =
    rw (sort-IsTimed x.time high xs t.1) (insert-least low high x xs t.1)

-- If the old log is empty or a trace of the plan, the new one a trace of what the old one leaves,
-- the times of each do not fall and no time of the new one is before the old ones, and the index of
-- the steps rises along the plan, the merge is the old successes and then the new log.
pub merge_logs-append :
    (steps : List OnboardingStep) (old new : List LogDetail) (low middle high : ℕ)
    → IsRising steps
    → IsProgress steps old
    → IsTrace (rest_after steps old) new
    → IsTimed low old middle
    → IsTimed middle new high
    → merge_logs old new ≡ successes old ++ new
unfolding merge_logs
merge_logs-append steps old new low middle high h p t a b =
    rw (own p, set_all-IsProgress steps old new h p t)
      (sort-IsTimed low high (successes old ++ new) (IsTimed-append low middle high old new a b))
  where
    own : IsProgress steps old → set_all old [] ≡ old
    own (inl e) = rw e refl
    own (inr u) = set_all-nil steps old h u
