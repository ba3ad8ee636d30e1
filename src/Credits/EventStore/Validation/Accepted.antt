-- ===== src/Credits/EventStore/Validation/Accepted.antt =====
-- What is known of an event that was accepted.
use entity_developer_dashboa.Prelude.{
  ℕ, ◌≤◌, ◌<◌, String, Bool, true, false, not, ◌||◌, Option, none, some, ◌≡◌, ◌↔◌, ◌⊎◌, inl, inr,
  arith, ap, sym, ◌∙◌, refl,
}
use mathlib.Core.Path.{subst}
use mathlib.Core.Bool.{true≢false}
use entity_developer_dashboa.Calendar.{new_date}
use entity_developer_dashboa.Exec.{ok, then_ok, fail_if_ok, from_ok, fail_if, error, ◌>>=?◌}
use entity_developer_dashboa.Json.{
  Value, text, number, nat, neg, is_safe_integer, is_positive, as_nat, max_safe_integer,
}
use entity_developer_dashboa.Credits.Event.{Event, Envelope, committed, same_type}
use entity_developer_dashboa.Credits.EventStore.Validation.{
  validate_committed, validate_if_committed, validate_present, lacks_header, lacks_amount,
  validate_lifecycle_envelope, grant_expiry, credit_type_of, validate_event_type,
  validate_commit_analytics_fields, validate_credit_type,
}

-- A positive safe integer.
pub record IsAmount (v : Value) : Type 0 where
  pub value : ℕ
  pub is : v ≡ number (nat value)
  pub positive : 0 < value
  pub safe : value ≤ max_safe_integer

safe-IsAmount : (v : Value) → is_safe_integer v ≡ true → is_positive v ≡ true → IsAmount v
unfolding is_safe_integer is_positive
safe-IsAmount (number (nat n)) s p = record {
  value = n;
  is = mathlib.Core.Path.refl;
  positive = ground arith;
  safe = ground arith;
}
safe-IsAmount (number (neg n)) s p = cc
safe-IsAmount _ s p = cc

-- The Date of a time is valid up to 8.64e15 milliseconds, and an Invalid Date behind it.
abbrev pub IsDateOf : ℕ → Option ℕ → Type 0
IsDateOf t d = ((t ≤ 8640000000000000) × (d ≡ some t)) ⊎ ((8640000000000000 < t) × (d ≡ none))

new_date-IsDateOf : (t : ℕ) → IsDateOf t (new_date t)
unfolding new_date
new_date-IsDateOf t = ground arith

new_date_unique : (t : ℕ) (d : Option ℕ) → IsDateOf t d → new_date t ≡ d
unfolding new_date
new_date_unique t d (inl (small, e)) = ground arith
new_date_unique t d (inr (large, e)) = ground arith

safe_number :
    (n : ℕ)
    → 0 < n
    → n ≤ max_safe_integer
    → (not (is_safe_integer (number (nat n))) || not (is_positive (number (nat n)))) ≡ false
unfolding is_safe_integer is_positive
safe_number n p s = ground arith

-- The expiry of a grant event is accepted exactly if it is a positive safe integer, and the result
-- is the Date of that time: a valid one up to 8.64e15, and an Invalid Date behind that.
pub grant_expiry_lem :
    (e : Event) (d : Option ℕ)
    → grant_expiry e ≡ ok d ↔ ((a : IsAmount e.expires_at) × IsDateOf a.value d)
unfolding grant_expiry
grant_expiry_lem e d = (λ h. sound h, λ g. complete g.0 g.1)
  where
    sound : grant_expiry e ≡ ok d → (a : IsAmount e.expires_at) × IsDateOf a.value d
    sound h =
        let bad = not (is_safe_integer e.expires_at) || not (is_positive e.expires_at) in
        let (u, tested, made) =
          then_ok (fail_if bad (error "Credit granted lifecycle event has an invalid expiry"))
            (λ _. ok (new_date (as_nat e.expires_at))) h in
        let good : bad ≡ false = fail_if_ok bad _ tested in
        let a = safe-IsAmount e.expires_at (ground arith) (ground arith) in
        (
          a,
          subst (IsDateOf a.value)
              (ap (λ v. new_date (as_nat v)) (sym a.is) ∙ ap (from_ok none) made)
              (new_date-IsDateOf a.value),
        )

    complete : (a : IsAmount e.expires_at) → IsDateOf a.value d → grant_expiry e ≡ ok d
    complete a i =
        rw (a.is, safe_number a.value a.positive a.safe, new_date_unique a.value d i) refl

if_committed_ok :
    (is_commit : Bool) (service_type : String) (a e : Event)
    → validate_if_committed is_commit service_type a ≡ ok e
    → (a ≡ e) × (is_commit ≡ true → validate_committed service_type a ≡ ok tt)
unfolding validate_if_committed
if_committed_ok true service_type a e h =
    let (u, valid, k) = then_ok (validate_committed service_type a) (λ _. ok a) h in
    (ap (from_ok a) k, λ _. valid)
if_committed_ok false service_type a e h = (ap (from_ok a) h, λ k. absurd (true≢false (sym k)))

-- An accepted envelope has passed the tests of a commit, if it is one.
accepted_commit :
    (envelope : Envelope) (o : Option Event) (e : Event)
    → validate_present envelope o ≡ ok e
    → same_type e.type committed ≡ true
    → validate_committed envelope.service_type e ≡ ok tt
unfolding validate_present
accepted_commit envelope none e h k = cc
accepted_commit envelope (some a) e h k =
    let (u, passed, rest) =
      then_ok (fail_if (lacks_header envelope a) (error "Invalid credit lifecycle event envelope"))
        (λ _. validate_if_committed (same_type a.type committed) envelope.service_type a) h in
    let (same, valid) = if_committed_ok _ envelope.service_type a e rest in
    subst
      (λ x. same_type x.type committed ≡ true → validate_committed envelope.service_type x ≡ ok tt)
      same valid k

validate_committed-IsAmount :
    (service_type : String) (e : Event)
    → validate_committed service_type e ≡ ok tt
    → IsAmount e.amount
unfolding validate_committed
validate_committed-IsAmount service_type e h =
    let failure = error "Invalid committed credit lifecycle event" in
    let (u, tests, rest) =
      then_ok (fail_if (lacks_amount e) failure)
        (λ _. validate_commit_analytics_fields e >>=? λ _. validate_credit_type service_type e) h in
    let passed = fail_if_ok (lacks_amount e) failure tests in
    safe-IsAmount e.amount (ground arith) (ground arith)

-- A commit whose envelope and type were accepted is for a positive safe integer.
pub committed_amount :
    (envelope : Envelope) (e : Event) (u : Unit {0})
    → validate_lifecycle_envelope envelope ≡ ok e
    → validate_event_type e committed ≡ ok u
    → IsAmount e.amount
unfolding validate_lifecycle_envelope validate_event_type
committed_amount envelope e u h k =
    let other =
      fail_if_ok (not (same_type e.type committed))
        (error "Credit lifecycle job name and event type do not match") k in
    validate_committed-IsAmount envelope.service_type e
      (accepted_commit envelope envelope.event e h (ground arith))

-- The credit type of an event, where it has one, is a text.
pub credit_type_of_lem : (e : Event) (t : String) → credit_type_of e ≡ ok t → e.credit_type ≡ text t
unfolding credit_type_of
credit_type_of_lem e t h = ground arith
