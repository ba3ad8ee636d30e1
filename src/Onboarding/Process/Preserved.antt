-- ===== src/Onboarding/Process/Preserved.antt =====
-- Each part of a run over a sound state.
use entity_developer_dashboa.Prelude.{
  ℕ, suc, ◌≤◌, String, Bool, true, false, Option, none, some, List, [], ◌∷◌, ◌≡◌, refl, sym, ◌∙◌,
  inl, inr, All, All-middle, All-replace, arith, ◌===◌, eq_iff, Bool-cases,
}
use mathlib.Core.Path.{subst}
use entity_developer_dashboa.Exec.{Exec, Result}
use entity_developer_dashboa.Exec.Keeps.{
  Keeps, keeps_rules, Keeps-bind, Keeps-lift, Keeps-catch, Keeps-throw, Keeps-skip,
}
use entity_developer_dashboa.Exec.Triple.{
  Triple, Post, Triple-bind, Triple-throw_if, Triple-or_throw, Triple-Keeps, Keeps-Triple,
  Triple-weaken, Triple-assume,
}
use entity_developer_dashboa.World.{Fate, done, refused, lost}
use entity_developer_dashboa.Onboarding.Schema.{CustomerOnboarding, LogDetail, User, ProcessDto}
use entity_developer_dashboa.Onboarding.Desk.{
  Desk, Office, find_onboarding, update_onboarding, reach, settle, find_user, with_onboardings,
}
use entity_developer_dashboa.Onboarding.Desk.Calm.{Calm, Calm-find_user, Calm-add_a_job}
use entity_developer_dashboa.Onboarding.Locals.{Locals, Case}
use entity_developer_dashboa.Onboarding.Plan.{remaining_steps}
use entity_developer_dashboa.Onboarding.Plan.Trace.{IsTimed}
use entity_developer_dashboa.Onboarding.Process.{
  Outcome, finish, is_empty, run_steps, notify, process_customer_onboarding,
}
use entity_developer_dashboa.Onboarding.Process.Run.{IsClock, Ran, run_steps_lem}
use entity_developer_dashboa.Onboarding.Process.Sound.{
  IsSound, IsRun, IsSound-raise, finish-IsSound,
}

-- A predicate of the onboardings and the readings is kept by what leaves both as they are.
pub Keeps-Calm :
    {S A : Type 0} {m : Exec (Desk S) A} (P : List CustomerOnboarding → ℕ → Type 0)
    → ((docs : List CustomerOnboarding) (readings : ℕ) → Keeps (Calm docs readings) m)
    → Keeps (λ d. P d.onboardings d.readings) m
Keeps-Calm {S} {A} {m} P k = record {
  at = λ d h.
      let c =
        (k d.onboardings d.readings).at d (record { same_docs = refl; same_readings = refl }) in
      rw (c.same_docs, c.same_readings) h;
}

IsTimed-le : (low : ℕ) (logs : List LogDetail) (high : ℕ) → IsTimed low logs high → low ≤ high
IsTimed-le low [] high t = t
IsTimed-le low (x ∷ xs) high t = omega (arith, t.0, IsTimed-le x.time xs high t.1)

-- Every record of the collection is sound.
abbrev pub SoundDocs : (String → List String) → (ℕ → ℕ) → List CustomerOnboarding → ℕ → Type 0
SoundDocs services clock docs readings = All (λ doc. IsSound services (clock readings) doc) docs

abbrev pub IsSoundDesk : {S : Type 0} → Office S → (String → List String) → Desk S → Type 0
IsSoundDesk of services d = SoundDocs services of.clock d.onboardings d.readings

SoundDocs-raise :
    (services : String → List String) (low high : ℕ) (docs : List CustomerOnboarding)
    → low ≤ high
    → All (λ doc. IsSound services low doc) docs
    → All (λ doc. IsSound services high doc) docs
SoundDocs-raise services low high [] le h = tt
SoundDocs-raise services low high (doc ∷ docs) le h =
    (IsSound-raise le h.0, SoundDocs-raise services low high docs le h.1)

module _ {S : Type 0} (of : Office S) (services : String → List String) where
  -- The record that a run has found, beside a sound state.
  abbrev Found : String → Option CustomerOnboarding → Desk S → Type 0
  Found id none d = IsSoundDesk of services d
  Found id (some stored) d =
      IsSoundDesk of services d × (stored.id ≡ id) × IsSound services (of.clock d.readings) stored

  find-Found :
      (id : String)
      → Triple
          (IsSoundDesk of services)
          (find_onboarding of (λ doc. doc.id === id))
          (Found id)
          (IsSoundDesk of services)
  unfolding find_onboarding reach
  find-Found id = record { at = λ d h. go d h (of.fate d.calls) }
    where
      found : Desk S → Option CustomerOnboarding × Desk S
      found d = (
        of.onboarding_store.find_one (λ doc. doc.id === id) d.onboardings,
        record d { calls = suc d.calls },
      )

      member :
          (d : Desk S)
          → IsSoundDesk of services d
          → Found id
              (of.onboarding_store.find_one (λ doc. doc.id === id) d.onboardings)
              (record d { calls = suc d.calls })
      member d h = elim (of.onboarding_store.find_one_lem (λ doc. doc.id === id) d.onboardings) [
        | inl (misses, e) ↦ rw e h
        | inr (hit, e) ↦ rw e (
          h,
          (eq_iff hit.doc.id id).0 hit.fits,
          All-middle (λ doc. IsSound services (of.clock d.readings) doc) hit.before hit.after
              hit.doc
              (subst (All (λ doc. IsSound services (of.clock d.readings) doc)) hit.splits h),
        )
      ]

      go :
          (d : Desk S)
          → IsSoundDesk of services d
          → (t : Fate)
          → Post
              (Found id)
              (IsSoundDesk of services)
              (settle t (found d) (record d { calls = suc d.calls }))
      go d h done = member d h
      go d h (refused e) = h
      go d h (lost e) = h

  -- A run is over, beside a sound state.
  abbrev Over : CustomerOnboarding → Outcome → Desk S → Type 0
  Over stored o d = IsSoundDesk of services d × IsRun services stored (of.clock d.readings) o

  run_steps-Over :
      (mono : IsClock of.clock)
      → (c : Case) (l : Locals) (stored : CustomerOnboarding) (id : String)
      → is_empty (remaining_steps stored) ≡ false
      → Triple
          (Found id (some stored))
          (run_steps of (remaining_steps stored) c l)
          (Over stored)
          (IsSoundDesk of services)
  run_steps-Over mono c l stored id n = record {
    at = λ d h.
        go d h (run_steps of (remaining_steps stored) c l d)
          (run_steps_lem of mono (remaining_steps stored) c l d);
  }
    where
      raised :
          (d : Desk S) (out : Result Outcome × Desk S)
          → IsSoundDesk of services d
          → (r : Ran of (remaining_steps stored) d out) → IsSoundDesk of services r.after
      raised d out h r =
          SoundDocs-raise services (of.clock d.readings) (of.clock r.after.readings)
            r.after.onboardings
            (IsTimed-le (of.clock d.readings) r.outcome.logs (of.clock r.after.readings) r.timed)
            (subst (All (λ doc. IsSound services (of.clock d.readings) doc)) (sym r.same_docs) h)

      go :
          (d : Desk S)
          → Found id (some stored) d
          → (out : Result Outcome × Desk S) → Ran of (remaining_steps stored) d out
          → Post (Over stored) (IsSoundDesk of services) out
      go d h out r = subst (Post (Over stored) (IsSoundDesk of services)) (sym r.returned) (
        raised d out h.0 r,
        record {
          low = of.clock d.readings;
          before = h.2;
          some_steps = n;
          trace = r.trace;
          timed = r.timed;
          status = r.status;
        },
      )

  update-IsSoundDesk :
      (id : String) (stored : CustomerOnboarding) (o : Outcome)
      → stored.id ≡ id
      → Triple
          (Over stored o)
          (update_onboarding of (λ doc. doc.id === id) (finish stored o))
          (λ u d. IsSoundDesk of services d)
          (IsSoundDesk of services)
  unfolding update_onboarding reach
  update-IsSoundDesk id stored o same = record { at = λ d h. go d h (of.fate d.calls) }
    where
      written : Desk S → Option CustomerOnboarding × List CustomerOnboarding
      written d =
          of.onboarding_store.find_one_and_update (λ doc. doc.id === id) (finish stored o)
            d.onboardings

      sound : Desk S → CustomerOnboarding → Type 0
      sound d doc = IsSound services (of.clock d.readings) doc

      updated : (d : Desk S) → Over stored o d → All (sound d) (written d).1
      updated d h =
          elim (of.onboarding_store.update_lem (λ doc. doc.id === id) (finish stored o)
            d.onboardings) [
              | inl (misses, e) ↦ rw e h.0
              | inr (hit, e) ↦ rw e (
                  All-replace (sound d) hit.before hit.after hit.doc (finish stored o hit.doc)
                    (λ s. finish-IsSound h.1 s ((eq_iff hit.doc.id id).0 hit.fits ∙ sym same))
                    (subst (All (sound d)) hit.splits h.0))
            ]

      go :
          (d : Desk S)
          → Over stored o d
          → (t : Fate)
          → Post
              (λ u v. IsSoundDesk of services v)
              (IsSoundDesk of services)
              (settle t
                (with_onboardings of (record d { calls = suc d.calls }) (written d))
                (record d { calls = suc d.calls }))
      go d h done = updated d h
      go d h (refused e) = h.0
      go d h (lost e) = updated d h

  Keeps-find_user : (f : User → Bool) → Keeps (IsSoundDesk of services) (find_user of f)
  Keeps-find_user f = Keeps-Calm (SoundDocs services of.clock) (λ docs r. Calm-find_user of f)

  Keeps-notify :
      (b : Bool) (stored : CustomerOnboarding)
      → Keeps (IsSoundDesk of services) (notify of b stored)
  unfolding notify
  Keeps-notify false stored = Keeps-skip
  Keeps-notify true stored =
      Keeps-Calm (SoundDocs services of.clock)
        (λ docs r. search (keeps_rules, Calm-find_user, Calm-add_a_job))

  Found-find_user :
      (id : String) (stored : CustomerOnboarding) (f : User → Bool)
      → Triple
          (Found id (some stored))
          (find_user of f)
          (λ u d. Found id (some stored) d)
          (IsSoundDesk of services)
  Found-find_user id stored f =
      Triple-Keeps
        (Keeps-Calm
          (λ docs r.
            SoundDocs services of.clock docs r
            × (stored.id ≡ id)
            × IsSound services (of.clock r) stored)
          (λ docs r. Calm-find_user of f))
        (λ u d h. h) (λ d h. h.0)

  -- A run keeps every record sound, whatever the services do and wherever it fails.
  pub process_customer_onboarding-IsSoundDesk :
      IsClock of.clock
      → (id : String) (dto : ProcessDto) (super_admin_user_id : String)
      → Keeps (IsSoundDesk of services) (process_customer_onboarding of id dto super_admin_user_id)
  unfolding process_customer_onboarding
  process_customer_onboarding-IsSoundDesk mono id dto admin =
      elim (Bool-cases (of.is_object_id id)) [
        | inl e ↦ rw e (
            Keeps-catch
              (Keeps-Triple (
                Triple-bind (find-Found id) λ found.
                  Triple-bind (Triple-or_throw _ (Found id) found (λ d h. h)) λ stored.
                    Triple-bind (Triple-throw_if _ _ (λ d h. h.0)) λ u.
                      Triple-assume (λ d h. h.1)
                        λ n.
                          Triple-assume (λ d h. h.0.1)
                            λ same.
                              Triple-bind (Triple-weaken (λ d h. h.0) (Found-find_user id stored _))
                                λ user. Triple-bind (run_steps-Over mono _ _ stored id n) λ o.
                                  Triple-bind (update-IsSoundDesk id stored o same) λ updated.
                                    Triple-Keeps
                                      (Keeps-bind (Keeps-lift _) λ v. Keeps-notify _ stored)
                                      (λ v d h. h) (λ d h. h)))
              (λ x. Keeps-throw _))
        | inr e ↦ rw e (Keeps-throw _)
      ]
