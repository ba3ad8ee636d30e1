-- ===== src/Onboarding/Desk/Calm.antt =====
-- What an action leaves of the onboardings and of the readings of the clock.
use entity_developer_dashboa.Prelude.{ℕ, suc, List, Option, none, some, Bool, ◌≡◌}
use entity_developer_dashboa.Exec.{Exec}
use entity_developer_dashboa.Exec.Keeps.{Keeps, Keeps-catch, Keeps-skip}
use entity_developer_dashboa.World.{Fate, done, refused, lost}
use entity_developer_dashboa.Onboarding.Schema.{CustomerOnboarding, User, Role}
use entity_developer_dashboa.Onboarding.Desk.{
  Desk, Office, Letter, outside, reach, settle, find_onboarding, find_user, find_users, update_user,
  find_role, create_role, add_a_job, or_duplicate,
}

-- The two are as before.
pub record Calm {S : Type 0} (docs : List CustomerOnboarding) (readings : ℕ) (d : Desk S)
    : Type 0 where
  pub same_docs : d.onboardings ≡ docs
  pub same_readings : d.readings ≡ readings

module _ {S : Type 0} {docs : List CustomerOnboarding} {readings : ℕ} where
  pub Calm-outside : {A : Type 0} (m : Exec S A) → Keeps (Calm docs readings) (outside m)
  unfolding outside
  Calm-outside m = record {
    at = λ d h. record { same_docs = h.same_docs; same_readings = h.same_readings };
  }

  Calm-reach :
      {A : Type 0} (of : Office S) (f : Desk S → A × Desk S)
      → ((d : Desk S) → Calm docs readings d → Calm docs readings (f d).1)
      → Keeps (Calm docs readings) (reach of f)
  unfolding reach
  Calm-reach {A} of f k = record { at = λ d h. go d h (of.fate d.calls) }
    where
      bumped :
          (d : Desk S)
          → Calm docs readings d
          → Calm docs readings (record d { calls = suc d.calls })
      bumped d h = record { same_docs = h.same_docs; same_readings = h.same_readings }

      go :
          (d : Desk S)
          → Calm docs readings d
          → (t : Fate)
          → Calm docs readings
              (settle t (f (record d { calls = suc d.calls })) (record d { calls = suc d.calls })).1
      go d h done = k (record d { calls = suc d.calls }) (bumped d h)
      go d h (refused e) = bumped d h
      go d h (lost e) = k (record d { calls = suc d.calls }) (bumped d h)

  module _ (of : Office S) where
    pub Calm-find_onboarding :
        (f : CustomerOnboarding → Bool) → Keeps (Calm docs readings) (find_onboarding of f)
    unfolding find_onboarding
    Calm-find_onboarding f = Calm-reach of _ λ d h. h

    pub Calm-find_user : (f : User → Bool) → Keeps (Calm docs readings) (find_user of f)
    unfolding find_user
    Calm-find_user f = Calm-reach of _ λ d h. h

    pub Calm-find_users : (f : User → Bool) → Keeps (Calm docs readings) (find_users of f)
    unfolding find_users
    Calm-find_users f = Calm-reach of _ λ d h. h

    pub Calm-update_user :
        (f : User → Bool) (u : User → User) → Keeps (Calm docs readings) (update_user of f u)
    unfolding update_user
    Calm-update_user f u =
        Calm-reach of _ λ d h. record { same_docs = h.same_docs; same_readings = h.same_readings }

    pub Calm-find_role : (f : Role → Bool) → Keeps (Calm docs readings) (find_role of f)
    unfolding find_role
    Calm-find_role f = Calm-reach of _ λ d h. h

    pub Calm-create_role :
        (f : Role → Bool) (role : Role) → Keeps (Calm docs readings) (create_role of f role)
    unfolding create_role
    Calm-create_role f role = record {
      at = λ d h.
          (Calm-reach of
              (λ v.
                or_duplicate of (λ roles. record v { roles = roles }) v
                  (of.role_store.insert f role v.roles))
              (λ v k. go v k (of.role_store.insert f role v.roles))).at
            d h;
    }
      where
        go :
            (v : Desk S)
            → Calm docs readings v
            → (o : Option (List Role))
            → Calm docs readings (or_duplicate of (λ roles. record v { roles = roles }) v o).1
        go v k none = k
        go v k (some roles) = record { same_docs = k.same_docs; same_readings = k.same_readings }

    pub Calm-add_a_job : (letter : Letter) → Keeps (Calm docs readings) (add_a_job of letter)
    unfolding add_a_job
    Calm-add_a_job letter = Keeps-catch (Calm-outside (of.add_mail letter)) λ e. Keeps-skip
