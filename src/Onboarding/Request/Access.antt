-- ===== src/Onboarding/Request/Access.antt =====
-- Who may read the record of an onboarding.
use entity_developer_dashboa.Prelude.{
  String, true, false, ◌||◌, some, ◌≡◌, refl, inl, inr, ◌===◌, Bool-cases,
}
use entity_developer_dashboa.Exec.{ok, err, ◌>>=◌, forbidden}
use entity_developer_dashboa.World.{done}
use entity_developer_dashboa.Onboarding.Schema.{CustomerOnboarding}
use entity_developer_dashboa.Onboarding.Desk.{Desk, Office, find_onboarding, reach}
use entity_developer_dashboa.Onboarding.Request.{Caller, find_one, is_super_admin}

-- A record that is found is one of the id, and its reader is a super admin or its owner: every
-- other reader is refused.
pub find_one_lem :
    {S : Type 0} (of : Office S) (id : String) (caller : Caller) (d : Desk S)
    (stored : CustomerOnboarding)
    → of.fate d.calls ≡ done
    → of.onboarding_store.find_one (λ doc. doc.id === id) d.onboardings ≡ some stored
    → (find_one of id caller d).0
      ≡ (elim (is_super_admin caller.role || stored.user_id === caller.user_id) [
        | true ↦ ok stored
        | false ↦ err (forbidden "You are not authorized to access this resource")
      ])
unfolding find_one find_onboarding reach ◌>>=◌
find_one_lem of id caller d stored answers found =
    elim (Bool-cases (is_super_admin caller.role || stored.user_id === caller.user_id)) [
      | inl e ↦ rw (answers, found, e) refl
      | inr e ↦ rw (answers, found, e) refl
    ]
