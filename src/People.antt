-- ===== src/People.antt =====
-- Team members (people/services/people.service.ts): the collections, the sessions in Redis and the
-- index of the sessions of each tenant. The time that Redis keeps a key is left out. An access to a
-- store has a fate, like the calls of the credit services.
mod Tests
pub mod Calls
pub mod Invitation
pub mod Session
use entity_developer_dashboa.Prelude.{
  ℕ, suc, String, Bool, true, false, List, [], ◌∷◌, Option, none, some,
}
use entity_developer_dashboa.Exec.{Exec, Failure, Result, ok, err}
use entity_developer_dashboa.Collection.{Collection}
use entity_developer_dashboa.World.{Fate, done, refused, lost}
use entity_developer_dashboa.Access.Policy.{UserAccess}

-- AdminPeople
pub record Member : Type 0 where
  pub admin_id : String
  pub user_id : String
  pub invite_code : String
  pub accepted : Bool
  pub invitation_valid_till : ℕ
  pub role_id : String
  pub role_name : String
  pub invitee_email : String

pub record TeamUser : Type 0 where
  pub user_id : String
  pub email : String

pub record TeamRole : Type 0 where
  pub id : String
  pub user_id : String
  pub role_name : String
  pub permissions : List UserAccess

-- A session, as far as the switch between accounts reads and writes it.
pub record SessionDetail : Type 0 where
  pub session_id : String
  pub user_id : String
  pub tenant_id : Option String
  pub tenant_user_permissions : Option (List UserAccess)

pub record Team : Type 0 where
  pub members : List Member
  pub users : List TeamUser
  pub roles : List TeamRole
  -- the values under session:<id>
  pub sessions : List SessionDetail
  -- the members of tenant_sessions:<tenant>, as pairs of a tenant and a session
  pub index : List (String × String)
  -- how many invitations were mailed, calls were made and times read
  pub mails : ℕ
  pub calls : ℕ
  pub readings : ℕ

pub record Stores : Type 0 where
  pub clock : ℕ → ℕ
  pub fate : ℕ → Fate
  -- the code of an invitation: a time and a random identifier
  pub new_code : ℕ → String
  pub member_store : Collection Member
  pub user_store : Collection TeamUser
  pub role_store : Collection TeamRole

module _ {A : Type 0} where
  abbrev pub settle : Fate → A × Team → Team → Result A × Team
  settle done (a, after) before = (ok a, after)
  settle (refused e) out before = (err (Failure.rejected e), before)
  settle (lost e) (a, after) before = (err (Failure.rejected e), after)

  -- await store.operation(...)
  unfoldable pub access : Stores → (Team → A × Team) → Exec Team A
  access st f t = let t' = record t { calls = suc t.calls } in settle (st.fate t.calls) (f t') t'

module _ (st : Stores) where
  unfoldable pub time_now : Exec Team ℕ
  time_now t = (ok (st.clock t.readings), record t { readings = suc t.readings })

  unfoldable pub find_member : (Member → Bool) → Exec Team (Option Member)
  find_member f = access st (λ t. (st.member_store.find_one f t.members, t))

  abbrev pub with_members : Team → Option Member × List Member → Option Member × Team
  with_members t (found, docs) = (found, record t { members = docs })

  unfoldable pub update_member : (Member → Bool) → (Member → Member) → Exec Team (Option Member)
  update_member f u =
      access st (λ t. with_members t (st.member_store.find_one_and_update f u t.members))

  unfoldable pub find_team_user : (TeamUser → Bool) → Exec Team (Option TeamUser)
  find_team_user f = access st (λ t. (st.user_store.find_one f t.users, t))

  unfoldable pub find_team_role : (TeamRole → Bool) → Exec Team (Option TeamRole)
  find_team_role f = access st (λ t. (st.role_store.find_one f t.roles, t))

  unfoldable pub find_team_roles : (TeamRole → Bool) → Exec Team (List TeamRole)
  find_team_roles f = access st (λ t. (st.role_store.find_many f t.roles, t))
