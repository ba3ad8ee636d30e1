-- ===== src/People/Tests.antt =====
-- A team with one member, who switches to the account of the admin, and an invitation.
use entity_developer_dashboa.Prelude.{true, false, none, some, [], ◌∷◌, ◌≡◌, refl, ◌+◌}
use native.Mathlib.Omega.{arith}
use entity_developer_dashboa.Exec.{◌>>=◌}
use entity_developer_dashboa.Exec.Triple.{Post}
use entity_developer_dashboa.Collection.InMemory.{in_memory}
use entity_developer_dashboa.World.{done}
use entity_developer_dashboa.People.{
  Member, TeamRole, SessionDetail, Team, Stores, access, find_member, find_team_user,
  find_team_role,
}
use entity_developer_dashboa.People.Invitation.{Invitee, accept_invite}
use entity_developer_dashboa.People.Invitation.Accepting.{Accepted, accept_invite-Accepted}
use entity_developer_dashboa.People.Session.{
  switch_tenant_account, update_session, leave_index, enter_index,
}
use entity_developer_dashboa.People.Session.Switching.{Switched, switch_tenant_account-Switched}

abbrev stores : Stores
stores = record {
  clock = λ n. 100 + n;
  fate = λ n. done;
  new_code = λ n. "code";
  member_store = in_memory;
  user_store = in_memory;
  role_store = in_memory;
}

abbrev member : Member
member = record {
  admin_id = "boss";
  user_id = "user";
  invite_code = "code";
  accepted = true;
  invitation_valid_till = 500;
  role_id = "role";
  role_name = "Admin";
  invitee_email = "u@acme";
}

abbrev reader : TeamRole
reader = record {
  id = "role";
  user_id = "boss";
  role_name = "Reader";
  permissions = record { service_type = "SSI_API"; access = "READ_DID" } ∷ [];
}

abbrev session : SessionDetail
session = record {
  session_id = "s1";
  user_id = "user";
  tenant_id = none;
  tenant_user_permissions = none;
}

abbrev team : Team
team = record {
  members = member ∷ [];
  users = record { user_id = "boss"; email = "b@acme" } ∷ [];
  roles = reader ∷ [];
  sessions = session ∷ [];
  index = [];
  mails = 0;
  calls = 0;
  readings = 0;
}

-- The member gets the permissions of the role.
switched :
    (switch_tenant_account stores "user" session "boss" team).1.sessions
    ≡ record session { tenant_id = some "boss"; tenant_user_permissions = some reader.permissions }
      ∷ []
unfolding switch_tenant_account ◌>>=◌ access find_member find_team_user find_team_role
    update_session leave_index enter_index
switched = refl

switch_tenant_account-Switched_example :
    Post
      (λ u t. Switched team.members team.roles team.sessions "user" session "boss" t)
      (Switched team.members team.roles team.sessions "user" session "boss")
      (switch_tenant_account stores "user" session "boss" team)
switch_tenant_account-Switched_example =
    (switch_tenant_account-Switched stores "user" session "boss").at team
      (record { members_lem = refl; roles_lem = refl; sessions_lem = refl })

abbrev invited_team : Team
invited_team = record team { members = record member { accepted = false } ∷ [] }

abbrev invitee : Invitee
invitee = record { user_id = "user"; email = "u@acme" }

accept_invite-Accepted_example :
    Post
      (λ o t. Accepted stores invited_team.members 0 "code" invitee t)
      (Accepted stores invited_team.members 0 "code" invitee)
      (accept_invite stores "code" invitee invited_team)
accept_invite-Accepted_example =
    (accept_invite-Accepted stores "code" invitee).at invited_team (refl, omega arith)
