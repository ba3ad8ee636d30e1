-- ===== src/People/Session.antt =====
-- The switch between accounts, and the sessions that are in the account of a tenant.
pub mod Switching
use entity_developer_dashboa.Prelude.{
  String, Bool, true, false, not, ◌&&◌, List, [], ◌∷◌, ◌++◌, Option, none, some, ◌===◌, is_same,
  truthy, if◌then◌else◌, any, keep,
}
use entity_developer_dashboa.Exec.{
  Exec, Failure, bad_request, unauthorized, Result, ok, err, pure, throw, skip, throw_if, or_throw,
  ◌>>=◌, ◌>>◌,
}
use entity_developer_dashboa.Access.Policy.{UserAccess}
use entity_developer_dashboa.People.{
  Member, TeamUser, TeamRole, SessionDetail, Team, Stores, access, find_member, find_team_user,
  find_team_role,
}
use entity_developer_dashboa.People.Invitation.{is_member}

-- SET session:<id>
abbrev pub put_session : SessionDetail → List SessionDetail → List SessionDetail
put_session s [] = s ∷ []
put_session s (x ∷ xs) = if x.session_id === s.session_id then s ∷ xs else x ∷ put_session s xs

abbrev same_pair : String × String → String × String → Bool
same_pair a b = a.0 === b.0 && a.1 === b.1

-- SREM and SADD
abbrev pub remove_pair : String × String → List (String × String) → List (String × String)
remove_pair p ps = keep (λ q. not (same_pair q p)) ps

abbrev pub add_pair : String × String → List (String × String) → List (String × String)
add_pair p ps = if any (λ q. same_pair q p) ps then ps else p ∷ ps

abbrev pub no_permissions : List UserAccess → Bool
no_permissions [] = true
no_permissions (a ∷ as_) = false

module _ (st : Stores) where
  unfoldable pub leave_index : Option String → Option String → String → Exec Team (Unit {0})
  leave_index none tenant_id id = skip
  leave_index (some previous) tenant_id id =
      if truthy previous && not (is_same tenant_id previous)
      then access st (λ t. (tt, record t { index = remove_pair (previous, id) t.index }))
      else skip

  unfoldable pub enter_index : Option String → String → Exec Team (Unit {0})
  enter_index none id = skip
  enter_index (some tenant) id =
      if truthy tenant
      then access st (λ t. (tt, record t { index = add_pair (tenant, id) t.index }))
      else skip

  unfoldable pub update_session :
      SessionDetail → Option String → Option (List UserAccess) → Exec Team (Unit {0})
  update_session session tenant_id permissions = do
    let changed = record session { tenant_id = tenant_id; tenant_user_permissions = permissions }
    access st (λ t. (tt, record t { sessions = put_session changed t.sessions }))
    leave_index session.tenant_id tenant_id session.session_id
    enter_index tenant_id session.session_id

  -- a truthy tenant of the session
  abbrev in_tenant : Option String → Bool
  in_tenant none = false
  in_tenant (some tenant) = truthy tenant

  switch_back : SessionDetail → Exec Team (Unit {0})
  switch_back session = do
    throw_if (not (in_tenant session.tenant_id)) (bad_request "You are already using this tenant.")
    update_session session none none

  switch_to : String → SessionDetail → String → Exec Team (Unit {0})
  switch_to user_id session admin_id = do
    throw_if (is_same session.tenant_id admin_id) (bad_request "You are already using this tenant.")
    admin ← find_team_user st (λ u. u.user_id === admin_id)
    or_throw (bad_request "Tenant administrator could not be found.") admin
    membership ← find_member st (is_member admin_id user_id)
    member ← or_throw (unauthorized "You are not a member of the tenant") membership
    throw_if (not member.accepted)
        (bad_request "You must accept the tenant invitation before switching.")
    found ← find_team_role st (λ r. r.id === member.role_id)
    role ← or_throw (bad_request "The specified role does not exist.") found
    throw_if (no_permissions role.permissions)
        (bad_request "The assigned role has no available permissions.")
    update_session session (some admin_id) (some role.permissions)

  unfoldable pub switch_tenant_account : String → SessionDetail → String → Exec Team (Unit {0})
  unfolding switch_back switch_to
  switch_tenant_account user_id session admin_id =
      if user_id === admin_id then switch_back session else switch_to user_id session admin_id
