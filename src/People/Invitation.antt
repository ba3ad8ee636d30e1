-- ===== src/People/Invitation.antt =====
-- Invitations to a team and the roles of its members.
pub mod Accepting
use entity_developer_dashboa.Prelude.{
  ℕ, suc, ◌+◌, String, Bool, true, false, not, ◌&&◌, ◌||◌, List, [], ◌∷◌, ◌++◌, Option, none, some,
  ◌===◌, is_some, truthy, ltb, leb, if◌then◌else◌, length,
}
use entity_developer_dashboa.Exec.{
  Exec, Failure, bad_request, not_found, conflict, duplicate_key, Result, ok, err, pure, lift,
  throw_if, or_throw, ◌>>=◌, ◌>>◌,
}
use entity_developer_dashboa.People.{
  Member, TeamUser, TeamRole, Team, Stores, access, time_now, find_member, update_member,
  find_team_user, find_team_role, find_team_roles,
}

-- The user of a request.
pub record Invitee : Type 0 where
  pub user_id : String
  pub email : String

abbrev known_id : Option TeamUser → String → String
known_id none email = email
known_id (some user) email = if truthy user.user_id then user.user_id else email

-- The role with the fewest permissions, the first of several.
abbrev fewer : TeamRole → Option TeamRole → TeamRole
fewer r none = r
fewer r (some s) = if leb (length r.permissions) (length s.permissions) then r else s

abbrev pub least_role : List TeamRole → Option TeamRole
least_role [] = none
least_role (r ∷ rs) = some (fewer r (least_role rs))

-- two days, and ten minutes, in milliseconds
abbrev pub two_days : ℕ
two_days = 172800000

abbrev pub ten_minutes : ℕ
ten_minutes = 600000

abbrev is_other_member : Option Member → Bool
is_other_member o = is_some o

-- inviteFilter
abbrev pub invite_filter : String → Invitee → Member → Bool
invite_filter invite_code user m =
    m.invite_code === invite_code
    && ((truthy user.user_id && m.user_id === user.user_id)
        || (truthy user.email && m.user_id === user.email)
        || m.invitee_email === user.email)

abbrev pub is_member : String → String → Member → Bool
is_member admin_id user_id m = m.admin_id === admin_id && m.user_id === user_id

-- addJobToMailQueue, which is not awaited
add_invitation_mail : Exec Team (Unit {0})
add_invitation_mail t = (ok tt, record t { mails = suc t.mails })

abbrev nonempty : Option String → Option String
nonempty none = none
nonempty (some s) = if truthy s then some s else none

module _ (st : Stores) where
  -- A role that is named is taken whoever owns it.
  role_for_invite : Option String → String → Exec Team (Option TeamRole)
  role_for_invite none admin_id = do
    roles ← find_team_roles st (λ r. r.user_id === admin_id)
    pure (least_role roles)
  role_for_invite (some id) admin_id = do
    found ← find_team_role st (λ r. r.id === id)
    role ← or_throw (bad_request "No role exists for the provided role ID") found
    pure (some role)

  abbrev or_duplicate : Team → Option (List Member) → Result (Unit {0}) × Team
  or_duplicate t none = (err duplicate_key, t)
  or_duplicate t (some members) = (ok tt, record t { members = members })

  -- new adminPeopleModel(member).save(), under the unique index of the admin and the user
  save_member : Member → Exec Team (Unit {0})
  save_member member = do
    saved ← access st (λ t.
        or_duplicate t
          (st.member_store.insert (is_member member.admin_id member.user_id) member t.members))
    lift saved

  unfoldable pub create_invitation : String → Option String → Invitee → Exec Team Member
  unfolding role_for_invite add_invitation_mail save_member
  create_invitation email_id role_id admin = do
    throw_if (email_id === admin.email) (bad_request "You cannot invite your own account.")
    user ← find_team_user st (λ u. u.email === email_id)
    existing ← find_member st (is_member admin.user_id (known_id user email_id))
    throw_if (is_other_member existing)
        (conflict "This user is already associated with your tenant.")
    drawn ← time_now st
    chosen ← role_for_invite (nonempty role_id) admin.user_id
    role ← or_throw (bad_request "A role must be assigned before inviting a member.") chosen
    time ← time_now st
    let member : Member = record {
      admin_id = admin.user_id;
      user_id = known_id user email_id;
      invite_code = st.new_code drawn;
      accepted = false;
      invitation_valid_till = time + two_days;
      role_id = role.id;
      role_name = role.role_name;
      invitee_email = email_id;
    }
    save_member member
    add_invitation_mail
    pure member

  unfoldable pub accept_invite : String → Invitee → Exec Team (Option Member)
  accept_invite invite_code user = do
    found ← find_member st (invite_filter invite_code user)
    member ←
        or_throw (bad_request "The invitation code is invalid or does not belong to this user.")
          found
    time ← time_now st
    throw_if (ltb member.invitation_valid_till time)
        (bad_request "The invitation code has expired.")
    throw_if member.accepted (bad_request "This invitation has already been accepted.")
    update_member st (invite_filter invite_code user)
        (λ m. record m { user_id = user.user_id; accepted = true })

  unfoldable pub update : String → Invitee → Exec Team (Option Member)
  update invite_code admin = do
    found ← find_member st (λ m. m.admin_id === admin.user_id && m.invite_code === invite_code)
    or_throw (not_found "Invitation not found.") found
    time ← time_now st
    update_member st (λ m. m.admin_id === admin.user_id && m.invite_code === invite_code)
        (λ m. record m { invitation_valid_till = time + ten_minutes })

  unfoldable pub attach_role : String → String → Invitee → Exec Team (Option Member)
  attach_role user_id role_id admin = do
    found ← find_member st (is_member admin.user_id user_id)
    member ← or_throw (not_found "Member not found.") found
    throw_if (not member.accepted) (bad_request "The invitation is still pending.")
    owned ← find_team_role st (λ r. r.id === role_id && r.user_id === admin.user_id)
    role ← or_throw (not_found "Role not found.") owned
    update_member st (is_member admin.user_id user_id)
        (λ m. record m { role_id = role.id; role_name = role.role_name })
