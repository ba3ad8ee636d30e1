-- ===== src/People/Session/Switching.antt =====
-- What a switch between accounts may change, whatever its calls do.
use entity_developer_dashboa.Prelude.{
  String, Bool, true, false, List, Option, none, some, ◌≡◌, refl, ap, ◌⊎◌, inl, inr, ◌===◌, eq_iff,
  Bool-cases,
}
use mathlib.Core.Path.{subst}
use entity_developer_dashboa.Exec.Keeps.{Keeps, Keeps-bind, Keeps-skip, Keeps-if}
use entity_developer_dashboa.Access.Policy.{UserAccess}
use entity_developer_dashboa.Exec.Triple.{
  Triple, Triple-bind, Triple-throw_if, Triple-or_throw, Triple-Keeps, Triple-weaken, Triple-ends,
  Triple-assume, Keeps-Triple,
}
use entity_developer_dashboa.Collection.{Hit}
use entity_developer_dashboa.People.{
  Member, TeamUser, TeamRole, SessionDetail, Team, Stores, find_member, find_team_user,
  find_team_role,
}
use entity_developer_dashboa.People.Calls.{bump, Triple-access, Found, not-false}
use entity_developer_dashboa.People.Invitation.{is_member}
use entity_developer_dashboa.People.Session.{
  put_session, no_permissions, update_session, leave_index, enter_index, switch_tenant_account,
}

-- The members, roles and sessions are these.
pub record Holds (ms : List Member) (rs : List TeamRole) (ss : List SessionDetail) (t : Team)
    : Type 0 where
  pub members_lem : t.members ≡ ms
  pub roles_lem : t.roles ≡ rs
  pub sessions_lem : t.sessions ≡ ss

-- The user is an accepted member of the admin's team, with a role that has permissions.
pub record IsMember (ms : List Member) (rs : List TeamRole) (user_id admin_id : String)
    : Type 0 where
  pub member : Member
  pub in_team : (hit : Hit (is_member admin_id user_id) ms) × (hit.doc ≡ member)
  pub accepted : member.accepted ≡ true
  pub role : TeamRole
  pub in_roles : (hit : Hit (λ r. r.id === member.role_id) rs) × (hit.doc ≡ role)
  pub permitted : no_permissions role.permissions ≡ false

abbrev pub entered : SessionDetail → String → TeamRole → SessionDetail
entered session admin_id role = record session {
  tenant_id = some admin_id;
  tenant_user_permissions = some role.permissions;
}

abbrev pub left : SessionDetail → SessionDetail
left session = record session { tenant_id = none; tenant_user_permissions = none }

-- What a switch may leave of the sessions: all as they were, its own back in the user's account, or
-- its own in the account of an admin whose member the user is, with the permissions of the role.
abbrev pub Switched :
    List Member
    → List TeamRole
    → List SessionDetail
    → String
    → SessionDetail
    → String
    → Team
    → Type 0
Switched ms rs ss user_id session admin_id t =
    (t.sessions ≡ ss)
    ⊎ ((user_id ≡ admin_id) × (t.sessions ≡ put_session (left session) ss))
    ⊎ ((m : IsMember ms rs user_id admin_id) × (t.sessions
          ≡ put_session (entered session admin_id m.role) ss))

module _ (st : Stores) where
  Keeps-leave_index :
      (xs : List SessionDetail) (previous tenant_id : Option String) (id : String)
      → Keeps (λ t. t.sessions ≡ xs) (leave_index st previous tenant_id id)
  unfolding leave_index
  Keeps-leave_index xs none tenant_id id = Keeps-skip
  Keeps-leave_index xs (some previous) tenant_id id =
      Keeps-if _
        (Keeps-Triple
          (Triple-access {E = λ t. t.sessions ≡ xs} st _ (λ t h. h) (λ t h. h) (λ t h. h)))
        Keeps-skip

  Keeps-enter_index :
      (xs : List SessionDetail) (tenant_id : Option String) (id : String)
      → Keeps (λ t. t.sessions ≡ xs) (enter_index st tenant_id id)
  unfolding enter_index
  Keeps-enter_index xs none id = Keeps-skip
  Keeps-enter_index xs (some tenant) id =
      Keeps-if _
        (Keeps-Triple
          (Triple-access {E = λ t. t.sessions ≡ xs} st _ (λ t h. h) (λ t h. h) (λ t h. h)))
        Keeps-skip

module _ (st : Stores) {ms : List Member} {rs : List TeamRole} {ss : List SessionDetail} where
  Holds-bump : (t : Team) → Holds ms rs ss t → Holds ms rs ss (bump t)
  Holds-bump t h = record {
    members_lem = h.members_lem;
    roles_lem = h.roles_lem;
    sessions_lem = h.sessions_lem;
  }

  find-Member :
      (f : Member → Bool)
      → Triple (Holds ms rs ss) (find_member st f) (Found (Holds ms rs ss) f ms) (Holds ms rs ss)
  unfolding find_member
  find-Member f = Triple-access st _ Holds-bump (λ t h. go t h) Holds-bump
    where
      go :
          (t : Team)
          → Holds ms rs ss t
          → Found (Holds ms rs ss) f ms (st.member_store.find_one f t.members) (bump t)
      go t h = elim (st.member_store.find_one_lem f t.members) [
        | inl (misses, e) ↦ rw e (Holds-bump t h)
        | inr (hit, e) ↦ rw e (
          Holds-bump t h,
          subst (λ l. (k : Hit f l) × (k.doc ≡ hit.doc)) h.members_lem (hit, refl),
        )
      ]

  find-Role :
      (f : TeamRole → Bool)
      → Triple (Holds ms rs ss) (find_team_role st f) (Found (Holds ms rs ss) f rs) (Holds ms rs ss)
  unfolding find_team_role
  find-Role f = Triple-access st _ Holds-bump (λ t h. go t h) Holds-bump
    where
      go :
          (t : Team)
          → Holds ms rs ss t
          → Found (Holds ms rs ss) f rs (st.role_store.find_one f t.roles) (bump t)
      go t h = elim (st.role_store.find_one_lem f t.roles) [
        | inl (misses, e) ↦ rw e (Holds-bump t h)
        | inr (hit, e) ↦
            rw e (
              Holds-bump t h,
              subst (λ l. (k : Hit f l) × (k.doc ≡ hit.doc)) h.roles_lem (hit, refl),
            )
      ]

  find-user :
      (f : TeamUser → Bool)
      → Triple (Holds ms rs ss) (find_team_user st f) (λ o t. Holds ms rs ss t) (Holds ms rs ss)
  unfolding find_team_user
  find-user f = Triple-access st _ Holds-bump Holds-bump Holds-bump

  -- The session is written first, and the index does not touch it.
  update_session-put :
      (session : SessionDetail) (tenant_id : Option String) (permissions : Option (List UserAccess))
      → Triple
          (Holds ms rs ss)
          (update_session st session tenant_id permissions)
          (λ u t.
            t.sessions
            ≡ put_session
                (record session { tenant_id = tenant_id; tenant_user_permissions = permissions })
                ss)
          (λ t.
            (t.sessions ≡ ss)
            ⊎ (t.sessions
                ≡ put_session
                    (record session {
                      tenant_id = tenant_id;
                      tenant_user_permissions = permissions;
                    })
                    ss))
  unfolding update_session
  update_session-put session tenant_id permissions =
      Triple-bind
        (Triple-access st _ (λ t h. inl h.sessions_lem)
          (λ t h. ap (put_session changed) h.sessions_lem)
          (λ t h. inr (ap (put_session changed) h.sessions_lem)))
        λ u.
          Triple-Keeps
            (Keeps-bind (Keeps-leave_index st _ session.tenant_id tenant_id session.session_id)
              λ v. Keeps-enter_index st _ tenant_id session.session_id)
            (λ v t h. h) (λ t h. inr h)
    where
      changed : SessionDetail
      changed = record session { tenant_id = tenant_id; tenant_user_permissions = permissions }

  -- Whatever the calls of a switch do, and wherever it fails, the sessions are as they were, or the
  -- user's own session has left the account of a tenant, or it is in the account of the admin, the
  -- user is an accepted member of the admin's team with a role that has permissions, and the
  -- session has exactly these permissions.
  pub switch_tenant_account-Switched :
      (user_id : String) (session : SessionDetail) (admin_id : String)
      → Triple
          (Holds ms rs ss)
          (switch_tenant_account st user_id session admin_id)
          (λ u t. Switched ms rs ss user_id session admin_id t)
          (Switched ms rs ss user_id session admin_id)
  unfolding switch_tenant_account
  switch_tenant_account-Switched user_id session admin_id =
      elim (Bool-cases (user_id === admin_id)) [
        | inl e ↦ rw e (
            Triple-bind (Triple-throw_if _ _ (λ t h. inl h.sessions_lem)) λ u.
              Triple-ends (Triple-weaken (λ t h. h.0) (update_session-put session none none))
                (λ v t q. inr (inl ((eq_iff user_id admin_id).0 e, q)))
                (λ t x. elim x [
                  | inl a ↦ inl a
                  | inr b ↦ inr (inl ((eq_iff user_id admin_id).0 e, b))
                ]))
        | inr e ↦ rw e (
            Triple-bind (Triple-throw_if _ _ (λ t h. inl h.sessions_lem)) λ u.
              Triple-bind
                (Triple-ends (Triple-weaken (λ t h. h.0) (find-user _)) (λ o t h. h)
                  (λ t h. inl h.sessions_lem))
                λ admin.
                  Triple-bind
                    (Triple-or_throw _ (λ o t. Holds ms rs ss t) admin (λ t h. inl h.sessions_lem))
                    λ known.
                      Triple-bind
                        (Triple-ends (find-Member (is_member admin_id user_id)) (λ o t h. h)
                          (λ t h. inl h.sessions_lem))
                        λ membership.
                          Triple-bind
                            (Triple-or_throw _
                              (Found (Holds ms rs ss) (is_member admin_id user_id) ms) membership
                              (λ t h. inl h.sessions_lem))
                            λ member.
                              Triple-bind (Triple-throw_if _ _ (λ t h. inl h.0.sessions_lem)) λ v.
                                Triple-assume (λ t h. h.1)
                                  λ accepted.
                                    Triple-assume (λ t h. h.0.1)
                                      λ in_team.
                                        Triple-bind
                                          (Triple-ends
                                            (Triple-weaken (λ t h. h.0.0)
                                              (find-Role (λ r. r.id === member.role_id)))
                                            (λ o t h. h) (λ t h. inl h.sessions_lem))
                                          λ found.
                                            Triple-bind
                                              (Triple-or_throw _
                                                (Found (Holds ms rs ss)
                                                  (λ r. r.id === member.role_id) rs)
                                                found (λ t h. inl h.sessions_lem))
                                              λ role.
                                                Triple-bind
                                                  (Triple-throw_if _ _
                                                    (λ t h. inl h.0.sessions_lem))
                                                  λ w.
                                                    Triple-assume (λ t h. h.1)
                                                      λ permitted.
                                                        Triple-assume (λ t h. h.0.1)
                                                          λ in_roles.
                                                            let m : IsMember ms rs user_id
                                                            admin_id =
                                                            record {
                                                            member = member;
                                                            in_team = in_team;
                                                            accepted =
                                                            not-false member.accepted accepted;
                                                            role = role;
                                                            in_roles = in_roles;
                                                            permitted = permitted;
                                                            } in
                                                            Triple-ends
                                                            (Triple-weaken (λ t h. h.0.0)
                                                            (update_session-put session
                                                            (some admin_id)
                                                            (some role.permissions)))
                                                            (λ x t q. inr (inr (m, q)))
                                                            (λ t x. elim x [
                                                              | inl a ↦ inl a
                                                              | inr b ↦ inr (inr (m, b))
                                                            ]))
      ]
