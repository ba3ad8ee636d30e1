-- ===== src/People/Invitation/Accepting.antt =====
-- Who may accept an invitation.
use entity_developer_dashboa.Prelude.{
  ℕ, String, Bool, true, false, List, ◌∷◌, ◌++◌, ◌≡◌, ◌≤◌, refl, ◌⊎◌, inl, inr, ltb,
}
use mathlib.Core.Path.{subst}
use native.Mathlib.Omega.{arith}
use entity_developer_dashboa.Exec.Triple.{
  Triple, Triple-bind, Triple-throw_if, Triple-or_throw, Triple-weaken, Triple-ends, Triple-assume,
}
use entity_developer_dashboa.Collection.{Hit}
use entity_developer_dashboa.People.{
  Member, Team, Stores, find_member, update_member, time_now, with_members,
}
use entity_developer_dashboa.People.Calls.{bump, Triple-access, Found}
use entity_developer_dashboa.People.Invitation.{Invitee, invite_filter, accept_invite}

abbrev pub taken : Invitee → Member → Member
taken user m = record m { user_id = user.user_id; accepted = true }

-- An invitation of the code is addressed to the user, not yet accepted, and valid at a reading of
-- the clock that is not before the given one.
pub record IsInvited (st : Stores) (ms : List Member) (since : ℕ) (invite_code : String)
    (user : Invitee) : Type 0 where
  pub member : Member
  pub invited : (hit : Hit (invite_filter invite_code user) ms) × (hit.doc ≡ member)
  pub reading : ℕ
  pub recent : since ≤ reading
  pub valid : ltb member.invitation_valid_till (st.clock reading) ≡ false
  pub pending : member.accepted ≡ false

-- What an acceptance may leave of the members: all as they were, or one that the invitation fits is
-- the user's and accepted.
abbrev pub Accepted : Stores → List Member → ℕ → String → Invitee → Team → Type 0
Accepted st ms since invite_code user t =
    (t.members ≡ ms)
    ⊎ (IsInvited st ms since invite_code user
        × ((hit : Hit (invite_filter invite_code user) ms) × (t.members
              ≡ hit.before ++ taken user hit.doc ∷ hit.after)))

abbrev Kept : List Member → ℕ → Team → Type 0
Kept ms since t = (t.members ≡ ms) × (since ≤ t.readings)

module _ (st : Stores) {ms : List Member} {since : ℕ} where
  find-Found :
      (f : Member → Bool)
      → Triple (Kept ms since) (find_member st f) (Found (Kept ms since) f ms) (Kept ms since)
  unfolding find_member
  find-Found f = Triple-access st _ (λ t h. h) (λ t h. go t h) (λ t h. h)
    where
      go :
          (t : Team)
          → Kept ms since t
          → Found (Kept ms since) f ms (st.member_store.find_one f t.members) (bump t)
      go t h = elim (st.member_store.find_one_lem f t.members) [
        | inl (misses, e) ↦ rw e h
        | inr (hit, e) ↦ rw e (h, subst (λ l. (k : Hit f l) × (k.doc ≡ hit.doc)) h.0 (hit, refl))
      ]

  time_now-Kept :
      Triple
        (Kept ms since)
        (time_now st)
        (λ time t. Kept ms since t × ((r : ℕ) × (time ≡ st.clock r) × (since ≤ r)))
        (Kept ms since)
  unfolding time_now
  time_now-Kept = record { at = λ t h. ((h.0, omega (arith, h.1)), (t.readings, refl, h.1)) }

  update-Accepted :
      (invite_code : String) (user : Invitee)
      → IsInvited st ms since invite_code user
      → Triple
          (Kept ms since)
          (update_member st (invite_filter invite_code user) (λ m. taken user m))
          (λ o t. Accepted st ms since invite_code user t)
          (Accepted st ms since invite_code user)
  unfolding update_member
  update-Accepted invite_code user i =
      Triple-access st _ (λ t h. inl h.0) (λ t h. go t h) (λ t h. go t h)
    where
      f : Member → Bool
      f m = invite_filter invite_code user m

      go :
          (t : Team)
          → Kept ms since t
          → Accepted st ms since invite_code user
              (with_members st t
                (st.member_store.find_one_and_update f (λ m. taken user m) t.members)).1
      go t h = elim (st.member_store.update_lem f (λ m. taken user m) t.members) [
        | inl (misses, e) ↦ rw e (inl h.0)
        | inr (hit, e) ↦ rw e (
            inr (
              i,
              subst
                  (λ l.
                    (k : Hit f l) × ((hit.before ++ taken user hit.doc ∷ hit.after)
                      ≡ k.before ++ taken user k.doc ∷ k.after))
                  h.0 (hit, refl),
            ))
      ]

  -- Whatever the calls do, and wherever it fails, an acceptance that is called after `since` readings
  -- of the clock leaves the members as they were, or it makes one of them the user's and accepted,
  -- and then an invitation of the code, addressed to the user, was pending and not expired at a
  -- reading made since.
  pub accept_invite-Accepted :
      (invite_code : String) (user : Invitee)
      → Triple
          (λ t. (t.members ≡ ms) × (since ≤ t.readings))
          (accept_invite st invite_code user)
          (λ o t. Accepted st ms since invite_code user t)
          (Accepted st ms since invite_code user)
  unfolding accept_invite
  accept_invite-Accepted invite_code user =
      Triple-bind
        (Triple-ends (find-Found (invite_filter invite_code user)) (λ o t h. h) (λ t h. inl h.0))
        λ found.
          Triple-bind
            (Triple-or_throw _ (Found (Kept ms since) (invite_filter invite_code user) ms) found
              (λ t h. inl h.0))
            λ member.
              Triple-assume (λ t h. h.1)
                λ invited.
                  Triple-bind
                    (Triple-ends (Triple-weaken (λ t h. h.0) time_now-Kept) (λ o t h. h)
                      (λ t h. inl h.0))
                    λ time.
                      Triple-assume (λ t h. h.1)
                        λ read.
                          Triple-bind
                            (Triple-weaken (λ t h. h.0) (Triple-throw_if _ _ (λ t h. inl h.0)))
                            λ u.
                              Triple-assume (λ t h. h.1)
                                λ valid.
                                  Triple-bind
                                    (Triple-weaken (λ t h. h.0)
                                      (Triple-throw_if _ _ (λ t h. inl h.0)))
                                    λ v.
                                      Triple-assume (λ t h. h.1)
                                        λ pending.
                                          Triple-weaken (λ t h. h.0)
                                            (update-Accepted invite_code user (record {
                                              member = member;
                                              invited = invited;
                                              reading = read.0;
                                              recent = read.2;
                                              valid =
                                                  subst
                                                    (λ n.
                                                      ltb member.invitation_valid_till n ≡ false)
                                                    read.1 valid;
                                              pending = pending;
                                            }))
