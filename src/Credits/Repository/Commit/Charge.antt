-- ===== src/Credits/Repository/Commit/Charge.antt =====
-- What the transaction of applyPlanCreditCommit changes.
use entity_developer_dashboa.Prelude.{
  ℕ, String, Bool, true, false, ◌||◌, Option, none, some, List, ◌≡◌, refl, ap, ◌⊎◌, inl, inr, ◌===◌,
  arith,
}
use entity_developer_dashboa.Exec.{Result, ok, pure, throw, ◌>>=◌, from_ok}
use entity_developer_dashboa.Exec.Keeps.{Keeps, Keeps-bind, Keeps-pure, Keeps-throw}
use entity_developer_dashboa.Credits.Schema.{CreditPlan, LedgerEvent, OutboxEntry}
use entity_developer_dashboa.Credits.Wallet.{api_credit, blockchain_txn_credit}
use entity_developer_dashboa.World.{World, Services, Action, update_plan, IsTransaction}
use mathlib.Core.Path.{subst₂}
use entity_developer_dashboa.World.Keeps.{Uncounted, Keeps-save_entry, Keeps-update_plan}
use entity_developer_dashboa.World.Calls.{bind_ok, Updated, update_plan_ok, Saved, save_entry_ok}
use entity_developer_dashboa.Credits.Repository.Commit.{
  is_chargeable, charge, new_entry, same_event, require_updated, commit_body,
  apply_plan_credit_commit,
}

-- The parts of the state that a commit does not touch.
pub record SameElsewhere (w v : World) : Type 0 where
  pub ledger : v.ledger ≡ w.ledger
  pub queued : v.queued ≡ w.queued
  pub mails : v.mails ≡ w.mails
  pub broadcasts : v.broadcasts ≡ w.broadcasts

-- A state that differs elsewhere only.
again :
    {w v : World} {plans : List CreditPlan} {outbox : List OutboxEntry} {calls readings draws : ℕ}
    → SameElsewhere w v
    → SameElsewhere w (record v {
      plans = plans;
      outbox = outbox;
      calls = calls;
      readings = readings;
      draws = draws;
    })
again h = record {
  ledger = h.ledger;
  queued = h.queued;
  mails = h.mails;
  broadcasts = h.broadcasts;
}

module _ (sv : Services) (app_id plan_id : String) (amount : ℕ) (is_api : Bool)
    (service_type : String) (event : LedgerEvent) where
  abbrev body : Action CreditPlan
  body = commit_body sv app_id plan_id amount is_api service_type event

  -- The event was not in the outbox and is there now, and one plan that could take the amount has
  -- been charged with it.
  pub record Charged (w w' : World) (p : CreditPlan) : Type 0 where
    pub between : World
    pub saved : Saved sv (same_event event.event_id) (new_entry event) w between
    pub updated :
        Updated sv
          (is_chargeable is_api amount app_id plan_id service_type)
          (charge is_api amount service_type)
          between
          w'
    pub result : p ≡ charge is_api amount service_type updated.hit.doc

  -- If the body of the transaction succeeds, the event was not in the outbox and is there now, and
  -- one plan that could take the amount is charged with it and returned.
  pub commit_body_ok :
      (w : World) {p : CreditPlan} {w' : World} → body w ≡ (ok p, w') → Charged w w' p
  unfolding commit_body pure throw
  commit_body_ok w {p} {w'} h =
      let (a, v, e, k) = bind_ok _ _ w h in
      let (found, v', e', k') = bind_ok _ _ v k in go v v' found (save_entry_ok sv _ _ w e) e' k'
    where
      go :
          (v v' : World) (found : Option CreditPlan)
          → Saved sv (same_event event.event_id) (new_entry event) w v
          → update_plan sv
              (is_chargeable is_api amount app_id plan_id service_type)
              (charge is_api amount service_type)
              v
            ≡ (ok found, v')
          → require_updated found v' ≡ (ok p, w')
          → Charged w w' p
      go v v' none saved e k = cc (ap (λ r. r.0) k)
      go v v' (some q) saved e k =
          let (d, q_eq) = update_plan_ok sv _ _ v e in
          subst₂ (λ w' p. Charged w w' p) (ap (λ r. r.1) k) (ap (λ r. from_ok q r.0) k)
            (record { between = v; saved = saved; updated = d; result = q_eq })

  Keeps-body : (w : World) → Keeps (SameElsewhere w) body
  unfolding commit_body
  Keeps-body w =
      Keeps-bind (Keeps-save_entry sv free _ _ (λ v outbox h. again h))
        λ _. Keeps-bind (Keeps-update_plan sv free _ _ (λ v h. again h)) required
    where
      free : Uncounted (SameElsewhere w)
      free = record { at = λ v calls readings draws h. again h }

      required : (o : Option CreditPlan) → Keeps (SameElsewhere w) (require_updated o)
      required none = Keeps-throw _
      required (some p) = Keeps-pure p

-- The two credit types that a commit can be of.
abbrev pub is_known : String → Bool
is_known credit_type = credit_type === api_credit || credit_type === blockchain_txn_credit

module _ (sv : Services) (app_id plan_id : String) (amount : ℕ) (credit_type service_type : String)
    (event : LedgerEvent) where
  abbrev transaction : World → Result CreditPlan × World
  transaction =
      sv.with_transaction
        (commit_body sv app_id plan_id amount (credit_type === api_credit) service_type event)

  abbrev applied : Action (Option CreditPlan)
  applied = apply_plan_credit_commit sv app_id plan_id amount credit_type service_type event

  abbrev attempt : Action CreditPlan
  attempt = commit_body sv app_id plan_id amount (credit_type === api_credit) service_type event

  -- The end state is that of the transaction, or nothing has happened at all.
  pub apply_state :
      (w : World)
      → (is_known credit_type ≡ true) × ((applied w).1 ≡ (transaction w).1)
        ⊎ (is_known credit_type ≡ false) × ((applied w).1 ≡ w)
  unfolding apply_plan_credit_commit ◌>>=◌
  apply_state w = ground arith

  -- A commit is either without effect on the plans and the outbox, or it has charged one plan.
  abbrev pub Commits : World → World → Type 0
  Commits w v =
      ((v.plans ≡ w.plans) × (v.outbox ≡ w.outbox))
      ⊎ ((p : CreditPlan) × (u : World) × (is_known credit_type ≡ true)
          × Charged sv app_id plan_id amount (credit_type === api_credit) service_type event w u p
          × (v.plans ≡ u.plans)
          × (v.outbox ≡ u.outbox))

  transaction-Commits : (w : World) → is_known credit_type ≡ true → Commits w (transaction w).1
  transaction-Commits w known = go (sv.transaction_lem attempt w)
    where
      charged : (p : CreditPlan) → (attempt w).0 ≡ ok p → Commits w (attempt w).1
      charged p e = inr (
        p,
        (attempt w).1,
        known,
        commit_body_ok sv app_id plan_id amount (credit_type === api_credit) service_type event w
            (λ i. (e i, (attempt w).1)),
        refl,
        refl,
      )

      go : IsTransaction attempt w (transaction w) → Commits w (transaction w).1
      go (inl (p, e, out)) = rw out (charged p e)
      go (inr (inl (x, e, out))) = rw out (inl (refl, refl))
      go (inr (inr (inl (x, out)))) = rw out (inl (refl, refl))
      go (inr (inr (inr (x, p, e, out)))) = rw out (charged p e)

  pub apply-Commits : (w : World) → Commits w (applied w).1
  apply-Commits w = elim (apply_state w) [
    | inl (known, e) ↦ rw e (transaction-Commits w known)
    | inr (unknown, e) ↦ rw e (inl (refl, refl))
  ]
