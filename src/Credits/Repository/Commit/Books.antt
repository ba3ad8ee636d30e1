-- ===== src/Credits/Repository/Commit/Books.antt =====
-- The books of a plan: what its meters show against what the outbox has recorded, and the limits
-- of the two meters.
use entity_developer_dashboa.Prelude.{
  ℕ, ◌+◌, String, Bool, true, false, ◌&&◌, Option, some, List, ◌∷◌, ◌++◌, ◌≡◌, sym, ap, ◌∙◌, inl,
  inr, ◌===◌, is_same, if◌then◌else◌, total, total-replace, total-insert, All, All-replace, arith,
  eq_iff,
}
use mathlib.Core.Path.{subst}
use entity_developer_dashboa.Json.{Number, nat, text, is_text}
use entity_developer_dashboa.Collection.{Hit, not-Hit}
use entity_developer_dashboa.Credits.Schema.{CreditPlan, LedgerEvent, OutboxEntry}
use entity_developer_dashboa.Credits.Wallet.{api_credit, blockchain_txn_credit}
use entity_developer_dashboa.World.{World, Services}
use entity_developer_dashboa.Credits.Meters.{plan_use, IsWithin}
use entity_developer_dashboa.Credits.Repository.Commit.{
  within_limit, is_chargeable, charge, new_entry, same_event, apply_plan_credit_commit,
}
use entity_developer_dashboa.Credits.Repository.Commit.Charge.{
  is_known, Charged, Commits, apply-Commits,
}

abbrev pub used_of : Bool → String → List CreditPlan → ℕ
used_of is_api id plans = total (plan_use is_api id) plans

abbrev pub as_amount : Option Number → ℕ
as_amount (some (nat n)) = n
as_amount _ = 0

abbrev pub credit_type_of : Bool → String
credit_type_of is_api = if is_api then api_credit else blockchain_txn_credit

-- What the outbox has recorded for a meter of a plan.
abbrev pub entry_use : Bool → String → OutboxEntry → ℕ
entry_use is_api id e =
    if is_same e.event.plan_id id && is_text e.event.metadata.credit_type (credit_type_of is_api)
    then as_amount e.event.amount
    else 0

abbrev pub recorded_of : Bool → String → List OutboxEntry → ℕ
recorded_of is_api id outbox = total (entry_use is_api id) outbox

-- A charge raises the charged meter of the charged plan by the amount, and no other.
abbrev xnor : Bool → Bool → Bool
xnor true b = b
xnor false true = false
xnor false false = true

meter-charge :
    (is_api other : Bool) (amount : ℕ) (id service_type : String) (p : CreditPlan)
    → within_limit is_api amount p ≡ true
    → plan_use other id (charge is_api amount service_type p)
      ≡ plan_use other id p + (if p.id === id then (if xnor is_api other then amount else 0) else 0)
unfolding charge within_limit
meter-charge is_api other amount id service_type p fits = ground arith

charge-IsWithin :
    (is_api : Bool) (amount : ℕ) (service_type : String) (p : CreditPlan)
    → within_limit is_api amount p ≡ true
    → IsWithin p
    → IsWithin (charge is_api amount service_type p)
unfolding charge within_limit
charge-IsWithin is_api amount service_type p fits h = ground arith

-- The measurement says which plan, which credit type and which amount the commit is about.
pub record Describes (event : LedgerEvent) (plan_id credit_type : String) (amount : ℕ)
    : Type 0 where
  pub plan : event.plan_id ≡ some plan_id
  pub kind : event.metadata.credit_type ≡ text credit_type
  pub sum : event.amount ≡ some (nat amount)

abbrev share : Bool → Bool → Bool → ℕ → ℕ
share same_plan is_api other amount =
    if same_plan then (if xnor is_api other then amount else 0) else 0

exclusive : (t : String) → (t === api_credit) ≡ true → (t === blockchain_txn_credit) ≡ false
exclusive t e = rw ((eq_iff t api_credit).0 e)

entry_use-new_entry :
    (event : LedgerEvent) (plan_id credit_type : String) (amount : ℕ) (other : Bool) (id : String)
    → Describes event plan_id credit_type amount
    → is_known credit_type ≡ true
    → entry_use other id (new_entry event)
      ≡ share (plan_id === id) (credit_type === api_credit) other amount
entry_use-new_entry event plan_id credit_type amount true id d known =
    rw (d.plan, d.kind, d.sum) (ground arith)
entry_use-new_entry event plan_id credit_type amount false id d known =
    rw (d.plan, d.kind, d.sum) (ground (arith, exclusive credit_type))

module _ (sv : Services) (app_id plan_id : String) (amount : ℕ) (is_api : Bool)
    (service_type : String) (event : LedgerEvent) {w v : World} {p : CreditPlan}
    (c : Charged sv app_id plan_id amount is_api service_type event w v p) where
  -- The charged plan is the one that was asked for, within its limit.
  charged_id : (c.updated.hit.doc.id === plan_id) ≡ true
  unfolding is_chargeable
  charged_id = ground (arith, c.updated.hit.fits)

  charged_limit : within_limit is_api amount c.updated.hit.doc ≡ true
  unfolding is_chargeable
  charged_limit = ground (arith, c.updated.hit.fits)

  old_plans : w.plans ≡ c.updated.hit.before ++ c.updated.hit.doc ∷ c.updated.hit.after
  old_plans = sym (ap (λ u. u.plans) c.saved.after) ∙ c.updated.hit.splits

  new_plans :
      v.plans
      ≡ c.updated.hit.before
        ++ charge is_api amount service_type c.updated.hit.doc ∷ c.updated.hit.after
  new_plans = ap (λ u. u.plans) c.updated.after

  new_outbox : v.outbox ≡ c.saved.outbox
  new_outbox = ap (λ u. u.outbox) c.updated.after ∙ ap (λ u. u.outbox) c.saved.after

  used_of-Charged :
      (other : Bool) (id : String)
      → used_of other id v.plans
        ≡ used_of other id w.plans + share (plan_id === id) is_api other amount
  used_of-Charged other id =
      let doc = c.updated.hit.doc in
      let same_id = (eq_iff doc.id plan_id).0 charged_id in
      let raised =
        meter-charge is_api other amount id service_type doc charged_limit
        ∙ ap (λ x. plan_use other id doc + share (x === id) is_api other amount) same_id in
      rw (old_plans, new_plans)
        (total-replace (plan_use other id) c.updated.hit.before c.updated.hit.after doc _ _ raised)

  recorded_of-Charged :
      (other : Bool) (id : String)
      → recorded_of other id v.outbox
        ≡ recorded_of other id w.outbox + entry_use other id (new_entry event)
  recorded_of-Charged other id =
      rw (new_outbox, c.saved.inserted.old, c.saved.inserted.new)
        (total-insert (entry_use other id) c.saved.inserted.before c.saved.inserted.after
          (new_entry event))

  All-IsWithin-Charged : All IsWithin w.plans → All IsWithin v.plans
  All-IsWithin-Charged h = subst (All IsWithin) (sym new_plans) (
      All-replace IsWithin c.updated.hit.before c.updated.hit.after c.updated.hit.doc _
        (charge-IsWithin is_api amount service_type c.updated.hit.doc charged_limit)
        (subst (All IsWithin) old_plans h))

-- Every meter of every plan shows what it showed before the outbox was begun and what the outbox
-- has recorded since.
pub record Balanced (opening : Bool → String → ℕ) (w : World) : Type 0 where
  pub books :
      (is_api : Bool) (id : String)
      → used_of is_api id w.plans ≡ opening is_api id + recorded_of is_api id w.outbox

module _ (sv : Services) (app_id plan_id : String) (amount : ℕ) (credit_type service_type : String)
    (event : LedgerEvent) (w : World) where
  abbrev applied_world : World
  applied_world =
      (apply_plan_credit_commit sv app_id plan_id amount credit_type service_type event w).1

  -- Whatever becomes of the calls, a commit whose measurement names its plan, its credit type and
  -- its amount keeps the books: the meters and the outbox change together or not at all.
  pub apply-Balanced :
      {opening : Bool → String → ℕ}
      → Describes event plan_id credit_type amount
      → Balanced opening w
      → Balanced opening applied_world
  apply-Balanced {opening} d b =
      go (apply-Commits sv app_id plan_id amount credit_type service_type event w)
    where
      go :
          Commits sv app_id plan_id amount credit_type service_type event w applied_world
          → Balanced opening applied_world
      go (inl (plans, outbox)) = record { books = λ k id. rw (plans, outbox) (b.books k id) }
      go (inr (p, u, known, c, plans, outbox)) = record {
        books = λ k id.
            rw (plans, outbox)
              (omega (
                arith,
                b.books k id,
                used_of-Charged sv app_id plan_id amount _ service_type event c k id,
                recorded_of-Charged sv app_id plan_id amount _ service_type event c k id,
                entry_use-new_entry event plan_id credit_type amount k id d known,
              ));
      }

  -- If no meter is above its limit before a commit, none is after it, whatever becomes of the calls.
  pub apply-IsWithin : All IsWithin w.plans → All IsWithin applied_world.plans
  apply-IsWithin h = go (apply-Commits sv app_id plan_id amount credit_type service_type event w)
    where
      go :
          Commits sv app_id plan_id amount credit_type service_type event w applied_world
          → All IsWithin applied_world.plans
      go (inl (plans, outbox)) = subst (All IsWithin) (sym plans) h
      go (inr (p, u, known, c, plans, outbox)) =
          subst (All IsWithin) (sym plans)
            (All-IsWithin-Charged sv app_id plan_id amount _ service_type event c h)

  -- An event whose id is in the outbox is never charged again, whatever the commit says of it.
  pub apply_again :
      Hit (same_event event.event_id) w.outbox
      → (applied_world.plans ≡ w.plans) × (applied_world.outbox ≡ w.outbox)
  apply_again hit = go (apply-Commits sv app_id plan_id amount credit_type service_type event w)
    where
      go :
          Commits sv app_id plan_id amount credit_type service_type event w applied_world
          → (applied_world.plans ≡ w.plans) × (applied_world.outbox ≡ w.outbox)
      go (inl same) = same
      go (inr (p, u, known, c, plans, outbox)) = absurd (not-Hit hit c.saved.misses)
