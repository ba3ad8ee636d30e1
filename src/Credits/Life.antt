-- ===== src/Credits/Life.antt =====
-- The credit service over its life: the requests, jobs, messages and timers that arrive.
use entity_developer_dashboa.Prelude.{
  ℕ, String, Bool, Option, none, some, List, [], ◌∷◌, ◌++◌, ◌≡◌, ap, sym, All, inl, inr,
  total-insert, arith,
}
use mathlib.Core.Path.{subst}
use entity_developer_dashboa.Exec.Keeps.{Keeps, Keeps-bind}
use entity_developer_dashboa.Json.{Value}
use entity_developer_dashboa.Credits.Schema.{CreditPlan, CreditSource, OnChainAllowance}
use entity_developer_dashboa.Credits.Event.{Job}
use entity_developer_dashboa.Credits.Meters.{plan_use, allowance_used, IsWithin, IsWithinAllowance}
use entity_developer_dashboa.Credits.Robust.{Robust-now}
use entity_developer_dashboa.Credits.Repository.{create_plan}
use entity_developer_dashboa.Credits.Repository.Commit.Books.{used_of}
use entity_developer_dashboa.Credits.Notification.{scan_expiring_credits}
use entity_developer_dashboa.Credits.Notification.Sparing.{Robust-scan_expiring_credits}
use entity_developer_dashboa.Credits.Service.Activate.{activate_credit}
use entity_developer_dashboa.Credits.Service.Activate.Sparing.{Robust-activate_credit}
use entity_developer_dashboa.Credits.Service.Grant.{CreditRequest, grant_credit}
use entity_developer_dashboa.Credits.Service.Grant.Sparing.{IsFresh, Robust-grant_credit}
use entity_developer_dashboa.Credits.SsiResults.{Channel, RawResult, consume}
use entity_developer_dashboa.Credits.SsiResults.Sparing.{Robust-consume}
use entity_developer_dashboa.Credits.EventStore.Processing.{append}
use entity_developer_dashboa.Credits.EventStore.Processing.Books.{Sound, Sound-Robust}
use entity_developer_dashboa.Credits.EventStore.Processing.Life.{Sound-append}
use entity_developer_dashboa.World.{World, Services}
use entity_developer_dashboa.World.Keeps.{Keeps-upsert_plan, Keeps-new_object_id}

-- What can arrive: a job of the lifecycle queue, a message with transaction results, the timer of
-- the expiry scan, and the requests to activate a plan and to grant one.
pub data Arrival : Type 0 where
  job : Job → Arrival
  result : Channel → Option RawResult → Arrival
  scan : Arrival
  activate : String → String → Arrival
  grant : String → CreditRequest → String → CreditSource → Option String → Arrival

-- A plan whose meters are at zero shows nothing and breaks no limit.
IsFresh-plan_use : (k : Bool) (id : String) (p : CreditPlan) → IsFresh p → plan_use k id p ≡ 0
IsFresh-plan_use k id p h = ground (arith, h.api, h.chain)

IsFresh-allowance : (o : Option OnChainAllowance) → allowance_used o ≡ 0 → IsWithinAllowance o
IsFresh-allowance none h = tt
IsFresh-allowance (some a) h = omega (arith, h)

IsFresh-IsWithin : (p : CreditPlan) → IsFresh p → IsWithin p
IsFresh-IsWithin p h = record {
  api = omega (arith, h.api);
  allowance = IsFresh-allowance p.on_chain_allowance h.chain;
}

All-insert :
    {A : Type 0} (P : A → Type 0) (xs ys : List A) (x : A)
    → P x
    → All P (xs ++ ys)
    → All P (xs ++ x ∷ ys)
All-insert P [] ys x h k = (h, k)
All-insert P (z ∷ xs) ys x h k = (k.0, All-insert P xs ys x h k.1)

module _ (sv : Services) {opening : Bool → String → ℕ} where
  Sound-upsert :
      (same : CreditPlan → Bool) (p : CreditPlan)
      → IsFresh p
      → (w : World) → Sound opening w
      → Sound opening (record w { plans = (sv.plan_store.upsert same p w.plans).1 })
  Sound-upsert same p fresh w h = elim (sv.plan_store.upsert_lem same p w.plans) [
    | inl (misses, (es, inserted, e)) ↦ rw e (record {
      balanced = record {
        books = λ k id. rw inserted.new (
            omega (
              arith,
              h.balanced.books k id,
              ap (used_of k id) inserted.old,
              IsFresh-plan_use k id p fresh,
              total-insert (plan_use k id) inserted.before inserted.after p,
            ));
      };
      within = subst (All IsWithin) (sym inserted.new) (
          All-insert IsWithin inserted.before inserted.after p (IsFresh-IsWithin p fresh)
            (subst (All IsWithin) inserted.old h.within));
    })
    | inr (hit, e) ↦
        rw e (record { balanced = record { books = h.balanced.books }; within = h.within })
  ]

  Sound-create_plan : (p : CreditPlan) → IsFresh p → Keeps (Sound opening) (create_plan sv p)
  unfolding create_plan
  Sound-create_plan p fresh = Keeps-bind (Robust-now (Sound-Robust sv)) λ time.
      Keeps-bind (Keeps-new_object_id sv (Sound-Robust sv).free) λ id.
        Keeps-upsert_plan sv (Sound-Robust sv).free _ _
          (Sound-upsert _ _ (record { api = fresh.api; chain = fresh.chain }))

module _ (sv : Services) (code_text : Value → String) (usage expiry : List ℕ) where
  -- What becomes of the state when something arrives; `usage` and `expiry` are the thresholds.
  abbrev pub arrive : Arrival → World → World
  arrive (job j) w = (append sv usage j w).1
  arrive (result channel m) w = (consume code_text sv channel m w).1
  arrive scan w = (scan_expiring_credits sv expiry w).1
  arrive (activate id app_id) w = (activate_credit sv id app_id w).1
  arrive (grant app_id request user source reference) w =
      (grant_credit sv app_id request user source reference w).1

  abbrev pub live : List Arrival → World → World
  live [] w = w
  live (a ∷ rest) w = live rest (arrive a w)

  arrive-Sound :
      {opening : Bool → String → ℕ} (a : Arrival) (w : World)
      → Sound opening w
      → Sound opening (arrive a w)
  arrive-Sound (job j) w h = (Sound-append sv usage j).at w h
  arrive-Sound (result channel m) w h =
      (Robust-consume code_text (Sound-Robust sv) channel m).at w h
  arrive-Sound scan w h = (Robust-scan_expiring_credits (Sound-Robust sv) expiry).at w h
  arrive-Sound (activate id app_id) w h =
      (Robust-activate_credit (Sound-Robust sv) id app_id).at w h
  arrive-Sound (grant app_id request user source reference) w h =
      (Robust-grant_credit (Sound-Robust sv) (Sound-create_plan sv) app_id request user source
          reference).at
        w h

  -- Let each meter of each plan show what it opened with and what the commit outbox has recorded for
  -- it, and no meter be above its limit. Whatever arrives then, valid or not, in whatever order and
  -- however often, and whatever becomes of the calls, both still hold at the end.
  pub live-Sound :
      (opening : Bool → String → ℕ) (arrivals : List Arrival) (w : World)
      → Sound opening w
      → Sound opening (live arrivals w)
  live-Sound opening [] w h = h
  live-Sound opening (a ∷ rest) w h = live-Sound opening rest (arrive a w) (arrive-Sound a w h)
