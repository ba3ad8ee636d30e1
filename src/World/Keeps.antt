-- ===== src/World/Keeps.antt =====
-- Predicates on the state that the operations of the database keep. A predicate that does not read
-- the counters is kept by every operation on a collection that it does not read.
use entity_developer_dashboa.Prelude.{ℕ, Bool, List, Option, none, some}
use entity_developer_dashboa.Exec.Keeps.{Keeps}
use entity_developer_dashboa.Credits.Schema.{CreditPlan, LedgerEvent, OutboxEntry}
use entity_developer_dashboa.World.{
  World, Services, call, now, random_uuid, new_object_id, find_plan, update_plan, upsert_plan,
  find_entry, update_entry, save_entry, find_event, save_event, or_duplicate, ask, find_plans,
  add_mail, add_job, broadcast, Mail, QueuedJob, Transaction,
}
use entity_developer_dashboa.World.Calls.{Keeps-call}

-- The predicate does not read the counters.
pub record Uncounted (P : World → Type 0) : Type 0 where
  pub at :
      (w : World) (calls readings draws : ℕ)
      → P w
      → P (record w { calls = calls; readings = readings; draws = draws })

module _ (sv : Services) {P : World → Type 0} where
  module _ (free : Uncounted P) where
    pub Keeps-now : Keeps P (now sv)
    unfolding now
    Keeps-now = record { at = λ w h. free.at w _ _ _ h }

    pub Keeps-random_uuid : Keeps P (random_uuid sv)
    unfolding random_uuid
    Keeps-random_uuid = record { at = λ w h. free.at w _ _ _ h }

    pub Keeps-new_object_id : Keeps P (new_object_id sv)
    unfolding new_object_id
    Keeps-new_object_id = record { at = λ w h. free.at w _ _ _ h }

    pub Keeps-find_plan : (f : CreditPlan → Bool) → Keeps P (find_plan sv f)
    unfolding find_plan
    Keeps-find_plan f = Keeps-call sv _ (λ w h. free.at w _ _ _ h) (λ w h. h)

    pub Keeps-find_entry : (f : OutboxEntry → Bool) → Keeps P (find_entry sv f)
    unfolding find_entry
    Keeps-find_entry f = Keeps-call sv _ (λ w h. free.at w _ _ _ h) (λ w h. h)

    pub Keeps-find_event : (f : LedgerEvent → Bool) → Keeps P (find_event sv f)
    unfolding find_event
    Keeps-find_event f = Keeps-call sv _ (λ w h. free.at w _ _ _ h) (λ w h. h)

    pub Keeps-ask : {A : Type 0} (f : World → A) → Keeps P (ask sv f)
    unfolding ask
    Keeps-ask f = Keeps-call sv _ (λ w h. free.at w _ _ _ h) (λ w h. h)

    pub Keeps-find_plans : (f : CreditPlan → Bool) → Keeps P (find_plans sv f)
    unfolding find_plans
    Keeps-find_plans f = Keeps-call sv _ (λ w h. free.at w _ _ _ h) (λ w h. h)

    pub Keeps-add_mail :
        (mail : Mail)
        → ((w : World) (mails : List Mail) → P w → P (record w { mails = mails }))
        → Keeps P (add_mail sv mail)
    unfolding add_mail
    Keeps-add_mail mail k = Keeps-call sv _ (λ w h. free.at w _ _ _ h) (λ w h. k w _ h)

    pub Keeps-add_job :
        (job : QueuedJob)
        → ((w : World) (queued : List QueuedJob) → P w → P (record w { queued = queued }))
        → Keeps P (add_job sv job)
    unfolding add_job
    Keeps-add_job job k = Keeps-call sv _ (λ w h. free.at w _ _ _ h) (λ w h. k w _ h)

    pub Keeps-broadcast :
        (tx : Transaction)
        → ((w : World) (sent : List Transaction) → P w → P (record w { broadcasts = sent }))
        → Keeps P (broadcast sv tx)
    unfolding broadcast
    Keeps-broadcast tx k = Keeps-call sv _ (λ w h. free.at w _ _ _ h) (λ w h. k w _ h)

    -- The changes of a collection, given what the predicate makes of them.
    pub Keeps-update_plan :
        (f : CreditPlan → Bool) (u : CreditPlan → CreditPlan)
        → ((w : World)
            → P w
            → P (record w { plans = (sv.plan_store.find_one_and_update f u w.plans).1 }))
        → Keeps P (update_plan sv f u)
    unfolding update_plan
    Keeps-update_plan f u k = Keeps-call sv _ (λ w h. free.at w _ _ _ h) k

    pub Keeps-upsert_plan :
        (f : CreditPlan → Bool) (p : CreditPlan)
        → ((w : World) → P w → P (record w { plans = (sv.plan_store.upsert f p w.plans).1 }))
        → Keeps P (upsert_plan sv f p)
    unfolding upsert_plan
    Keeps-upsert_plan f p k = Keeps-call sv _ (λ w h. free.at w _ _ _ h) k

    pub Keeps-update_entry :
        (f : OutboxEntry → Bool) (u : OutboxEntry → OutboxEntry)
        → ((w : World)
            → P w
            → P (record w { outbox = (sv.outbox_store.find_one_and_update f u w.outbox).1 }))
        → Keeps P (update_entry sv f u)
    unfolding update_entry
    Keeps-update_entry f u k = Keeps-call sv _ (λ w h. free.at w _ _ _ h) k

    pub Keeps-save_event :
        (event : LedgerEvent)
        → ((w : World) (ledger : List LedgerEvent) → P w → P (record w { ledger = ledger }))
        → Keeps P (save_event sv event)
    unfolding save_event
    Keeps-save_event event k = Keeps-call sv _ (λ w h. free.at w _ _ _ h) (λ w h. k w _ h)

    pub Keeps-save_entry :
        (same : OutboxEntry → Bool) (entry : OutboxEntry)
        → ((w : World) (outbox : List OutboxEntry) → P w → P (record w { outbox = outbox }))
        → Keeps P (save_entry sv same entry)
    unfolding save_entry
    Keeps-save_entry same entry k =
        let called : Keeps P (call sv _) =
          Keeps-call sv _ (λ w h. free.at w _ _ _ h)
            (λ w h. saved w h (sv.outbox_store.insert same entry w.outbox)) in
        record { at = called.at }
      where
        saved : (w : World) → P w → (o : Option (List OutboxEntry)) → P (or_duplicate sv w o).1
        saved w h none = h
        saved w h (some outbox) = k w outbox h
