-- ===== src/Credits/Repository/Commit/Progress.antt =====
-- When the transaction of applyPlanCreditCommit succeeds.
use entity_developer_dashboa.Prelude.{ℕ, suc, String, Bool, ◌≡◌, refl, inl, inr}
use entity_developer_dashboa.Exec.{ok, ◌>>=◌}
use entity_developer_dashboa.Collection.{Hit, Misses, not-Hit}
use entity_developer_dashboa.Credits.Schema.{LedgerEvent}
use entity_developer_dashboa.World.{World, Services, done, call, update_plan, save_entry}
use entity_developer_dashboa.Credits.Repository.Commit.{
  is_chargeable, charge, new_entry, same_event, commit_body,
}

module _ (sv : Services) (app_id plan_id : String) (amount : ℕ) (is_api : Bool)
    (service_type : String) (event : LedgerEvent) where
  -- If both calls of the database are done, the event is not in the outbox and some plan can take
  -- the amount, the body of the transaction returns one of the plans that can, charged with it.
  pub commit_body_done :
      (w : World)
      → sv.fate w.calls ≡ done
      → sv.fate (suc w.calls) ≡ done
      → Misses (same_event event.event_id) w.outbox
      → Hit (is_chargeable is_api amount app_id plan_id service_type) w.plans
      → (found : Hit (is_chargeable is_api amount app_id plan_id service_type) w.plans)
        × ((commit_body sv app_id plan_id amount is_api service_type event w).0
            ≡ ok (charge is_api amount service_type found.doc))
  unfolding commit_body save_entry update_plan call ◌>>=◌
  commit_body_done w f g fresh hit =
      elim (sv.outbox_store.insert_lem (same_event event.event_id) (new_entry event) w.outbox) [
        | inl (misses, (es, inserted, e)) ↦
            elim (sv.plan_store.update_lem (is_chargeable is_api amount app_id plan_id service_type)
              (charge is_api amount service_type) w.plans) [
                | inl (none_fits, q) ↦ absurd (not-Hit hit none_fits)
                | inr (found, q) ↦ (found, rw (f, e, g, q) refl)
              ]
        | inr (taken, e) ↦ absurd (not-Hit taken fresh)
      ]
