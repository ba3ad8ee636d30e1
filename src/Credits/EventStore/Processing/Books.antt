-- ===== src/Credits/EventStore/Processing/Books.antt =====
-- The books of the service (the meters of its plans against its commit outbox), and the updates of
-- a plan or of an outbox entry.
use entity_developer_dashboa.Prelude.{
  ℕ, String, Bool, List, ◌∷◌, ◌++◌, ◌≡◌, sym, ap, ◌∙◌, inl, inr, All, All-replace, total-replace,
  ◌+◌, arith,
}
use mathlib.Core.Path.{subst}
use entity_developer_dashboa.Exec.Keeps.{Keeps}
use entity_developer_dashboa.Collection.{Hit}
use entity_developer_dashboa.Credits.Schema.{CreditPlan, OutboxEntry}
use entity_developer_dashboa.Credits.Meters.{plan_use, IsWithin, Spares}
use entity_developer_dashboa.Credits.Robust.{Robust}
use entity_developer_dashboa.Credits.Repository.Commit.Books.{
  used_of, recorded_of, entry_use, Balanced,
}
use entity_developer_dashboa.World.{World, Services, update_entry}
use entity_developer_dashboa.World.Keeps.{Keeps-update_entry}

-- The books balance, and no meter is above its limit.
pub record Sound (opening : Bool → String → ℕ) (w : World) : Type 0 where
  pub balanced : Balanced opening w
  pub within : All IsWithin w.plans

module _ (sv : Services) where
  -- An update of an outbox entry that keeps its measurement keeps the books.
  recorded_of-update :
      (f : OutboxEntry → Bool) (u : OutboxEntry → OutboxEntry)
      → ((e : OutboxEntry) → (u e).event ≡ e.event)
      → (k : Bool) (id : String) (es : List OutboxEntry)
      → recorded_of k id (sv.outbox_store.find_one_and_update f u es).1 ≡ recorded_of k id es
  recorded_of-update f u same k id es = elim (sv.outbox_store.update_lem f u es) [
    | inl (misses, e) ↦ rw e
    | inr (hit, e) ↦
        let same_entry : entry_use k id (u hit.doc) ≡ entry_use k id hit.doc + 0 =
          rw (same hit.doc) (omega arith) in
        rw e (
          omega (
            arith,
            ap (recorded_of k id) hit.splits,
            total-replace (entry_use k id) hit.before hit.after hit.doc (u hit.doc) 0 same_entry,
          ))
  ]

module _ (sv : Services) {opening : Bool → String → ℕ} where
  -- An update of the plans that spares the meters keeps the books.
  Sound-plans :
      (f : CreditPlan → Bool) (u : CreditPlan → CreditPlan)
      → Spares u
      → (w : World) → Sound opening w
      → Sound opening (record w { plans = (sv.plan_store.find_one_and_update f u w.plans).1 })
  Sound-plans f u s w h = elim (sv.plan_store.update_lem f u w.plans) [
    | inl (misses, e) ↦
        rw e (record { balanced = record { books = h.balanced.books }; within = h.within })
    | inr (hit, e) ↦ rw e (record {
      balanced = record {
        books =
            λ k id. replaced k id hit ∙ ap (used_of k id) (sym hit.splits) ∙ h.balanced.books k id;
      };
      within =
          All-replace IsWithin hit.before hit.after hit.doc (u hit.doc) (s.within hit.doc)
            (subst (All IsWithin) hit.splits h.within);
    })
  ]
    where
      replaced :
          (k : Bool) (id : String) (hit : Hit f w.plans)
          → used_of k id (hit.before ++ u hit.doc ∷ hit.after)
            ≡ used_of k id (hit.before ++ hit.doc ∷ hit.after)
      replaced k id hit = omega (
        arith,
        total-replace (plan_use k id) hit.before hit.after hit.doc (u hit.doc) 0
            (omega (arith, s.same_use k id hit.doc)),
      )

  pub Sound-Robust : Robust sv (Sound opening)
  Sound-Robust = record {
    free = record {
      at =
          λ w _ _ _ h. record { balanced = record { books = h.balanced.books }; within = h.within };
    };
    mails = λ w _ h. record { balanced = record { books = h.balanced.books }; within = h.within };
    queued = λ w _ h. record { balanced = record { books = h.balanced.books }; within = h.within };
    broadcasts =
        λ w _ h. record { balanced = record { books = h.balanced.books }; within = h.within };
    plans = Sound-plans;
  }

  pub Sound-update_entry :
      (f : OutboxEntry → Bool) (u : OutboxEntry → OutboxEntry)
      → ((e : OutboxEntry) → (u e).event ≡ e.event)
      → Keeps (Sound opening) (update_entry sv f u)
  Sound-update_entry f u same = Keeps-update_entry sv Sound-Robust.free f u λ w h. record {
    balanced = record {
      books = λ k id. rw (recorded_of-update sv f u same k id w.outbox) (h.balanced.books k id);
    };
    within = h.within;
  }
