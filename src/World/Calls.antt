-- ===== src/World/Calls.antt =====
-- What is known after a call of a service, and after each operation of the database, whatever the
-- fate of the call.
use entity_developer_dashboa.Prelude.{
  suc, Bool, List, ◌∷◌, ◌++◌, some, ◌≡◌, refl, sym, ap, ◌∙◌, inl, inr, or_default,
}
use entity_developer_dashboa.Exec.{Result, ok, err, ◌>>=◌, continue, from_ok}
use entity_developer_dashboa.Exec.Keeps.{Keeps}
use entity_developer_dashboa.Exec.Triple.{Triple, Post}
use entity_developer_dashboa.Collection.{Misses, Hit, Inserted}
use entity_developer_dashboa.Credits.Schema.{CreditPlan, OutboxEntry}
use entity_developer_dashboa.World.{
  World, Services, Action, Fate, done, refused, lost, call, settle_call, update_plan, save_entry,
  with_plans, or_duplicate, join_result, Action,
}

-- A successful block is a successful first action and a successful rest.
pub bind_ok :
    {A B : Type 0} (m : Action A) (f : A → Action B) (w : World) {b : B} {w' : World}
    → (m >>= f) w ≡ (ok b, w')
    → (a : A) × (v : World) × (m w ≡ (ok a, v)) × (f a v ≡ (ok b, w'))
unfolding ◌>>=◌
bind_ok {A} {B} m f w {b} {w'} h = go (m w).0 (m w).1 refl h
  where
    go :
        (r : Result A) (v : World)
        → m w ≡ (r, v)
        → continue r f v ≡ (ok b, w')
        → (a : A) × (v : World) × (m w ≡ (ok a, v)) × (f a v ≡ (ok b, w'))
    go (ok a) v e k = (a, v, e, k)
    go (err x) v e k = cc

abbrev pub bump : World → World
bump w = record w { calls = suc w.calls }

module _ (sv : Services) where
  call_ok :
      {A : Type 0} (f : World → A × World) (w : World) {a : A} {w' : World}
      → call sv f w ≡ (ok a, w')
      → f (bump w) ≡ (a, w')
  unfolding call
  call_ok {A} f w {a} {w'} h = go (sv.fate w.calls) h
    where
      go : (t : Fate) → settle_call t (f (bump w)) (bump w) ≡ (ok a, w') → f (bump w) ≡ (a, w')
      go done h = ap (λ r. (from_ok a r.0, r.1)) h
      go (refused e) h = cc
      go (lost e) h = cc

  -- What is known after a call, by its fate.
  pub Triple-call :
      {A : Type 0} {P : World → Type 0} {Q : A → World → Type 0} {E : World → Type 0}
      (f : World → A × World)
      → ((w : World) → P w → E (bump w))
      → ((w : World) → P w → Q (f (bump w)).0 (f (bump w)).1)
      → ((w : World) → P w → E (f (bump w)).1)
      → Triple P (call sv f) Q E
  unfolding call
  Triple-call {A} {P} {Q} {E} f a b c = record { at = λ w h. go w h (sv.fate w.calls) }
    where
      go : (w : World) → P w → (t : Fate) → Post Q E (settle_call t (f (bump w)) (bump w))
      go w h done = b w h
      go w h (refused e) = a w h
      go w h (lost e) = c w h

  -- A call that keeps a predicate when it is done keeps it in every case.
  pub Keeps-call :
      {A : Type 0} {P : World → Type 0} (f : World → A × World)
      → ((w : World) → P w → P (bump w))
      → ((w : World) → P w → P (f w).1)
      → Keeps P (call sv f)
  unfolding call
  Keeps-call {A} {P} f b k = record { at = λ w h. go w h (sv.fate w.calls) }
    where
      go : (w : World) → P w → (t : Fate) → P (settle_call t (f (bump w)) (bump w)).1
      go w h done = k (bump w) (b w h)
      go w h (refused e) = b w h
      go w h (lost e) = k (bump w) (b w h)

  -- After a successful update of a document: one that fits was there, and it alone is changed.
  pub record Updated (f : CreditPlan → Bool) (u : CreditPlan → CreditPlan) (w w' : World)
      : Type 0 where
    pub hit : Hit f w.plans
    pub after : w' ≡ record (bump w) { plans = hit.before ++ u hit.doc ∷ hit.after }

  pub update_plan_ok :
      (f : CreditPlan → Bool) (u : CreditPlan → CreditPlan) (w : World) {p : CreditPlan}
      {w' : World}
      → update_plan sv f u w ≡ (ok (some p), w')
      → (d : Updated f u w w') × (p ≡ u d.hit.doc)
  unfolding update_plan
  update_plan_ok f u w {p} {w'} h = elim (sv.plan_store.update_lem f u w.plans) [
    | inl (misses, e) ↦
        let q = ap (with_plans sv (bump w)) (sym e) ∙ call_ok _ w h in cc (ap (λ r. r.0) q)
    | inr (hit, e) ↦
        let q = ap (with_plans sv (bump w)) (sym e) ∙ call_ok _ w h in
        (record { hit = hit; after = sym (ap (λ r. r.1) q) }, sym (ap (λ r. or_default r.0 p) q))
  ]

  -- After a successful insertion into the outbox: no entry of the event was there.
  pub record Saved (same : OutboxEntry → Bool) (entry : OutboxEntry) (w w' : World) : Type 0 where
    pub misses : Misses same w.outbox
    pub outbox : List OutboxEntry
    pub inserted : Inserted entry w.outbox outbox
    pub after : w' ≡ record (bump w) { outbox = outbox }

  pub save_entry_ok :
      (same : OutboxEntry → Bool) (entry : OutboxEntry) (w : World) {a : Unit {0}} {w' : World}
      → save_entry sv same entry w ≡ (ok a, w')
      → Saved same entry w w'
  unfolding save_entry
  save_entry_ok same entry w {a} {w'} h =
      go (call sv save w).0 (call sv save w).1 refl (ap (λ r. r.0) h) (ap (λ r. r.1) h)
    where
      save : World → Result (Unit {0}) × World
      save v = or_duplicate sv v (sv.outbox_store.insert same entry v.outbox)

      go :
          (r : Result (Result (Unit {0}))) (v : World)
          → call sv save w ≡ (r, v)
          → join_result sv r ≡ ok a
          → v ≡ w'
          → Saved same entry w w'
      go (ok (ok b)) v c k same_world = elim (sv.outbox_store.insert_lem same entry w.outbox) [
        | inl (misses, (es, inserted, e)) ↦
            let q = ap (or_duplicate sv (bump w)) (sym e) ∙ call_ok _ w c in
            record {
              misses = misses;
              outbox = es;
              inserted = inserted;
              after = sym same_world ∙ sym (ap (λ r. r.1) q);
            }
        | inr (hit, e) ↦
            let q = ap (or_duplicate sv (bump w)) (sym e) ∙ call_ok _ w c in cc (ap (λ r. r.0) q)
      ]
      go (ok (err x)) v c k same_world = cc
      go (err x) v c k same_world = cc
