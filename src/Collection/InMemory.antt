-- ===== src/Collection/InMemory.antt =====
-- A collection that keeps its documents in the order of insertion and takes the first that fits:
-- the assumptions on a collection can be met.
use entity_developer_dashboa.Prelude.{
  All, Bool, true, List, [], ◌∷◌, ◌++◌, Option, none, some, ◌≡◌, refl, ◌⊎◌, inl, inr, find, keep,
  if◌then◌else◌, Bool-cases, ap,
}
use entity_developer_dashboa.Collection.{Collection, Misses, Hit, Inserted}
use mathlib.Core.List.{append-nil}

module _ {Doc : Type 0} where
  abbrev pub put_back : Doc → Option Doc × List Doc → Option Doc × List Doc
  put_back d (o, ds) = (o, d ∷ ds)

  abbrev pub update_first : (Doc → Bool) → (Doc → Doc) → List Doc → Option Doc × List Doc
  update_first f u [] = (none, [])
  update_first f u (d ∷ ds) =
      if f d then (some (u d), u d ∷ ds) else put_back d (update_first f u ds)

  abbrev unless_found : Option Doc → Doc → List Doc → Option (List Doc)
  unless_found none doc ds = some (ds ++ doc ∷ [])
  unless_found (some d) doc ds = none

  abbrev pub insert_last : (Doc → Bool) → Doc → List Doc → Option (List Doc)
  insert_last f doc ds = unless_found (find f ds) doc ds

  abbrev or_insert : Option Doc → Doc → List Doc → Doc × List Doc
  or_insert none doc ds = (doc, ds ++ doc ∷ [])
  or_insert (some d) doc ds = (d, ds)

  abbrev pub upsert_last : (Doc → Bool) → Doc → List Doc → Doc × List Doc
  upsert_last f doc ds = or_insert (find f ds) doc ds

  abbrev Hit-cons : {f : Doc → Bool} (d : Doc) {ds : List Doc} → Hit f ds → Hit f (d ∷ ds)
  Hit-cons d h = record {
    before = d ∷ h.before;
    doc = h.doc;
    after = h.after;
    splits = ap (λ r. d ∷ r) h.splits;
    fits = h.fits;
  }

  abbrev Hit-head : {f : Doc → Bool} (d : Doc) (ds : List Doc) → f d ≡ true → Hit f (d ∷ ds)
  Hit-head d ds e = record { before = []; doc = d; after = ds; splits = refl; fits = e }

  pub find_lem :
      (f : Doc → Bool) (ds : List Doc)
      → (Misses f ds × (find f ds ≡ none)) ⊎ ((h : Hit f ds) × (find f ds ≡ some h.doc))
  find_lem f [] = inl (tt, refl)
  find_lem f (d ∷ ds) = elim (Bool-cases (f d)) [
    | inl e ↦ inr (Hit-head d ds e, rw e)
    | inr e ↦ elim (find_lem f ds) [
      | inl (misses, p) ↦ inl ((e, misses), rw e p)
      | inr (h, p) ↦ inr (Hit-cons d h, rw e p)
    ]
  ]

  pub update_first_lem :
      (f : Doc → Bool) (u : Doc → Doc) (ds : List Doc)
      → (Misses f ds × (update_first f u ds ≡ (none, ds)))
        ⊎ ((h : Hit f ds) × (update_first f u ds ≡ (some (u h.doc), h.before ++ u h.doc ∷ h.after)))
  update_first_lem f u [] = inl (tt, refl)
  update_first_lem f u (d ∷ ds) = elim (Bool-cases (f d)) [
    | inl e ↦ inr (Hit-head d ds e, rw e)
    | inr e ↦ elim (update_first_lem f u ds) [
      | inl (misses, p) ↦ inl ((e, misses), rw e (ap (put_back d) p))
      | inr (h, p) ↦ inr (Hit-cons d h, rw e (ap (put_back d) p))
    ]
  ]

  Inserted-last : (doc : Doc) (ds : List Doc) → Inserted doc ds (ds ++ doc ∷ [])
  Inserted-last doc ds = record { before = ds; after = []; old = rw append-nil; new = refl }

  pub insert_last_lem :
      (f : Doc → Bool) (doc : Doc) (ds : List Doc)
      → (Misses f ds × ((es : List Doc) × Inserted doc ds es × (insert_last f doc ds ≡ some es)))
        ⊎ (Hit f ds × (insert_last f doc ds ≡ none))
  insert_last_lem f doc ds = elim (find_lem f ds) [
    | inl (misses, p) ↦ inl (misses, (ds ++ doc ∷ [], Inserted-last doc ds, rw p))
    | inr (h, p) ↦ inr (h, rw p)
  ]

  pub upsert_last_lem :
      (f : Doc → Bool) (doc : Doc) (ds : List Doc)
      → (Misses f ds × ((es : List Doc) × Inserted doc ds es × (upsert_last f doc ds ≡ (doc, es))))
        ⊎ ((h : Hit f ds) × (upsert_last f doc ds ≡ (h.doc, ds)))
  upsert_last_lem f doc ds = elim (find_lem f ds) [
    | inl (misses, p) ↦ inl (misses, (ds ++ doc ∷ [], Inserted-last doc ds, rw p))
    | inr (h, p) ↦ inr (h, rw p)
  ]

  pub keep_lem : (f : Doc → Bool) (ds : List Doc) → All (λ d. f d ≡ true) (keep f ds)
  keep_lem f [] = tt
  keep_lem f (d ∷ ds) = elim (Bool-cases (f d)) [
    | inl e ↦ rw e (e, keep_lem f ds)
    | inr e ↦ rw e (keep_lem f ds)
  ]

  abbrev pub in_memory : Collection Doc
  in_memory = record {
    find_one = find;
    find_many = keep;
    find_one_and_update = update_first;
    insert = insert_last;
    upsert = upsert_last;
    find_one_lem = find_lem;
    find_many_lem = keep_lem;
    update_lem = update_first_lem;
    insert_lem = insert_last_lem;
    upsert_lem = upsert_last_lem;
  }
