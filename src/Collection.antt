-- ===== src/Collection.antt =====
-- What the code relies on of a Mongo collection (mongoose, not in the repository): the operations
-- on the list of its documents, and what the documentation says of them. Which of several matching
-- documents is taken, and where a new one is put, is left open.
pub mod InMemory
use entity_developer_dashboa.Prelude.{
  Bool, true, false, List, [], ◌∷◌, ◌++◌, Option, none, some, ◌≡◌, sym, ◌∙◌, ◌⊎◌, All, All-middle,
}
use mathlib.Core.Path.{subst}
use mathlib.Core.Bool.{false≢true}

module _ {Doc : Type 0} where
  -- No document fits the filter.
  abbrev pub Misses : (Doc → Bool) → List Doc → Type 0
  Misses f ds = All (λ d. f d ≡ false) ds

  -- A document of the collection that fits the filter, and the documents around it.
  pub record Hit (f : Doc → Bool) (ds : List Doc) : Type 0 where
    pub before : List Doc
    pub doc : Doc
    pub after : List Doc
    pub splits : ds ≡ before ++ doc ∷ after
    pub fits : f doc ≡ true

  -- The second list is the first with one more document.
  pub record Inserted (doc : Doc) (ds es : List Doc) : Type 0 where
    pub before : List Doc
    pub after : List Doc
    pub old : ds ≡ before ++ after
    pub new : es ≡ before ++ doc ∷ after

  -- A filter does not both fit a document and miss them all.
  pub not-Hit : {f : Doc → Bool} {ds : List Doc} → Hit f ds → Misses f ds → ⊥
  not-Hit {f} h misses =
      let missed =
        All-middle (λ d. f d ≡ false) h.before h.after h.doc
          (subst (All (λ d. f d ≡ false)) h.splits misses) in
      false≢true (sym missed ∙ h.fits)

pub record Collection (Doc : Type 0) : Type 0 where
  pub find_one : (Doc → Bool) → List Doc → Option Doc
  pub find_many : (Doc → Bool) → List Doc → List Doc
  pub find_one_and_update : (Doc → Bool) → (Doc → Doc) → List Doc → Option Doc × List Doc
  -- An insertion under a unique index: the filter finds the documents of the same key.
  pub insert : (Doc → Bool) → Doc → List Doc → Option (List Doc)
  -- findOneAndUpdate with $setOnInsert and upsert
  pub upsert : (Doc → Bool) → Doc → List Doc → Doc × List Doc
  pub find_one_lem :
      (f : Doc → Bool) (ds : List Doc)
      → (Misses f ds × (find_one f ds ≡ none)) ⊎ ((h : Hit f ds) × (find_one f ds ≡ some h.doc))
  pub find_many_lem : (f : Doc → Bool) (ds : List Doc) → All (λ d. f d ≡ true) (find_many f ds)
  pub update_lem :
      (f : Doc → Bool) (u : Doc → Doc) (ds : List Doc)
      → (Misses f ds × (find_one_and_update f u ds ≡ (none, ds)))
        ⊎ ((h : Hit f ds) × (find_one_and_update f u ds
              ≡ (some (u h.doc), h.before ++ u h.doc ∷ h.after)))
  pub insert_lem :
      (f : Doc → Bool) (doc : Doc) (ds : List Doc)
      → (Misses f ds × ((es : List Doc) × Inserted doc ds es × (insert f doc ds ≡ some es)))
        ⊎ (Hit f ds × (insert f doc ds ≡ none))
  pub upsert_lem :
      (f : Doc → Bool) (doc : Doc) (ds : List Doc)
      → (Misses f ds × ((es : List Doc) × Inserted doc ds es × (upsert f doc ds ≡ (doc, es))))
        ⊎ ((h : Hit f ds) × (upsert f doc ds ≡ (h.doc, ds)))
