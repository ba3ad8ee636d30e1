-- ===== src/People/Calls.antt =====
-- What is known before and after an access to a store, whatever its fate.
use entity_developer_dashboa.Prelude.{
  suc, Bool, true, false, not, List, Option, none, some, ◌≡◌, refl,
}
use entity_developer_dashboa.Exec.Triple.{Triple, Post}
use entity_developer_dashboa.World.{Fate, done, refused, lost}
use entity_developer_dashboa.Collection.{Hit}
use entity_developer_dashboa.People.{Team, Stores, access, settle}

abbrev pub bump : Team → Team
bump t = record t { calls = suc t.calls }

pub Triple-access :
    {A : Type 0} {P : Team → Type 0} {Q : A → Team → Type 0} {E : Team → Type 0} (st : Stores)
    (f : Team → A × Team)
    → ((t : Team) → P t → E (bump t))
    → ((t : Team) → P t → Q (f (bump t)).0 (f (bump t)).1)
    → ((t : Team) → P t → E (f (bump t)).1)
    → Triple P (access st f) Q E
unfolding access
Triple-access {A} {P} {Q} {E} st f a b c = record { at = λ t h. go t h (st.fate t.calls) }
  where
    go : (t : Team) → P t → (u : Fate) → Post Q E (settle u (f (bump t)) (bump t))
    go t h done = b t h
    go t h (refused e) = a t h
    go t h (lost e) = c t h

pub not-false : (b : Bool) → not b ≡ false → b ≡ true
not-false true h = refl
not-false false h = cc

-- What a query finds, beside a predicate of the state.
abbrev pub Found : {D : Type 0} → (Team → Type 0) → (D → Bool) → List D → Option D → Team → Type 0
Found P f ds none t = P t
Found P f ds (some x) t = P t × ((hit : Hit f ds) × (hit.doc ≡ x))
