-- ===== src/Exec/Triple.antt =====
-- What an action ends in: a predicate of the result and the state when it returns, one of the state
-- when it throws.
use entity_developer_dashboa.Prelude.{Option, none, some, Bool, true, false, ◌≡◌, refl}
use entity_developer_dashboa.Exec.{
  Failure, Result, ok, err, Exec, pure, throw, lift, catch, ◌>>=◌, throw_if, or_throw,
}
use entity_developer_dashboa.Exec.Keeps.{Keeps}

module _ {S A : Type 0} where
  abbrev pub Post : (A → S → Type 0) → (S → Type 0) → Result A × S → Type 0
  Post Q E (ok got, after) = Q got after
  Post Q E (err e, after) = E after

  pub record Triple (P : S → Type 0) (first : Exec S A) (Q : A → S → Type 0) (E : S → Type 0)
      : Type 0 where
    pub at : (now : S) → P now → Post Q E (first now)

module _ {S : Type 0} {P E : S → Type 0} where
  pub Triple-bind :
      {A B : Type 0} {first : Exec S A} {next : A → Exec S B} {Q : A → S → Type 0}
      {R : B → S → Type 0}
      → Triple P first Q E
      → ((got : A) → Triple (Q got) (next got) R E)
      → Triple P (first >>= next) R E
  unfolding ◌>>=◌
  Triple-bind {A} {B} {first} {next} {Q} {R} h k = record {
    at = λ now p. go (first now) (h.at now p);
  }
    where
      go :
          (out : Result A × S)
          → Post Q E out
          → Post R E (entity_developer_dashboa.Exec.continue out.0 next out.1)
      go (ok got, after) q = (k got).at after q
      go (err e, after) q = q

  pub Triple-throw_if :
      (b : Bool) (e : Failure)
      → ((now : S) → P now → E now)
      → Triple P (throw_if b e) (λ u now. P now × (b ≡ false)) E
  unfolding throw_if
  Triple-throw_if true e h = record { at = h }
  Triple-throw_if false e h = record { at = λ now p. (p, refl) }

  -- A kept predicate that implies both ends.
  pub Triple-Keeps :
      {A : Type 0} {first : Exec S A} {Q : A → S → Type 0}
      → Keeps P first
      → ((got : A) (now : S) → P now → Q got now)
      → ((now : S) → P now → E now)
      → Triple P first Q E
  Triple-Keeps {A} {first} {Q} k q e = record { at = λ now p. go (first now) (k.at now p) }
    where
      go : (out : Result A × S) → P out.1 → Post Q E out
      go (ok got, after) p = q got after p
      go (err x, after) p = e after p

  pub Triple-weaken :
      {A : Type 0} {P' : S → Type 0} {first : Exec S A} {Q : A → S → Type 0}
      → ((now : S) → P' now → P now)
      → Triple P first Q E
      → Triple P' first Q E
  Triple-weaken f t = record { at = λ now p. t.at now (f now p) }

-- A predicate that both ends imply is kept.
pub Keeps-Triple :
    {S : Type 0} {P : S → Type 0} {A : Type 0} {first : Exec S A}
    → Triple P first (λ got now. P now) P
    → Keeps P first
Keeps-Triple {S} {P} {A} {first} t = record { at = λ now p. go (first now) (t.at now p) }
  where
    go : (out : Result A × S) → Post (λ got now. P now) P out → P out.1
    go (ok got, after) p = p
    go (err x, after) p = p

pub Triple-or_throw :
    {S A : Type 0} {E : S → Type 0} (e : Failure) (Q : Option A → S → Type 0) (o : Option A)
    → ((now : S) → Q none now → E now)
    → Triple (Q o) (or_throw e o) (λ got now. Q (some got) now) E
unfolding or_throw
Triple-or_throw e Q none h = record { at = h }
Triple-or_throw e Q (some got) h = record { at = λ now p. p }

pub Triple-ends :
    {S A : Type 0} {P E E' : S → Type 0} {first : Exec S A} {Q Q' : A → S → Type 0}
    → Triple P first Q E
    → ((got : A) (now : S) → Q got now → Q' got now)
    → ((now : S) → E now → E' now)
    → Triple P first Q' E'
Triple-ends {S} {A} {P} {E} {E'} {first} {Q} {Q'} t q e = record {
  at = λ now p. go (first now) (t.at now p);
}
  where
    go : (out : Result A × S) → Post Q E out → Post Q' E' out
    go (ok got, after) h = q got after h
    go (err x, after) h = e after h

-- A fact that the state before gives may be used of the action.
pub Triple-assume :
    {S A : Type 0} {P E : S → Type 0} {first : Exec S A} {Q : A → S → Type 0} {B : Type 0}
    → ((now : S) → P now → B)
    → (B → Triple P first Q E)
    → Triple P first Q E
Triple-assume f k = record { at = λ now p. (k (f now p)).at now p }
