-- ===== src/Exec/Keeps.antt =====
-- Predicates on the state that an action keeps, whether it returns or throws.
use entity_developer_dashboa.Prelude.{
  List, [], ◌∷◌, Bool, true, false, Option, none, some, if◌then◌else◌, ◌≡◌, refl,
}
use entity_developer_dashboa.Exec.{
  Failure, Result, ok, err, Exec, pure, throw, gets, lift, catch, ◌>>=◌, skip, throw_if, for_each,
  if_some, or_throw,
}

pub record Keeps {S A : Type 0} (P : S → Type 0) (first : Exec S A) : Type 0 where
  pub at : (now : S) → P now → P (first now).1

module _ {S : Type 0} {P : S → Type 0} where
  module _ {A : Type 0} where
    pub Keeps-pure : (got : A) → Keeps P (pure got)
    unfolding pure
    Keeps-pure got = record { at = λ now h. h }

    pub Keeps-throw : (e : Failure) → Keeps P (throw {A = A} e)
    unfolding throw
    Keeps-throw e = record { at = λ now h. h }

    pub Keeps-gets : (next : S → A) → Keeps P (gets next)
    unfolding gets
    Keeps-gets next = record { at = λ now h. h }

    pub Keeps-lift : (r : Result A) → Keeps P (lift r)
    unfolding lift
    Keeps-lift r = record { at = λ now h. h }

    pub Keeps-catch :
        {first : Exec S A} {h : Failure → Exec S A}
        → Keeps P first
        → ((e : Failure) → Keeps P (h e))
        → Keeps P (catch first h)
    unfolding catch
    Keeps-catch {first} {h} k l = record {
      at = λ now p. handled (first now).0 (first now).1 (k.at now p);
    }
      where
        handled :
            (r : Result A) (now : S) → P now → P (entity_developer_dashboa.Exec.handle h r now).1
        handled (ok got) now p = p
        handled (err e) now p = (l e).at now p

  pub Keeps-skip : Keeps P skip
  unfolding skip
  Keeps-skip = record { at = λ now h. h }

  pub Keeps-throw_if : (b : Bool) (e : Failure) → Keeps P (throw_if b e)
  unfolding throw_if
  Keeps-throw_if true e = record { at = λ now h. h }
  Keeps-throw_if false e = record { at = λ now h. h }

  module _ {A B : Type 0} where
    Keeps-continue :
        {next : A → Exec S B}
        → ((got : A) → Keeps P (next got))
        → (r : Result A) (now : S) → P now
        → P (entity_developer_dashboa.Exec.continue r next now).1
    Keeps-continue k (ok got) now p = (k got).at now p
    Keeps-continue k (err e) now p = p

    pub Keeps-bind :
        {first : Exec S A} {next : A → Exec S B}
        → Keeps P first
        → ((got : A) → Keeps P (next got))
        → Keeps P (first >>= next)
    unfolding ◌>>=◌
    Keeps-bind {first} {next} k l = record {
      at = λ now p. Keeps-continue l (first now).0 (first now).1 (k.at now p);
    }

    -- What the first action returned may be used of the second.
    pub Keeps-bind_of :
        {first : Exec S A} {next : A → Exec S B}
        → Keeps P first
        → ((now after : S) (got : A) → first now ≡ (ok got, after) → Keeps P (next got))
        → Keeps P (first >>= next)
    unfolding ◌>>=◌
    Keeps-bind_of {first} {next} k l = record {
      at = λ now p. go now (first now).0 (first now).1 refl (k.at now p);
    }
      where
        go :
            (now : S) (r : Result A) (after : S)
            → first now ≡ (r, after)
            → P after
            → P (entity_developer_dashboa.Exec.continue r next after).1
        go now (ok got) after e p = (l now after got e).at after p
        go now (err x) after e p = p

    pub Keeps-lift_of :
        (r : Result A) {next : A → Exec S B}
        → ((got : A) → r ≡ ok got → Keeps P (next got))
        → Keeps P (lift r >>= next)
    unfolding ◌>>=◌
    Keeps-lift_of (ok got) k = record { at = (k got refl).at }
    Keeps-lift_of (err e) k = record { at = λ now p. p }

  pub Keeps-for_each :
      {A : Type 0} {next : A → Exec S (Unit {0})}
      → ((got : A) → Keeps P (next got))
      → (xs : List A) → Keeps P (for_each xs next)
  unfolding for_each
  Keeps-for_each k [] = record { at = λ now h. h }
  Keeps-for_each k (x ∷ xs) = record { at = (Keeps-bind (k x) (λ _. Keeps-for_each k xs)).at }

  pub Keeps-if_some :
      {A : Type 0} {next : A → Exec S (Unit {0})}
      → (o : Option A) → ((got : A) → Keeps P (next got))
      → Keeps P (if_some o next)
  unfolding if_some
  Keeps-if_some none k = record { at = λ now h. h }
  Keeps-if_some (some got) k = record { at = (k got).at }

  pub Keeps-or_throw : {A : Type 0} (e : Failure) (o : Option A) → Keeps P (or_throw e o)
  unfolding or_throw
  Keeps-or_throw e none = record { at = λ now h. h }
  Keeps-or_throw e (some got) = record { at = λ now h. h }

  pub Keeps-if :
      {A : Type 0} {first second : Exec S A}
      → (b : Bool) → Keeps P first
      → Keeps P second
      → Keeps P (if b then first else second)
  Keeps-if true k l = k
  Keeps-if false k l = l

pub ruleset keeps_rules = (
  Keeps-pure, Keeps-throw, Keeps-gets, Keeps-lift, Keeps-catch, Keeps-skip, Keeps-throw_if,
  Keeps-bind, Keeps-for_each, Keeps-if_some, Keeps-or_throw, Keeps-if,
)
