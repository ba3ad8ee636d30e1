-- ===== src/Exec.antt =====
-- Asynchronous methods that change the state of the service and may throw: what an `await` of
-- them gives, and the exceptions of the framework. A message is kept without the values that the
-- code puts into it.
pub mod Triple
pub mod Keeps
use entity_developer_dashboa.Prelude.{
  String, List, [], ◌∷◌, Bool, true, false, Option, none, some, if◌then◌else◌, ◌≡◌, refl,
}

pub data Failure : Type 0 where
  bad_request unauthorized not_found conflict forbidden internal_server_error error :
      String → Failure
  -- Mongo's error 11000
  duplicate_key : Failure
  -- a rejected call of an external service
  rejected : String → Failure

-- `e.message`
abbrev pub message : Failure → String
message (bad_request first) = first
message (not_found first) = first
message (unauthorized first) = first
message (conflict first) = first
message (forbidden first) = first
message (internal_server_error first) = first
message (error first) = first
message duplicate_key = "E11000 duplicate key error"
message (rejected first) = first

pub data Result {ℓ} (A : Type ℓ) : Type ℓ where
  ok : A → Result A
  err : Failure → Result A

abbrev pub from_ok {ℓ} : {A : Type ℓ} → A → Result A → A
from_ok d (ok got) = got
from_ok d (err e) = d

-- What was written before a throw stays written, so the state comes back beside the failure too.
abbrev pub Exec : Type 0 → Type 0 → Type 0
Exec S A = S → Result A × S

module _ {S A : Type 0} where
  unfoldable pub gets : (S → A) → Exec S A
  gets next now = (ok (next now), now)

  unfoldable pub throw : Failure → Exec S A
  throw e now = (err e, now)

  -- A pure computation that may throw.
  unfoldable pub lift : Result A → Exec S A
  lift r now = (r, now)

  unfoldable pub pure : A → Exec S A
  pure got now = (ok got, now)

  abbrev handle : (Failure → Exec S A) → Result A → Exec S A
  handle h (ok got) now = (ok got, now)
  handle h (err e) now = h e now

  -- try { m } catch (e) { h }
  unfoldable pub catch : Exec S A → (Failure → Exec S A) → Exec S A
  catch first h now = let (r, after) = first now in handle h r after

module _ {S : Type 0} where
  unfoldable pub skip : Exec S (Unit {0})
  skip now = (ok tt, now)

  -- if (b) throw e;
  unfoldable pub throw_if : Bool → Failure → Exec S (Unit {0})
  throw_if true e now = (err e, now)
  throw_if false e now = (ok tt, now)

module _ {S A : Type 0} where
  -- if (x) f(x);
  unfoldable pub if_some : Option A → (A → Exec S (Unit {0})) → Exec S (Unit {0})
  if_some none next now = (ok tt, now)
  if_some (some got) next now = next got now

  -- if (!x) throw e;
  unfoldable pub or_throw : Failure → Option A → Exec S A
  or_throw e none now = (err e, now)
  or_throw e (some got) now = (ok got, now)

module _ {S A B : Type 0} where
  abbrev pub continue : Result A → (A → Exec S B) → Exec S B
  continue (ok got) next now = next got now
  continue (err e) next now = (err e, now)

  infixl 5 ◌>>=◌ ◌>>◌
  -- To unfold this is to unfold the actions above too.
  unfoldable pub ◌>>=◌ : Exec S A → (A → Exec S B) → Exec S B
  unfolding skip gets throw lift pure catch throw_if if_some or_throw
  ◌>>=◌ first next now = let (r, after) = first now in continue r next after

  abbrev pub ◌>>◌ : Exec S A → Exec S B → Exec S B
  first >> second = first >>= λ _. second

module _ {S : Type 0} where
  -- for (const x of xs) await f(x);
  unfoldable pub for_each : {A : Type 0} → List A → (A → Exec S (Unit {0})) → Exec S (Unit {0})
  for_each [] next now = (ok tt, now)
  for_each (x ∷ xs) next now = (next x >> for_each xs next) now

-- Pure code that may throw.
module _ {A B : Type 0} where
  infixl 5 ◌>>=?◌
  abbrev pub ◌>>=?◌ : Result A → (A → Result B) → Result B
  ok got >>=? next = next got
  err e >>=? next = err e

  -- A successful chain is a successful first part and a successful rest.
  pub then_ok :
      (first : Result A) (next : A → Result B) {b : B}
      → (first >>=? next) ≡ ok b
      → (got : A) × (first ≡ ok got) × (next got ≡ ok b)
  then_ok (ok got) next h = (got, refl, h)
  then_ok (err e) next h = cc

abbrev pub fail_if : Bool → Failure → Result (Unit {0})
fail_if true e = err e
fail_if false e = ok tt

pub fail_if_ok : (b : Bool) (e : Failure) {u : Unit {0}} → fail_if b e ≡ ok u → b ≡ false
fail_if_ok true e h = cc
fail_if_ok false e h = refl
