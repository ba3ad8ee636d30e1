-- ===== src/Prelude/Text.antt =====
-- Texts: equality, truth of a text, `trim`, `endsWith`, and `slice` with a negative end.
use Prim.Native.Nat.{ℕ, zero, suc, ◌-◌, ◌+◌}
use Prim.Native.Char.{Char, code}
use Prim.Native.String
use Prim.Native.String.{String, [], ◌∷◌, count}
use mathlib.Core.Path.{◌≡◌, refl, sym, ap, ◌∙◌}
use mathlib.Core.Bool.{Bool, true, false, not, ◌&&◌, ◌||◌}
use text.Mathlib.Text.{◌==◌}
use text.Mathlib.TextEquality.{eq_iff}
use text.Mathlib.TextPositions.{eq_refl}
use text.Mathlib.TextLemmas.{length-cons, length-append, nil-append, cons-append}
use mathlib.Core.Logic.{inl, inr}
use mathlib.Core.List.{List}
use mathlib.Core.Option.{Option, none, some}
use native.Mathlib.Omega.{arith}
use entity_developer_dashboa.Prelude.Tests.{leb, if◌then◌else◌, Bool-cases, ◌==◌ as nat_eq}

-- `a === b` on texts
infix 50 ◌===◌
abbrev pub ◌===◌ : String → String → Bool
a === b = a == b

-- `o === s`, where `o` may be absent
abbrev pub is_same : Option String → String → Bool
is_same none s = false
is_same (some t) s = t === s

-- The truth of a text: it is not empty.
abbrev pub truthy : String → Bool
truthy s = not (s == "")

infixr 66 ◌⋅◌
abbrev pub ◌⋅◌ : String → String → String
s ⋅ t = String.◌++◌ s t

-- The white space and line ends that `trim` removes.
is_space : Char → Bool
is_space c =
    let k = code c in
    (leb 9 k && leb k 13)
    || nat_eq k 32
    || nat_eq k 0xa0
    || nat_eq k 0x1680
    || (leb 0x2000 k && leb k 0x200a)
    || nat_eq k 0x2028
    || nat_eq k 0x2029
    || nat_eq k 0x202f
    || nat_eq k 0x205f
    || nat_eq k 0x3000
    || nat_eq k 0xfeff

trim_start : String → String
trim_start [] = []
trim_start (c ∷ s) = if is_space c then trim_start s else c ∷ s

trim_end : String → String
trim_end [] = []
trim_end (c ∷ s) = let rest = trim_end s in if is_space c && rest == "" then "" else c ∷ rest

unfoldable pub trim : String → String
unfolding trim_start trim_end is_space
trim s = trim_end (trim_start s)

unfoldable pub ends_with : String → String → Bool
ends_with [] t = "" == t
ends_with (c ∷ s) t = (c ∷ s) == t || ends_with s t

-- `s.slice(0, n)`
unfoldable pub take : ℕ → String → String
take zero s = []
take (suc n) [] = []
take (suc n) (c ∷ s) = c ∷ take n s

-- `s.slice(0, -n)` for a positive n
unfoldable pub slice_end : String → ℕ → String
unfolding take
slice_end s n = take (count s - n) s

take-append : (s t : String) → take (count s) (s ⋅ t) ≡ s
unfolding take
take-append [] t = refl
take-append (c ∷ s) t = rw (length-cons, cons-append) (ap (λ r. c ∷ r) (take-append s t))

pub slice_end-append : (s t : String) → slice_end (s ⋅ t) (count t) ≡ s
unfolding slice_end
slice_end-append s t =
    let e : count (s ⋅ t) - count t ≡ count s = omega (arith, length-append s t) in
    rw e (take-append s t)

ends_with_self : (t : String) → ends_with t t ≡ true
unfolding ends_with
ends_with_self [] = refl
ends_with_self (c ∷ s) = ground (arith, eq_refl (c ∷ s))

pub ends_with-append : (s t : String) → ends_with (s ⋅ t) t ≡ true
unfolding ends_with
ends_with-append [] t = rw (nil-append t) (ends_with_self t)
ends_with-append (c ∷ s) t = rw (cons-append c s t) (ground (arith, ends_with-append s t))

pub ends_with_split : (s t : String) → ends_with s t ≡ true → (p : String) × (s ≡ p ⋅ t)
unfolding ends_with
ends_with_split [] t h = ("", (eq_iff "" t).0 h ∙ sym (nil-append t))
ends_with_split (c ∷ s) t h = elim (Bool-cases ((c ∷ s) == t)) [
  | inl here ↦ ("", (eq_iff _ t).0 here ∙ sym (nil-append t))
  | inr later ↦
      let (p, e) = ends_with_split s t (rw later at h) in
      (c ∷ p, ap (λ r. c ∷ r) e ∙ sym (cons-append c p t))
]

pub slice_end_of_ends_with : (s t : String) → ends_with s t ≡ true → slice_end s (count t) ⋅ t ≡ s
slice_end_of_ends_with s t h =
    let (p, e) = ends_with_split s t h in rw (e, slice_end-append p t) refl

-- The code points of a text.
abbrev pub codes : String → List ℕ
codes [] = List.[]
codes (c ∷ s) = List.◌∷◌ (code c) (codes s)

lower : ℕ → ℕ
lower c = if leb b'A' c && leb c b'Z' then c + 32 else c

starts_with : List ℕ → List ℕ → Bool
starts_with List.[] s = true
starts_with (List.◌∷◌ c t) List.[] = false
starts_with (List.◌∷◌ c t) (List.◌∷◌ d s) = nat_eq (lower c) (lower d) && starts_with t s

search_in : List ℕ → List ℕ → Bool
search_in t List.[] = starts_with t List.[]
search_in t (List.◌∷◌ d s) = starts_with t (List.◌∷◌ d s) || search_in t s

-- /t/i.test(s), for a plain text t
unfoldable pub mentions : String → String → Bool
unfolding search_in starts_with lower
mentions s t = search_in (codes t) (codes s)

-- `s.substr(n)`
unfoldable pub drop : ℕ → String → String
drop zero s = s
drop (suc n) [] = []
drop (suc n) (c ∷ s) = drop n s

longer : (c d : Char) (s : String) → (c ∷ d ∷ s == "/") ≡ false
longer c d s = elim (Bool-cases (c ∷ d ∷ s == "/")) [
  | inl same ↦
      let e : count (c ∷ d ∷ s) ≡ 1 = ap count ((eq_iff (c ∷ d ∷ s) "/").0 same) in
      let bad : ⊥ = omega (arith, e, length-cons c (d ∷ s), length-cons d s) in elim bad [ ]
  | inr other ↦ other
]

drop_last : (c : Char) (s : String) → (drop (count s) (c ∷ s) === "/") ≡ ends_with (c ∷ s) "/"
unfolding ends_with drop
drop_last c [] = ground arith
drop_last c (d ∷ s) = rw (length-cons d s, longer c d s) (drop_last d s)

-- The last character of a text, found in two ways.
pub drop-ends_with :
    (s : String) → not (truthy s) ≡ false → (drop (count s - 1) s === "/") ≡ ends_with s "/"
drop-ends_with [] h = cc
drop-ends_with (c ∷ s) h =
    let e : count (c ∷ s) - 1 ≡ count s = omega (arith, length-cons c s) in rw e (drop_last c s)

pub take-slice_end : (s : String) (n : ℕ) → take (count s - n) s ≡ slice_end s n
unfolding slice_end
take-slice_end s n = refl
