-- ===== src/Credits/Thresholds/Reached.antt =====
-- The threshold that a usage alert is sent for.
use mathlib.Core.List.{
  Mem, reverse_perm, Perm, Pairwise, Pairwise-reverse, mem-cons_self, mem-cons_of_mem, not-mem-nil,
  eq-or-mem_of_mem-cons, Pairwise-cons,
}
use mathlib.Core.List.Perm
use mathlib.Core.Logic.Or
use mathlib.Core.Path.{subst}
use native.Mathlib.Omega.{arith}
use native.Mathlib.Bridge.{le_prop}
use entity_developer_dashboa.Prelude.{
  ℕ, ◌≤◌, ◌<◌, ◌⊎◌, inl, inr, sym, Option, none, some, List, [], ◌∷◌, reverse, leb, find, All,
  Bool-cases, leb→le,
}
use entity_developer_dashboa.Credits.Thresholds.{
  insert_sorted, sort, usage_thresholds, reached_threshold,
}

Perm-insert_sorted : (n : ℕ) (ms : List ℕ) → Perm (insert_sorted (λ a b. leb a b) n ms) (n ∷ ms)
unfolding insert_sorted
Perm-insert_sorted n [] = Perm.refl (n ∷ [])
Perm-insert_sorted n (m ∷ ms) = elim (Bool-cases (leb n m)) [
  | inl e ↦ rw e (Perm.refl (n ∷ m ∷ ms))
  | inr e ↦ rw e (Perm.trans (Perm.cons m (Perm-insert_sorted n ms)) (Perm.swap n m ms))
]

Perm-sort : (ns : List ℕ) → Perm (sort (λ a b. leb a b) ns) ns
unfolding sort
Perm-sort [] = Perm.refl []
Perm-sort (n ∷ ns) =
    Perm.trans (Perm-insert_sorted n (sort (λ a b. leb a b) ns)) (Perm.cons n (Perm-sort ns))

-- Each threshold is at most those behind it.
abbrev Ascending : List ℕ → Type 0
Ascending ms = Pairwise (λ a b. a ≤ b) ms

below-cons :
    {k n : ℕ} {ms : List ℕ}
    → k ≤ n
    → ((b : ℕ) → Mem b ms → k ≤ b)
    → (b : ℕ) → Mem b (n ∷ ms)
    → k ≤ b
below-cons {k} {n} {ms} h below b mb =
    Or.elim le_prop (eq-or-mem_of_mem-cons mb) (λ e. subst (λ c. k ≤ c) (sym e) h) (λ m. below b m)

Ascending-insert_sorted :
    (n : ℕ) (ms : List ℕ) → Ascending ms → Ascending (insert_sorted (λ a b. leb a b) n ms)
unfolding insert_sorted
Ascending-insert_sorted n [] h = Pairwise.cons (λ b mb. absurd (not-mem-nil mb)) Pairwise.nil
Ascending-insert_sorted n (m ∷ ms) h =
    let split = Pairwise-cons.0 h in
    elim (Bool-cases (leb n m)) [
      | inl e ↦
          let first : n ≤ m = leb→le n m e in
          rw e (Pairwise.cons (below-cons first (λ b mb. omega (arith, first, split.0 b mb))) h)
      | inr e ↦
          let first : m ≤ n = ground arith in
          rw e (
            Pairwise.cons
              (λ b mb. below-cons first split.0 b ((Perm.mem_iff (Perm-insert_sorted n ms)).0 mb))
              (Ascending-insert_sorted n ms split.1))
    ]

Ascending-sort : (ns : List ℕ) → Ascending (sort (λ a b. leb a b) ns)
unfolding sort
Ascending-sort [] = Pairwise.nil
Ascending-sort (n ∷ ns) = Ascending-insert_sorted n (sort (λ a b. leb a b) ns) (Ascending-sort ns)

module _ (P : ℕ → Type 0) where
  All-mem : (ns : List ℕ) → ((n : ℕ) → Mem n ns → P n) → All P ns
  All-mem [] h = tt
  All-mem (n ∷ ns) h = (h n mem-cons_self, All-mem ns (λ m mm. h m (mem-cons_of_mem n mm)))

  mem-All : ((n : ℕ) → IsProp (P n)) → (ns : List ℕ) → All P ns → (n : ℕ) → Mem n ns → P n
  mem-All prop [] all n m = absurd (not-mem-nil m)
  mem-All prop (k ∷ ns) all n m =
      Or.elim (prop n) (eq-or-mem_of_mem-cons m) (λ e. subst P (sym e) all.0)
        (λ rest. mem-All prop ns all.1 n rest)

  All-Perm : ((n : ℕ) → IsProp (P n)) → {ns ms : List ℕ} → Perm ms ns → All P ns → All P ms
  All-Perm prop {ns} {ms} q all = All-mem ms (λ n m. mem-All prop ns all n ((Perm.mem_iff q).0 m))

  All-map : (Q : ℕ → Type 0) (ns : List ℕ) → ((n : ℕ) → P n → Q n) → All P ns → All Q ns
  All-map Q [] f all = tt
  All-map Q (n ∷ ns) f all = (f n all.0, All-map Q ns f all.1)

-- The greatest number of the list that is at most the given one, if there is any.
abbrev pub IsReached : List ℕ → ℕ → Option ℕ → Type 0
IsReached ns used none = All (λ n. used < n) ns
IsReached ns used (some m) = Mem m ns × (m ≤ used) × All (λ n. (n ≤ m) ⊎ (used < n)) ns

-- The first that fits in a descending list is the greatest that fits.
find-IsReached :
    (used : ℕ) (ns : List ℕ)
    → Pairwise (λ a b. b ≤ a) ns
    → IsReached ns used (find (λ v. leb v used) ns)
find-IsReached used [] h = tt
find-IsReached used (n ∷ ns) h =
    let split = Pairwise-cons.0 h in
    elim (Bool-cases (leb n used)) [
      | inl e ↦ rw e (
        mem-cons_self,
        leb→le n used e,
        (inl (ground arith), All-mem (λ m. (m ≤ n) ⊎ (used < m)) ns (λ m mm. inl (split.0 m mm))),
      )
      | inr e ↦
          rw e (later (find (λ v. leb v used) ns) (find-IsReached used ns split.1) (ground arith))
    ]
  where
    later : (o : Option ℕ) → IsReached ns used o → used < n → IsReached (n ∷ ns) used o
    later none r over = (over, r)
    later (some m) r over = (mem-cons_of_mem n r.0, r.1, (inr over, r.2))

IsReached-Perm :
    {ns ms : List ℕ} (used : ℕ) (o : Option ℕ)
    → Perm ms ns
    → IsReached ns used o
    → IsReached ms used o
IsReached-Perm {ns} {ms} used none q r = All-Perm (λ n. used < n) (λ n. le_prop) q r
IsReached-Perm {ns} {ms} used (some m) q r =
    let fitting = All-map reaches implied ns (λ n c. fits n c) r.2 in
    (
      (Perm.mem_iff q).1 r.0,
      r.1,
      All-map implied reaches ms (λ n f. decide n f)
          (All-Perm implied (λ n. hlevel le_prop) q fitting),
    )
  where
    reaches : ℕ → Type 0
    reaches n = (n ≤ m) ⊎ (used < n)

    implied : ℕ → Type 0
    implied n = n ≤ used → n ≤ m

    fits : (n : ℕ) → (n ≤ m) ⊎ (used < n) → n ≤ used → n ≤ m
    fits n (inl below) h = below
    fits n (inr over) h = omega (arith, over, h)

    decide : (n : ℕ) → (n ≤ used → n ≤ m) → (n ≤ m) ⊎ (used < n)
    decide n f = elim (Bool-cases (leb n used)) [
      | inl e ↦ inl (f (leb→le n used e))
      | inr e ↦ inr (ground arith)
    ]

-- A usage alert is for the greatest of the configured thresholds that the usage has reached, in
-- whatever order they are configured, and there is none exactly when the usage is below them all.
pub reached_threshold_lem :
    (configured : List ℕ) (used : ℕ)
    → IsReached configured used (reached_threshold (usage_thresholds configured) used)
unfolding reached_threshold usage_thresholds
reached_threshold_lem configured used =
    let sorted = sort (λ a b. leb a b) configured in
    IsReached-Perm used _ (Perm.symm (Perm.trans (reverse_perm sorted) (Perm-sort configured))) (
      find-IsReached used (reverse sorted) (
        (Pairwise-reverse {R = λ (a b : ℕ). b ≤ a} (λ a b. le_prop)).1 (Ascending-sort configured)))
