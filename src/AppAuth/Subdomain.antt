-- ===== src/AppAuth/Subdomain.antt =====
-- When the search for a subdomain ends, and with what.
use entity_developer_dashboa.Prelude.{
  ℕ, zero, suc, ◌+◌, ◌<◌, String, true, false, Option, none, some, List, ◌⋅◌, ◌≡◌, refl, ap, ◌∙◌,
  arith,
}
use entity_developer_dashboa.AppAuth.{get_random_subdomain, is_taken, tenant_prefix, forget}

-- The first identifier that is drawn is free, or it is not.
abbrev pub answer : ℕ → String → Option String
answer zero subdomain = some subdomain
answer (suc k) subdomain = none

-- If the k identifiers drawn first are taken and the next is free, then with fuel for more than k
-- calls the search ends after k + 1 identifiers. It gives the free subdomain if that was the first,
-- and nothing otherwise.
pub get_random_subdomain_lem :
    (k fuel : ℕ) (draw : ℕ → String) (stored : List (Option String)) (prefix : Option String)
    (drawn : ℕ)
    → k < fuel
    → ((i : ℕ) → i < k → is_taken stored (draw (drawn + i)) ≡ true)
    → is_taken stored (draw (drawn + k)) ≡ false
    → get_random_subdomain fuel draw stored prefix drawn
      ≡ some (answer k (tenant_prefix prefix ⋅ draw (drawn + k)), drawn + suc k)
unfolding get_random_subdomain
get_random_subdomain_lem k zero draw stored prefix drawn h taken free =
    let bad : ⊥ = omega (arith, h) in elim bad [ ]
get_random_subdomain_lem zero (suc fuel) draw stored prefix drawn h taken free =
    let here : drawn + 0 ≡ drawn = omega arith in
    let next : drawn + 1 ≡ suc drawn = omega arith in
    let open_ : is_taken stored (draw drawn) ≡ false = rw here at free in
    rw (here, next, open_) refl
get_random_subdomain_lem (suc k) (suc fuel) draw stored prefix drawn h taken free =
    let here : drawn + 0 ≡ drawn = omega arith in
    let closed : is_taken stored (draw drawn) ≡ true = rw here at (taken 0 (omega arith)) in
    let shift : (i : ℕ) → suc drawn + i ≡ drawn + suc i = λ i. omega arith in
    let ih =
      get_random_subdomain_lem k fuel draw stored prefix (suc drawn) (omega (arith, h))
        (λ i hi. rw (shift i) (taken (suc i) (omega (arith, hi)))) (rw (shift k) free) in
    rw closed (ap forget ih ∙ ap (λ n. some (none, n)) (shift (suc k)))
