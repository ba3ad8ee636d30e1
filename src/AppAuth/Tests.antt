-- ===== src/AppAuth/Tests.antt =====
-- The search at one taken identifier.
use entity_developer_dashboa.Prelude.{
  ℕ, ◌+◌, ◌<◌, String, true, none, some, List, [], ◌∷◌, Option, ◌≡◌, refl, arith, if◌then◌else◌,
  ◌==◌,
}
use entity_developer_dashboa.AppAuth.{get_random_subdomain, is_taken}
use entity_developer_dashboa.AppAuth.Subdomain.{get_random_subdomain_lem}

abbrev names : ℕ → String
names n = if n == 0 then "taken" else "free"

abbrev stored : List (Option String)
stored = some "taken" ∷ []

first_taken : (i : ℕ) → i < 1 → is_taken stored (names (0 + i)) ≡ true
first_taken i h = let e : i ≡ 0 = omega (arith, h) in rw e refl

get_random_subdomain_lem_example : get_random_subdomain 2 names stored none 0 ≡ some (none, 2)
get_random_subdomain_lem_example =
    get_random_subdomain_lem 1 2 names stored none 0 (omega arith) first_taken refl
