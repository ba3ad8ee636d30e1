-- ===== src/AppAuth.antt =====
-- The search for a subdomain of a new application (getRandomSubdomain of
-- app-auth/services/app-auth.service.ts). The identifiers that are drawn are a stream. The code calls
-- itself without a bound; here the calls are counted by fuel.
pub mod Subdomain
mod Tests
use entity_developer_dashboa.Prelude.{
  ℕ, zero, suc, String, Bool, true, false, not, ◌&&◌, Option, none, some, List, ◌===◌, ◌⋅◌, truthy,
  is_same, any, if◌then◌else◌,
}

-- The prefix of the subdomains, `TENANT_SUBDOMAIN_PREFIX` or 'ent-'
abbrev pub tenant_prefix : Option String → String
tenant_prefix none = "ent-"
tenant_prefix (some p) = if truthy p && not (p === "undefined") then p else "ent-"

-- appRepository.findOne({ subdomain }), of the subdomains that are stored
abbrev pub is_taken : List (Option String) → String → Bool
is_taken stored subdomain = any (λ s. is_same s subdomain) stored

-- The result of the inner call is not returned.
abbrev pub forget : Option (Option String × ℕ) → Option (Option String × ℕ)
forget none = none
forget (some (found, drawn)) = some (none, drawn)

-- With `none` if the fuel is spent, else the result and how many identifiers were drawn.
unfoldable pub get_random_subdomain :
    ℕ → (ℕ → String) → List (Option String) → Option String → ℕ → Option (Option String × ℕ)
get_random_subdomain zero draw stored prefix drawn = none
get_random_subdomain (suc fuel) draw stored prefix drawn =
    let rest = get_random_subdomain fuel draw stored prefix (suc drawn) in
    if is_taken stored (draw drawn)
    then forget rest
    else some (some (tenant_prefix prefix ⋅ draw drawn), suc drawn)
