-- ===== src/Credits/Service/Amounts.antt =====
-- The bounds of the amounts that the services grant.
use entity_developer_dashboa.Prelude.{
  ℕ, suc, false, ◌+◌, ◌-◌, ◌*◌, ◌/◌, ◌^◌, ◌≤◌, ◌<◌, String, Option, none, some, List, [], ◌∷◌, map,
  length, ◌≡◌, refl, ap, ◌↔◌, arith, or_default, length-append, ◌==◌, ◌&&◌, not, is_some,
  if◌then◌else◌,
}
use entity_developer_dashboa.Exec.{Result, ok}
use entity_developer_dashboa.Double.{mantissa_limit, ceil_product, round_53-exact}
use entity_developer_dashboa.Json.{max_safe_integer}
use entity_developer_dashboa.Credits.Schema.{OnChainAllowance}
use entity_developer_dashboa.Credits.Service.{
  ssi_on_chain_allowance, assert_usable_allowance, get_credit_validity, Validity, days, month, year,
}
use entity_developer_dashboa.Credits.Service.Allowance.{
  fee_units, grant_messages, authz_message_type_urls,
}
use entity_developer_dashboa.World.{Services, Years, revoke_authz}

-- The allowance of a positive number of credits is 2000 uhid for each; it is accepted exactly if
-- it is a safe integer.
pub ssi_on_chain_allowance_lem :
    (credits allowance : ℕ)
    → ssi_on_chain_allowance credits ≡ ok allowance
      ↔ ((0 < credits) × (allowance ≡ credits * 2000) × (allowance ≤ max_safe_integer))
unfolding ssi_on_chain_allowance
ssi_on_chain_allowance_lem credits allowance = (λ h. ground arith, λ h. ground arith)

-- An allowance can be activated exactly if its amount is a safe integer and some of it is left.
pub assert_usable_allowance_lem :
    (a : OnChainAllowance)
    → assert_usable_allowance a ≡ ok tt
      ↔ ((or_default a.used_amount 0 < a.amount) × (a.amount ≤ max_safe_integer))
unfolding assert_usable_allowance
assert_usable_allowance_lem a = (λ h. ground arith, λ h. ground arith)

-- The fee of a transaction is the least number of units of which each pays for seven messages, but
-- at least one.
pub fee_units_lem :
    (count : ℕ)
    → (0 < fee_units count)
      × (count ≤ 7 * fee_units count)
      × (0 < count → 7 * fee_units count < count + 7)
unfolding fee_units
fee_units_lem count = (ground arith, ground arith, λ h. ground arith)

length-map : {A B : Type 0} (f : A → B) (xs : List A) → length (map f xs) ≡ length xs
length-map f [] = refl
length-map f (x ∷ xs) = ap suc (length-map f xs)

-- If a wallet has at most as many grants as there are types of messages, the transaction that
-- replaces them costs one unit if there was nothing to revoke, and two if there was anything.
pub grant_messages-fee_units :
    (sv : Services) (wallet : String) (existing : List String) (previous : Option String)
    (replacement : ℕ) (period : Years)
    → length existing ≤ length authz_message_type_urls
    → fee_units (length (grant_messages sv wallet existing previous replacement period))
      ≡ (if length existing == 0 && not (is_some previous) then 1 else 2)
unfolding fee_units grant_messages
grant_messages-fee_units sv wallet existing none replacement period h =
    rw
      (
        length-append (map (revoke_authz wallet) existing),
        length-map (revoke_authz wallet) existing,
      )
      (ground arith)
grant_messages-fee_units sv wallet existing (some p) replacement period h =
    rw
      (
        length-append (map (revoke_authz wallet) existing),
        length-map (revoke_authz wallet) existing,
      )
      (ground arith)

-- The answer to a period counts the fewest whole days that are at least so many sixteenths of a day
-- per unit.
abbrev pub Lasts : ℕ → ℕ → Result Validity → Type 0
Lasts sixteenths period r =
    (v : Validity) × (r ≡ ok v)
    × (sixteenths * period ≤ 16 * v.validity_days)
    × (16 * v.validity_days < sixteenths * period + 16)

ceil_product-exact :
    (m s n : ℕ) → m * n < mantissa_limit → ceil_product m s n ≡ (m * n + (2 ^ s - 1)) / 2 ^ s
unfolding ceil_product
ceil_product-exact m s n h = rw (round_53-exact (m * n) h) refl

-- A positive period whose number of days has an exact product in doubles, which holds below six
-- trillion, is accepted in months, years and days. A month counts as 30.4375 days and a year as
-- 365.25, rounded up to whole days, and days count as they are.
pub get_credit_validity_lem :
    (period : ℕ) (start : Option ℕ)
    → 0 < period
    → 1461 * period < mantissa_limit
    → Lasts 487 period (get_credit_validity period month start)
      × Lasts 5844 period (get_credit_validity period year start)
      × Lasts 16 period (get_credit_validity period days start)
unfolding get_credit_validity
get_credit_validity_lem period start p h =
    let positive : (period == 0) ≡ false = ground arith in
    let by_month = ceil_product-exact 487 4 period (omega (arith, h)) in
    let by_year = ceil_product-exact 1461 2 period h in
    rw positive (
      (_, refl, omega (arith, by_month), omega (arith, by_month)),
      (_, refl, omega (arith, by_year), omega (arith, by_year)),
      (_, refl, omega arith, omega arith),
    )
