-- ===== src/Credits/Service.antt =====
-- src/credits/services/credits.service.ts: the parts that the grants and the activation share.
pub mod Amounts
pub mod Allowance
pub mod Activate
pub mod Grant
use entity_developer_dashboa.Prelude.{
  ℕ, ◌+◌, ◌-◌, ◌*◌, ◌/◌, String, Bool, true, false, not, ◌&&◌, ◌||◌, Option, none, some, List, [],
  ◌∷◌, leb, ltb, ◌==◌, if◌then◌else◌, or_default,
}
use entity_developer_dashboa.Exec.{Result, ok, err, bad_request}
use entity_developer_dashboa.Json.{is_safe, max_safe_integer}
use entity_developer_dashboa.Double.{two_fifths, ceil_product}
use entity_developer_dashboa.Calendar.{new_date, add_days, add_months, add_years}
use entity_developer_dashboa.Credits.Schema.{CreditPlan, OnChainAllowance, CreditStatus, active}
use entity_developer_dashboa.World.{Years}

-- TimeUnit, and any other text in its place
pub data TimeUnit : Type 0 where
  days month year other_unit : TimeUnit

-- The answer of getCreditValidity.
pub record Validity : Type 0 where
  pub validity_days : ℕ
  -- the Date, if an expiry is set; an Invalid Date is some none
  pub expires_at : Option (Option ℕ)

abbrev expiry_by : (ℕ → ℕ) → Option ℕ → Option (Option ℕ)
expiry_by f none = none
expiry_by f (some t) = some (new_date (f t))

-- getCreditValidity; `start` is the time from which an expiry is counted, if one is set. The
-- factors 30.4375 and 365.25 are 487 / 2 ^ 4 and 1461 / 2 ^ 2, and the products are doubles.
unfoldable pub get_credit_validity : ℕ → TimeUnit → Option ℕ → Result Validity
get_credit_validity period unit start =
    if period == 0
    then err (bad_request "validityPeriod must be a positive number")
    else elim unit [
      | days ↦
          ok (record {
            validity_days = period;
            expires_at = expiry_by (λ t. add_days t period) start;
          })
      | month ↦ ok (record {
        validity_days = ceil_product 487 4 period;
        expires_at = expiry_by (λ t. add_months t period) start;
      })
      | year ↦ ok (record {
        validity_days = ceil_product 1461 2 period;
        expires_at = expiry_by (λ t. add_years t period) start;
      })
      | other_unit ↦ err (bad_request "Invalid validityPeriodUnit")
    ]

-- getPeriodInYears
unfoldable pub get_period_in_years : ℕ → TimeUnit → Result Years
get_period_in_years period days = ok (period, 365)
get_period_in_years period month = ok (period, 12)
get_period_in_years period year = ok (period, 1)
get_period_in_years period other_unit = err (bad_request "Invalid validityPeriodUnit")

-- resolveCriticalBalance
unfoldable pub resolve_critical_balance : CreditPlan → ℕ
resolve_critical_balance p = elim p.critical_balance [
  | none ↦ two_fifths p.api_credit.total
  | some n ↦ if is_safe n then n else two_fifths p.api_credit.total
]

-- creditForMiddlewareGrant
unfoldable pub credit_for_middleware_grant : CreditPlan → ℕ → CreditPlan
unfolding resolve_critical_balance
credit_for_middleware_grant p expires_at = record p {
  status = active;
  expires_at = some expires_at;
  critical_balance = some (resolve_critical_balance p);
}

-- assertUsableOnChainAllowance
unfoldable pub assert_usable_allowance : OnChainAllowance → Result (Unit {0})
assert_usable_allowance a =
    let used = or_default a.used_amount 0 in
    if not (is_safe a.amount) || a.amount == 0 || not (is_safe used) || leb a.amount used
    then err (bad_request "Fully used SSI blockchain allowance cannot be activated")
    else ok tt

-- ssiOnChainAllowance
unfoldable pub ssi_on_chain_allowance : ℕ → Result ℕ
ssi_on_chain_allowance credits =
    if not (is_safe credits) || credits == 0
    then err (bad_request "SSI API credit amount must be a positive safe integer")
    else if ltb max_safe_integer (credits * 2000)
    then err (bad_request "SSI blockchain allowance exceeds the maximum safe persisted value")
    else ok (credits * 2000)
