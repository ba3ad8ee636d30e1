-- ===== src/Credits/Wallet.antt =====
-- src/credits/credit-wallet.ts: the ids under which the middleware knows a plan. An SSI plan has a
-- wallet for each credit type, named by a suffix. The texts of CreditType are those that the
-- repository's tests spell out.
pub mod RoundTrip
use Prim.Native.String.{count}
use entity_developer_dashboa.Prelude.{
  String, Bool, true, false, not, ◌&&◌, ◌||◌, Option, none, some, List, [], ◌∷◌, ◌===◌, ◌⋅◌,
  ends_with, slice_end, if◌then◌else◌, any, find, is_some,
}
use entity_developer_dashboa.Exec.{Result, ok, err, error, fail_if, ◌>>=?◌}
use entity_developer_dashboa.Json.{Value, is_truthy, as_text}

-- SERVICE_TYPES
abbrev pub ssi_api : String
ssi_api = "SSI_API"

abbrev pub cavach_api : String
cavach_api = "CAVACH_API"

-- CreditType
abbrev pub api_credit : String
api_credit = "API_CREDIT"

abbrev pub blockchain_txn_credit : String
blockchain_txn_credit = "BLOCKCHAIN_TXN_CREDIT"

abbrev pub ssi_credit_types : List String
ssi_credit_types = api_credit ∷ blockchain_txn_credit ∷ []

-- SSI_CREDIT_TYPES.includes(creditType)
abbrev pub is_ssi_credit_type : String → Bool
is_ssi_credit_type t = any (λ k. k === t) ssi_credit_types

unfoldable pub sdk_plan_id : String → String → String → String
sdk_plan_id dashboard_id service_type credit_type =
    if service_type === ssi_api then dashboard_id ⋅ "." ⋅ credit_type else dashboard_id

unfoldable pub sdk_reference_id : String → String → String → String
sdk_reference_id reference_id service_type credit_type =
    if service_type === ssi_api then reference_id ⋅ "." ⋅ credit_type else reference_id

-- creditType ? creditType : SSI_CREDIT_TYPES.find(...)
resolve_credit_type : String → Value → Option String
resolve_credit_type plan credit_type =
    if is_truthy credit_type
    then as_text credit_type
    else find (λ t. ends_with plan ("." ⋅ t)) ssi_credit_types

-- The id without the suffix of a resolved credit type.
strip_credit_type : String → Option String → Result String
strip_credit_type plan none = err (error "Unsupported SSI credit type")
strip_credit_type plan (some t) =
    if not (is_ssi_credit_type t)
    then err (error "Unsupported SSI credit type")
    else if not (ends_with plan ("." ⋅ t))
    then err (error "SSI middleware plan does not match")
    else ok (slice_end plan (count ("." ⋅ t)))

unfoldable pub dashboard_plan_id : String → String → Value → Result String
unfolding resolve_credit_type strip_credit_type is_truthy
dashboard_plan_id plan service_type credit_type =
    if not (service_type === ssi_api)
    then ok plan
    else strip_credit_type plan (resolve_credit_type plan credit_type)
