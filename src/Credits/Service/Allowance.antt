-- ===== src/Credits/Service/Allowance.antt =====
-- grantSSIAllowance: the grants on the chain are replaced in one transaction, and what is left of
-- the old fee allowance is carried over.
pub mod Sparing
use Prim.Native.String.{String}
use entity_developer_dashboa.Prelude.{
  ℕ, ◌+◌, ◌-◌, ◌*◌, ◌/◌, Bool, true, false, not, ◌&&◌, ◌||◌, Option, none, some, List, [], ◌∷◌,
  ◌++◌, map, leb, ltb, ◌==◌, if◌then◌else◌, keep, length, codes, mentions, ◌⋅◌,
}
use entity_developer_dashboa.Exec.{
  Exec, Failure, message, internal_server_error, bad_request, error, Result, ok, err, pure, throw,
  lift, catch, throw_if, ◌>>=◌, ◌>>◌,
}
use entity_developer_dashboa.Json.{max_safe_integer}
use entity_developer_dashboa.Credits.Schema.{
  Scope, register_did, deactivate_did, register_schema, update_did, update_status, register_status,
}
use entity_developer_dashboa.World.{
  Services, Action, App, Years, FeeGrant, no_grant, basic, unsupported, TxMessage, revoke_authz,
  revoke_fee, grant_authz, grant_fee, Transaction, ask, broadcast,
}

-- src/utils/authz/index.ts: the types of the messages that a wallet is allowed to send
abbrev pub authz_message_type_urls : List String
authz_message_type_urls =
    "/hypersign.ssi.v1.MsgRegisterDID" ∷ "/hypersign.ssi.v1.MsgUpdateDID"
    ∷ "/hypersign.ssi.v1.MsgDeactivateDID" ∷ "/hypersign.ssi.v1.MsgRegisterCredentialStatus"
    ∷ "/hypersign.ssi.v1.MsgRegisterCredentialSchema"
    ∷ "/hypersign.ssi.v1.MsgUpdateCredentialStatus" ∷ []

-- isMissingGrantError
unfoldable pub is_missing_grant_error : Failure → Bool
is_missing_grant_error e =
    mentions (message e) "not found"
    || mentions (message e) "does not exist"
    || mentions (message e) "no allowance"

-- The value of a row of decimal digits.
read_digits : ℕ → List ℕ → Option ℕ
read_digits n [] = some n
read_digits n (c ∷ cs) =
    let rest = read_digits (10 * n + (c - b'0')) cs in
    if leb b'0' c && leb c b'9' then rest else none

read_amount : List ℕ → Option ℕ
read_amount [] = none
read_amount (c ∷ cs) =
    if c == b'0' then read_digits 0 cs else if leb b'1' c then read_digits 0 (c ∷ cs) else none

-- No digit follows a leading zero.
abbrev is_canonical : List ℕ → Bool
is_canonical (c ∷ d ∷ cs) = not (c == b'0')
is_canonical _ = true

abbrev or_invalid : Option ℕ → Result ℕ
or_invalid none = err (error "Invalid uhid allowance amount")
or_invalid (some n) = ok n

-- parseUhidAmount
unfoldable pub parse_uhid_amount : String → Result ℕ
unfolding read_amount read_digits
parse_uhid_amount s =
    if is_canonical (codes s)
    then or_invalid (read_amount (codes s))
    else err (error "Invalid uhid allowance amount")

-- the fee of a transaction of so many messages: its amount in uhid, and its gas
unfoldable pub fee_units : ℕ → ℕ
fee_units count = let units = (count + 6) / 7 in if units == 0 then 1 else units

pub record Grant : Type 0 where
  pub amount : ℕ
  pub replacement : ℕ
  pub previous : ℕ
  pub scopes : List Scope

abbrev pub credit_scope : List Scope
credit_scope =
    register_did ∷ deactivate_did ∷ register_schema ∷ update_did ∷ update_status ∷ register_status
    ∷ []

module _ (sv : Services) where
  -- hasAuthzGrant
  unfoldable pub has_authz_grant : String → String → Action Bool
  has_authz_grant wallet url =
      catch (ask sv (λ w. sv.has_authz_grant w wallet url))
        λ e. if is_missing_grant_error e then pure false else throw e

  -- existingAuthzGrants
  unfoldable pub existing_grants : String → List String → Action (List String)
  existing_grants wallet [] = pure []
  existing_grants wallet (url ∷ urls) = do
    exists ← has_authz_grant wallet url
    rest ← existing_grants wallet urls
    pure (if exists then url ∷ rest else rest)

  read_fee_grant : FeeGrant → Action (Option String)
  read_fee_grant no_grant = pure none
  read_fee_grant (basic none) =
      throw (error "Existing BasicAllowance has no finite uhid spend limit")
  read_fee_grant (basic (some amount)) = pure (some amount)
  read_fee_grant unsupported =
      throw (error "Existing fee allowance type is not supported for balance rollover")

  -- getFeegrantAllowance: the remaining amount of an allowance that exists
  unfoldable pub get_feegrant_allowance : String → Action (Option String)
  unfolding read_fee_grant
  get_feegrant_allowance wallet =
      catch (ask sv (λ w. sv.fee_grant w wallet) >>= read_fee_grant)
        λ e. if is_missing_grant_error e then pure none else throw e

  abbrev require_app : Option App → Action App
  require_app none = throw (bad_request "No app found for appId")
  require_app (some app) = pure app

  abbrev remaining : Option String → Result ℕ
  remaining none = ok 0
  remaining (some amount) = parse_uhid_amount amount

  abbrev revoke_fee_messages : String → Option String → List TxMessage
  revoke_fee_messages wallet none = []
  revoke_fee_messages wallet (some _) = revoke_fee wallet ∷ []

  -- transactionMessages
  unfoldable pub grant_messages : String → List String → Option String → ℕ → Years → List TxMessage
  grant_messages wallet existing previous replacement period =
      map (revoke_authz wallet) existing
      ++ (revoke_fee_messages wallet previous
          ++ (map (λ url. grant_authz wallet url period) authz_message_type_urls
              ++ grant_fee wallet replacement period ∷ []))

  unfoldable pub replace_grants : String → ℕ → Years → Action Grant
  unfolding fee_units
  replace_grants app_id allowance period = do
    found ← ask sv (λ _. sv.find_app app_id)
    app ← require_app found
    existing ← existing_grants app.wallet_address authz_message_type_urls
    previous ← get_feegrant_allowance app.wallet_address
    left ← lift (remaining previous)
    let replacement = left + allowance
    throw_if (ltb max_safe_integer replacement)
        (error "Combined uhid allowance exceeds the maximum safe persisted value")
    let messages = grant_messages app.wallet_address existing previous replacement period
    let units = fee_units (length messages)
    broadcast sv (record { messages = messages; fee = 20000 * units; gas = 500000 * units })
    pure (record {
      amount = allowance;
      replacement = replacement;
      previous = left;
      scopes = credit_scope;
    })

  -- grantSSIAllowance: whatever is thrown becomes an internal server error
  unfoldable pub grant_ssi_allowance : String → ℕ → Years → Action Grant
  grant_ssi_allowance app_id allowance period =
      catch (replace_grants app_id allowance period) λ e. throw (internal_server_error (message e))
