-- ===== src/Credits/SsiResults.antt =====
-- src/credits/services/ssi-transaction-result.consumer.ts: the results of transactions on the
-- chain, from RabbitMQ. The calls of the channel may throw.
pub mod Sparing
pub mod Settling
use entity_developer_dashboa.Prelude.{
  ℕ, suc, String, Bool, true, false, not, ◌&&◌, ◌||◌, Option, none, some, List, [], ◌∷◌, ◌++◌, any,
  ◌===◌, ◌⋅◌, truthy, if◌then◌else◌,
}
use entity_developer_dashboa.Exec.{
  Exec, Failure, Result, ok, err, error, fail_if, ◌>>=?◌, pure, lift, catch, skip, for_each, ◌>>=◌,
  ◌>>◌,
}
use entity_developer_dashboa.Json.{Value, text, is_nat, is_text, is_safe_integer, as_text, as_nat}
use entity_developer_dashboa.Credits.Wallet.{ssi_api}
use entity_developer_dashboa.Credits.Command.{
  Settlement, SettlementStatus, succeeded, failed, other_status, settle_ssi_transaction,
}
use entity_developer_dashboa.World.{Services, Action, World}

-- ResultStatus
pub data ResultStatus : Type 0 where
  result_succeeded result_failed result_unknown : ResultStatus
  invalid_status : ResultStatus

-- An item as it is parsed; a falsy item is `missing`.
pub data Item : Type 0 where
  missing : Item
  item : Value → Value → Value → Item

-- The parsed value: what JSON.parse gives for the fields that are read. `items` is none where it
-- is no array.
pub record RawResult : Type 0 where
  pub schema_version : Value
  pub event_id : Value
  pub status : ResultStatus
  pub raw_log : Option String
  pub reason : Option String
  pub code : Value
  pub items : Option (List Item)

pub record ResultItem : Type 0 where
  pub transaction_job_id : String
  pub reservation_id : String

-- SsiTransactionResult, after the tests
pub record TransactionResult : Type 0 where
  pub event_id : String
  pub status : ResultStatus
  pub raw_log : Option String
  pub reason : Option String
  pub code : Value
  pub items : List ResultItem

abbrev pub is_valid_status : ResultStatus → Bool
is_valid_status invalid_status = false
is_valid_status _ = true

abbrev pub is_invalid_item : Value → String → String → Bool
is_invalid_item service job reservation =
    not (is_text service ssi_api) || not (truthy job) || not (truthy reservation)

-- the loop over the items in parseResult
unfoldable pub parse_items : List Item → Result (List ResultItem)
parse_items [] = ok []
parse_items (missing ∷ rest) = err (error "Invalid SSI transaction result item")
parse_items (item service job reservation ∷ rest) =
    let others = parse_items rest in
    elim (as_text job) [
      | none ↦ err (error "Invalid SSI transaction result item")
      | some j ↦ elim (as_text reservation) [
        | none ↦ err (error "Invalid SSI transaction result item")
        | some r ↦
            if is_invalid_item service j r
            then err (error "Invalid SSI transaction result item")
            else others >>=? λ more.
                ok (record { transaction_job_id = j; reservation_id = r } ∷ more)
      ]
    ]

-- Array.isArray(value.items) && value.items.length > 0
abbrev pub some_items : Option (List Item) → Result (List Item)
some_items none = err (error "Invalid SSI transaction result envelope")
some_items (some []) = err (error "Invalid SSI transaction result envelope")
some_items (some (i ∷ is)) = ok (i ∷ is)

abbrev pub full_text : Value → Result String
full_text (text s) =
    if truthy s then ok s else err (error "Invalid SSI transaction result envelope")
full_text _ = err (error "Invalid SSI transaction result envelope")

-- parseResult, after JSON.parse
unfoldable pub parse_result : RawResult → Result TransactionResult
unfolding parse_items
parse_result raw =
    fail_if (not (is_nat raw.schema_version 1)) (error "Invalid SSI transaction result envelope")
    >>=? λ _. full_text raw.event_id >>=? λ event_id.
        fail_if (not (is_valid_status raw.status)) (error "Invalid SSI transaction result envelope")
        >>=? λ _. some_items raw.items >>=? λ items. parse_items items >>=? λ parsed. ok (record {
          event_id = event_id;
          status = raw.status;
          raw_log = raw.raw_log;
          reason = raw.reason;
          code = raw.code;
          items = parsed;
        })

abbrev pub settled_status : ResultStatus → SettlementStatus
settled_status result_succeeded = succeeded
settled_status result_failed = failed
settled_status result_unknown = other_status "UNKNOWN"
settled_status invalid_status = other_status ""

abbrev pub or_text : Option String → Option String → Option String
or_text none b = b
or_text (some s) b = if truthy s then some s else b

-- What the channel is told of the message: it is done with, or it is to be delivered again.
pub data Answer : Type 0 where
  ack requeue : Answer

-- The channel of the broker: what a call of ack or nack throws, if it does.
pub record Channel : Type 0 where
  pub thrown_by : Answer → Option Failure

-- What became of a message: the calls of ack and nack in their order, and what consume throws.
pub record Delivery : Type 0 where
  pub answers : List Answer
  pub thrown : Option Failure

-- channel.ack(message) or channel.nack(message, false, true), outside of the try
abbrev pub told : Channel → Answer → Delivery
told channel a = record { answers = a ∷ []; thrown = channel.thrown_by a }

-- channel.nack(message, false, true), in the catch, after the calls before it
abbrev pub given_back : Channel → List Answer → Delivery
given_back channel before = record {
  answers = before ++ requeue ∷ [];
  thrown = channel.thrown_by requeue;
}

-- channel.ack(message), at the end of the try: if it throws, the catch gives the message back
abbrev pub acknowledged_by : Channel → Option Failure → Delivery
acknowledged_by channel none = record { answers = ack ∷ []; thrown = none }
acknowledged_by channel (some e) = given_back channel (ack ∷ [])

abbrev pub acknowledged : Channel → Delivery
acknowledged channel = acknowledged_by channel (channel.thrown_by ack)

module _ (code_text : Value → String) where
  -- reason || rawLog || the code; the text of a number is `code_text`
  unfoldable pub failure_of : TransactionResult → Option String
  failure_of r = elim r.status [
    | result_failed ↦ or_text r.reason (
        or_text r.raw_log (
          if is_safe_integer r.code
          then some ("blockchain_transaction_code_" ⋅ code_text r.code)
          else none))
    | _ ↦ none
  ]

  unfoldable pub settlement_of : TransactionResult → ResultItem → Settlement
  unfolding failure_of
  settlement_of r i = record {
    transaction_job_id = i.transaction_job_id;
    reservation_id = i.reservation_id;
    status = settled_status r.status;
    reason = failure_of r;
  }

  module _ (sv : Services) where
    settle_for : TransactionResult → ResultStatus → Action (Unit {0})
    unfolding settlement_of
    settle_for r result_unknown = skip
    settle_for r _ = for_each r.items (λ i. settle_ssi_transaction sv (settlement_of r i))

    -- the items of a result, in order, unless its outcome is unknown
    unfoldable pub settle_items : TransactionResult → Action (Unit {0})
    unfolding settle_for
    settle_items r = settle_for r r.status

    process_result : Channel → TransactionResult → Action Delivery
    process_result channel r =
        catch (do settle_items r; pure (acknowledged channel)) (λ e. pure (given_back channel []))

    answer : Channel → Result TransactionResult → Action Delivery
    unfolding process_result
    answer channel (err e) = pure (told channel ack)
    answer channel (ok r) = process_result channel r

    -- consume; an unparsable text is none
    unfoldable pub consume : Channel → Option RawResult → Action Delivery
    unfolding answer
    consume channel none = pure (told channel ack)
    consume channel (some raw) = answer channel (parse_result raw)
