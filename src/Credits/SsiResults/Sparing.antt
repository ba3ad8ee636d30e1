-- ===== src/Credits/SsiResults/Sparing.antt =====
-- Transaction results (ssi-transaction-result.consumer.ts) and the robust predicates.
use entity_developer_dashboa.Prelude.{String, Option, none, some}
use entity_developer_dashboa.Exec.{ok, err}
use entity_developer_dashboa.Exec.Keeps.{Keeps, keeps_rules, Keeps-pure}
use entity_developer_dashboa.Json.{Value}
use entity_developer_dashboa.Credits.Robust.{Robust}
use entity_developer_dashboa.Credits.Command.Sparing.{Robust-settle_ssi_transaction}
use entity_developer_dashboa.World.{World, Services}
use entity_developer_dashboa.Exec.{Result}
use entity_developer_dashboa.Credits.SsiResults.{
  Channel, RawResult, TransactionResult, ResultStatus, result_succeeded, result_failed,
  result_unknown, invalid_status, settle_items, process_result, answer, consume, parse_result,
  settle_for,
}

module _ (code_text : Value → String) {sv : Services} {P : World → Type 0} (r : Robust sv P) where
  Robust-settle_for :
      (t : TransactionResult) (s : ResultStatus) → Keeps P (settle_for code_text sv t s)
  unfolding settle_for
  Robust-settle_for t result_succeeded = search (keeps_rules, Robust-settle_ssi_transaction)
  Robust-settle_for t result_failed = search (keeps_rules, Robust-settle_ssi_transaction)
  Robust-settle_for t result_unknown = search keeps_rules
  Robust-settle_for t invalid_status = search (keeps_rules, Robust-settle_ssi_transaction)

  Robust-settle_items : (t : TransactionResult) → Keeps P (settle_items code_text sv t)
  unfolding settle_items
  Robust-settle_items t = Robust-settle_for t t.status

  Robust-process_result :
      (channel : Channel) (t : TransactionResult) → Keeps P (process_result code_text sv channel t)
  unfolding process_result
  Robust-process_result channel t = search (keeps_rules, Robust-settle_items)

  Robust-answer :
      (channel : Channel) (p : Result TransactionResult) → Keeps P (answer code_text sv channel p)
  unfolding answer
  Robust-answer channel (ok t) = Robust-process_result channel t
  Robust-answer channel (err e) = Keeps-pure _

  pub Robust-consume :
      (channel : Channel) (m : Option RawResult) → Keeps P (consume code_text sv channel m)
  unfolding consume
  Robust-consume channel none = Keeps-pure _
  Robust-consume channel (some raw) = Robust-answer channel (parse_result raw)
