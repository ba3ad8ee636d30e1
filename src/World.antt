-- ===== src/World.antt =====
-- The state that the credit services change and the services that they call. Each call of a
-- service that is not in the repository has a fate: it is done, it is rejected and nothing has
-- happened, or it is done and its reply is lost. The clock and the random identifiers are streams.
pub mod Calls
pub mod Keeps
use entity_developer_dashboa.Prelude.{
  ℕ, suc, String, Bool, false, List, [], ◌∷◌, Option, none, some, ◌++◌, ◌≡◌, ◌⊎◌,
}
use entity_developer_dashboa.Exec.{Exec, Failure, Result, ok, err}
use entity_developer_dashboa.Collection.{Collection}
use entity_developer_dashboa.Credits.Schema.{CreditPlan, LedgerEvent, OutboxEntry}

-- The payload of a CreditCommandEnvelope.
pub data Payload : Type 0 where
  -- application, tenant, credit type, plan, amount, critical balance, granted at, expires at,
  -- reference
  grant : String → Option String → String → String → ℕ → ℕ → ℕ → ℕ → String → Payload
  -- reservation, transaction job, reason of a failure
  settle : String → String → Option String → Payload

-- The members of CREDIT_EVENT_NAMES that name commands
pub data CommandName : Type 0 where
  grant_requested commit_requested rollback_requested : CommandName

-- A job that BullMQ has taken: its queue, name, custom id and envelope.
pub record QueuedJob : Type 0 where
  pub queue : String
  pub name : CommandName
  pub job_id : String
  pub command_id : String
  pub service_type : String
  pub requested_at : ℕ
  pub payload : Payload

-- The job for an alert mail: its kind, its recipients, and the numbers that the text shows.
pub data MailKind : Type 0 where
  usage_alert allowance_alert expiry_alert expired_alert : MailKind

-- getSsiCustomerDetails
pub record CustomerDetails : Type 0 where
  pub company_name : Option String
  pub name : Option String
  pub email : Option String

pub record Mail : Type 0 where
  pub kind : MailKind
  pub to : String
  pub cc : List String
  pub service_id : String
  pub shown : List ℕ
  pub for_super_admin : Bool
  pub customer : Option CustomerDetails

-- A period in years, as the quotient that the code passes on.
abbrev pub Years : Type 0
Years = ℕ × ℕ

-- A message of a transaction on the chain, to the wallet of its first argument.
pub data TxMessage : Type 0 where
  revoke_authz : String → String → TxMessage
  revoke_fee : String → TxMessage
  grant_authz : String → String → Years → TxMessage
  grant_fee : String → ℕ → Years → TxMessage

-- A transaction that was delivered: its messages, its fee in uhid and its gas.
pub record Transaction : Type 0 where
  pub messages : List TxMessage
  pub fee : ℕ
  pub gas : ℕ

pub record World : Type 0 where
  pub plans : List CreditPlan
  pub outbox : List OutboxEntry
  pub ledger : List LedgerEvent
  pub queued : List QueuedJob
  pub mails : List Mail
  pub broadcasts : List Transaction
  -- how many calls were made, how often the clock was read, how many identifiers were drawn
  pub calls : ℕ
  pub readings : ℕ
  pub draws : ℕ

-- A user, and the onboarding record of a customer, as far as the alerts read them.
pub record User : Type 0 where
  pub name : Option String
  pub email : Option String

pub record Onboarding : Type 0 where
  pub company_name : Option String
  pub customer_email : Option String
  pub user_id : Option String

-- The fee allowance that the chain answers with.
pub data FeeGrant : Type 0 where
  no_grant : FeeGrant
  -- a BasicAllowance, with the amount of uhid as text if it limits that
  basic : Option String → FeeGrant
  unsupported : FeeGrant

pub data Fate : Type 0 where
  done : Fate
  refused lost : String → Fate

-- An application, as far as the credit services read it.
pub record App : Type 0 where
  pub app_id : String
  -- services[i].id
  pub services : List String
  pub subdomain : Option String
  pub wallet_address : String

-- The collections of an aborted transaction are as before; its calls were made all the same.
abbrev pub rolled_back : World → World → World
rolled_back before after = record after { plans = before.plans; outbox = before.outbox }

-- What session.withTransaction makes of its callback: it commits, it aborts because the callback
-- threw, the commit is refused, or the commit is done and its reply is lost.
abbrev pub IsTransaction :
    (World → Result CreditPlan × World) → World → Result CreditPlan × World → Type 0
IsTransaction m w out =
    ((p : CreditPlan) × ((m w).0 ≡ ok p) × (out ≡ (ok p, (m w).1)))
    ⊎ ((e : Failure) × ((m w).0 ≡ err e) × (out ≡ (err e, rolled_back w (m w).1)))
    ⊎ ((e : String) × (out ≡ (err (Failure.rejected e), rolled_back w (m w).1)))
    ⊎ ((e : String) × (p : CreditPlan) × ((m w).0 ≡ ok p)
        × (out ≡ (err (Failure.rejected e), (m w).1)))

pub record Services : Type 0 where
  pub clock : ℕ → ℕ
  pub uuid : ℕ → String
  -- the `_id` of a new document
  pub object_id : ℕ → String
  pub fate : ℕ → Fate
  pub plan_store : Collection CreditPlan
  pub outbox_store : Collection OutboxEntry
  pub ledger_store : Collection LedgerEvent
  pub with_transaction : (World → Result CreditPlan × World) → World → Result CreditPlan × World
  pub transaction_lem :
      (m : World → Result CreditPlan × World) (w : World) → IsTransaction m w (with_transaction m w)
  -- Types.ObjectId.isValid
  pub is_object_id : String → Bool
  -- appRepository.findOne({ appId })
  pub find_app : String → Option App
  -- the e-mail addresses of the super admins
  pub super_admin_emails : List String
  -- the e-mail address of the owner of an application
  pub admin_email : String → Option String
  pub find_onboarding : String → Option Onboarding
  pub find_user : String → Option User
  -- authz.grants and feegrant.allowance for a wallet
  pub has_authz_grant : World → String → String → Bool
  pub fee_grant : World → String → FeeGrant

abbrev pub Action : Type 0 → Type 0
Action A = Exec World A

module _ {A : Type 0} where
  abbrev settle_call : Fate → A × World → World → Result A × World
  settle_call done (a, after) before = (ok a, after)
  settle_call (refused e) (a, after) before = (err (Failure.rejected e), before)
  settle_call (lost e) (a, after) before = (err (Failure.rejected e), after)

  -- await service.call(...)
  unfoldable pub call : Services → (World → A × World) → Action A
  call sv f w = let w' = record w { calls = suc w.calls } in settle_call (sv.fate w.calls) (f w') w'

module _ (sv : Services) where
  -- new Date()
  unfoldable pub now : Action ℕ
  now w = (ok (sv.clock w.readings), record w { readings = suc w.readings })

  -- randomUUID()
  unfoldable pub random_uuid : Action String
  random_uuid w = (ok (sv.uuid w.draws), record w { draws = suc w.draws })

  -- the `_id` of a new document
  unfoldable pub new_object_id : Action String
  new_object_id w = (ok (sv.object_id w.draws), record w { draws = suc w.draws })

  unfoldable pub find_plan : (CreditPlan → Bool) → Action (Option CreditPlan)
  find_plan f = call sv (λ w. (sv.plan_store.find_one f w.plans, w))

  abbrev with_plans : World → Option CreditPlan × List CreditPlan → Option CreditPlan × World
  with_plans w (found, plans) = (found, record w { plans = plans })

  unfoldable pub update_plan :
      (CreditPlan → Bool) → (CreditPlan → CreditPlan) → Action (Option CreditPlan)
  update_plan f u = call sv (λ w. with_plans w (sv.plan_store.find_one_and_update f u w.plans))

  unfoldable pub find_entry : (OutboxEntry → Bool) → Action (Option OutboxEntry)
  find_entry f = call sv (λ w. (sv.outbox_store.find_one f w.outbox, w))

  abbrev with_outbox : World → Option OutboxEntry × List OutboxEntry → Option OutboxEntry × World
  with_outbox w (found, outbox) = (found, record w { outbox = outbox })

  unfoldable pub update_entry :
      (OutboxEntry → Bool) → (OutboxEntry → OutboxEntry) → Action (Option OutboxEntry)
  update_entry f u = call sv (λ w. with_outbox w (sv.outbox_store.find_one_and_update f u w.outbox))

  abbrev or_duplicate : World → Option (List OutboxEntry) → Result (Unit {0}) × World
  or_duplicate w none = (err Failure.duplicate_key, w)
  or_duplicate w (some outbox) = (ok tt, record w { outbox = outbox })

  abbrev join_result : Result (Result (Unit {0})) → Result (Unit {0})
  join_result (ok r) = r
  join_result (err e) = err e

  -- new outboxModel(entry).save(), under the unique index that `same` stands for
  unfoldable pub save_entry : (OutboxEntry → Bool) → OutboxEntry → Action (Unit {0})
  save_entry same entry w =
      let (r, w') = call sv (λ v. or_duplicate v (sv.outbox_store.insert same entry v.outbox)) w in
      (join_result r, w')

  abbrev with_ledger : World → LedgerEvent × List LedgerEvent → Unit {0} × World
  with_ledger w (event, ledger) = (tt, record w { ledger = ledger })

  -- new ledgerModel(event).save(): a time series has no unique index, so no filter finds a
  -- document of the same key.
  unfoldable pub save_event : LedgerEvent → Action (Unit {0})
  save_event event =
      call sv (λ w. with_ledger w (sv.ledger_store.upsert (λ _. false) event w.ledger))

  abbrev with_new_plan : World → CreditPlan × List CreditPlan → CreditPlan × World
  with_new_plan w (plan, plans) = (plan, record w { plans = plans })

  unfoldable pub upsert_plan : (CreditPlan → Bool) → CreditPlan → Action CreditPlan
  upsert_plan same plan = call sv (λ w. with_new_plan w (sv.plan_store.upsert same plan w.plans))

  unfoldable pub find_event : (LedgerEvent → Bool) → Action (Option LedgerEvent)
  find_event f = call sv (λ w. (sv.ledger_store.find_one f w.ledger, w))

  -- A call that only reads.
  unfoldable pub ask : {A : Type 0} → (World → A) → Action A
  ask f = call sv (λ w. (f w, w))

  -- mailNotificationService.addAJob
  unfoldable pub add_mail : Mail → Action (Unit {0})
  add_mail mail = call sv (λ w. (tt, record w { mails = w.mails ++ mail ∷ [] }))

  -- bullMq.add
  unfoldable pub add_job : QueuedJob → Action (Unit {0})
  add_job job = call sv (λ w. (tt, record w { queued = w.queued ++ job ∷ [] }))

  -- granterClient.signAndBroadcast, with a successful delivery asserted
  unfoldable pub broadcast : Transaction → Action (Unit {0})
  broadcast tx = call sv (λ w. (tt, record w { broadcasts = w.broadcasts ++ tx ∷ [] }))

  -- creditModel.find, in the order that it answers with
  unfoldable pub find_plans : (CreditPlan → Bool) → Action (List CreditPlan)
  find_plans f = call sv (λ w. (sv.plan_store.find_many f w.plans, w))
