-- ===== src/Credits/Tests/Fixture.antt =====
-- Services whose calls are all done, over collections in memory, and some documents.
use entity_developer_dashboa.Prelude.{
  true, false, none, some, [], ◌∷◌, ◌≡◌, refl, inl, inr, ◌+◌, sym, ap,
}
use entity_developer_dashboa.Exec.{Result, ok, err}
use entity_developer_dashboa.Json.{text, number, nat, undefined}
use entity_developer_dashboa.Collection.InMemory.{in_memory}
use entity_developer_dashboa.Credits.Schema.{CreditPlan, LedgerEvent, active, manual_recharge}
use entity_developer_dashboa.Credits.Event.{
  Event, Envelope, Job, job_committed, committed, of_event, lifecycle,
}
use entity_developer_dashboa.World.{
  World, Services, App, IsTransaction, rolled_back, done, no_grant,
}

abbrev after_body : World → Result CreditPlan × World → Result CreditPlan × World
after_body before (ok p, after) = (ok p, after)
after_body before (err e, after) = (err e, rolled_back before after)

abbrev pub commit_or_abort : (World → Result CreditPlan × World) → World → Result CreditPlan × World
commit_or_abort m w = after_body w (m w)

pub commit_or_abort_lem :
    (m : World → Result CreditPlan × World) (w : World) → IsTransaction m w (commit_or_abort m w)
commit_or_abort_lem m w = go (m w) refl
  where
    go : (out : Result CreditPlan × World) → m w ≡ out → IsTransaction m w (after_body w out)
    go (ok p, after) e = inl (p, ap (λ o. o.0) e, ap (λ o. (ok p, o.1)) (sym e))
    go (err x, after) e =
        inr (inl (x, ap (λ o. o.0) e, ap (λ o. (err x, rolled_back w o.1)) (sym e)))

abbrev pub kyc_app : App
kyc_app = record {
  app_id = "app";
  services = "CAVACH_API" ∷ [];
  subdomain = some "tenant";
  wallet_address = "hid1";
}

abbrev pub services : Services
services = record {
  clock = λ n. 1000 + n;
  uuid = λ n. "uuid";
  object_id = λ n. "plan2";
  fate = λ n. done;
  plan_store = in_memory;
  outbox_store = in_memory;
  ledger_store = in_memory;
  with_transaction = commit_or_abort;
  transaction_lem = commit_or_abort_lem;
  is_object_id = λ id. true;
  find_app = λ id. some kyc_app;
  super_admin_emails = "root" ∷ [];
  admin_email = λ id. some "owner";
  find_onboarding = λ id. none;
  find_user = λ id. none;
  has_authz_grant = λ w wallet url. false;
  fee_grant = λ w wallet. no_grant;
}

abbrev pub kyc_plan : CreditPlan
kyc_plan = record {
  id = "plan";
  service_id = "app";
  service_type = "CAVACH_API";
  reference_id = "ref";
  api_credit = record { total = 100; used = 40 };
  validity_days = 30;
  critical_balance = some 40;
  expires_at = some 5000;
  status = active;
  on_chain_allowance = none;
  on_chain_allowance_scopes = [];
  credited_by = none;
  source = some manual_recharge;
  migration_source = none;
  legacy_credit_id = none;
  notification = record {
    last_notified_usage_threshold = none;
    last_notified_allowance_usage_threshold = none;
    expiry_thresholds_sent = none;
  };
  created_at = some 1;
}

abbrev pub ssi_plan : CreditPlan
ssi_plan = record kyc_plan {
  service_type = "SSI_API";
  on_chain_allowance = some (record { amount = 2000; denom = "uhid"; used_amount = some 1500 });
}

abbrev pub opened : World
opened = record {
  plans = kyc_plan ∷ [];
  outbox = [];
  ledger = [];
  queued = [];
  mails = [];
  broadcasts = [];
  calls = 0;
  readings = 0;
  draws = 0;
}

-- A commit of 25 API credits.
abbrev pub measurement : LedgerEvent
measurement = record {
  timestamp = some 900;
  metadata = record {
    tenant_id = text "tenant";
    service_id = text "app";
    service_type = "CAVACH_API";
    credit_type = text "API_CREDIT";
  };
  event_type = of_event committed;
  plan_id = some "plan";
  operation = some "verify";
  event_id = "event";
  schema_version = number (nat 3);
  catalog_version = some "1";
  reservation_id = some "reservation";
  amount = some (nat 25);
  total_amount = some (nat 25);
  allocation_index = some (nat 0);
  allocation_count = some (nat 1);
  plan_balance_after = some (nat 35);
  balance_after = some (nat 35);
}

abbrev pub commit_event : Event
commit_event = record {
  type = committed;
  app_id = "app";
  tenant_id = text "tenant";
  app_type = text "CAVACH_API";
  credit_type = text "API_CREDIT";
  plan_id = text "plan";
  operation = text "verify";
  reservation_id = text "reservation";
  timestamp = number (nat 900);
  amount = number (nat 25);
  total_amount = number (nat 25);
  allocation_index = number (nat 0);
  allocation_count = number (nat 1);
  plan_balance_after = number (nat 35);
  balance_after = number (nat 35);
  expires_at = number (nat 9000);
  environment = undefined;
  billing_mode = undefined;
  deducted_amount = undefined;
  requested_amount = undefined;
  request_id = undefined;
}

abbrev pub commit_envelope : Envelope
commit_envelope = record {
  schema_version = number (nat 3);
  event_id = "event";
  catalog_version = "1";
  service_type = "CAVACH_API";
  event = some commit_event;
}

abbrev pub commit_job : Job
commit_job = record { name = job_committed; data_of = lifecycle commit_envelope }
