-- ===== src/Credits/Repository.antt =====
-- src/credits/repositories/credit.repository.ts and credit-ledger.repository.ts: the filters and
-- the updates that the services send to the database.
pub mod Commit
pub mod Activation
pub mod Lease
use entity_developer_dashboa.Prelude.{
  ℕ, ◌+◌, String, Bool, true, false, not, ◌&&◌, ◌||◌, Option, none, some, List, [], ◌∷◌, ltb, leb,
  ◌===◌, truthy, if◌then◌else◌, is_some, or_default,
}
use entity_developer_dashboa.Exec.{Exec, error, pure, throw, ◌>>=◌}
use entity_developer_dashboa.Credits.Schema.{
  CreditPlan, CreditStatus, active, inactive, is_active, is_inactive, LedgerEvent,
}
use entity_developer_dashboa.World.{
  Services, Action, now, new_object_id, find_plan, upsert_plan, find_event, save_event,
}

-- `{ _id, serviceId }`
abbrev pub is_plan_of : String → String → CreditPlan → Bool
is_plan_of id app_id p = p.id === id && p.service_id === app_id

-- `{ serviceId, referenceId }`
abbrev pub has_reference : String → String → CreditPlan → Bool
has_reference app_id reference p = p.service_id === app_id && p.reference_id === reference

-- `expiresAt` after the given time, or absent
abbrev pub is_unexpired : ℕ → Option ℕ → Bool
is_unexpired time none = true
is_unexpired time (some t) = ltb time t

-- The filter of findActiveCreditForService; the empty id excludes nothing.
unfoldable pub is_usable : String → Option String → ℕ → CreditPlan → Bool
is_usable app_id excluded time p =
    p.service_id === app_id
    && is_active p.status
    && not (p.id === or_default excluded "")
    && is_unexpired time p.expires_at
    && ltb p.api_credit.used p.api_credit.total

module _ (sv : Services) where
  unfoldable pub find_active_credit_for_service :
      String → Option String → Action (Option CreditPlan)
  find_active_credit_for_service app_id excluded = do
    time ← now sv
    find_plan sv (is_usable app_id excluded time)

  -- create: a plan with a service and a reference is found or inserted
  unfoldable pub create_plan : CreditPlan → Action CreditPlan
  create_plan credit = do
    time ← now sv
    id ← new_object_id sv
    upsert_plan sv (has_reference credit.service_id credit.reference_id)
        (record credit { id = id; created_at = some time })

  -- CreditLedgerRepository.exists
  unfoldable pub ledger_exists : String → Action Bool
  ledger_exists event_id = do
    found ← find_event sv (λ e. e.event_id === event_id)
    pure (is_some found)

  -- CreditLedgerRepository.create
  unfoldable pub ledger_create : LedgerEvent → Action (Unit {0})
  ledger_create event = save_event sv event
