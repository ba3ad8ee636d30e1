-- ===== src/Credits/Repository/Lease.antt =====
-- The lease on the ledger write of a committed event: claimed, marked as written, or given back.
pub mod Tokens
use entity_developer_dashboa.Prelude.{
  ℕ, suc, ◌+◌, String, Bool, true, false, ◌&&◌, Option, none, some, leb, if◌then◌else◌, is_some,
  is_same, take,
}
use entity_developer_dashboa.Exec.{pure, skip, ◌>>=◌, ◌>>◌}
use entity_developer_dashboa.Json.{is_text}
use entity_developer_dashboa.Credits.Schema.{OutboxEntry, LedgerStatus, pending, writing, written}
use entity_developer_dashboa.Credits.Repository.Commit.{same_event}
use entity_developer_dashboa.World.{Services, Action, now, random_uuid, find_entry, update_entry}

-- the default of `leaseMs`
abbrev pub lease_ms : ℕ
lease_ms = 30000

-- `ledgerLeaseUntil: { $lte: now }` or absent
abbrev pub lease_over : ℕ → Option ℕ → Bool
lease_over time none = true
lease_over time (some t) = leb t time

abbrev pub is_claimable : ℕ → LedgerStatus → Option ℕ → Bool
is_claimable time pending until = true
is_claimable time writing until = lease_over time until
is_claimable time written until = false

-- `ledgerLeaseToken: token`
abbrev pub holds_lease : String → OutboxEntry → Bool
holds_lease token e = is_same e.ledger_lease_token token

unfoldable pub claim_filter : String → ℕ → OutboxEntry → Bool
claim_filter event_id time e =
    same_event event_id e && is_claimable time e.ledger_status e.ledger_lease_until

unfoldable pub claim : String → ℕ → OutboxEntry → OutboxEntry
claim token time e = record e {
  ledger_status = writing;
  ledger_lease_token = some token;
  ledger_lease_until = some (time + lease_ms);
  ledger_attempts = suc e.ledger_attempts;
  ledger_last_error = none;
}

-- the token is asked for only where one is given
unfoldable pub mark_filter : String → Option String → OutboxEntry → Bool
mark_filter event_id none e = same_event event_id e
mark_filter event_id (some token) e = same_event event_id e && holds_lease token e

unfoldable pub mark_written : ℕ → OutboxEntry → OutboxEntry
mark_written time e = record e {
  ledger_status = written;
  ledger_written_at = some time;
  ledger_lease_token = none;
  ledger_lease_until = none;
  ledger_last_error = none;
}

unfoldable pub release : String → OutboxEntry → OutboxEntry
release reason e = record e {
  ledger_status = pending;
  ledger_last_error = some reason;
  ledger_lease_token = none;
  ledger_lease_until = none;
}

module _ (sv : Services) where
  unfoldable pub has_processed_commit : String → String → Action Bool
  has_processed_commit app_id event_id = do
    found ← find_entry sv (λ e. same_event event_id e && is_text e.event.metadata.service_id app_id)
    pure (is_some found)

  unfoldable pub claim_commit_ledger_write : String → Action (Option String)
  claim_commit_ledger_write event_id = do
    time ← now sv
    token ← random_uuid sv
    claimed ← update_entry sv (claim_filter event_id time) (claim token time)
    pure (if is_some claimed then some token else none)

  unfoldable pub mark_commit_ledger_written : String → Option String → Action (Unit {0})
  mark_commit_ledger_written event_id token = do
    time ← now sv
    update_entry sv (mark_filter event_id token) (mark_written time)
    skip

  -- the reason is cut after 2000 characters
  unfoldable pub release_commit_ledger_write : String → String → String → Action (Unit {0})
  release_commit_ledger_write event_id token reason = do
    update_entry sv (mark_filter event_id (some token)) (release (take 2000 reason))
    skip
