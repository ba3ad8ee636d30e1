-- ===== src/Credits/Repository/Lease/Tokens.antt =====
-- Who may take, finish or give back the lease on a ledger write.
use entity_developer_dashboa.Prelude.{
  ℕ, ◌+◌, String, Bool, true, false, Option, none, some, List, [], ◌∷◌, ◌≡◌, refl, ◌===◌, leb,
  arith, Bool-cases, inl, inr,
}
use entity_developer_dashboa.Credits.Schema.{OutboxEntry, written}
use entity_developer_dashboa.Credits.Repository.Commit.{same_event}
use entity_developer_dashboa.Credits.Repository.Lease.{
  lease_ms, claim_filter, claim, mark_filter, mark_written, release,
}

-- After a claim the entry of an event can be claimed again exactly from the end of the lease on. A
-- call that gives a token can finish it or give it back exactly if it is the token of the claim,
-- and a call that gives none can finish it whoever holds the lease.
pub claim_lem :
    (event_id token other : String) (time later : ℕ) (e : OutboxEntry)
    → same_event event_id e ≡ true
    → (claim_filter event_id later (claim token time e) ≡ leb (time + lease_ms) later)
      × (mark_filter event_id (some other) (claim token time e) ≡ (token === other))
      × (mark_filter event_id none (claim token time e) ≡ true)
unfolding claim_filter claim mark_filter
claim_lem event_id token other time later e h = (ground arith, ground arith, ground arith)

-- A change of the lease that a call asks for: of which event, with which token, at which time.
pub data LeaseStep : Type 0 where
  claiming : String → String → ℕ → LeaseStep
  marking : String → Option String → ℕ → LeaseStep
  releasing : String → String → String → LeaseStep

abbrev pub if_fits : Bool → (OutboxEntry → OutboxEntry) → OutboxEntry → OutboxEntry
if_fits true u e = u e
if_fits false u e = e

-- What the change makes of an entry, if its filter fits.
abbrev pub lease_step : LeaseStep → OutboxEntry → OutboxEntry
lease_step (claiming event_id token time) e =
    if_fits (claim_filter event_id time e) (λ d. claim token time d) e
lease_step (marking event_id token time) e =
    if_fits (mark_filter event_id token e) (λ d. mark_written time d) e
lease_step (releasing event_id token reason) e =
    if_fits (mark_filter event_id (some token) e) (λ d. release reason d) e

abbrev pub run_lease : List LeaseStep → OutboxEntry → OutboxEntry
run_lease [] e = e
run_lease (s ∷ rest) e = run_lease rest (lease_step s e)

-- Written, and without a lease that a late call could hold.
IsFinished : OutboxEntry → Type 0
IsFinished e = (e.ledger_status ≡ written) × (e.ledger_lease_token ≡ none)

mark_written-IsFinished : (time : ℕ) (e : OutboxEntry) → IsFinished (mark_written time e)
unfolding IsFinished mark_written
mark_written-IsFinished time e = (refl, refl)

claim_filter-IsFinished :
    (event_id : String) (time : ℕ) (e : OutboxEntry)
    → IsFinished e
    → claim_filter event_id time e ≡ false
unfolding IsFinished claim_filter
claim_filter-IsFinished event_id time e h = ground (arith, h.0)

mark_filter-IsFinished :
    (event_id token : String) (e : OutboxEntry)
    → IsFinished e
    → mark_filter event_id (some token) e ≡ false
unfolding IsFinished mark_filter
mark_filter-IsFinished event_id token e h = ground (arith, h.1)

lease_step-IsFinished :
    (s : LeaseStep) (e : OutboxEntry) → IsFinished e → IsFinished (lease_step s e)
lease_step-IsFinished (claiming event_id token time) e h =
    rw (claim_filter-IsFinished event_id time e h) h
lease_step-IsFinished (releasing event_id token reason) e h =
    rw (mark_filter-IsFinished event_id token e h) h
lease_step-IsFinished (marking event_id token time) e h =
    elim (Bool-cases (mark_filter event_id token e)) [
      | inl fits ↦ rw fits (mark_written-IsFinished time e)
      | inr misses ↦ rw misses h
    ]

run_lease-IsFinished :
    (ss : List LeaseStep) (e : OutboxEntry) → IsFinished e → IsFinished (run_lease ss e)
run_lease-IsFinished [] e h = h
run_lease-IsFinished (s ∷ rest) e h =
    run_lease-IsFinished rest (lease_step s e) (lease_step-IsFinished s e h)

-- Once an entry is written, no sequence of claims, marks and releases, late ones with any token
-- included, opens it again: no event can claim it afterwards at any time, and no token can mark it
-- or give it back.
pub run_lease-mark_written :
    (steps : List LeaseStep) (event_id token : String) (time later : ℕ) (e : OutboxEntry)
    → (claim_filter event_id later (run_lease steps (mark_written time e)) ≡ false)
      × (mark_filter event_id (some token) (run_lease steps (mark_written time e)) ≡ false)
run_lease-mark_written steps event_id token time later e =
    let finished =
      run_lease-IsFinished steps (mark_written time e) (mark_written-IsFinished time e) in
    (
      claim_filter-IsFinished event_id later _ finished,
      mark_filter-IsFinished event_id token _ finished,
    )
