-- ===== src/Credits/Lifecycle.antt =====
-- How the consumer of credit-lifecycle-consumer.service.ts takes the critical balances of an
-- application one after the other. A chain is what happens for one application: the calls of
-- processCriticalBalanceInOrder, the newest first, and the entry of criticalBalanceProcessing. A
-- promise is known by the number of calls before its own.
pub mod Serial
pub mod Order
mod Tests
use entity_developer_dashboa.Prelude.{
  ℕ, String, Bool, true, false, ◌&&◌, Option, none, some, List, [], ◌∷◌, ◌==◌, is_number, length,
  if◌then◌else◌, truthy, ◌===◌,
}
use entity_developer_dashboa.Json.{Value, text, as_text}

-- A call waits for the one before it, runs, has settled (with or without a failure), and has left
-- its `finally` block.
pub data Phase : Type 0 where
  waiting running settled cleaned : Phase

-- A call, with the promise that the table had when it was made.
pub record Call : Type 0 where
  pub previous : Option ℕ
  pub phase : Phase

pub record Chain : Type 0 where
  pub calls : List Call
  pub entry : Option ℕ

-- An application id that is a text and not empty
abbrev nonempty : Option String → Option String
nonempty none = none
nonempty (some s) = if truthy s then some s else none

-- of data.event.appId, if the data and the event are objects
unfoldable pub event_app_id : Option (Option Value) → Option String
event_app_id none = none
event_app_id (some none) = none
event_app_id (some (some app_id)) = nonempty (as_text app_id)

abbrev pub is_done : Phase → Bool
is_done waiting = false
is_done running = false
is_done settled = true
is_done cleaned = true

-- The call with this number, of the calls newest first.
abbrev pub call_at : ℕ → List Call → Option Call
call_at n [] = none
call_at n (c ∷ cs) = if n == length cs then some c else call_at n cs

abbrev pub settled_call : Option Call → Bool
settled_call none = false
settled_call (some c) = is_done c.phase

-- `(previous ?? Promise.resolve())` has settled.
abbrev pub is_ready : Option ℕ → List Call → Bool
is_ready none cs = true
is_ready (some p) cs = settled_call (call_at p cs)

-- get, then and set
unfoldable pub arrive : Chain → Chain
arrive c = record {
  calls = record { previous = c.entry; phase = waiting } ∷ c.calls;
  entry = some (length c.calls);
}

-- The changes of one call, if it is in the phase for it: `process` begins, it settles, and the call
-- leaves its `finally` block.
pub data Move : Type 0 where
  begin settle clean : Move

-- The phase after a move; a move that is not possible changes nothing. `process` begins when the
-- call is ready.
abbrev pub phase_after : Move → Bool → Phase → Phase
phase_after begin true waiting = running
phase_after settle ready running = settled
phase_after clean ready settled = cleaned
phase_after m ready p = p

abbrev pub move_call : Move → ℕ → List Call → List Call
move_call m n [] = []
move_call m n (c ∷ cs) =
    if n == length cs
    then record c { phase = phase_after m (is_ready c.previous cs) c.phase } ∷ cs
    else c ∷ move_call m n cs

abbrev pub is_clean : Move → Bool
is_clean clean = true
is_clean _ = false

abbrev pub is_settled : Phase → Bool
is_settled settled = true
is_settled _ = false

abbrev pub can_clean : Option Call → Bool
can_clean none = false
can_clean (some c) = is_settled c.phase

-- `if (get(appId) === current) delete(appId)`
abbrev pub entry_after : Move → ℕ → Chain → Option ℕ
entry_after m n c =
    if is_clean m && can_clean (call_at n c.calls) && is_number c.entry n then none else c.entry

unfoldable pub move : Move → ℕ → Chain → Chain
move m n c = record { calls = move_call m n c.calls; entry = entry_after m n c }

pub data Event : Type 0 where
  arrives : Event
  moves : Move → ℕ → Event

unfoldable pub step : Event → Chain → Chain
step arrives c = arrive c
step (moves m n) c = move m n c

abbrev pub run : List Event → Chain → Chain
run [] c = c
run (e ∷ es) c = run es (step e c)

abbrev pub no_calls : Chain
no_calls = record { calls = []; entry = none }
