-- ===== src/Credits/Lifecycle/Serial.antt =====
-- Whether the calls of one application overlap or block each other, and what they leave behind.
use entity_developer_dashboa.Prelude.{
  ℕ, ◌≤◌, Bool, true, false, ◌&&◌, ◌||◌, Option, none, some, List, [], ◌∷◌, All, ◌≡◌, refl, ◌∙◌,
  ◌⊎◌, inl, inr, arith, total,
}
use entity_developer_dashboa.Credits.Lifecycle.{
  Phase, waiting, running, settled, cleaned, Call, Event, run, no_calls, is_done, is_ready,
}
use entity_developer_dashboa.Credits.Lifecycle.Order.{
  AllDone, IsOrdered, IsInOrder, run-IsInOrder, Waits, newest, call_at-newest,
}

no_calls-IsInOrder : IsInOrder no_calls
no_calls-IsInOrder = record { ordered = tt; entry_lem = refl }

abbrev pub is_running : Phase → ℕ
is_running running = 1
is_running _ = 0

-- How many calls run.
abbrev pub running_calls : List Call → ℕ
running_calls cs = total (λ c. is_running c.phase) cs

done_running : (p : Phase) → is_done p ≡ true → is_running p ≡ 0
done_running waiting h = cc
done_running running h = cc
done_running settled h = refl
done_running cleaned h = refl

none_running : (cs : List Call) → AllDone cs → running_calls cs ≡ 0
none_running [] h = refl
none_running (c ∷ cs) h = omega (arith, done_running c.phase h.0, none_running cs h.1)

one_running : (cs : List Call) → IsOrdered cs → running_calls cs ≤ 1
one_running [] h = omega arith
one_running (c ∷ cs) h = go c.phase refl (one_running cs h.2)
  where
    go : (p : Phase) → c.phase ≡ p → running_calls cs ≤ 1 → running_calls (c ∷ cs) ≤ 1
    go waiting e k = rw e (omega (arith, k))
    go running e k = let z = none_running cs (h.1 (rw e refl)) in rw e (omega (arith, z))
    go settled e k = rw e (omega (arith, k))
    go cleaned e k = rw e (omega (arith, k))

-- After any sequence of arrivals and moves, at most one call of an application runs.
pub run-running_calls : (events : List Event) → running_calls (run events no_calls).calls ≤ 1
run-running_calls events =
    one_running (run events no_calls).calls
      (run-IsInOrder events no_calls no_calls-IsInOrder).ordered

newest-none : (cs : List Call) → All (λ c. c.phase ≡ cleaned) cs → newest cs ≡ none
newest-none [] h = refl
newest-none (c ∷ cs) h = rw h.0 refl

-- After any sequence of arrivals and moves, the table has no entry for the application if all its
-- calls have been cleaned up.
pub run-entry :
    (events : List Event)
    → All (λ c. c.phase ≡ cleaned) (run events no_calls).calls
    → (run events no_calls).entry ≡ none
run-entry events h =
    (run-IsInOrder events no_calls no_calls-IsInOrder).entry_lem
    ∙ newest-none (run events no_calls).calls h

abbrev is_waiting : Phase → Bool
is_waiting waiting = true
is_waiting _ = false

-- Some call waits and is ready.
abbrev pub can_begin : List Call → Bool
can_begin [] = false
can_begin (c ∷ cs) = (is_waiting c.phase && is_ready c.previous cs) || can_begin cs

ready_of_AllDone : (o : Option ℕ) (cs : List Call) → Waits o cs → AllDone cs → is_ready o cs ≡ true
ready_of_AllDone none cs w h = refl
ready_of_AllDone (some q) [] w h = let bad : ⊥ = omega (arith, w) in elim bad [ ]
ready_of_AllDone (some q) (d ∷ ds) w h = rw (call_at-newest q d ds (omega (arith, w))) h.0

progress :
    (cs : List Call) → IsOrdered cs → running_calls cs ≡ 0 → AllDone cs ⊎ (can_begin cs ≡ true)
progress [] h z = inl tt
progress (c ∷ cs) h z = go c.phase refl (progress cs h.2 (omega (arith, z)))
  where
    go :
        (p : Phase)
        → c.phase ≡ p
        → AllDone cs ⊎ (can_begin cs ≡ true)
        → AllDone (c ∷ cs) ⊎ (can_begin (c ∷ cs) ≡ true)
    go waiting e (inl a) = inr (rw (e, ready_of_AllDone c.previous cs h.0 a) refl)
    go running e (inl a) =
        let one : is_running c.phase ≡ 1 = rw e refl in
        let bad : ⊥ = omega (arith, z, one) in elim bad [ ]
    go settled e (inl a) = inl (rw e refl, a)
    go cleaned e (inl a) = inl (rw e refl, a)
    go p e (inr b) = inr (ground (arith, b))

-- After any sequence of arrivals and moves, if no call runs then all are done or one can begin.
pub run-can_begin :
    (events : List Event)
    → running_calls (run events no_calls).calls ≡ 0
    → AllDone (run events no_calls).calls ⊎ (can_begin (run events no_calls).calls ≡ true)
run-can_begin events z =
    progress (run events no_calls).calls (run-IsInOrder events no_calls no_calls-IsInOrder).ordered
      z
