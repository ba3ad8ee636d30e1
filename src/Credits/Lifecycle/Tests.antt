-- ===== src/Credits/Lifecycle/Tests.antt =====
-- Two calls for one application, the second of which waits for the first.
use entity_developer_dashboa.Prelude.{◌≤◌, List, [], ◌∷◌, ◌≡◌, refl, none, true, ◌⊎◌}
use entity_developer_dashboa.Credits.Lifecycle.{
  Event, arrives, moves, begin, settle, clean, arrive, move, step, run, no_calls,
}
use entity_developer_dashboa.Credits.Lifecycle.Order.{AllDone}
use entity_developer_dashboa.Credits.Lifecycle.Serial.{
  running_calls, run-running_calls, run-entry, run-can_begin, can_begin,
}

abbrev two_calls : List Event
two_calls = arrives ∷ moves begin 0 ∷ arrives ∷ moves begin 1 ∷ []

-- The second call does not begin before the first has settled.
one_of_two : running_calls (run two_calls no_calls).calls ≡ 1
unfolding step arrive move
one_of_two = refl

abbrev first_settles : List Event
first_settles = arrives ∷ moves begin 0 ∷ arrives ∷ moves settle 0 ∷ []

abbrev finished_calls : List Event
finished_calls = arrives ∷ moves begin 0 ∷ moves settle 0 ∷ moves clean 0 ∷ []

run-running_calls_example : running_calls (run two_calls no_calls).calls ≤ 1
run-running_calls_example = run-running_calls two_calls

run-entry_example : (run finished_calls no_calls).entry ≡ none
unfolding step arrive move
run-entry_example = run-entry finished_calls (refl, tt)

run-can_begin_example :
    AllDone (run first_settles no_calls).calls
    ⊎ (can_begin (run first_settles no_calls).calls ≡ true)
unfolding step arrive move
run-can_begin_example = run-can_begin first_settles refl
