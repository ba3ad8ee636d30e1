-- ===== src/Onboarding/Process/Runs.antt =====
-- Any sequence of runs, each over any record and with any outcome of its calls.
use entity_developer_dashboa.Prelude.{String, List, [], ◌∷◌}
use entity_developer_dashboa.Onboarding.Schema.{ProcessDto}
use entity_developer_dashboa.Onboarding.Desk.{Desk, Office}
use entity_developer_dashboa.Onboarding.Process.{process_customer_onboarding}
use entity_developer_dashboa.Onboarding.Process.Run.{IsClock}
use entity_developer_dashboa.Onboarding.Process.Preserved.{
  IsSoundDesk, process_customer_onboarding-IsSoundDesk,
}

-- A request to process an onboarding.
pub record Attempt : Type 0 where
  pub id : String
  pub dto : ProcessDto
  pub super_admin_user_id : String

abbrev pub run_all : {S : Type 0} → Office S → List Attempt → Desk S → Desk S
run_all of [] d = d
run_all of (a ∷ rest) d =
    run_all of rest (process_customer_onboarding of a.id a.dto a.super_admin_user_id d).1

-- If the clock never goes back and every record is sound to begin with, then over any sequence of
-- runs, with any outcome of their calls, every record stays sound: its log is the successes of the customer's
-- plan in their order, each once, then at most the failure of the next step; the times do not fall;
-- and it is approved exactly if no step is left.
pub run_all-IsSoundDesk :
    {S : Type 0} (of : Office S) (services : String → List String)
    → IsClock of.clock
    → (attempts : List Attempt) (d : Desk S) → IsSoundDesk of services d
    → IsSoundDesk of services (run_all of attempts d)
run_all-IsSoundDesk of services mono [] d h = h
run_all-IsSoundDesk of services mono (a ∷ rest) d h =
    run_all-IsSoundDesk of services mono rest
      (process_customer_onboarding of a.id a.dto a.super_admin_user_id d).1
      ((process_customer_onboarding-IsSoundDesk of services mono a.id a.dto
          a.super_admin_user_id).at
        d h)
