-- ===== src/Credits/Tests/Commits.antt =====
-- Commits, leases and whole runs of the service at concrete inputs.
use entity_developer_dashboa.Prelude.{
  ℕ, String, Bool, true, false, none, some, List, [], ◌∷◌, ◌≡◌, refl, arith, ◌===◌, leb, ◌+◌, All,
}
use entity_developer_dashboa.Exec.{ok, ◌>>=◌}
use entity_developer_dashboa.Json.{Value}
use entity_developer_dashboa.Collection.{Hit}
use entity_developer_dashboa.Credits.Meters.{IsWithin}
use entity_developer_dashboa.Credits.Repository.Commit.{
  charge, commit_body, is_chargeable, within_limit, new_entry, same_event, apply_plan_credit_commit,
}
use entity_developer_dashboa.Credits.Repository.Commit.Charge.{Charged, commit_body_ok}
use entity_developer_dashboa.Credits.Repository.Commit.Books.{
  Balanced, Describes, used_of, apply-Balanced, apply-IsWithin, apply_again,
}
use entity_developer_dashboa.Credits.Repository.Commit.Progress.{commit_body_done}
use entity_developer_dashboa.Credits.Repository.Lease.{
  lease_ms, claim, claim_filter, mark_filter, mark_written,
}
use entity_developer_dashboa.Credits.Repository.Lease.Tokens.{
  claim_lem, LeaseStep, claiming, releasing, run_lease, run_lease-mark_written,
}
use entity_developer_dashboa.Credits.EventStore.Processing.Books.{Sound}
use entity_developer_dashboa.Credits.Life.{job, scan, activate, Arrival, live, live-Sound}
use entity_developer_dashboa.World.{World, save_entry, update_plan, call}
use entity_developer_dashboa.Credits.Tests.Fixture.{
  services, kyc_plan, opened, measurement, commit_job,
}

abbrev at_first : Bool → String → ℕ
at_first k id = used_of k id opened.plans

kyc_plan-IsWithin : IsWithin kyc_plan
kyc_plan-IsWithin = record { api = omega arith; allowance = tt }

opened-Balanced : Balanced at_first opened
opened-Balanced = record { books = λ k id. omega arith }

abbrev no_text : Value → String
no_text v = ""

abbrev arrivals : List Arrival
arrivals = job commit_job ∷ scan ∷ activate "plan" "app" ∷ job commit_job ∷ []

live-Sound_example : Sound at_first (live services no_text (80 ∷ []) (7 ∷ 1 ∷ []) arrivals opened)
live-Sound_example =
    live-Sound services no_text (80 ∷ []) (7 ∷ 1 ∷ []) at_first arrivals opened
      (record { balanced = opened-Balanced; within = (kyc_plan-IsWithin, tt) })

measurement-Describes : Describes measurement "plan" "API_CREDIT" 25
measurement-Describes = record { plan = refl; kind = refl; sum = refl }

abbrev committed_world : World
committed_world =
    (apply_plan_credit_commit services "app" "plan" 25 "API_CREDIT" "CAVACH_API" measurement
      opened).1

apply-Balanced_example : Balanced at_first committed_world
apply-Balanced_example =
    apply-Balanced services "app" "plan" 25 "API_CREDIT" "CAVACH_API" measurement opened
      measurement-Describes opened-Balanced

apply-IsWithin_example : All IsWithin committed_world.plans
apply-IsWithin_example =
    apply-IsWithin services "app" "plan" 25 "API_CREDIT" "CAVACH_API" measurement opened
      (kyc_plan-IsWithin, tt)

-- The state after a commit of the same event.
abbrev recorded : World
recorded = record opened { outbox = new_entry measurement ∷ [] }

recorded-Hit : Hit (same_event "event") recorded.outbox
recorded-Hit = record {
  before = [];
  doc = new_entry measurement;
  after = [];
  splits = refl;
  fits = refl;
}

abbrev repeated_world : World
repeated_world =
    (apply_plan_credit_commit services "app" "plan" 25 "API_CREDIT" "CAVACH_API" measurement
      recorded).1

apply_again_example :
    (repeated_world.plans ≡ recorded.plans) × (repeated_world.outbox ≡ recorded.outbox)
apply_again_example =
    apply_again services "app" "plan" 25 "API_CREDIT" "CAVACH_API" measurement recorded recorded-Hit

abbrev charged_world : World
charged_world = (commit_body services "app" "plan" 25 true "CAVACH_API" measurement opened).1

commit_body-opened :
    commit_body services "app" "plan" 25 true "CAVACH_API" measurement opened
    ≡ (ok (charge true 25 "CAVACH_API" kyc_plan), charged_world)
unfolding commit_body save_entry update_plan call ◌>>=◌ is_chargeable within_limit
commit_body-opened = refl

commit_body_ok_example :
    Charged services "app" "plan" 25 true "CAVACH_API" measurement opened charged_world
      (charge true 25 "CAVACH_API" kyc_plan)
commit_body_ok_example =
    commit_body_ok services "app" "plan" 25 true "CAVACH_API" measurement opened commit_body-opened

kyc_plan-Hit : Hit (is_chargeable true 25 "app" "plan" "CAVACH_API") opened.plans
unfolding is_chargeable within_limit
kyc_plan-Hit = record { before = []; doc = kyc_plan; after = []; splits = refl; fits = refl }

commit_body_done_example :
    (found : Hit (is_chargeable true 25 "app" "plan" "CAVACH_API") opened.plans) × ((commit_body
        services "app" "plan" 25 true "CAVACH_API" measurement opened).0
      ≡ ok (charge true 25 "CAVACH_API" found.doc))
commit_body_done_example =
    commit_body_done services "app" "plan" 25 true "CAVACH_API" measurement opened refl refl tt
      kyc_plan-Hit

claim_lem_example :
    (claim_filter "event" 31000 (claim "mine" 1000 (new_entry measurement))
      ≡ leb (1000 + lease_ms) 31000)
    × (mark_filter "event" (some "other") (claim "mine" 1000 (new_entry measurement))
        ≡ ("mine" === "other"))
    × (mark_filter "event" none (claim "mine" 1000 (new_entry measurement)) ≡ true)
claim_lem_example = claim_lem "event" "mine" "other" 1000 31000 (new_entry measurement) refl

abbrev late_calls : List LeaseStep
late_calls = releasing "event" "mine" "failed" ∷ claiming "event" "other" 90000 ∷ []

run_lease-mark_written_example :
    (claim_filter "event" 95000 (run_lease late_calls (mark_written 1000 (new_entry measurement)))
      ≡ false)
    × (mark_filter "event"
          (some "mine")
          (run_lease late_calls (mark_written 1000 (new_entry measurement)))
        ≡ false)
run_lease-mark_written_example =
    run_lease-mark_written late_calls "event" "mine" 1000 95000 (new_entry measurement)
