-- ===== src/Credits/Robust.antt =====
-- Predicates on the state that read neither the counters nor the messages that were sent, and that
-- survive every update of a plan which spares its meters: the actions that touch nothing else
-- keep them.
use entity_developer_dashboa.Prelude.{Bool, List}
use entity_developer_dashboa.Exec.Keeps.{Keeps}
use entity_developer_dashboa.Credits.Schema.{CreditPlan}
use entity_developer_dashboa.Credits.Meters.{Spares}
use entity_developer_dashboa.World.{
  World, Services, Mail, QueuedJob, Transaction, now, random_uuid, find_plan, find_plans,
  update_plan, find_entry, find_event, ask, add_mail, add_job, broadcast,
}
use entity_developer_dashboa.World.Keeps.{
  Uncounted, Keeps-now, Keeps-random_uuid, Keeps-find_plan, Keeps-find_plans, Keeps-update_plan,
  Keeps-find_entry, Keeps-find_event, Keeps-ask, Keeps-add_mail, Keeps-add_job, Keeps-broadcast,
}
use entity_developer_dashboa.Credits.Schema.{OutboxEntry, LedgerEvent}

pub record Robust (sv : Services) (P : World → Type 0) : Type 0 where
  pub free : Uncounted P
  pub mails : (w : World) (mails : List Mail) → P w → P (record w { mails = mails })
  pub queued : (w : World) (queued : List QueuedJob) → P w → P (record w { queued = queued })
  pub broadcasts : (w : World) (sent : List Transaction) → P w → P (record w { broadcasts = sent })
  pub plans :
      (f : CreditPlan → Bool) (u : CreditPlan → CreditPlan)
      → Spares u
      → (w : World) → P w
      → P (record w { plans = (sv.plan_store.find_one_and_update f u w.plans).1 })

module _ {sv : Services} {P : World → Type 0} (r : Robust sv P) where
  pub Robust-now : Keeps P (now sv)
  Robust-now = Keeps-now sv r.free

  pub Robust-random_uuid : Keeps P (random_uuid sv)
  Robust-random_uuid = Keeps-random_uuid sv r.free

  pub Robust-find_plan : (f : CreditPlan → Bool) → Keeps P (find_plan sv f)
  Robust-find_plan f = Keeps-find_plan sv r.free f

  pub Robust-find_plans : (f : CreditPlan → Bool) → Keeps P (find_plans sv f)
  Robust-find_plans f = Keeps-find_plans sv r.free f

  pub Robust-find_entry : (f : OutboxEntry → Bool) → Keeps P (find_entry sv f)
  Robust-find_entry f = Keeps-find_entry sv r.free f

  pub Robust-find_event : (f : LedgerEvent → Bool) → Keeps P (find_event sv f)
  Robust-find_event f = Keeps-find_event sv r.free f

  pub Robust-ask : {A : Type 0} (f : World → A) → Keeps P (ask sv f)
  Robust-ask f = Keeps-ask sv r.free f

  pub Robust-add_mail : (mail : Mail) → Keeps P (add_mail sv mail)
  Robust-add_mail mail = Keeps-add_mail sv r.free mail r.mails

  pub Robust-add_job : (job : QueuedJob) → Keeps P (add_job sv job)
  Robust-add_job job = Keeps-add_job sv r.free job r.queued

  pub Robust-broadcast : (tx : Transaction) → Keeps P (broadcast sv tx)
  Robust-broadcast tx = Keeps-broadcast sv r.free tx r.broadcasts

  pub Robust-update_plan :
      (f : CreditPlan → Bool) (u : CreditPlan → CreditPlan)
      → Spares u
      → Keeps P (update_plan sv f u)
  Robust-update_plan f u s = Keeps-update_plan sv r.free f u (r.plans f u s)

pub ruleset robust_rules = (
  Robust-now, Robust-random_uuid, Robust-find_plan, Robust-find_plans, Robust-find_entry,
  Robust-find_event, Robust-ask, Robust-add_mail, Robust-add_job, Robust-broadcast,
  Robust-update_plan,
)
