-- ===== src/Credits/Notification/Reading.antt =====
-- The parts of an alert that only read: who gets it, and what it says of the customer.
use entity_developer_dashboa.Prelude.{String, Option, none, some}
use entity_developer_dashboa.Exec.Keeps.{Keeps, keeps_rules}
use entity_developer_dashboa.World.{World, Services, Onboarding}
use entity_developer_dashboa.World.Keeps.{Uncounted, Keeps-ask}
use entity_developer_dashboa.Credits.Notification.{
  Recipient, resolve_recipient, owner_of, describe, get_ssi_customer_details, details_for,
}

module _ (sv : Services) {P : World → Type 0} (free : Uncounted P) where
  pub Keeps-resolve_recipient : (id : String) → Keeps P (resolve_recipient sv id)
  unfolding resolve_recipient
  Keeps-resolve_recipient id = search (keeps_rules, Keeps-ask)

  Keeps-owner_of : (id : Option String) → Keeps P (owner_of sv id)
  unfolding owner_of
  Keeps-owner_of none = search keeps_rules
  Keeps-owner_of (some id) = search (keeps_rules, Keeps-ask)

  Keeps-describe : (o : Option Onboarding) → Keeps P (describe sv o)
  unfolding describe
  Keeps-describe none = search keeps_rules
  Keeps-describe (some o) = search (keeps_rules, Keeps-owner_of)

  pub Keeps-details : (id : String) → Keeps P (get_ssi_customer_details sv id)
  unfolding get_ssi_customer_details
  Keeps-details id = search (keeps_rules, Keeps-ask, Keeps-describe)

  pub Keeps-details_for : (c : Recipient) (id : String) → Keeps P (details_for sv c id)
  unfolding details_for
  Keeps-details_for c id = search (keeps_rules, Keeps-details)
