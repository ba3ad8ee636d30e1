-- ===== src/Credits/Service/Grant/Sparing.antt =====
-- grantCredit and the robust predicates.
use entity_developer_dashboa.Prelude.{
  ℕ, String, Bool, true, false, Option, none, some, List, [], ◌≡◌, refl, ap, sym, inl, inr,
  Option-cases,
}
use entity_developer_dashboa.Exec.{Result, ok, lift, pure, from_ok}
use entity_developer_dashboa.Exec.Keeps.{
  Keeps, keeps_rules, Keeps-bind, Keeps-bind_of, Keeps-throw_if, Keeps-lift,
}
use entity_developer_dashboa.Credits.Schema.{CreditPlan, OnChainAllowance, CreditSource, Scope}
use entity_developer_dashboa.Credits.Meters.{allowance_used}
use entity_developer_dashboa.Credits.Robust.{Robust, robust_rules}
use entity_developer_dashboa.Credits.Repository.{find_active_credit_for_service, create_plan}
use entity_developer_dashboa.Credits.Command.Sparing.{Robust-grant_credit_plan}
use entity_developer_dashboa.Credits.Service.Allowance.{grant_ssi_allowance}
use entity_developer_dashboa.Credits.Service.Allowance.Sparing.{Robust-grant_ssi_allowance}
use entity_developer_dashboa.World.{World, Services, App}
use entity_developer_dashboa.World.Calls.{bind_ok}
use entity_developer_dashboa.Credits.Service.Grant.{
  CreditRequest, reference_or_new, regrant, start_of, new_on_chain, announce, grant_new,
  grant_known, grant_checked, grant_credit,
}

-- Both meters of the plan are at zero.
pub record IsFresh (p : CreditPlan) : Type 0 where
  pub api : p.api_credit.used ≡ 0
  pub chain : allowance_used p.on_chain_allowance ≡ 0

module _ (sv : Services) where
  -- The allowance of a new plan is unused.
  new_on_chain-unused :
      (b : Bool) (app_id : String) (total : ℕ) (request : CreditRequest) (w w' : World)
      (chain : Option OnChainAllowance × List Scope)
      → new_on_chain sv b app_id total request w ≡ (ok chain, w')
      → allowance_used chain.0 ≡ 0
  unfolding new_on_chain pure
  new_on_chain-unused false app_id total request w w' chain h =
      ap
        (λ (r : Result (Option OnChainAllowance × List Scope) × World).
          allowance_used (from_ok (none, []) r.0).0)
        (sym h)
  new_on_chain-unused true app_id total request w w' chain h =
      let (period, v, e, k) = bind_ok (lift _) (λ period. _) w h in
      let (allowance, v', e', k') = bind_ok (lift _) (λ allowance. _) v k in
      let (g, v'', e'', k'') =
        bind_ok (grant_ssi_allowance sv app_id allowance period) (λ g. _) v' k' in
      ap
        (λ (r : Result (Option OnChainAllowance × List Scope) × World).
          allowance_used (from_ok (none, []) r.0).0)
        (sym k'')

module _ {sv : Services} {P : World → Type 0} (r : Robust sv P)
    (new : (p : CreditPlan) → IsFresh p → Keeps P (create_plan sv p)) where
  Robust-find_active :
      (app_id : String) (other : Option String)
      → Keeps P (find_active_credit_for_service sv app_id other)
  unfolding find_active_credit_for_service
  Robust-find_active app_id other = search (keeps_rules, robust_rules)

  Robust-reference_or_new : (o : Option String) → Keeps P (reference_or_new sv o)
  unfolding reference_or_new
  Robust-reference_or_new none = search (keeps_rules, robust_rules)
  Robust-reference_or_new (some s) = search (keeps_rules, robust_rules)

  Robust-regrant :
      (p : CreditPlan) (service : String) (app : App) → Keeps P (regrant sv p service app)
  unfolding regrant
  Robust-regrant p service app = elim (Option-cases p.expires_at) [
    | inl e ↦ rw e (search keeps_rules)
    | inr (t, e) ↦ rw e (search (keeps_rules, Robust-grant_credit_plan))
  ]

  Robust-start_of : (b : Bool) → Keeps P (start_of sv b)
  unfolding start_of
  Robust-start_of true = search (keeps_rules, robust_rules)
  Robust-start_of false = search keeps_rules

  Robust-new_on_chain :
      (b : Bool) (app_id : String) (total : ℕ) (request : CreditRequest)
      → Keeps P (new_on_chain sv b app_id total request)
  unfolding new_on_chain
  Robust-new_on_chain false app_id total request = search keeps_rules
  Robust-new_on_chain true app_id total request =
      search (keeps_rules, Robust-grant_ssi_allowance) depth 20

  Robust-announce :
      (b is_ssi : Bool) (p : CreditPlan) (t : Option ℕ) (service : String) (app : App)
      → Keeps P (announce sv b is_ssi p t service app)
  unfolding announce
  Robust-announce false is_ssi p t service app = search keeps_rules
  Robust-announce true is_ssi p t service app = search (keeps_rules, Robust-grant_credit_plan)

  Robust-grant_new :
      (app_id : String) (app : App) (service : String) (total critical : ℕ) (reference : String)
      (request : CreditRequest) (user : String) (source : CreditSource)
      → Keeps P (grant_new sv app_id app service total critical reference request user source)
  unfolding grant_new
  Robust-grant_new app_id app service total critical reference request user source =
      Keeps-bind (Robust-find_active app_id none) λ found. Keeps-bind (Robust-start_of _) λ start.
        Keeps-bind (Keeps-lift _) λ validity.
          Keeps-bind_of (Robust-new_on_chain _ app_id total request) λ w w' chain e.
            Keeps-bind (Keeps-lift _) λ date.
              Keeps-bind
                (new _ (record {
                  api = refl;
                  chain = new_on_chain-unused sv _ app_id total request w w' chain e;
                }))
                λ credit.
                  Keeps-bind (Keeps-throw_if _ _) λ _. Robust-announce _ _ credit _ service app

  Robust-grant_known :
      (app_id : String) (app : App) (service : String) (total critical : ℕ) (reference : String)
      (request : CreditRequest) (user : String) (source : CreditSource) (days : ℕ)
      (o : Option CreditPlan)
      → Keeps P
          (grant_known sv app_id app service total critical reference request user source days o)
  unfolding grant_known
  Robust-grant_known app_id app service total critical reference request user source days none =
      Robust-grant_new app_id app service total critical reference request user source
  Robust-grant_known app_id app service total critical reference request user source days (some p) =
      search (keeps_rules, Robust-regrant)

  Robust-grant_checked :
      (app_id : String) (request : CreditRequest) (user : String) (source : CreditSource)
      (o : Option String)
      → Keeps P (grant_checked sv app_id request user source o)
  unfolding grant_checked
  Robust-grant_checked app_id request user source o =
      search (keeps_rules, robust_rules, Robust-reference_or_new, Robust-grant_known) depth 40

  pub Robust-grant_credit :
      (app_id : String) (request : CreditRequest) (user : String) (source : CreditSource)
      (o : Option String)
      → Keeps P (grant_credit sv app_id request user source o)
  unfolding grant_credit
  Robust-grant_credit app_id request user source o = search (keeps_rules, Robust-grant_checked)
