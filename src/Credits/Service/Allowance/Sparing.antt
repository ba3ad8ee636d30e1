-- ===== src/Credits/Service/Allowance/Sparing.antt =====
-- grantSSIAllowance and the robust predicates.
use entity_developer_dashboa.Prelude.{ℕ, String, Option, none, some, List, [], ◌∷◌}
use entity_developer_dashboa.Exec.Keeps.{Keeps, keeps_rules, Keeps-bind, Keeps-pure}
use entity_developer_dashboa.Credits.Robust.{Robust, robust_rules}
use entity_developer_dashboa.World.{
  World, Services, App, Years, FeeGrant, no_grant, basic, unsupported,
}
use entity_developer_dashboa.Credits.Service.Allowance.{
  has_authz_grant, existing_grants, read_fee_grant, get_feegrant_allowance, require_app,
  replace_grants, grant_ssi_allowance,
}

module _ {sv : Services} {P : World → Type 0} (r : Robust sv P) where
  Robust-has_authz_grant : (wallet url : String) → Keeps P (has_authz_grant sv wallet url)
  unfolding has_authz_grant
  Robust-has_authz_grant wallet url = search (keeps_rules, robust_rules)

  Robust-existing_grants :
      (wallet : String) (urls : List String) → Keeps P (existing_grants sv wallet urls)
  unfolding existing_grants
  Robust-existing_grants wallet [] = search keeps_rules
  Robust-existing_grants wallet (url ∷ urls) =
      let rest = Robust-existing_grants wallet urls in
      Keeps-bind (Robust-has_authz_grant wallet url) λ b. Keeps-bind rest λ bs. Keeps-pure _

  Robust-read_fee_grant : (g : FeeGrant) → Keeps P (read_fee_grant sv g)
  unfolding read_fee_grant
  Robust-read_fee_grant no_grant = search keeps_rules
  Robust-read_fee_grant (basic none) = search keeps_rules
  Robust-read_fee_grant (basic (some amount)) = search keeps_rules
  Robust-read_fee_grant unsupported = search keeps_rules

  Robust-get_feegrant_allowance : (wallet : String) → Keeps P (get_feegrant_allowance sv wallet)
  unfolding get_feegrant_allowance
  Robust-get_feegrant_allowance wallet = search (keeps_rules, robust_rules, Robust-read_fee_grant)

  Robust-require_app : (o : Option App) → Keeps P (require_app sv o)
  Robust-require_app none = search keeps_rules
  Robust-require_app (some app) = search keeps_rules

  Robust-replace_grants :
      (app_id : String) (allowance : ℕ) (period : Years)
      → Keeps P (replace_grants sv app_id allowance period)
  unfolding replace_grants
  Robust-replace_grants app_id allowance period =
      search
        (
          keeps_rules, robust_rules, Robust-require_app, Robust-existing_grants,
          Robust-get_feegrant_allowance,
        )
        depth 40

  pub Robust-grant_ssi_allowance :
      (app_id : String) (allowance : ℕ) (period : Years)
      → Keeps P (grant_ssi_allowance sv app_id allowance period)
  unfolding grant_ssi_allowance
  Robust-grant_ssi_allowance app_id allowance period = search (keeps_rules, Robust-replace_grants)
