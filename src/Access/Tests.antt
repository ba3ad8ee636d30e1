-- ===== src/Access/Tests.antt =====
-- The access policy at a user with one access.
use entity_developer_dashboa.Prelude.{◌≡◌, ◌&&◌, ◌||◌, List, [], ◌∷◌, some}
use entity_developer_dashboa.Access.{ssi_access_matrix, dashboard}
use entity_developer_dashboa.Access.Policy.{
  UserAccess, evaluate_access_policy, evaluate_access_policy-includes, has_access, includes,
  id_dashboard,
}

abbrev reader : List UserAccess
reader = record { service_type = "SSI_API"; access = "READ_DID" } ∷ []

evaluate_access_policy-includes_example :
    includes
      (evaluate_access_policy (ssi_access_matrix dashboard) "SSI_API" reader (some id_dashboard))
      "READ_DID"
    ≡ includes (ssi_access_matrix dashboard) "READ_DID"
      && (has_access reader "SSI_API" "ALL" || has_access reader "SSI_API" "READ_DID")
evaluate_access_policy-includes_example =
    evaluate_access_policy-includes (ssi_access_matrix dashboard) "SSI_API" reader "READ_DID"
