-- ===== src/Access/Policy.antt =====
-- getAccessListForModule and evaluateAccessPolicy of utils/utils.ts. A service type that has no
-- matrix gives `undefined`.
use entity_developer_dashboa.Prelude.{
  String, Bool, true, false, ◌&&◌, ◌||◌, Option, none, some, List, [], ◌∷◌, ◌===◌, any, keep, map,
  if◌then◌else◌, is_same, ◌≡◌, refl, Bool-cases, inl, inr, eq_iff, ap, sym, arith,
}
use entity_developer_dashboa.Credits.Wallet.{ssi_api, cavach_api}
use entity_developer_dashboa.Access.{
  TokenModule, cavach_kyc_access_matrix, cavach_kyb_access_matrix, ssi_access_matrix,
  quest_access_matrix,
}

unfoldable pub get_access_list_for_module :
    TokenModule → String → Option String → Option (List String)
get_access_list_for_module token_module service_type grant_type =
    if service_type === cavach_api
    then some (
        if is_same grant_type "access_service_kyb"
        then cavach_kyb_access_matrix token_module
        else cavach_kyc_access_matrix token_module)
    else if service_type === ssi_api
    then some (ssi_access_matrix token_module)
    else if service_type === "QUEST"
    then some (quest_access_matrix token_module)
    else none

-- An entry of a user's accessList; a missing expiry date is null.
pub record UserAccess : Type 0 where
  pub service_type : String
  pub access : String

-- `xs.includes(x)`
abbrev pub includes : List String → String → Bool
includes xs x = any (λ y. y === x) xs

-- Context.idDashboard
abbrev pub id_dashboard : String
id_dashboard = "idDashboard"

abbrev is_empty : List UserAccess → Bool
is_empty [] = true
is_empty (a ∷ as_) = false

abbrev service_access : String → List UserAccess → List String
service_access service_type user_access_list =
    map (λ a. a.access) (keep (λ a. a.service_type === service_type) user_access_list)

abbrev allowed : List String → List String → List String
allowed user_service_access default_access_list =
    if includes user_service_access "ALL"
    then default_access_list
    else keep (λ p. includes user_service_access p) default_access_list

unfoldable pub evaluate_access_policy :
    List String → String → List UserAccess → Option String → List String
evaluate_access_policy default_access_list service_type user_access_list none = default_access_list
evaluate_access_policy default_access_list service_type user_access_list (some context) =
    if context === id_dashboard
    then if is_empty user_access_list
      then []
      else allowed (service_access service_type user_access_list) default_access_list
    else default_access_list

-- The user's list has an entry for the access to the service.
abbrev pub has_access : List UserAccess → String → String → Bool
has_access user_access_list service_type access =
    any (λ a. a.service_type === service_type && a.access === access) user_access_list

includes-map :
    (service_type access : String) (user_access_list : List UserAccess)
    → includes (service_access service_type user_access_list) access
      ≡ has_access user_access_list service_type access
includes-map service_type access [] = refl
includes-map service_type access (a ∷ rest) = elim (Bool-cases (a.service_type === service_type)) [
  | inl e ↦ rw e (ap (λ b. a.access === access || b) (includes-map service_type access rest))
  | inr e ↦ rw e (includes-map service_type access rest)
]

and_false : (b : Bool) → false ≡ b && false
and_false true = refl
and_false false = refl

includes-keep :
    (p : String → Bool) (x : String) (xs : List String)
    → includes (keep p xs) x ≡ includes xs x && p x
includes-keep p x [] = refl
includes-keep p x (y ∷ ys) = elim (Bool-cases (p y)) [
  | inl e ↦ elim (Bool-cases (y === x)) [
    | inl same ↦ rw (e, same, sym (ap p ((eq_iff y x).0 same)), e) refl
    | inr other ↦ rw (e, other) (includes-keep p x ys)
  ]
  | inr e ↦ elim (Bool-cases (y === x)) [
    | inl same ↦
        let missed : p x ≡ false = rw (sym (ap p ((eq_iff y x).0 same))) e in
        rw (e, includes-keep p x ys, missed, same) (sym (and_false (includes ys x)))
    | inr other ↦ rw (e, other) (includes-keep p x ys)
  ]
]

includes-allowed :
    (d : List String) (a : List String) (x : String)
    → includes (allowed a d) x ≡ includes d x && (includes a "ALL" || includes a x)
includes-allowed d a x = elim (Bool-cases (includes a "ALL")) [
  | inl e ↦ rw e (ground arith)
  | inr e ↦ rw e (includes-keep (λ p. includes a p) x d)
]

-- For the dashboard, a user is given an access exactly if the service's list has it and the user's
-- own list has it, or ALL, for that service.
pub evaluate_access_policy-includes :
    (default_access_list : List String) (service_type : String) (user_access_list : List UserAccess)
    (access : String)
    → includes
        (evaluate_access_policy default_access_list service_type user_access_list
          (some id_dashboard))
        access
      ≡ includes default_access_list access
        && (has_access user_access_list service_type "ALL"
            || has_access user_access_list service_type access)
unfolding evaluate_access_policy
evaluate_access_policy-includes d s [] x = ground arith
evaluate_access_policy-includes d s (a ∷ rest) x =
    rw (sym (includes-map s "ALL" (a ∷ rest)), sym (includes-map s x (a ∷ rest)))
      (includes-allowed d (service_access s (a ∷ rest)) x)
