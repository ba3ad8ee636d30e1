-- ===== src/Credits/Wallet/RoundTrip.antt =====
-- The two directions between the dashboard's plan ids and the middleware's.
use Prim.Native.String.{count}
use entity_developer_dashboa.Prelude.{
  String, true, ◌≡◌, ◌⋅◌, ends_with, slice_end, slice_end-append, ends_with-append,
  slice_end_of_ends_with, arith, ap, sym, truthy, ◌===◌, Bool-cases, inl, inr, Option, none, some,
  eq_iff,
}
use entity_developer_dashboa.Exec.{ok}
use entity_developer_dashboa.Json.{Value, text}
use entity_developer_dashboa.Credits.Wallet.{
  ssi_api, is_ssi_credit_type, sdk_plan_id, dashboard_plan_id, resolve_credit_type,
  strip_credit_type,
}

truthy_of_known : (t : String) → is_ssi_credit_type t ≡ true → truthy t ≡ true
truthy_of_known t known = elim (Bool-cases (t === "")) [
  | inl e ↦ cc (ap is_ssi_credit_type ((eq_iff t "").0 e))
  | inr e ↦ rw e
]

strip_credit_type-append :
    (plan t : String)
    → is_ssi_credit_type t ≡ true
    → strip_credit_type (plan ⋅ "." ⋅ t) (some t) ≡ ok plan
unfolding strip_credit_type
strip_credit_type-append plan t known =
    rw (known, ends_with-append plan ("." ⋅ t), slice_end-append plan ("." ⋅ t))

-- The dashboard finds its plan under the id that it gave to the middleware: for every service, and
-- for an SSI plan with one of the two credit types.
pub dashboard_plan_id-sdk_plan_id :
    (plan service_type credit_type : String)
    → is_ssi_credit_type credit_type ≡ true
    → dashboard_plan_id (sdk_plan_id plan service_type credit_type) service_type (text credit_type)
      ≡ ok plan
unfolding dashboard_plan_id sdk_plan_id
dashboard_plan_id-sdk_plan_id plan service_type credit_type known =
    elim (Bool-cases (service_type === ssi_api)) [
      | inl e ↦
          rw (e, truthy_of_known credit_type known)
            (strip_credit_type-append plan credit_type known)
      | inr e ↦ rw e
    ]

strip_credit_type-suffix :
    (middleware : String) (t : Option String) (plan : String)
    → strip_credit_type middleware t ≡ ok plan
    → (k : String) × (is_ssi_credit_type k ≡ true) × (middleware ≡ plan ⋅ "." ⋅ k)
unfolding strip_credit_type
strip_credit_type-suffix middleware none plan h = cc
strip_credit_type-suffix middleware (some t) plan h = elim (Bool-cases (is_ssi_credit_type t)) [
  | inl known ↦ elim (Bool-cases (ends_with middleware ("." ⋅ t))) [
    | inl ends ↦
        let same : slice_end middleware (count ("." ⋅ t)) ≡ plan = ground arith in
        (t, known, rw (← same) (sym (slice_end_of_ends_with middleware ("." ⋅ t) ends)))
    | inr other ↦ cc
  ]
  | inr other ↦ cc
]

-- Whatever credit type the event carries, an SSI plan id that is accepted is the dashboard's id
-- with the suffix of one of the two credit types.
pub dashboard_plan_id-suffix :
    (middleware : String) (credit_type : Value) (plan : String)
    → dashboard_plan_id middleware ssi_api credit_type ≡ ok plan
    → (t : String) × (is_ssi_credit_type t ≡ true) × (sdk_plan_id plan ssi_api t ≡ middleware)
unfolding dashboard_plan_id sdk_plan_id
dashboard_plan_id-suffix middleware credit_type plan h =
    let (t, known, e) =
      strip_credit_type-suffix middleware (resolve_credit_type middleware credit_type) plan h in
    (t, known, sym e)
