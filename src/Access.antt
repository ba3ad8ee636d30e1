-- ===== src/Access.antt =====
-- Access to the services: which accesses a token may carry for each module and service, and what a
-- user's own list leaves of them (config/access-matrix.ts and utils/utils.ts).
mod Tests
pub mod Policy
use entity_developer_dashboa.Prelude.{String, List, [], ◌∷◌}

pub data TokenModule : Type 0 where
  dashboard verifier app_auth super_admin id_service : TokenModule

abbrev pub cavach_kyc_access_matrix : TokenModule → List String
cavach_kyc_access_matrix dashboard =
    "WRITE_SESSION" ∷ "READ_SESSION" ∷ "WRITE_CREDIT" ∷ "READ_CREDIT" ∷ "WRITE_WEBHOOK_CONFIG"
    ∷ "READ_WEBHOOK_CONFIG" ∷ "UPDATE_WEBHOOK_CONFIG" ∷ "DELETE_WEBHOOK_CONFIG" ∷ "READ_USAGE"
    ∷ "WRITE_WIDGET_CONFIG" ∷ "DELETE_WIDGET_CONFIG" ∷ "READ_WIDGET_CONFIG" ∷ "UPDATE_WIDGET_CONFIG"
    ∷ "READ_VERIFIED_USER" ∷ "READ_ANALYTICS" ∷ []
cavach_kyc_access_matrix verifier =
    "WRITE_SESSION" ∷ "WRITE_USER_CONSENT" ∷ "WRITE_PASSIVE_LIVELINESS" ∷ "WRITE_DOC_OCR"
    ∷ "CHECK_LIVE_STATUS" ∷ "READ_WIDGET_CONFIG" ∷ "READ_USER_CONSENT" ∷ "WRITE_AUTH"
    ∷ "READ_COMPANY" ∷ "WRITE_ZK_PROOF_VERIFY" ∷ []
cavach_kyc_access_matrix app_auth =
    "WRITE_SESSION" ∷ "WRITE_USER_CONSENT" ∷ "WRITE_PASSIVE_LIVELINESS" ∷ "WRITE_DOC_OCR"
    ∷ "CHECK_LIVE_STATUS" ∷ "READ_WIDGET_CONFIG" ∷ "READ_USER_CONSENT" ∷ "WRITE_ZK_PROOF_VERIFY"
    ∷ []
cavach_kyc_access_matrix super_admin = "WRITE_CREDIT" ∷ []
cavach_kyc_access_matrix _ = []

abbrev pub cavach_kyb_access_matrix : TokenModule → List String
cavach_kyb_access_matrix dashboard =
    "READ_COMPANY" ∷ "UPDATE_COMPANY" ∷ "DELETE_COMPANY" ∷ "UPDATE_COMPANY_STATUS"
    ∷ "READ_COMPANY_EXECUTIVES" ∷ "UPDATE_COMPANY_EXECUTIVES" ∷ "DELETE_COMPANY_EXECUTIVES"
    ∷ "RESEND_COMPANY_EXECUTIVES_MAIL" ∷ "READ_DOCUMENT" ∷ "WRITE_WIDGET_CONFIG"
    ∷ "READ_WIDGET_CONFIG" ∷ "UPDATE_WIDGET_CONFIG" ∷ "WRITE_COMPLIANCE" ∷ "READ_COMPLIANCE"
    ∷ "READ_CREDIT" ∷ "WRITE_CREDIT" ∷ []
cavach_kyb_access_matrix verifier =
    "READ_COMPANY" ∷ "WRITE_COMPANY" ∷ "UPDATE_COMPANY" ∷ "DELETE_COMPANY"
    ∷ "READ_COMPANY_EXECUTIVES" ∷ "WRITE_COMPANY_EXECUTIVES" ∷ "UPDATE_COMPANY_EXECUTIVES"
    ∷ "DELETE_COMPANY_EXECUTIVES" ∷ "RESEND_COMPANY_EXECUTIVES_MAIL" ∷ "WRITE_DOCUMENT"
    ∷ "READ_DOCUMENT" ∷ "DELETE_DOCUMENT" ∷ "READ_WIDGET_CONFIG" ∷ []
cavach_kyb_access_matrix app_auth = []
cavach_kyb_access_matrix super_admin =
    "WRITE_COMPLIANCE" ∷ "UPDATE_COMPANY_STATUS" ∷ "READ_COMPLIANCE" ∷ "VERIFY_DOCUMENT" ∷ []
cavach_kyb_access_matrix _ = []

abbrev pub ssi_access_matrix : TokenModule → List String
ssi_access_matrix dashboard =
    "READ_DID" ∷ "WRITE_DID" ∷ "WRITE_CREDIT" ∷ "READ_CREDIT" ∷ "WRITE_SCHEMA" ∷ "READ_SCHEMA"
    ∷ "CHECK_LIVE_STATUS" ∷ "READ_TX" ∷ "READ_CREDENTIAL" ∷ "VERIFY_CREDENTIAL" ∷ "WRITE_CREDENTIAL"
    ∷ "READ_USAGE" ∷ "WRITE_PRESENTATION" ∷ "VERIFY_PRESENTATION" ∷ []
ssi_access_matrix verifier = "READ_DID" ∷ "ISSUE_DID_JWT" ∷ []
ssi_access_matrix app_auth =
    "READ_DID" ∷ "WRITE_DID" ∷ "WRITE_CREDENTIAL" ∷ "READ_CREDENTIAL" ∷ "ISSUE_DID_JWT" ∷ []
ssi_access_matrix super_admin = "WRITE_CREDIT" ∷ []
ssi_access_matrix id_service =
    "READ_TX" ∷ "WRITE_CREDENTIAL" ∷ "VERIFY_PRESENTATION" ∷ "ISSUE_DID_JWT" ∷ "READ_DID" ∷ []

abbrev pub quest_access_matrix : TokenModule → List String
quest_access_matrix dashboard = []
quest_access_matrix verifier = []
quest_access_matrix app_auth = "VERIFY_USER" ∷ []
quest_access_matrix _ = []
