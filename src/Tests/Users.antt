-- ===== src/Tests/Users.antt =====
-- A user with an account and an open identity case, beside another user
-- (apps/api/src/webhooks/onfido.webhook.ts and chainalysis.webhook.ts).
use genesis_reserve_smarter.Base.{inr, ◌≡◌, refl, some, false, true, [], ◌∷◌, ◌≤◌, arith}
use genesis_reserve_smarter.Database.{
  no_rows, TreasuryAccount, TreasuryMode, IdentityCase, SanctionStatus,
}
use genesis_reserve_smarter.Effect.{World}
use genesis_reserve_smarter.Effect.Atomic.{Gives}
use genesis_reserve_smarter.Effect.Leads.{Closes}
use genesis_reserve_smarter.Compliance.{kyc_level_of, check_sanctions, CheckResult}
use genesis_reserve_smarter.Webhooks.Users.{State, UserStatus}
use genesis_reserve_smarter.Webhooks.Onfido.{
  Check, onfido_webhook_handler, verify_onfido_signature, is_passed, first_applicant,
  Config as OnfidoConfig, Request as OnfidoRequest,
}
use genesis_reserve_smarter.Webhooks.Onfido.Verified.{Answered, onfido_webhook_handler-Answered}
use genesis_reserve_smarter.Webhooks.Onfido.Gate.{onfido_webhook_handler-kyc_level_of}
use genesis_reserve_smarter.Webhooks.Chainalysis.{
  Alert, Config, Request, chainalysis_webhook_handler, verify_chainalysis_signature,
}
use genesis_reserve_smarter.Webhooks.Chainalysis.Suspended.{
  Handled, chainalysis_webhook_handler-Handled,
}
use genesis_reserve_smarter.Webhooks.Chainalysis.Gate.{chainalysis_webhook_handler-check_sanctions}
use genesis_reserve_smarter.Effect.Succeeds.{IsCalm}
use genesis_reserve_smarter.Webhooks.Returning.{
  onfido_webhook_handler-Succeeds, chainalysis_webhook_handler-Succeeds,
}
use genesis_reserve_smarter.Tests.{same_text}

abbrev account : TreasuryAccount
account = record {
  account_id = "pta-1";
  owner_id = "u1";
  wallet_address = "0xa";
  mode = TreasuryMode.flexible_reserve;
  kyc_level = 0;
  risk_tier = 0;
  jurisdiction = "US";
  policy_version = 1;
  partner_pricing_id = "p";
  updated_at = 0;
}

abbrev open_case : IdentityCase
open_case = record {
  identity_id = "i1";
  user_id = "u1";
  provider_ref = "chk";
  docs_verified = false;
  liveness_pass = false;
  kyc_level = 0;
  sanction_status = SanctionStatus.pending;
  jurisdiction = "US";
}

abbrev two_users : State
two_users = record {
  tables = record no_rows {
    accounts = account ∷ [];
    user_ids = "u1" ∷ "u2" ∷ [];
    identity_cases = open_case ∷ [];
  };
  statuses = λ u. UserStatus.pending;
  published = [];
  activations = [];
}

-- The sixth statement fails: the audit row or the event.
abbrev world : World State
world = record {
  db = two_users;
  faults = false ∷ false ∷ false ∷ false ∷ false ∷ false ∷ true ∷ [];
}

abbrev onfido_config : OnfidoConfig
onfido_config = record {
  token = some "key";
  rpc_url = "";
  operator_key = "";
  registry_address = "";
  hmac = λ key json. "sig";
  bytes32 = λ ref. some ref;
  activate_account = λ a. some "0xhash";
  date_now = 5000;
}

abbrev clear_check : Check
clear_check = record { id = "chk"; result = some "clear"; sub_result = some "clear" }

abbrev onfido_request : OnfidoRequest
onfido_request = record {
  signature = some "sig";
  json = "{}";
  action = some "check.completed";
  check = some clear_check;
}

onfido_webhook_handler-Answered_example :
    Closes
      (Answered onfido_config onfido_request two_users)
      (λ t. t ≡ two_users)
      (onfido_webhook_handler onfido_config onfido_request world)
onfido_webhook_handler-Answered_example =
    onfido_webhook_handler-Answered onfido_config onfido_request world

onfido_webhook_handler-kyc_level_of_example :
    Closes
      (λ ans t. 2 ≤ kyc_level_of same_text "0xa" t.tables)
      (λ t. t ≡ two_users)
      (onfido_webhook_handler onfido_config onfido_request world)
unfolding verify_onfido_signature first_applicant is_passed
onfido_webhook_handler-kyc_level_of_example =
    onfido_webhook_handler-kyc_level_of onfido_config same_text onfido_request clear_check
      (record { identity_id = "i1"; user_id = "u1"; wallet_address = "0xa" }) world refl refl refl
      refl refl refl

abbrev chainalysis_config : Config
chainalysis_config = record { secret = some "key"; hmac = λ key json. "5"; lower = same_text }

abbrev alert : Alert
alert = record { alert_id = some "al-1"; severity = "CRITICAL"; address = "0xa" }

abbrev request : Request
request = record { signature = some "sha256=5"; json = "{}"; alert = alert }

chainalysis_webhook_handler-Handled_example :
    Closes
      (Handled chainalysis_config 100 request two_users)
      (λ t. t ≡ two_users)
      (chainalysis_webhook_handler chainalysis_config 100 request world)
chainalysis_webhook_handler-Handled_example =
    chainalysis_webhook_handler-Handled chainalysis_config 100 request world

chainalysis_webhook_handler-check_sanctions_example :
    Closes
      (λ ans t.
        Gives
          (λ (r : CheckResult) x. r.passed ≡ false)
          (check_sanctions same_text "0xa" 5000 (record { db = t.tables; faults = [] })))
      (λ t. t ≡ two_users)
      (chainalysis_webhook_handler chainalysis_config 100 request world)
unfolding verify_chainalysis_signature
chainalysis_webhook_handler-check_sanctions_example =
    chainalysis_webhook_handler-check_sanctions chainalysis_config 100 5000 request account world []
      refl refl refl (ground arith)

abbrev calm_world : World State
calm_world = record { db = two_users; faults = [] }

onfido_webhook_handler-Succeeds_example :
    IsCalm (onfido_webhook_handler onfido_config onfido_request calm_world)
onfido_webhook_handler-Succeeds_example =
    onfido_webhook_handler-Succeeds onfido_config onfido_request calm_world refl

chainalysis_webhook_handler-Succeeds_example :
    IsCalm (chainalysis_webhook_handler chainalysis_config 100 request calm_world)
chainalysis_webhook_handler-Succeeds_example =
    chainalysis_webhook_handler-Succeeds chainalysis_config 100 request calm_world
      (inr ("al-1", refl)) refl
