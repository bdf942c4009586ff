-- ===== src/Webhooks/Onfido.antt =====
-- The receiver of identity checks (apps/api/src/webhooks/onfido.webhook.ts). HMAC, the coding of a
-- text in 32 bytes and the compliance registry are not the repository's code, so fields of `Config`.
pub mod Verified
pub mod Gate
use genesis_reserve_smarter.Base.{
  ℕ, ◌+◌, ◌/◌, String, Option, none, some, Bool, true, false, ◌&&◌, ◌||◌, List, [], ◌∷◌, str_eq,
  if◌then◌else◌, not, map, find, leb,
}
use genesis_reserve_smarter.Database.{TreasuryAccount, IdentityCase, SanctionStatus, Tables}
use genesis_reserve_smarter.Effect.{
  World, Io, Outcome, done, threw, chain_call_failed, pure, throw, ◌>>=◌, ◌>>◌, or_else, read,
  write, with_transaction,
}
use genesis_reserve_smarter.Webhooks.Users.{
  UserStatus, kyc_complete, Activation, State, with_status, with_audit, publish, has_signature,
}

-- `payload.object`
pub record Check : Type 0 where
  pub id : String
  pub result : Option String
  pub sub_result : Option String

pub record Request : Type 0 where
  -- the header x-sha2-signature
  pub signature : Option String
  -- JSON.stringify(req.body)
  pub json : String
  pub action : Option String
  -- an object with no id is taken as absent: it finds no case either
  pub check : Option Check

pub record Config : Type 0 where
  -- ONFIDO_WEBHOOK_TOKEN, and RPC_URL, OPERATOR_PRIVATE_KEY, COMPLIANCE_REGISTRY_ADDRESS, which are
  -- empty where they are not set
  pub token : Option String
  pub rpc_url : String
  pub operator_key : String
  pub registry_address : String
  -- createHmac('sha256', token).update(json).digest('hex')
  pub hmac : String → String → String
  -- formatBytes32String(ref.slice(0, 31)): it throws on a text that is too long
  pub bytes32 : String → Option String
  -- registry.activateAccount(…) and its receipt: the transaction's hash, or it throws
  pub activate_account : Activation → Option String
  -- Date.now()
  pub date_now : ℕ

pub record Answer : Type 0 where
  pub code : ℕ
  pub processed : Bool
  pub passed : Option Bool
  pub kyc_level : Option ℕ
  pub tx_hash : Option String

abbrev pub not_processed : ℕ → Answer
not_processed code = record {
  code = code;
  processed = false;
  passed = none;
  kyc_level = none;
  tx_hash = none;
}

abbrev pub is_text : String → Option String → Bool
is_text expected none = false
is_text expected (some s) = str_eq s expected

unfoldable pub verify_onfido_signature : Config → Request → Bool
verify_onfido_signature c req = has_signature (λ token. c.hmac token req.json) c.token req.signature

-- `evaluateKYCResult`
unfoldable pub is_passed : Check → Bool
is_passed check = is_text "clear" check.result && is_text "clear" check.sub_result

abbrev pub level_of : Check → ℕ
level_of check = if is_passed check then 2 else 0

pub record Applicant : Type 0 where
  pub identity_id : String
  pub user_id : String
  pub wallet_address : String

abbrev pub applicant_from : IdentityCase → Option TreasuryAccount → Option Applicant
applicant_from k none = none
applicant_from k (some a) =
    some (record {
      identity_id = k.identity_id;
      user_id = k.user_id;
      wallet_address = a.wallet_address;
    })

abbrev pub applicant_in : List TreasuryAccount → IdentityCase → Option Applicant
applicant_in accounts k =
    applicant_from k (find (λ (a : TreasuryAccount). str_eq a.owner_id k.user_id) accounts)

-- A case of the check beside an account of its user: the first pair, for `LIMIT 1`. The server may
-- take any pair, as the rows' order here may be any.
unfoldable pub first_applicant :
    String → List TreasuryAccount → List IdentityCase → Option Applicant
first_applicant check_id accounts [] = none
first_applicant check_id accounts (k ∷ ks) =
    let rest = first_applicant check_id accounts ks in
    if str_eq k.provider_ref check_id
    then elim (applicant_in accounts k) [ none ↦ rest | some a ↦ some a ]
    else rest

abbrev pub applicant_of : String → Tables → Option Applicant
applicant_of check_id t = first_applicant check_id t.accounts t.identity_cases

-- The case with the check's result.
abbrev pub judged : Check → String → IdentityCase → IdentityCase
judged check identity_id k =
    if str_eq k.identity_id identity_id
    then record k {
      kyc_level = level_of check;
      liveness_pass = is_passed check;
      docs_verified = is_passed check;
      sanction_status = if is_passed check then SanctionStatus.pass else SanctionStatus.review;
    }
    else k

abbrev pub with_judged : Check → Applicant → State → State
with_judged check a s = record s {
  tables = record s.tables {
    identity_cases = map (judged check a.identity_id) s.tables.identity_cases;
  };
}

abbrev pub with_user : Check → Applicant → State → State
with_user check a =
    with_status (λ u. str_eq u a.user_id)
      (if is_passed check then UserStatus.active else UserStatus.pending)

-- The body of the transaction.
unfoldable pub store_result : Check → Applicant → Io State (Unit {0})
unfolding write is_passed
store_result check a = do write (with_judged check a); write (with_user check a)

module _ (c : Config) where
  unfoldable pub activation_of : String → ℕ → String → Option Activation
  activation_of wallet level ref = elim (c.bytes32 ref) [
    | none ↦ none
    | some kyc_ref ↦ elim (c.bytes32 "onfido-aml-pass") [
      | none ↦ none
      | some aml_ref ↦ some (record {
        account = wallet;
        kyc_tier = level;
        risk_tier = 0;
        jurisdiction = "US";
        travel_rule_required = leb 2 level;
        kyc_expiry = c.date_now / 1000 + 31536000;
        kyc_ref = kyc_ref;
        aml_ref = aml_ref;
      })
    ]
  ]

  abbrev pub activated : Activation → Option String → Io State String
  activated a none w = threw chain_call_failed w
  activated a (some hash) w =
      done hash (record w { db = record w.db { activations = a ∷ w.db.activations } })

  abbrev pub submit : Option Activation → Io State String
  submit none = throw chain_call_failed
  submit (some a) = activated a (c.activate_account a)

  unfoldable pub activate_on_chain : String → ℕ → String → Io State String
  unfolding activation_of
  activate_on_chain wallet level ref =
      if str_eq c.rpc_url "" || str_eq c.operator_key "" || str_eq c.registry_address ""
      then throw chain_call_failed
      else submit (activation_of wallet level ref)

  -- The `catch`: an audit row, whose own failure is caught too.
  abbrev pub or_audit : String → Outcome State String → Outcome State (Option String)
  or_audit check_id (done hash w) = done (some hash) w
  or_audit check_id (threw e w) =
      or_else (write (with_audit "onfido-webhook" "KYC_ONCHAIN_FAILED" check_id) >> pure none) none
        w

  unfoldable pub try_activate : Check → Applicant → Io State (Option String)
  unfolding activate_on_chain write
  try_activate check a =
      if is_passed check && not (str_eq a.wallet_address "")
      then (λ w. or_audit check.id (activate_on_chain a.wallet_address (level_of check) check.id w))
      else pure none

  abbrev pub processed_answer : Check → Option String → Answer
  processed_answer check tx_hash = record {
    code = 200;
    processed = true;
    passed = some (is_passed check);
    kyc_level = some (level_of check);
    tx_hash = tx_hash;
  }

  unfoldable pub settle_check : Check → Option Applicant → Io State Answer
  unfolding try_activate publish store_result
  settle_check check none = pure (not_processed 200)
  settle_check check (some a) = do
    with_transaction (store_result check a)
    tx_hash ← try_activate check a
    publish (
        kyc_complete a.user_id a.wallet_address check.id (is_passed check) (level_of check) tx_hash)
    pure (processed_answer check tx_hash)

  -- The lookup by the check's id, and the rest.
  abbrev pub process_check : Option Check → Io State Answer
  process_check none = read (λ s. not_processed 200)
  process_check (some check) = do
    found ← read (λ (s : State). applicant_of check.id s.tables)
    settle_check check found

  unfoldable pub onfido_webhook_handler : Request → Io State Answer
  unfolding settle_check verify_onfido_signature read
  onfido_webhook_handler req =
      if not (verify_onfido_signature c req)
      then pure (not_processed 401)
      else if not (is_text "check.completed" req.action)
      then pure (not_processed 200)
      else process_check req.check
