-- ===== src/Database.antt =====
-- The tables of apps/api/db/migrations that the services read and write, a record for each row, with
-- the columns that the services use. New rows of a table stand at the head of its list. Times are
-- numbers: milliseconds for what JavaScript's `Date.now()` gives, and the server's clock for `NOW()`.
use genesis_reserve_smarter.Base.{ℕ, Bool, String, List, [], Option}
use genesis_reserve_smarter.Base.Int.{ℤ}
use genesis_reserve_smarter.Base.Json.{Fields}

pub data EntryType : Type 0 where
  deposit withdrawal reserve release settlement fee yield fx reversal adjustment : EntryType

-- The string values of the enum, as the column stores them.
unfoldable pub entry_type_text : EntryType → String
entry_type_text deposit = "DEPOSIT"
entry_type_text withdrawal = "WITHDRAWAL"
entry_type_text reserve = "RESERVE"
entry_type_text release = "RELEASE"
entry_type_text settlement = "SETTLEMENT"
entry_type_text fee = "FEE"
entry_type_text yield = "YIELD"
entry_type_text fx = "FX"
entry_type_text reversal = "REVERSAL"
entry_type_text adjustment = "ADJUSTMENT"

pub record LedgerEntry : Type 0 where
  pub id : String
  pub type : EntryType
  pub debit_account : String
  pub credit_account : String
  pub amount : ℤ
  pub currency : String
  pub reference : String
  pub metadata : Fields
  pub prev_hash : String
  pub hash : String
  pub created_at : ℕ
  pub block_number : Option ℕ
  pub tx_hash : Option String

-- account_balance_snapshots
pub record Snapshot : Type 0 where
  pub account_id : String
  pub balance : ℤ
  pub entry_count : ℕ
  pub last_updated : ℕ

pub data TreasuryMode : Type 0 where
  flexible_reserve income_vault growth_mode : TreasuryMode

pub record TreasuryAccount : Type 0 where
  pub account_id : String
  pub owner_id : String
  pub wallet_address : String
  pub mode : TreasuryMode
  pub kyc_level : ℕ
  pub risk_tier : ℕ
  pub jurisdiction : String
  pub policy_version : ℕ
  pub partner_pricing_id : String
  pub updated_at : ℕ

pub data OrderStatus : Type 0 where
  pending reserved in_transit settled failed cancelled compliance_hold : OrderStatus

-- remittance_orders, with the provider's columns of migration 005
pub record OrderRow : Type 0 where
  pub order_id : String
  pub quote_id : String
  pub account_id : String
  pub reservation_id : String
  pub status : OrderStatus
  pub corridor : String
  pub payout_method : String
  pub recipient_ref : String
  pub send_amount : ℤ
  pub receive_amount : ℤ
  pub platform_fee : ℤ
  pub partner_fee : ℤ
  pub fx_revenue : ℤ
  pub tx_hash : Option String
  pub off_ramp_ref : Option String
  pub provider_transfer_id : Option String
  pub provider_status : Option String
  pub settled_at : Option ℕ

pub data ReservationStatus : Type 0 where
  active settled released expired : ReservationStatus

-- fund_reservations
pub record Reservation : Type 0 where
  pub reservation_id : String
  pub amount : ℤ
  pub expiry : ℕ
  pub status : ReservationStatus

-- provider_webhook_events
pub record WebhookEvent : Type 0 where
  pub record_id : String
  pub provider : String
  pub provider_event_id : String
  pub event_type : String
  pub signature_valid : Bool
  pub processed : Bool

pub data SanctionStatus : Type 0 where
  pending pass review blocked : SanctionStatus

-- identity_cases
pub record IdentityCase : Type 0 where
  pub identity_id : String
  pub user_id : String
  pub provider_ref : String
  pub docs_verified : Bool
  pub liveness_pass : Bool
  pub kyc_level : ℕ
  pub sanction_status : SanctionStatus
  pub jurisdiction : String

-- compliance_screenings
pub record Screening : Type 0 where
  pub user_id : String
  pub screening_type : String
  pub result : String
  pub lists_checked : List String
  pub risk_score : ℕ
  pub screened_at : ℕ

-- travel_rule_records
pub record TravelRuleRecord : Type 0 where
  pub order_id : String
  pub originator_id : String
  pub beneficiary_id : String
  pub originator_name : String
  pub amount : ℤ
  pub status : String

-- audit_log: who, what and on which object
pub record AuditRow : Type 0 where
  pub actor : String
  pub action : String
  pub object_ref : String

pub record Tables : Type 0 where
  pub ledger_entries : List LedgerEntry
  pub snapshots : List Snapshot
  pub accounts : List TreasuryAccount
  -- the keys of users and of remittance_quotes, to which accounts and orders refer
  pub user_ids : List String
  pub quote_ids : List String
  pub orders : List OrderRow
  pub reservations : List Reservation
  pub webhook_events : List WebhookEvent
  pub audit_log : List AuditRow
  pub identity_cases : List IdentityCase
  pub screenings : List Screening
  pub travel_rule_records : List TravelRuleRecord

abbrev pub no_rows : Tables
no_rows = record {
  ledger_entries = [];
  snapshots = [];
  accounts = [];
  user_ids = [];
  quote_ids = [];
  orders = [];
  reservations = [];
  webhook_events = [];
  audit_log = [];
  identity_cases = [];
  screenings = [];
  travel_rule_records = [];
}
