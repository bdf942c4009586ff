-- ===== src/Treasury.antt =====
-- The treasury service (apps/api/src/treasury/treasury.service.ts): activation, the reserve flow, the
-- quote engine and the mode of an account. The vault's answers, the times and the drawn texts are
-- inputs of a call; keccak256 (`ethers.utils.id`) is a parameter.
pub mod Reserve
pub mod Accounts
pub mod Idempotency
pub mod Rows
pub mod Sound
pub mod Orders
use genesis_reserve_smarter.Base.{
  ℕ, String, Option, none, some, Bool, true, false, List, [], ◌∷◌, str_eq, if◌then◌else◌,
}
use genesis_reserve_smarter.Base.Int.{ℤ}
use genesis_reserve_smarter.Database.{Tables}
use genesis_reserve_smarter.Effect.{Io, World, Outcome, done, focus}
use genesis_reserve_smarter.Webhooks.ZeroHash.{State, on_tables}
use genesis_reserve_smarter.Remittance.{Rate}

pub record ReserveRequest : Type 0 where
  pub account_id : String
  pub amount : ℤ
  pub external_order_id : String
  pub expiry_seconds : Option ℕ
  pub idempotency_key : String

pub record ReserveResponse : Type 0 where
  pub reservation_id : String
  pub account_id : String
  pub amount : ℤ
  pub expiry : ℕ
  pub ledger_entry_id : String
  -- 'RESERVED', or 'FAILED'
  pub reserved : Bool
  pub failure_reason : Option String

pub record QuoteConstraints : Type 0 where
  pub kyc_level_required : ℕ
  pub max_amount : ℤ
  pub min_amount : ℤ
  pub daily_remaining : ℤ

pub record RemittanceQuote : Type 0 where
  pub quote_id : String
  pub account_id : String
  pub send_amount : ℤ
  pub send_currency : String
  pub receive_currency : String
  pub receive_amount : ℤ
  pub fx_rate : Rate
  pub platform_fee_bps : ℤ
  pub fx_spread_bps : ℤ
  pub tx_fee_usdc : ℤ
  pub fx_fee_usdc : ℤ
  pub total_cost_usdc : ℤ
  pub eta_seconds : ℕ
  pub expires_at : ℕ
  pub compliance_status : String
  pub travel_rule_req : Bool
  pub corridor : String
  pub constraints : QuoteConstraints

-- What the map of idempotency keys holds: it serves both flows, which cast what they find.
pub data Cached : Type 0 where
  response : ReserveResponse → Cached
  quote : RemittanceQuote → Cached

-- The backend's state beside the service's map, whose newest value for a key stands first.
pub record Memory : Type 0 where
  pub backend : State
  pub cache : List (String × Cached)

abbrev pub on_rows : {A : Type 0} → Io Tables A → Io Memory A
on_rows m = focus (λ s. s.backend) (λ b s. record s { backend = b }) (on_tables m)

unfoldable pub cached_at : String → List (String × Cached) → Option Cached
cached_at key [] = none
cached_at key ((k, c) ∷ rest) = if str_eq k key then some c else cached_at key rest

-- `idempotencyCache.get` and `.set`, which cannot fail.
abbrev pub cache_get : String → Io Memory (Option Cached)
cache_get key w = done (cached_at key w.db.cache) w

abbrev pub cache_set : String → Cached → Io Memory (Unit {0})
cache_set key c w =
    done tt (record w { db = record { backend = w.db.backend; cache = (key, c) ∷ w.db.cache } })
