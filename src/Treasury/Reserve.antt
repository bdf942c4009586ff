-- ===== src/Treasury/Reserve.antt =====
-- `reserveFunds` and `buildQuote` (apps/api/src/treasury/treasury.service.ts).
use genesis_reserve_smarter.Base.{
  ℕ, ◌*◌, ◌+◌, ◌/◌, String, Option, none, some, Bool, true, false, str_eq, if◌then◌else◌, get_or,
  leb,
}
use genesis_reserve_smarter.Base.Int.{ℤ, pos, leb_ℤ}
use genesis_reserve_smarter.Base.Json.{text, end, field}
use genesis_reserve_smarter.Base.Like.{cat}
use genesis_reserve_smarter.Database.{TreasuryAccount, EntryType, LedgerEntry}
use genesis_reserve_smarter.Effect.{
  Io, Result, ok, err, pure, throw, or_throw, ◌>>=◌, ◌>>◌, account_not_found, corridor_not_found,
}
use genesis_reserve_smarter.Ledger.Posting.{PostParams, HashInput, Moment, post_entry}
use genesis_reserve_smarter.Ledger.Orders.{get_account}
use genesis_reserve_smarter.Compliance.Screens.{ScreeningResult, screen_transfer}
use genesis_reserve_smarter.Compliance.Status.{AccountStatus, get_account_status}
use genesis_reserve_smarter.Remittance.{FxQuote, CorridorConfig, get_corridor_config}
use genesis_reserve_smarter.Treasury.{
  ReserveRequest, ReserveResponse, RemittanceQuote, Cached, response, quote, Memory, on_rows,
  cache_get, cache_set,
}

-- What the vault answers once the transaction is mined.
pub record Receipt : Type 0 where
  pub reservation_id : String
  pub tx_hash : String

-- The times that the calls of one request read, and the answers that they get.
pub record ReserveInputs : Type 0 where
  pub now : ℕ
  pub vault : Result Receipt
  pub moment : Moment

module _ (digest : HashInput → String) (lower : String → String) (cast : String → Option ℤ) where
  abbrev pub reserve_entry : ReserveRequest → Receipt → PostParams
  reserve_entry req receipt = record {
    type = EntryType.reserve;
    debit_account = cat req.account_id ":available";
    credit_account = cat req.account_id ":reserved";
    amount = req.amount;
    currency = "USDC";
    reference = receipt.reservation_id;
    metadata =
        field "orderId" (text req.external_order_id) (field "txHash" (text receipt.tx_hash) end);
    block_number = none;
    tx_hash = none;
  }

  abbrev pub refused : ReserveRequest → ℕ → ScreeningResult → ReserveResponse
  refused req now screen = record {
    reservation_id = "";
    account_id = req.account_id;
    amount = req.amount;
    expiry = now;
    ledger_entry_id = "";
    reserved = false;
    failure_reason = some screen.result;
  }

  -- `Math.floor(Date.now() / 1000) + (expirySeconds ?? 300)`, in milliseconds again
  abbrev pub granted : ReserveRequest → ℕ → Receipt → LedgerEntry → ReserveResponse
  granted req now receipt e = record {
    reservation_id = receipt.reservation_id;
    account_id = req.account_id;
    amount = req.amount;
    expiry = (now / 1000 + get_or req.expiry_seconds 300) * 1000;
    ledger_entry_id = e.id;
    reserved = true;
    failure_reason = none;
  }

  abbrev pub remember : ReserveRequest → ReserveResponse → Io Memory Cached
  remember req resp = do cache_set req.idempotency_key (response resp); pure (response resp)

  unfoldable pub reserve_screened :
      ReserveRequest → ReserveInputs → ScreeningResult → Bool → Io Memory Cached
  reserve_screened req i screen false = remember req (refused req i.now screen)
  reserve_screened req i screen true = do
    receipt ← or_throw i.vault
    entry ← on_rows (post_entry digest (reserve_entry req receipt) i.moment)
    remember req (granted req i.now receipt entry)

  unfoldable pub reserve_from :
      ReserveRequest → ReserveInputs → Option TreasuryAccount → Io Memory Cached
  reserve_from req i none = throw (account_not_found req.account_id)
  reserve_from req i (some account) = do
    screen ← on_rows (
        screen_transfer lower cast account.wallet_address account.wallet_address req.amount
          req.external_order_id i.now)
    reserve_screened req i screen (str_eq screen.result "PASS")

  unfoldable pub reserve_uncached :
      ReserveRequest → ReserveInputs → Option Cached → Io Memory Cached
  reserve_uncached req i (some c) = pure c
  reserve_uncached req i none = do
    account ← on_rows (get_account req.account_id)
    reserve_from req i account

  unfoldable pub reserve_funds : ReserveRequest → ReserveInputs → Io Memory Cached
  unfolding reserve_uncached
  reserve_funds req i = do cached ← cache_get req.idempotency_key; reserve_uncached req i cached

pub record QuoteParams : Type 0 where
  pub account_id : String
  pub send_amount : ℤ
  pub send_currency : String
  pub receive_currency : String
  pub corridor : String
  pub idempotency_key : String

module _ (lower : String → String) (keccak : String → String) (show : ℕ → String) where
  abbrev pub is_compliant_status : Option AccountStatus → Bool
  is_compliant_status none = false
  is_compliant_status (some s) = s.is_compliant

  abbrev pub remittance_quote :
      QuoteParams
      → ℕ
      → FxQuote
      → TreasuryAccount
      → Option AccountStatus
      → CorridorConfig
      → RemittanceQuote
  remittance_quote p now fx account compliance config = record {
    quote_id = keccak (cat p.account_id (cat ":" (show now)));
    account_id = p.account_id;
    send_amount = p.send_amount;
    send_currency = p.send_currency;
    receive_currency = p.receive_currency;
    receive_amount = fx.receive_amount;
    fx_rate = fx.fx_rate;
    platform_fee_bps = fx.platform_fee_bps;
    fx_spread_bps = fx.fx_spread_bps;
    tx_fee_usdc = fx.tx_fee_usdc;
    fx_fee_usdc = fx.fx_fee_usdc;
    total_cost_usdc = fx.total_fees_usdc;
    eta_seconds = config.sla_hours * 3600;
    expires_at = now + 5 * 60 * 1000;
    compliance_status = if is_compliant_status compliance then "PASS" else "REVIEW";
    travel_rule_req = leb_ℤ (pos 3000000000) p.send_amount;
    corridor = p.corridor;
    constraints = record {
      kyc_level_required = 2;
      max_amount = if leb 3 account.kyc_level then pos 500000000000 else pos 9500000000;
      min_amount = pos 1000000;
      daily_remaining = pos 0;
    };
  }

  abbrev pub config_of : String → Option CorridorConfig → Result CorridorConfig
  config_of corridor none = err (corridor_not_found corridor)
  config_of corridor (some config) = ok config

  unfoldable pub quote_for : QuoteParams → ℕ → FxQuote → Option TreasuryAccount → Io Memory Cached
  quote_for p now fx none = throw (account_not_found p.account_id)
  quote_for p now fx (some account) = do
    compliance ← on_rows (get_account_status lower account.wallet_address)
    config ← or_throw (config_of p.corridor (get_corridor_config p.corridor))
    let q = remittance_quote p now fx account compliance config
    cache_set p.idempotency_key (quote q)
    cache_set q.quote_id (quote q)
    pure (quote q)

  unfoldable pub quote_uncached :
      QuoteParams → ℕ → Result FxQuote → Option Cached → Io Memory Cached
  quote_uncached p now fx_answer (some c) = pure c
  quote_uncached p now fx_answer none = do
    account ← on_rows (get_account p.account_id)
    fx ← or_throw fx_answer
    quote_for p now fx account

  -- `fx_answer` is what `getFXQuote` gives, which runs beside the read of the account.
  unfoldable pub build_quote : QuoteParams → ℕ → Result FxQuote → Io Memory Cached
  unfolding quote_uncached
  build_quote p now fx_answer = do
    cached ← cache_get p.idempotency_key
    quote_uncached p now fx_answer cached
