-- ===== src/Treasury/Orders.antt =====
-- `createOrder` (apps/api/src/treasury/treasury.service.ts). The map may hold a response under the
-- id of a quote, which the source casts; such a call is not followed here and throws at once.
pub mod Unstored
use genesis_reserve_smarter.Base.{
  String, Option, none, some, Bool, true, false, ◌&&◌, is_some, if◌then◌else◌, get_or, ltb, ℕ,
}
use genesis_reserve_smarter.Base.Int.{ℤ, pos}
use genesis_reserve_smarter.Base.Like.{cat}
use genesis_reserve_smarter.Database.{TreasuryAccount, OrderRow, OrderStatus, Tables}
use genesis_reserve_smarter.Effect.{
  Io, Result, ok, err, pure, throw, or_throw, ◌>>=◌, ◌>>◌, account_not_found, quote_not_found,
  quote_expired, reservation_failed, type_error, focus,
}
use genesis_reserve_smarter.Ledger.Posting.{HashInput}
use genesis_reserve_smarter.Ledger.Orders.{get_account}
use genesis_reserve_smarter.Ledger.Orders
use genesis_reserve_smarter.Compliance.Screens.{submit_travel_rule}
use genesis_reserve_smarter.Remittance.{FxQuote}
use genesis_reserve_smarter.Remittance.Payout.{PayoutResult, Transfer, execute_payout}
use genesis_reserve_smarter.Webhooks.ZeroHash.{State}
use genesis_reserve_smarter.Treasury.{
  ReserveResponse, RemittanceQuote, Cached, response, quote, Memory, on_rows, cache_get,
}
use genesis_reserve_smarter.Treasury.Reserve.{ReserveInputs, reserve_funds}

-- `originator_name` is that of the travel rule data, where the request has them.
pub record CreateParams : Type 0 where
  pub quote_id : String
  pub account_id : String
  pub recipient_id : String
  pub payout_method : String
  pub idempotency_key : String
  pub originator_name : Option String

-- `fx` is what `getFXQuote` gives, and `transfer` what the adapter answers.
pub record OrderInputs : Type 0 where
  pub now : ℕ
  pub reserve : ReserveInputs
  pub fx : Result FxQuote
  pub transfer : Result Transfer

abbrev pub on_backend : {A : Type 0} → Io State A → Io Memory A
on_backend = focus (λ s. s.backend) (λ b s. record s { backend = b })

-- A reservation's answer under the quote's key has no such fields; the source goes on with `undefined`
-- for them, which is not followed here: the call is taken to throw.
abbrev pub open_quote : ℕ → String → Option Cached → Result RemittanceQuote
open_quote now id none = err (quote_not_found id)
open_quote now id (some (response r)) = err type_error
open_quote now id (some (quote q)) = if ltb q.expires_at now then err (quote_expired id) else ok q

-- A quote under the reservation's key has no status, and is no reservation.
abbrev pub reservation_of : Cached → Result ReserveResponse
reservation_of (quote q) = err (reservation_failed "undefined")
reservation_of (response r) =
    if r.reserved then ok r else err (reservation_failed (get_or r.failure_reason "undefined"))

abbrev pub submit_for :
    CreateParams → RemittanceQuote → String → Option TreasuryAccount → Io Memory (Unit {0})
submit_for p q name none = throw (account_not_found p.account_id)
submit_for p q name (some account) =
    on_rows (submit_travel_rule p.quote_id account.wallet_address name p.recipient_id q.send_amount)

abbrev pub travel_rule_step :
    CreateParams → RemittanceQuote → Bool → Option String → Io Memory (Unit {0})
travel_rule_step p q false name = pure tt
travel_rule_step p q true none = pure tt
travel_rule_step p q true (some name) = do
  account ← on_rows (get_account p.account_id)
  submit_for p q name account

abbrev pub order_row : CreateParams → RemittanceQuote → ReserveResponse → PayoutResult → OrderRow
order_row p q reservation payout = record {
  order_id = p.quote_id;
  quote_id = p.quote_id;
  account_id = p.account_id;
  reservation_id = reservation.reservation_id;
  status = OrderStatus.in_transit;
  corridor = q.corridor;
  payout_method = p.payout_method;
  recipient_ref = p.recipient_id;
  send_amount = q.send_amount;
  receive_amount = q.receive_amount;
  platform_fee = q.tx_fee_usdc;
  partner_fee = pos 0;
  fx_revenue = q.fx_fee_usdc;
  tx_hash = none;
  off_ramp_ref = some payout.provider_ref;
  provider_transfer_id = none;
  provider_status = none;
  settled_at = none;
}

module _ (digest : HashInput → String) (lower upper : String → String)
    (cast : String → Option ℤ) where
  abbrev pub persist_order :
      CreateParams → RemittanceQuote → ReserveResponse → PayoutResult → Io Memory OrderRow
  persist_order p q reservation payout = do
    on_rows (Orders.create_order (order_row p q reservation payout))
    pure (order_row p q reservation payout)

  abbrev pub pay_out :
      CreateParams → OrderInputs → RemittanceQuote → ReserveResponse → FxQuote → Io Memory OrderRow
  pay_out p i q reservation fx = do
    payout ← on_backend (
        execute_payout upper i.transfer (record {
          order_id = p.quote_id;
          reservation_id = reservation.reservation_id;
          quote = fx;
          recipient_name = p.recipient_id;
        }))
    persist_order p q reservation payout

  abbrev pub with_reservation :
      CreateParams → OrderInputs → RemittanceQuote → ReserveResponse → Io Memory OrderRow
  with_reservation p i q reservation = do
    travel_rule_step p q q.travel_rule_req p.originator_name
    fx ← or_throw i.fx
    pay_out p i q reservation fx

  abbrev pub with_quote : CreateParams → OrderInputs → RemittanceQuote → Io Memory OrderRow
  with_quote p i q = do
    answer ←
        reserve_funds digest lower cast
          (record {
            account_id = p.account_id;
            amount = q.send_amount;
            external_order_id = p.quote_id;
            expiry_seconds = none;
            idempotency_key = cat "res:" p.idempotency_key;
          })
          i.reserve
    reservation ← or_throw (reservation_of answer)
    with_reservation p i q reservation

  unfoldable pub create_order : CreateParams → OrderInputs → Io Memory OrderRow
  create_order p i = do
    cached ← cache_get p.quote_id
    q ← or_throw (open_quote i.now p.quote_id cached)
    with_quote p i q
