-- ===== src/Remittance/Payout.antt =====
-- `executePayout` and `checkOrderStatus` (apps/api/src/treasury/remittance.service.ts). The answer of
-- the Zero Hash adapter and the upper case of a text are parameters. The table remittance_orders has no
-- column provider_ref (apps/api/db/migrations), so the server refuses the statements that name it.
use genesis_reserve_smarter.Base.{String, some, ◌∷◌, str_eq, if◌then◌else◌, map}
use genesis_reserve_smarter.Base.Like.{cat}
use genesis_reserve_smarter.Database.{OrderRow, OrderStatus, Tables}
use genesis_reserve_smarter.Effect.{
  Io, Result, err, pure, throw, or_throw, ◌>>=◌, ◌>>◌, query, write, or_else, undefined_column,
  unknown_payout_provider,
}
use genesis_reserve_smarter.Webhooks.ZeroHash.{State, on_tables}
use genesis_reserve_smarter.Remittance.{FxQuote}

pub data PayoutStatus : Type 0 where
  submitted in_transit delivered failed : PayoutStatus

pub record PayoutResult : Type 0 where
  pub provider_ref : String
  pub status : PayoutStatus

pub record PayoutParams : Type 0 where
  pub order_id : String
  pub reservation_id : String
  pub quote : FxQuote
  pub recipient_name : String

-- What `createTransfer` of the adapter answers.
pub record Transfer : Type 0 where
  pub provider_transfer_id : String
  pub status : String

abbrev pub announced : String → State → State
announced order_id s = record s { published = ("remittance.in_transit", order_id) ∷ s.published }

-- The failed update is caught.
unfoldable pub submit_money_gram : (String → String) → String → Io State PayoutResult
unfolding query write
submit_money_gram upper order_id = do
  or_else (on_tables (query (λ t. err undefined_column))) tt
  write (announced order_id)
  pure (record { provider_ref = cat "MG_" (upper order_id); status = PayoutStatus.in_transit })

unfoldable pub submit_circle_cctp : String → Io State PayoutResult
submit_circle_cctp order_id =
    pure (record { provider_ref = cat "CCTP_" order_id; status = PayoutStatus.submitted })

abbrev pub transfer_order_status : String → OrderStatus
transfer_order_status s = if str_eq s "SETTLED" then OrderStatus.settled else OrderStatus.in_transit

abbrev pub with_transfer : String → Transfer → OrderRow → OrderRow
with_transfer order_id transfer o =
    if str_eq o.order_id order_id
    then record o {
      status = transfer_order_status transfer.status;
      off_ramp_ref = some transfer.provider_transfer_id;
      provider_transfer_id = some transfer.provider_transfer_id;
      provider_status = some transfer.status;
    }
    else o

abbrev pub with_transfer_row : String → Transfer → Tables → Tables
with_transfer_row order_id transfer t = record t {
  orders = map (with_transfer order_id transfer) t.orders;
}

unfoldable pub submit_zero_hash : Result Transfer → String → Io State PayoutResult
unfolding write
submit_zero_hash answer order_id = do
  transfer ← or_throw answer
  or_else (on_tables (write (with_transfer_row order_id transfer))) tt
  write (announced order_id)
  pure (record {
    provider_ref = transfer.provider_transfer_id;
    status =
        if str_eq transfer.status "SETTLED"
        then PayoutStatus.delivered
        else PayoutStatus.in_transit;
  })

unfoldable pub execute_payout :
    (String → String) → Result Transfer → PayoutParams → Io State PayoutResult
execute_payout upper answer p =
    if str_eq p.quote.provider "zerohash"
    then submit_zero_hash answer p.order_id
    else if str_eq p.quote.provider "moneygram"
    then submit_money_gram upper p.order_id
    else if str_eq p.quote.provider "circle_cctp"
    then submit_circle_cctp p.order_id
    else throw (unknown_payout_provider p.quote.provider)

-- It selects provider_ref too.
unfoldable pub check_order_status : String → Io Tables (OrderStatus × String)
unfolding query
check_order_status order_id = query (λ t. err undefined_column)
