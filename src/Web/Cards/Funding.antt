-- ===== src/Web/Cards/Funding.antt =====
-- Money from a linked card (apps/web/src/app/api/gr/_lib/card-service.ts, the paths without a
-- database). What the Stripe and the Circle adapter answer are functions of what they are asked, and
-- what other requests do to the store meanwhile is an argument.
use genesis_reserve_smarter.Base.{
  ◌*◌, String, Option, none, some, Bool, true, false, not, ◌||◌, get_or, str_eq, if◌then◌else◌,
}
use genesis_reserve_smarter.Base.Like.{cat}
use genesis_reserve_smarter.Base.Maps.{lookup, put}
use genesis_reserve_smarter.Web.Js.{Js, text, obj, Props, end, prop, at, truthy, string, string_if}
use genesis_reserve_smarter.Web.Cards.{
  Settings, Store, Draws, Handler, LinkedDebitCard, LinkStatus, Currency, FundingTransaction,
  FundingStatus, OnChainStatus, funding_item, conversion_quote, refuse, refuse_if, give, push_event,
  event_of, is_stripe, processor_source, parse_money_like, max_zero, money_from_amount, currency_of,
}

pub record FundingInput : Type 0 where
  pub amount : String
  pub currency : Currency
  pub processor_token_ref : String
  pub account_id : String
  pub idempotency_key : Option String

pub record FundingIntentResult : Type 0 where
  pub status : FundingStatus
  pub processor_reference : Option String
  pub challenge_client_secret : Option String
  pub fee_amount : String

pub record UsdcPurchase : Type 0 where
  pub circle_card_id : String
  pub destination_address : String
  pub amount_usd : String
  pub funding_id : String
  pub account_id : String
  pub idempotency_key : Option String

pub record PurchaseResult : Type 0 where
  pub payment_id : Option String
  pub status : OnChainStatus

-- The adapters, and what other requests do to the store while these are waited for.
pub record Outside : Type 0 where
  pub create_funding_intent : FundingInput → FundingIntentResult
  pub create_usdc_purchase : UsdcPurchase → PurchaseResult
  pub meanwhile : Store → Store

abbrev pub is_verified : LinkStatus → Bool
is_verified LinkStatus.verified = true
is_verified LinkStatus.pending = false
is_verified LinkStatus.blocked = false
is_verified LinkStatus.removed = false

abbrev pub is_captured : FundingStatus → Bool
is_captured FundingStatus.captured = true
is_captured FundingStatus.created = false
is_captured FundingStatus.requires_action = false
is_captured FundingStatus.authorized = false
is_captured FundingStatus.settled = false
is_captured FundingStatus.failed = false
is_captured FundingStatus.reversed = false

-- A text that is there and not empty.
abbrev pub given : Option String → Option String
given none = none
given (some s) = if str_eq s "" then none else some s

-- `createFundingConversionQuote(body)`; the rate is 1 whatever the currencies are.
conversion : Settings → Draws → Option Js → Handler
conversion c d body s =
    let source_amount = parse_money_like c (at body "sourceAmount") in
    let fee = c.times source_amount "0.01" in
    let target_amount = max_zero c (c.minus (c.times source_amount "1") fee) in
    let source_currency = currency_of (at body "sourceCurrency") in
    give d 200 0
      (conversion_quote (d.make_id "fquote") (money_from_amount c source_amount source_currency)
        (money_from_amount c target_amount (currency_of (at body "targetCurrency"))) "1.00000000"
        (money_from_amount c fee source_currency) (d.iso_after (5 * 60 * 1000)))
      (processor_source c) s

unfoldable pub create_funding_conversion_quote : Settings → Draws → Option Js → Handler
unfolding conversion
create_funding_conversion_quote c d body s =
    refuse_if d
      (not (truthy (at body "accountId"))
        || not (truthy (at body "linkedCardId"))
        || not (truthy (at body "sourceAmount"))
        || not (truthy (at body "sourceCurrency"))
        || not (truthy (at body "targetCurrency")))
      400 "invalid_request"
      "accountId, linkedCardId, sourceAmount, sourceCurrency, targetCurrency are required."
      (conversion c d body) s

abbrev on_chain_text : OnChainStatus → String
on_chain_text OnChainStatus.pending = "pending"
on_chain_text OnChainStatus.confirmed = "confirmed"
on_chain_text OnChainStatus.failed = "failed"

abbrev payment_of : Option PurchaseResult → Option String
payment_of none = none
payment_of (some p) = p.payment_id

abbrev on_chain_of : Option PurchaseResult → Option OnChainStatus
on_chain_of none = none
on_chain_of (some p) = some p.status

abbrev event_type_of : FundingStatus → String
event_type_of FundingStatus.requires_action = "funding.requires_action"
event_type_of FundingStatus.failed = "funding.failed"
event_type_of FundingStatus.created = "funding.captured"
event_type_of FundingStatus.authorized = "funding.captured"
event_type_of FundingStatus.captured = "funding.captured"
event_type_of FundingStatus.settled = "funding.captured"
event_type_of FundingStatus.reversed = "funding.captured"

payment_props : Option String → Option OnChainStatus → Props
payment_props (some id) (some status) =
    if str_eq id ""
    then end
    else prop "circlePaymentId" (text id) (prop "onChainStatus" (text (on_chain_text status)) end)
payment_props _ _ = end

module _ (c : Settings) (o : Outside) (d : Draws) (body : Option Js) (key : Option String) where
  -- The charge: by Stripe, or captured at once.
  charge : LinkedDebitCard → String → FundingIntentResult
  charge linked amount =
      if is_stripe c
      then o.create_funding_intent (record {
        amount = amount;
        currency = currency_of (at (at body "amount") "currency");
        processor_token_ref = get_or linked.processor_token_ref "";
        account_id = string (at body "accountId");
        idempotency_key = key;
      })
      else record {
        status = FundingStatus.captured;
        processor_reference = none;
        challenge_client_secret = none;
        fee_amount = c.plus (c.times amount "0.01") "0.3";
      }

  circle_key : Option String → Option String
  circle_key none = none
  circle_key (some k) = if str_eq k "" then none else some (cat "circle_" k)

  -- The purchase of USDC, where the charge is captured and there is a wallet and a card for it.
  purchase : Bool → Option String → Option String → String → Option PurchaseResult
  purchase true (some destination) (some circle_card) net = some (
      o.create_usdc_purchase (record {
        circle_card_id = circle_card;
        destination_address = destination;
        amount_usd = net;
        funding_id = d.make_id "fund";
        account_id = string (at body "accountId");
        idempotency_key = circle_key key;
      }))
  purchase true (some destination) none net = none
  purchase true none circle_card net = none
  purchase false destination circle_card net = none

  transaction : String → FundingIntentResult → Option PurchaseResult → FundingTransaction
  transaction amount charged bought =
      let currency = currency_of (at (at body "amount") "currency") in
      record {
        id = d.make_id "fund";
        account_id = string (at body "accountId");
        linked_card_id = string (at body "linkedCardId");
        amount = money_from_amount c amount currency;
        fee = money_from_amount c charged.fee_amount currency;
        net_amount = money_from_amount c (max_zero c (c.minus amount charged.fee_amount)) currency;
        status = charged.status;
        challenge = given charged.challenge_client_secret;
        processor_reference = charged.processor_reference;
        destination_address = string_if (at body "destinationAddress");
        circle_payment_id = payment_of bought;
        on_chain_status = on_chain_of bought;
        created_at = d.now_iso 0;
        updated_at = d.now_iso 1;
      }

  store_transaction : FundingTransaction → Handler
  store_transaction tx s =
      let event =
        record (event_of (d.make_id "evt") (event_type_of tx.status) (d.now_iso 2) (
          obj (
            prop "linkedCardId" (text tx.linked_card_id)
              (payment_props tx.circle_payment_id tx.on_chain_status)))) {
                account_id = some (text tx.account_id);
                funding_id = some (text tx.id);
              } in
      let stored = record s { funding = put tx.id tx s.funding } in
      give d 202 3 (funding_item tx) (processor_source c) (push_event event stored)

  -- The calls outside, and then the transaction, on the store as it is by then.
  fund : LinkedDebitCard → String → Handler
  unfolding charge purchase
  fund linked amount s =
      let charged = charge linked amount in
      let bought =
        purchase (is_captured charged.status) (string_if (at body "destinationAddress"))
          (given linked.circle_card_id) (max_zero c (c.minus amount charged.fee_amount)) in
      store_transaction (transaction amount charged bought) (o.meanwhile s)

  fund_from : Option LinkedDebitCard → Handler
  fund_from none s = refuse d 404 "not_found" "Linked debit card not found or not eligible." s
  fund_from (some linked) s =
      let amount = parse_money_like c (at (at body "amount") "amount") in
      refuse_if d (not (is_verified linked.status)) 404 "not_found"
        "Linked debit card not found or not eligible."
        (refuse_if d (not linked.funding_eligible) 403 "compliance_block"
          "Linked card is not funding eligible."
          (refuse_if d (not (c.less "0" amount)) 400 "invalid_request"
            "amount must be greater than zero." (fund linked amount)))
        s

  -- `createAddMoney(body, idempotencyKey)`
  unfoldable pub create_add_money : Handler
  unfolding fund_from fund transaction store_transaction circle_key payment_props
  create_add_money s =
      refuse_if d
        (not (truthy (at body "accountId"))
          || not (truthy (at body "linkedCardId"))
          || not (truthy (at (at body "amount") "amount")))
        400 "invalid_request" "accountId, linkedCardId, and amount are required."
        (fund_from (lookup (string (at body "linkedCardId")) s.linked_debit_cards)) s

-- `getFundingStatus(fundingId)`
give_funding : Settings → Draws → Option FundingTransaction → Handler
give_funding c d none s = refuse d 404 "not_found" "Funding transaction not found." s
give_funding c d (some item) s = give d 200 0 (funding_item item) (processor_source c) s

unfoldable pub get_funding_status : Settings → Draws → String → Handler
unfolding give_funding
get_funding_status c d funding_id s = give_funding c d (lookup funding_id s.funding) s
