-- ===== src/Web/Cards/Payouts.antt =====
-- Money to a linked card (apps/web/src/app/api/gr/_lib/card-service.ts, the paths without a
-- database). What the Stripe adapter answers is a function of what it is asked.
use genesis_reserve_smarter.Base.{
  ◌*◌, String, Option, none, some, Bool, true, false, not, ◌||◌, if◌then◌else◌,
}
use genesis_reserve_smarter.Base.Maps.{lookup, put}
use genesis_reserve_smarter.Web.Js.{Js, null, text, obj, end, prop, at, truthy, string}
use genesis_reserve_smarter.Web.Cards.{
  Settings, Store, Draws, Handler, LinkedDebitCard, Currency, Payout, PayoutStatus, payout_item,
  payout_quote, refuse, refuse_if, give, push_event, event_of, is_stripe, processor_source,
  parse_money_like, max_zero, money_from_amount, currency_of,
}
use genesis_reserve_smarter.Web.Cards.Funding.{is_verified, given}

-- `amount * 0.01 + 0.25`
payout_fee : Settings → String → String
payout_fee c amount = c.plus (c.times amount "0.01") "0.25"

net_of : Settings → String → String
unfolding payout_fee
net_of c amount = max_zero c (c.minus amount (payout_fee c amount))

-- `quotePushToCard(body)`
quote : Settings → Draws → Option Js → Handler
unfolding payout_fee
quote c d body s =
    let amount = parse_money_like c (at (at body "amount") "amount") in
    let currency = currency_of (at (at body "amount") "currency") in
    give d 200 0
      (payout_quote (d.make_id "pquote") (money_from_amount c amount currency)
        (money_from_amount c (payout_fee c amount) currency)
        (money_from_amount c (net_of c amount) currency) (d.iso_after (3 * 60 * 1000)))
      (processor_source c) s

unfoldable pub quote_push_to_card : Settings → Draws → Option Js → Handler
unfolding quote net_of
quote_push_to_card c d body s =
    refuse_if d
      (not (truthy (at body "accountId"))
        || not (truthy (at body "linkedCardId"))
        || not (truthy (at (at body "amount") "amount")))
      400 "invalid_request" "accountId, linkedCardId, and amount are required." (quote c d body) s

pub record PayoutInput : Type 0 where
  pub amount : String
  pub currency : Currency
  pub processor_token_ref : String
  pub connected_account_id : Option String
  pub external_account_id : Option String
  pub payout_id : String
  pub account_id : String
  pub idempotency_key : Option Js

pub record PayoutResult : Type 0 where
  pub status : PayoutStatus
  pub processor_reference : Option String

-- The adapter, and what other requests do to the store while it is waited for.
pub record PayoutDesk : Type 0 where
  pub create_push_to_card_payout : PayoutInput → PayoutResult
  pub meanwhile : Store → Store

abbrev pub is_failed : PayoutStatus → Bool
is_failed PayoutStatus.failed = true
is_failed PayoutStatus.created = false
is_failed PayoutStatus.pending_network = false
is_failed PayoutStatus.paid = false
is_failed PayoutStatus.returned = false

reference_json : Option String → Js
reference_json none = null
reference_json (some r) = text r

module _ (c : Settings) (o : PayoutDesk) (d : Draws) (body : Option Js) where
  abbrev order : LinkedDebitCard → String → String → PayoutInput
  order linked token amount = record {
    amount = amount;
    currency = currency_of (at (at body "amount") "currency");
    processor_token_ref = token;
    connected_account_id = linked.connected_account_id;
    external_account_id = linked.external_account_id;
    payout_id = d.make_id "payout";
    account_id = string (at body "accountId");
    idempotency_key = at body "idempotencyKey";
  }

  store_payout : String → PayoutResult → Handler
  unfolding payout_fee reference_json
  store_payout amount result s =
      let currency = currency_of (at (at body "amount") "currency") in
      let payout : Payout = record {
        id = d.make_id "payout";
        account_id = string (at body "accountId");
        linked_card_id = string (at body "linkedCardId");
        amount = money_from_amount c amount currency;
        fee = money_from_amount c (payout_fee c amount) currency;
        net_amount = money_from_amount c (net_of c amount) currency;
        status = result.status;
        processor_reference = result.processor_reference;
        created_at = d.now_iso 0;
        updated_at = d.now_iso 1;
      } in
      let event =
        record (event_of (d.make_id "evt") "payout.pending_network" (d.now_iso 2) (
          obj (
            prop "linkedCardId" (text payout.linked_card_id)
              (prop "processorReference" (reference_json result.processor_reference) end)))) {
                account_id = some (text payout.account_id);
                payout_id = some (text payout.id);
              } in
      let stored = record s { payouts = put payout.id payout s.payouts } in
      give d 202 3 (payout_item payout) (processor_source c) (push_event event stored)

  -- A payout that the processor refuses is not stored.
  unfoldable pub settle : String → PayoutResult → Handler
  unfolding store_payout net_of
  settle amount result s =
      refuse_if d (is_failed result.status) 422 "processor_error"
        "Payout could not be initiated by the processor." (store_payout amount result) s

  unfoldable pub send : LinkedDebitCard → String → Option String → Handler
  send linked amount (some token) s =
      settle amount (o.create_push_to_card_payout (order linked token amount)) (o.meanwhile s)
  send linked amount none s =
      settle amount
        (record {
          status = PayoutStatus.pending_network;
          processor_reference = some (d.make_id "stripe_payout_ref");
        })
        s

  pay_to : Option LinkedDebitCard → Handler
  pay_to none s = refuse d 403 "compliance_block" "Linked card is not payout eligible." s
  pay_to (some linked) s =
      let amount = parse_money_like c (at (at body "amount") "amount") in
      refuse_if d (not linked.payout_eligible || not (is_verified linked.status)) 403
        "compliance_block" "Linked card is not payout eligible."
        (refuse_if d (not (c.less "0" amount)) 400 "invalid_request"
          "amount must be greater than zero."
          (send linked amount (if is_stripe c then given linked.processor_token_ref else none)))
        s

  -- `createPushToCardPayout(body)`
  unfoldable pub create_push_to_card_payout : Handler
  unfolding pay_to
  create_push_to_card_payout s =
      refuse_if d
        (not (truthy (at body "accountId"))
          || not (truthy (at body "linkedCardId"))
          || not (truthy (at (at body "amount") "amount")))
        400 "invalid_request" "accountId, linkedCardId, and amount are required."
        (pay_to (lookup (string (at body "linkedCardId")) s.linked_debit_cards)) s

-- `getPayout(payoutId)`
give_payout : Settings → Draws → Option Payout → Handler
give_payout c d none s = refuse d 404 "not_found" "Payout not found." s
give_payout c d (some item) s = give d 200 0 (payout_item item) (processor_source c) s

unfoldable pub get_payout : Settings → Draws → String → Handler
unfolding give_payout
get_payout c d payout_id s = give_payout c d (lookup payout_id s.payouts) s
