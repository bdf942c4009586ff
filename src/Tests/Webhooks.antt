-- ===== src/Tests/Webhooks.antt =====
-- A screened wallet, and one order in transit beside one that is settled
-- (apps/api/src/treasury/compliance.service.ts, apps/api/src/webhooks/zerohash.webhook.ts).
use genesis_reserve_smarter.Base.{
  String, ◌≡◌, refl, sym, subst, none, some, true, List, [], ◌∷◌, str_eq, if◌then◌else◌,
}
use genesis_reserve_smarter.Base.Int.{pos}
use genesis_reserve_smarter.Base.Json.{text, end, field}
use genesis_reserve_smarter.Database.{no_rows, OrderRow, OrderStatus, WebhookEvent}
use genesis_reserve_smarter.Effect.{done, world_of}
use genesis_reserve_smarter.Effect.Atomic.{Gives}
use genesis_reserve_smarter.Compliance.Screens.{screen_transfer}
use genesis_reserve_smarter.Compliance.Verdict.{Screened, screen_transfer-Screened}
use genesis_reserve_smarter.Webhooks.ZeroHash.{State, InternalStatus, provider_status}
use genesis_reserve_smarter.Webhooks.ZeroHash.Handler.{
  Config, Request, answer, zero_hash_webhook_handler, verify_signature, transfer_id_of,
}
use genesis_reserve_smarter.Webhooks.ZeroHash.Terminal.{status_at}
use genesis_reserve_smarter.Webhooks.ZeroHash.Delivery.{deliver_all, deliver_all-status_at}
use genesis_reserve_smarter.Webhooks.ZeroHash.Answers.{
  IsSigned, handler-unsigned, handler-duplicate, handler-settles, quiet, settled_state,
}
use genesis_reserve_smarter.Tests.{failing_world, same_text, no_cast}

screen_transfer-Screened_example :
    Gives
      (Screened same_text "0xa" "0xb" (pos 2000) 100 no_rows)
      (screen_transfer same_text no_cast "0xa" "0xb" (pos 2000) "order-1" 100 failing_world)
screen_transfer-Screened_example =
    screen_transfer-Screened same_text no_cast "0xa" "0xb" (pos 2000) "order-1" 100 failing_world

abbrev order_of : String → String → OrderStatus → OrderRow
order_of id transfer status = record {
  order_id = id;
  quote_id = "q";
  account_id = "pta-1";
  reservation_id = "r";
  status = status;
  corridor = "US-PH";
  payout_method = "bank_transfer";
  recipient_ref = "bob";
  send_amount = pos 2000000;
  receive_amount = pos 110;
  platform_fee = pos 250000;
  partner_fee = pos 0;
  fx_revenue = pos 5000;
  tx_hash = none;
  off_ramp_ref = none;
  provider_transfer_id = some transfer;
  provider_status = none;
  settled_at = none;
}

abbrev old_event : WebhookEvent
old_event = record {
  record_id = "w0";
  provider = "ZERO_HASH";
  provider_event_id = "e0";
  event_type = "transfer.settled";
  signature_valid = true;
  processed = true;
}

abbrev two_orders : State
two_orders = record {
  tables = record no_rows {
    orders =
        order_of "o1" "t1" OrderStatus.in_transit ∷ order_of "o2" "t2" OrderStatus.settled ∷ [];
    webhook_events = old_event ∷ [];
  };
  published = [];
}

abbrev config : Config
config = record {
  secret = some "key";
  hmac = λ key body. body;
  signature_bytes = λ s. if str_eq s "good" then 1 ∷ [] else 2 ∷ [];
  digest_bytes = λ s. 1 ∷ [];
  lower = λ s. s;
}

abbrev event : String → String → String → String → Request
event signature id type transfer = record {
  signature = some signature;
  raw_body = some "body";
  event_id = id;
  event_type = type;
  payload = field "id" (text transfer) end;
}

abbrev deliveries : List (String × Request)
deliveries =
    ("w1", event "good" "e1" "transfer.failed" "t2")
    ∷ ("w2", event "good" "e2" "transfer.settled" "t1")
    ∷ []

deliver_all-status_at_example :
    status_at "o2" (deliver_all config deliveries (quiet two_orders)).db.tables
    ≡ some OrderStatus.settled
deliver_all-status_at_example =
    deliver_all-status_at config deliveries (quiet two_orders) "o2" OrderStatus.settled
      (refl, (refl, tt)) refl refl

handler-settles_example :
    zero_hash_webhook_handler config "w1"
      (event "good" "e1" "transfer.settled" "t1")
      (quiet two_orders)
    ≡ done (answer 200) (
        quiet (
          settled_state same_text "w1"
            (event "good" "e1" "transfer.settled" "t1")
            two_orders
            InternalStatus.settled
            (order_of "o1" "t1" OrderStatus.in_transit)))
unfolding verify_signature transfer_id_of provider_status
handler-settles_example =
    handler-settles config "w1" (event "good" "e1" "transfer.settled" "t1") two_orders
      InternalStatus.settled (order_of "o1" "t1" OrderStatus.in_transit) refl refl refl refl refl
      refl

handler-duplicate_example :
    (world_of (
      zero_hash_webhook_handler config "w1"
        (event "good" "e0" "transfer.failed" "t1")
        (quiet two_orders))).db
    ≡ two_orders
handler-duplicate_example =
    handler-duplicate config "w1" (event "good" "e0" "transfer.failed" "t1") (quiet two_orders)
      old_event refl refl

not_signed : IsSigned config "key" (some "bad") (some "body") → ⊥
not_signed (g, b, named, body, full, same) =
    let bad : "bad" ≡ g = cc named in
    let wrong : config.signature_bytes "bad" ≡ 1 ∷ [] =
      subst (λ x. config.signature_bytes x ≡ 1 ∷ []) (sym bad) same in
    cc wrong

handler-unsigned_example :
    zero_hash_webhook_handler config "w1"
      (event "bad" "e1" "transfer.settled" "t1")
      (quiet two_orders)
    ≡ done (answer 401) (quiet two_orders)
handler-unsigned_example =
    handler-unsigned config "key" "w1" (event "bad" "e1" "transfer.settled" "t1") (quiet two_orders)
      refl refl not_signed
