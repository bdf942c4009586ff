-- ===== src/Tests/Web.antt =====
-- A limiter, a cache, and a store with a canceled card, a removed linked card and one transaction
-- (apps/web/src/app/api/gr/_lib).
use genesis_reserve_smarter.Base.{
  ℕ, ◌≡◌, ◌≢◌, refl, Option, none, some, true, false, [], ◌∷◌, eq_iff, arith, if◌then◌else◌,
}
use genesis_reserve_smarter.Base.Like.{cat}
use genesis_reserve_smarter.Base.Maps.{lookup}
use genesis_reserve_smarter.Web.Js.{
  Js, obj, end, prop, text, at, truthy, string, text_only, prop_of,
}
use genesis_reserve_smarter.Web.Cards.{
  Settings, Store, Draws, Answer, Card, CardStatus, visa, virtual, LinkedDebitCard, LinkStatus,
  FundingTransaction, FundingStatus, OnChainStatus, PayoutStatus, Money, usd, empty_store,
}
use genesis_reserve_smarter.Web.Cards.Issuing.{Target}
use genesis_reserve_smarter.Web.Cards.Funding.{
  FundingInput, FundingIntentResult, UsdcPurchase, PurchaseResult,
}
use genesis_reserve_smarter.Web.Cards.Payouts.{PayoutInput, PayoutResult}
use genesis_reserve_smarter.Web.Cards.Signature.{Secrets}
use genesis_reserve_smarter.Web.Cards.Processor.{
  Sdk, rejected, handle_processor_webhook, process_event, was_seen, funding_status_by_event,
}
use genesis_reserve_smarter.Web.Cards.Events.{handle_processor_webhook-unsigned}
use genesis_reserve_smarter.Web.Cards.Moves.{own_event, process_event-funding}
use genesis_reserve_smarter.Web.Cards.Requests.{Incoming, Server, moves_card}
use genesis_reserve_smarter.Web.Cards.Routes.{serve_route, run, Requests, done, request}
use genesis_reserve_smarter.Web.Cards.Routes.Final.{IsCanceled, run-IsCanceled}

abbrev settings : Settings
settings = record {
  provider = "mock";
  number_of = λ v. string v;
  is_finite = λ s. true;
  less = λ a b. false;
  plus = λ a b. a;
  times = λ a b. a;
  minus = λ a b. a;
  to_fixed2 = λ a. a;
  indexed = λ v. end;
}

abbrev secrets : Secrets
secrets = record {
  webhook_secret = some "whsec";
  tolerance_sec = "300";
  now_sec = "1000";
  trim = λ s. s;
  hmac_sha256_hex = λ secret message. message;
  from_hex = λ s. [];
}

abbrev sdk : Sdk
sdk = record {
  construct_event = λ payload signature secret. rejected "no such signature";
  iso_of_seconds = λ v. none;
}

abbrev draws : Draws
draws = record {
  make_id = λ prefix. cat prefix "_9";
  now_iso = λ n. "2026-01-01T00:00:00.000Z";
  iso_after = λ ms. "2026-01-01T00:05:00.000Z";
  last4 = "4242";
  full_year = 2026;
}

abbrev server : Server
server = record { settings = settings; secrets = secrets; sdk = sdk }

abbrev incoming : ℕ → Incoming
incoming now = record { idempotency_key = some "k"; now = now; draws = draws }

abbrev old_card : Card
old_card = record {
  id = "c1";
  account_id = "pta-1";
  cardholder_id = "ch1";
  card_type = virtual;
  brand = visa;
  status = CardStatus.canceled;
  last4 = "1111";
  expiry_month = 12;
  expiry_year = 2028;
  controls = end;
  created_at = "2025-01-01T00:00:00.000Z";
}

abbrev old_link : LinkedDebitCard
old_link = record {
  id = "l1";
  account_id = "pta-1";
  cardholder_name = "Ann";
  brand = "visa";
  bin = none;
  last4 = "2222";
  exp_month = 12;
  exp_year = 2028;
  funding_eligible = true;
  payout_eligible = true;
  status = LinkStatus.removed;
  network_token_ref = none;
  processor_token_ref = none;
  connected_account_id = none;
  external_account_id = none;
  circle_card_id = none;
  issuer_name = none;
  created_at = "2025-01-01T00:00:00.000Z";
}

abbrev five_dollars : Money
five_dollars = record { amount = "5.00"; currency = usd }

abbrev old_transaction : FundingTransaction
old_transaction = record {
  id = "f1";
  account_id = "pta-1";
  linked_card_id = "l1";
  amount = five_dollars;
  fee = five_dollars;
  net_amount = five_dollars;
  status = FundingStatus.settled;
  challenge = none;
  processor_reference = none;
  destination_address = none;
  circle_payment_id = none;
  on_chain_status = none;
  created_at = "2025-01-01T00:00:00.000Z";
  updated_at = "2025-01-01T00:00:00.000Z";
}

abbrev store : Store
store = record empty_store {
  cards = ("c1", old_card) ∷ [];
  linked_debit_cards = ("l1", old_link) ∷ [];
  funding = ("f1", old_transaction) ∷ [];
}

-- A request to unfreeze the canceled card.
abbrev one_request : ℕ → Requests
one_request now = request (incoming now) (moves_card "c1" Target.active) done done done done

card_9-ne-c1 : cat "card" "_9" ≢ "c1"
card_9-ne-c1 h = ground (arith, h, eq_iff (cat "card" "_9") "c1")

run-IsCanceled_example : IsCanceled "c1" (run server (one_request 5) store)
unfolding lookup
run-IsCanceled_example =
    run-IsCanceled server "c1" (one_request 5) store (card_9-ne-c1, tt, tt, tt, tt)
      (old_card, refl, refl)

abbrev body : Option Js
body = some (
    obj (
      prop "accountId" (text "pta-1")
        (prop "linkedCardId" (text "l1") (prop "amount" (obj (prop "amount" (text "5") end)) end))))

abbrev no_intent : FundingInput → FundingIntentResult
no_intent asked = record {
  status = FundingStatus.captured;
  processor_reference = none;
  challenge_client_secret = none;
  fee_amount = "0";
}

abbrev no_purchase : UsdcPurchase → PurchaseResult
no_purchase asked = record { payment_id = none; status = OnChainStatus.pending }

abbrev no_payout : PayoutInput → PayoutResult
no_payout asked = record { status = PayoutStatus.paid; processor_reference = none }

abbrev id_store : Store → Store
id_store s = s

-- Another card is frozen again, after a request with another answer.
abbrev first_served : Store × Answer
first_served =
    serve_route server (incoming 1) (moves_card "c1" Target.canceled) "1.2.3.4" "cancel" [] id_store
      id_store id_store store

handle_processor_webhook-unsigned_example :
    ((handle_processor_webhook settings secrets sdk draws none "{}" (some (obj end)) store).0
      ≡ store)
    × ((handle_processor_webhook settings secrets sdk draws none "{}"
          (some (obj end))
          store).1.status
        ≡ 400)
handle_processor_webhook-unsigned_example =
    handle_processor_webhook-unsigned settings secrets sdk draws none "{}" (some (obj end)) store
      refl λ signed. ground (arith, signed.3)

abbrev late_event : Option Js
late_event = some (
    obj (
      prop "id" (text "evt_1")
        (prop "type" (text "funding.captured") (prop "fundingId" (text "f1") end))))

-- An event of an earlier stage takes the settled transaction back.
process_event-funding_example :
    (lookup "f1" (process_event sdk draws late_event store).0.funding
      ≡ some (record old_transaction {
        status = FundingStatus.captured;
        processor_reference = none;
        updated_at = "2026-01-01T00:00:00.000Z";
      }))
    × ((process_event sdk draws late_event store).0.events ≡ (
        if was_seen (own_event draws late_event) store.events
        then store.events
        else own_event draws late_event ∷ store.events))
unfolding at prop_of truthy funding_status_by_event lookup text_only
process_event-funding_example =
    process_event-funding sdk draws late_event store "f1" "funding.captured" FundingStatus.captured
      old_transaction "f1" refl refl refl refl refl refl
