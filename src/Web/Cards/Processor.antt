-- ===== src/Web/Cards/Processor.antt =====
-- The events of the card processor (apps/web/src/app/api/gr/_lib/card-service.ts, the paths without a
-- database). The check of Stripe's SDK is a parameter. An event type that names a property which
-- every JavaScript object inherits, such as `constructor`, is not among the inputs.
use genesis_reserve_smarter.Base.{
  String, Option, none, some, Bool, true, false, ◌||◌, List, get_or, str_eq, if◌then◌else◌, any,
}
use genesis_reserve_smarter.Base.Maps.{lookup, put}
use genesis_reserve_smarter.Web.Js.{
  Js, text, obj, end, at, truthy, text_only, same, coalesce, text_of,
}
use genesis_reserve_smarter.Web.Cards.{
  Settings, Store, Draws, Handler, WebhookEvent, FundingTransaction, FundingStatus, Payout,
  PayoutStatus, acknowledged, nothing, refuse, refuse_if, push_event, is_stripe,
}
use genesis_reserve_smarter.Web.Cards.Signature.{
  Secrets, Verified, verified, unverified, verify_webhook_signature,
}

-- `stripe.webhooks.constructEvent(payloadRaw, signature, secret)`: the event, or the error's message.
pub data Constructed : Type 0 where
  constructed : Js → Constructed
  rejected : String → Constructed

pub record Sdk : Type 0 where
  pub construct_event : String → String → String → Constructed
  -- `new Date(body.created * 1000).toISOString()`, which throws where there is no such date.
  pub iso_of_seconds : Option Js → Option String

pub record EventContext : Type 0 where
  pub funding_id : Option Js
  pub payout_id : Option Js
  pub processor_reference : Option String

-- `extractStripeEventContext(body)`
unfoldable pub extract_stripe_event_context : Option Js → EventContext
extract_stripe_event_context body =
    let object = at (at body "data") "object" in
    if truthy (at body "fundingId") || truthy (at body "payoutId")
    then record {
      funding_id = at body "fundingId";
      payout_id = at body "payoutId";
      processor_reference = text_only (at (at body "data") "processorReference");
    }
    else if truthy object
    then record {
      funding_id = coalesce (at (at object "metadata") "fundingId") none;
      payout_id = coalesce (at (at object "metadata") "payoutId") none;
      processor_reference = text_only (at object "id");
    }
    else record { funding_id = none; payout_id = none; processor_reference = none }

-- `fundingStatusByEvent`
unfoldable pub funding_status_by_event : String → Option FundingStatus
funding_status_by_event t =
    if str_eq t "funding.requires_action" || str_eq t "payment_intent.requires_action"
    then some FundingStatus.requires_action
    else if str_eq t "funding.captured" || str_eq t "payment_intent.succeeded"
    then some FundingStatus.captured
    else if str_eq t "funding.settled"
    then some FundingStatus.settled
    else if str_eq t "funding.failed"
        || str_eq t "payment_intent.payment_failed"
        || str_eq t "payment_intent.canceled"
    then some FundingStatus.failed
    else if str_eq t "payment_intent.processing"
    then some FundingStatus.authorized
    else none

-- `payoutStatusByEvent`
unfoldable pub payout_status_by_event : String → Option PayoutStatus
payout_status_by_event t =
    if str_eq t "payout.pending_network"
      || str_eq t "payout.created"
      || str_eq t "payout.updated"
      || str_eq t "treasury.outbound_transfer.created"
    then some PayoutStatus.pending_network
    else if str_eq t "payout.paid"
        || str_eq t "payout.settled"
        || str_eq t "payout.reconciliation_completed"
        || str_eq t "treasury.outbound_transfer.posted"
    then some PayoutStatus.paid
    else if str_eq t "payout.failed"
        || str_eq t "treasury.outbound_transfer.failed"
        || str_eq t "treasury.outbound_transfer.canceled"
    then some PayoutStatus.failed
    else if str_eq t "payout.returned" || str_eq t "treasury.outbound_transfer.returned"
    then some PayoutStatus.returned
    else none

-- The key that a map with texts as keys is asked for.
abbrev pub key_of : Option Js → Option String
key_of v = if truthy v then text_only v else none

abbrev pub reference : Option String → Option String → Option String
reference (some r) old = some r
reference none old = old

unfoldable pub funding_changed :
    String → FundingStatus → Option String → String → Option FundingTransaction → Store → Store
funding_changed id status ref now none s = s
funding_changed id status ref now (some existing) s =
    let next : FundingTransaction = record existing {
      status = status;
      processor_reference = reference ref existing.processor_reference;
      updated_at = now;
    } in
    record s { funding = put id next s.funding }

unfoldable pub apply_funding :
    Option FundingStatus → Option String → Option String → String → Store → Store
unfolding funding_changed
apply_funding (some status) (some id) ref now s =
    funding_changed id status ref now (lookup id s.funding) s
apply_funding (some status) none ref now s = s
apply_funding none id ref now s = s

unfoldable pub payout_changed :
    String → PayoutStatus → Option String → String → Option Payout → Store → Store
payout_changed id status ref now none s = s
payout_changed id status ref now (some existing) s =
    let next : Payout = record existing {
      status = status;
      processor_reference = reference ref existing.processor_reference;
      updated_at = now;
    } in
    record s { payouts = put id next s.payouts }

unfoldable pub apply_payout :
    Option PayoutStatus → Option String → Option String → String → Store → Store
unfolding payout_changed
apply_payout (some status) (some id) ref now s =
    payout_changed id status ref now (lookup id s.payouts) s
apply_payout (some status) none ref now s = s
apply_payout none id ref now s = s

-- The event, or nothing where its date cannot be printed.
unfoldable pub created_at_of : Sdk → Draws → Option Js → Option Js
created_at_of k d body =
    if truthy (at body "created")
    then elim (k.iso_of_seconds (at body "created")) [ none ↦ none | some t ↦ some (text t) ]
    else some (get_or (coalesce (at body "createdAt") none) (text (d.now_iso 0)))

unfoldable pub event_with : Draws → Option Js → EventContext → Js → WebhookEvent
event_with d body ctx created_at = record {
  id = get_or (coalesce (at body "id") none) (text (d.make_id "evt"));
  event_type = get_or (coalesce (at body "type") none) (text "unknown");
  created_at = created_at;
  account_id =
      coalesce (at body "accountId")
        (at (at (at (at body "data") "object") "metadata") "accountId");
  card_id = at body "cardId";
  funding_id = ctx.funding_id;
  payout_id = ctx.payout_id;
  dispute_id = at body "disputeId";
  content = get_or (coalesce (at body "data") none) (obj end);
}

unfoldable pub unshift_new : Bool → WebhookEvent → Store → Store
unfolding push_event
unshift_new true evt s = s
unshift_new false evt s = push_event evt s

abbrev pub was_seen : WebhookEvent → List WebhookEvent → Bool
was_seen evt events = any (λ (e : WebhookEvent). same e.id evt.id) events

-- The statuses are changed before the event is looked for among those that came already.
unfoldable pub record_event : Draws → EventContext → WebhookEvent → Handler
unfolding apply_funding apply_payout unshift_new
record_event d ctx evt s =
    let kind = text_of evt.event_type in
    let funded =
      apply_funding (funding_status_by_event kind) (key_of evt.funding_id) ctx.processor_reference
        (d.now_iso 1) s in
    let changed =
      apply_payout (payout_status_by_event kind) (key_of evt.payout_id) ctx.processor_reference
        (d.now_iso 2) funded in
    (
      unshift_new (was_seen evt changed.events) evt changed,
      record { status = 200; body = acknowledged },
    )

-- An uncaught error gets status 500.
unfoldable pub record_dated : Draws → Option Js → EventContext → Option Js → Handler
unfolding event_with record_event
record_dated d body ctx none s = (s, record { status = 500; body = nothing })
record_dated d body ctx (some created_at) s =
    record_event d ctx (event_with d body ctx created_at) s

-- What follows once the event is known to be the processor's.
unfoldable pub process_event : Sdk → Draws → Option Js → Handler
unfolding created_at_of record_dated
process_event k d body s =
    record_dated d body (extract_stripe_event_context body) (created_at_of k d body) s

unfoldable pub if_constructed : Sdk → Draws → Constructed → Handler
unfolding process_event
if_constructed k d (rejected message) s = refuse d 400 "invalid_request" message s
if_constructed k d (constructed event) s = process_event k d (some event) s

unfoldable pub if_verified : Sdk → Draws → Option Js → Verified → Handler
unfolding process_event
if_verified k d body (unverified reason) s = refuse d 400 "invalid_request" reason s
if_verified k d body verified s = process_event k d body s

-- A secret or a header that is missing or empty is refused.
unfoldable pub by_stripe : Sdk → Draws → Option String → Option String → String → Handler
unfolding if_constructed
by_stripe k d secret signature payload_raw s =
    let webhook_secret = get_or secret "" in
    let header = get_or signature "" in
    refuse_if d (str_eq webhook_secret "") 400 "invalid_request" "Webhook secret is not configured."
      (refuse_if d (str_eq header "") 400 "invalid_request" "Missing Stripe-Signature header."
        (if_constructed k d (k.construct_event payload_raw header webhook_secret)))
      s

unfoldable pub handler_of :
    Bool → Settings → Secrets → Sdk → Draws → Option String → String → Option Js → Handler
unfolding by_stripe if_verified
handler_of true c secrets k d signature payload_raw body s =
    by_stripe k d secrets.webhook_secret signature payload_raw s
handler_of false c secrets k d signature payload_raw body s =
    if_verified k d body (verify_webhook_signature c secrets signature payload_raw) s

-- `handleProcessorWebhook(signature, payloadRaw, body)`
unfoldable pub handle_processor_webhook :
    Settings → Secrets → Sdk → Draws → Option String → String → Option Js → Handler
unfolding handler_of
handle_processor_webhook c secrets k d signature payload_raw body s =
    handler_of (is_stripe c) c secrets k d signature payload_raw body s
