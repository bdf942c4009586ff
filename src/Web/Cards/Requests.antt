-- ===== src/Web/Cards/Requests.antt =====
-- Requests to the card routes (apps/web/src/app/api/gr): the limit on requests, the answers that are
-- kept by idempotency key (both in _lib/card-service.ts), and the operations behind the routes.
use genesis_reserve_smarter.Base.{
  ℕ, ◌+◌, String, Option, none, some, Bool, true, false, List, [], ◌∷◌, get_or, str_eq,
  if◌then◌else◌, ltb,
}
use genesis_reserve_smarter.Base.Like.{cat}
use genesis_reserve_smarter.Base.Maps.{lookup, put}
use genesis_reserve_smarter.Web.Js.{Js}
use genesis_reserve_smarter.Web.RequestControls.{Windows, is_limited}
use genesis_reserve_smarter.Web.Cards.{
  Settings, Store, Draws, Handler, Answer, IdempotencyResult, error_at, refuse_if,
}
use genesis_reserve_smarter.Web.Cards.Issuing.{
  Target, create_cardholder, get_cardholder, update_cardholder, create_card, get_card,
  mutate_card_status,
}
use genesis_reserve_smarter.Web.Cards.Controls.{
  update_card_controls, create_pan_reveal_token, get_authorization, get_dispute,
  submit_dispute_evidence, accept_dispute,
}
use genesis_reserve_smarter.Web.Cards.Linking.{
  StripeLink, link_debit_card, update_linked_card_issuer_name, update_linked_card_circle_id,
  unlink_linked_debit_card,
}
use genesis_reserve_smarter.Web.Cards.Funding.{
  FundingInput, FundingIntentResult, UsdcPurchase, PurchaseResult, create_funding_conversion_quote,
  create_add_money, get_funding_status,
}
use genesis_reserve_smarter.Web.Cards.Payouts.{
  PayoutInput, PayoutResult, quote_push_to_card, create_push_to_card_payout, get_payout,
}
use genesis_reserve_smarter.Web.Cards.Signature.{Secrets, split_commas}
use genesis_reserve_smarter.Web.Cards.Processor.{Sdk, handle_processor_webhook}

-- What a request carries beside its body: its header `idempotency-key`, its moment, what it draws.
pub record Incoming : Type 0 where
  pub idempotency_key : Option String
  pub now : ℕ
  pub draws : Draws

first_part : List String → String
first_part [] = ""
first_part (p ∷ _) = p

-- `getRequestIp(request)`, by the headers `x-forwarded-for` and `x-real-ip`.
unfoldable pub get_request_ip : (String → String) → Option String → Option String → String
unfolding first_part
get_request_ip trim none real_ip = get_or real_ip "unknown"
get_request_ip trim (some forwarded_for) real_ip =
    if str_eq forwarded_for ""
    then get_or real_ip "unknown"
    else trim (first_part (split_commas forwarded_for))

-- `ensureNotRateLimited(request, routeKey)`: 120 requests a minute for an address and a route.
unfoldable pub ensure_not_rate_limited :
    Incoming → String → String → Windows → Windows × Option Answer
ensure_not_rate_limited i ip route_key windows =
    let answer = is_limited 120 60000 i.now (cat ip (cat ":" route_key)) windows in
    (
      answer.0,
      (if answer.1
          then some (error_at i.draws 429 "rate_limited" "Too many requests. Please retry later.")
          else none),
    )

unfoldable pub keep_answer : ℕ → String → Answer → Store → Store
keep_answer expires_at id_key result s = record s {
  idempotency =
      put id_key (record { status = result.status; body = result.body; expires_at = expires_at })
        s.idempotency;
}

-- A wait before the handler, for the body of the request, and one after it, in which other requests
-- may change the store.
unfoldable pub run_handler : ℕ → String → (Store → Store) → (Store → Store) → Handler → Handler
unfolding keep_answer
run_handler expires_at id_key before after handler s =
    let out = handler (before s) in (keep_answer expires_at id_key out.1 (after out.0), out.1)

unfoldable pub replay_if : Bool → IdempotencyResult → Handler → Handler
replay_if true existing handler s = (s, record { status = existing.status; body = existing.body })
replay_if false existing handler s = handler s

-- `existing && existing.expiresAt > now`
unfoldable pub replay_or_run : ℕ → Option IdempotencyResult → Handler → Handler
unfolding replay_if
replay_or_run now none run s = run s
replay_or_run now (some existing) run s = replay_if (ltb now existing.expires_at) existing run s

-- `withIdempotency(request, operation, handler, ttlMs)`
unfoldable pub with_idempotency :
    Incoming → String → ℕ → (Store → Store) → (Store → Store) → Handler → Handler
unfolding replay_or_run run_handler
with_idempotency i operation ttl_ms before after handler s =
    let key = get_or i.idempotency_key "" in
    let id_key = cat operation (cat ":" key) in
    refuse_if i.draws (str_eq key "") 400 "invalid_request"
      "Missing required idempotency-key header."
      (replay_or_run i.now (lookup id_key s.idempotency)
        (run_handler (i.now + ttl_ms) id_key before after handler))
      s

-- The operations behind the routes, with what the adapters answer to each.
pub data Operation : Type 0 where
  creates_cardholder : Option Js → Operation
  gets_cardholder : String → Operation
  updates_cardholder : String → Option Js → Operation
  creates_card : Option Js → Operation
  gets_card : String → Operation
  moves_card : String → Target → Operation
  updates_controls : String → Option Js → Operation
  reveals_pan : String → Operation
  gets_authorization : String → Operation
  links_card : StripeLink → Option Js → Operation
  names_issuer : String → String → Operation
  sets_circle_id : String → String → Operation
  unlinks_card : String → Operation
  quotes_conversion : Option Js → Operation
  adds_money :
      (FundingInput → FundingIntentResult) → (UsdcPurchase → PurchaseResult) → Option Js → Operation
  gets_funding : String → Operation
  quotes_payout : Option Js → Operation
  pays_out : (PayoutInput → PayoutResult) → Option Js → Operation
  gets_payout : String → Operation
  gets_dispute : String → Operation
  submits_evidence : String → Option Js → Operation
  accepts_dispute : String → Operation
  takes_event : Option String → String → Option Js → Operation

pub record Server : Type 0 where
  pub settings : Settings
  pub secrets : Secrets
  pub sdk : Sdk

-- The handler of an operation; other requests change the store by `meanwhile` while an adapter is
-- waited for.
unfoldable pub handle : Server → Incoming → (Store → Store) → Operation → Handler
handle v i meanwhile (creates_cardholder body) s = create_cardholder i.draws body s
handle v i meanwhile (gets_cardholder id) s = get_cardholder i.draws id s
handle v i meanwhile (updates_cardholder id patch) s = update_cardholder i.draws id patch s
handle v i meanwhile (creates_card body) s = create_card i.draws body s
handle v i meanwhile (gets_card id) s = get_card i.draws id s
handle v i meanwhile (moves_card id target) s = mutate_card_status i.draws id target s
handle v i meanwhile (updates_controls id patch) s =
    update_card_controls v.settings i.draws id patch s
handle v i meanwhile (reveals_pan id) s = create_pan_reveal_token i.draws id s
handle v i meanwhile (gets_authorization id) s = get_authorization i.draws id s
handle v i meanwhile (links_card stripe body) s =
    link_debit_card v.settings i.draws stripe body (meanwhile s)
handle v i meanwhile (names_issuer id name) s =
    update_linked_card_issuer_name v.settings i.draws id name s
handle v i meanwhile (sets_circle_id id circle_card_id) s =
    update_linked_card_circle_id v.settings i.draws id circle_card_id s
handle v i meanwhile (unlinks_card id) s = unlink_linked_debit_card i.draws id s
handle v i meanwhile (quotes_conversion body) s =
    create_funding_conversion_quote v.settings i.draws body s
handle v i meanwhile (adds_money stripe circle body) s =
    create_add_money v.settings
      (record {
        create_funding_intent = stripe;
        create_usdc_purchase = circle;
        meanwhile = meanwhile;
      })
      i.draws body i.idempotency_key s
handle v i meanwhile (gets_funding id) s = get_funding_status v.settings i.draws id s
handle v i meanwhile (quotes_payout body) s = quote_push_to_card v.settings i.draws body s
handle v i meanwhile (pays_out stripe body) s =
    create_push_to_card_payout v.settings
      (record { create_push_to_card_payout = stripe; meanwhile = meanwhile }) i.draws body s
handle v i meanwhile (gets_payout id) s = get_payout v.settings i.draws id s
handle v i meanwhile (gets_dispute id) s = get_dispute i.draws id s
handle v i meanwhile (submits_evidence id body) s = submit_dispute_evidence i.draws id body s
handle v i meanwhile (accepts_dispute id) s = accept_dispute i.draws id s
handle v i meanwhile (takes_event signature payload_raw body) s =
    handle_processor_webhook v.settings v.secrets v.sdk i.draws signature payload_raw body s
