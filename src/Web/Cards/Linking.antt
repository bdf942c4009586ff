-- ===== src/Web/Cards/Linking.antt =====
-- Linked debit cards (apps/web/src/app/api/gr/_lib/card-service.ts, the paths without a database).
-- What the Stripe adapter answers is an argument.
use genesis_reserve_smarter.Base.{
  ℕ, ◌+◌, String, Option, none, some, Bool, true, not, ◌||◌, ◌&&◌, get_or, str_eq, if◌then◌else◌,
}
use genesis_reserve_smarter.Base.Maps.{lookup, put}
use genesis_reserve_smarter.Web.Js.{Js, text, obj, end, prop, at, truthy, string, string_if}
use genesis_reserve_smarter.Web.Cards.{
  Settings, Draws, Handler, LinkedDebitCard, LinkStatus, linked_item, nothing, refuse, refuse_if,
  give, push_event, event_of, is_stripe, processor_source,
}

-- A card that a setup token stands for.
pub record ResolvedCard : Type 0 where
  pub brand : String
  pub bin : Option String
  pub last4 : String
  pub exp_month : ℕ
  pub exp_year : ℕ
  pub processor_token_ref : Option String

-- `stripeResolveLinkedCard` answers with a card, or with the text of an error, if it has one.
pub data Resolution : Type 0 where
  resolved : ResolvedCard → Resolution
  unresolved : Option String → Resolution

-- The connected account and the external account of `stripeProvisionPayoutAccount`.
pub record Provisioned : Type 0 where
  pub connected_account_id : String
  pub external_account_id : String

-- What Stripe says when asked to link a card.
pub record StripeLink : Type 0 where
  pub resolution : Resolution
  pub provisioned : Option Provisioned

mock_card : Draws → Option Js → ResolvedCard
mock_card d body = record {
  brand = "visa";
  bin = none;
  last4 = d.last4;
  exp_month = 12;
  exp_year = d.full_year + 3;
  processor_token_ref = some (string (at body "processorSetupToken"));
}

provisioned_if : Bool → Option Provisioned → Option Provisioned
provisioned_if asked p = if asked then p else none

abbrev connected_of : Option Provisioned → Option String
connected_of none = none
connected_of (some p) = some p.connected_account_id

abbrev external_of : Option Provisioned → Option String
external_of none = none
external_of (some p) = some p.external_account_id

unfoldable pub link : Settings → Draws → StripeLink → Option Js → Resolution → Handler
unfolding provisioned_if
link c d stripe body (unresolved e) s =
    let reason = get_or e "" in
    refuse d 400 "invalid_request"
      (if str_eq reason "" then "Could not resolve card setup token." else reason) s
link c d stripe body (resolved card) s =
    let payout_account =
      provisioned_if (is_stripe c && truthy (at body "cardToken")) stripe.provisioned in
    let item : LinkedDebitCard = record {
      id = d.make_id "ldc";
      account_id = string (at body "accountId");
      cardholder_name = string (at body "cardholderName");
      brand = card.brand;
      bin = card.bin;
      last4 = card.last4;
      exp_month = card.exp_month;
      exp_year = card.exp_year;
      funding_eligible = true;
      payout_eligible = true;
      status = LinkStatus.verified;
      network_token_ref = none;
      processor_token_ref =
          some (get_or card.processor_token_ref (string (at body "processorSetupToken")));
      connected_account_id = connected_of payout_account;
      external_account_id = external_of payout_account;
      circle_card_id = string_if (at body "circleCardId");
      issuer_name = string_if (at body "issuerName");
      created_at = d.now_iso 0;
    } in
    let event =
      record (event_of (d.make_id "evt") "linked_debit_card.created" (d.now_iso 1)
        (obj (prop "linkedCardId" (text item.id) end))) {
          account_id = some (text item.account_id);
        } in
    let stored = record s { linked_debit_cards = put item.id item s.linked_debit_cards } in
    give d 201 2 (linked_item item) (processor_source c) (push_event event stored)

-- `linkDebitCard(body, requestIp)`. The store is not read before it is written, so what happens while
-- Stripe is asked happens before this step.
unfoldable pub link_debit_card : Settings → Draws → StripeLink → Option Js → Handler
unfolding link mock_card
link_debit_card c d stripe body s =
    refuse_if d
      (not (truthy (at body "accountId"))
        || not (truthy (at body "cardholderName"))
        || not (truthy (at body "processorSetupToken")))
      400 "invalid_request" "accountId, cardholderName, and processorSetupToken are required."
      (link c d stripe body
        (if is_stripe c then stripe.resolution else resolved (mock_card d body)))
      s

-- `updateLinkedCardIssuerName` and `updateLinkedCardCircleId` store a changed card.
change_linked :
    Settings
    → Draws
    → String
    → (LinkedDebitCard → LinkedDebitCard)
    → Option LinkedDebitCard
    → Handler
change_linked c d linked_card_id change none s =
    refuse d 404 "not_found" "Linked debit card not found." s
change_linked c d linked_card_id change (some found) s =
    let next = change found in
    give d 200 0 (linked_item next) (processor_source c)
      (record s { linked_debit_cards = put linked_card_id next s.linked_debit_cards })

unfoldable pub update_linked_card_issuer_name : Settings → Draws → String → String → Handler
unfolding change_linked
update_linked_card_issuer_name c d linked_card_id issuer_name s =
    refuse_if d (str_eq issuer_name "" || str_eq linked_card_id "") 400 "invalid_request"
      "linkedCardId and issuerName are required."
      (change_linked c d linked_card_id
        (λ (found : LinkedDebitCard). record found { issuer_name = some issuer_name })
        (lookup linked_card_id s.linked_debit_cards))
      s

unfoldable pub update_linked_card_circle_id : Settings → Draws → String → String → Handler
unfolding change_linked
update_linked_card_circle_id c d linked_card_id circle_card_id s =
    refuse_if d (str_eq circle_card_id "" || str_eq linked_card_id "") 400 "invalid_request"
      "linkedCardId and circleCardId are required."
      (change_linked c d linked_card_id
        (λ (found : LinkedDebitCard). record found { circle_card_id = some circle_card_id })
        (lookup linked_card_id s.linked_debit_cards))
      s

-- `unlinkLinkedDebitCard(linkedCardId)`
unlink : Draws → String → Option LinkedDebitCard → Handler
unlink d linked_card_id none s = refuse d 404 "not_found" "Linked debit card not found." s
unlink d linked_card_id (some found) s =
    let next : LinkedDebitCard = record found { status = LinkStatus.removed } in
    let event =
      record (event_of (d.make_id "evt") "linked_debit_card.removed" (d.now_iso 0)
        (obj (prop "linkedCardId" (text linked_card_id) end))) {
          account_id = some (text found.account_id);
        } in
    let stored = record s { linked_debit_cards = put linked_card_id next s.linked_debit_cards } in
    (push_event event stored, record { status = 204; body = nothing })

unfoldable pub unlink_linked_debit_card : Draws → String → Handler
unfolding unlink
unlink_linked_debit_card d linked_card_id s =
    unlink d linked_card_id (lookup linked_card_id s.linked_debit_cards) s
