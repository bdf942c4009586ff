-- ===== src/Web/Cards/Issuing.antt =====
-- Cardholders, cards, authorizations and disputes
-- (apps/web/src/app/api/gr/_lib/card-service.ts, the paths without a database).
use genesis_reserve_smarter.Base.{
  ◌+◌, String, Option, none, some, Bool, true, false, not, ◌||◌, get_or, if◌then◌else◌,
}
use genesis_reserve_smarter.Base.Maps.{lookup, put}
use genesis_reserve_smarter.Web.Js.{
  Js, text, bool, obj, arr, Props, end, prop, nil, at, truthy, string, string_if, is_text,
}
use genesis_reserve_smarter.Web.Cards.{
  Draws, Handler, Cardholder, CardholderStatus, Card, CardStatus, virtual, physical, Brand,
  Authorization, AuthorizationStatus, usd, cardholder_item, card_item, refuse, refuse_if, give,
  push_event, event_of,
}

-- `createCardholder(body)`
store_cardholder : Draws → Option Js → Handler
store_cardholder d body s =
    let item : Cardholder = record {
      id = d.make_id "ch";
      account_id = string (at body "accountId");
      legal_name = string (at body "legalName");
      email = string_if (at body "email");
      phone = string_if (at body "phone");
      kyc_tier = 1;
      status = CardholderStatus.active;
      billing_address = at body "billingAddress";
      created_at = d.now_iso 0;
    } in
    let event =
      record (event_of (d.make_id "evt") "cardholder.created" (d.now_iso 1)
        (obj (prop "cardholderId" (text item.id) end))) {
          account_id = some (text item.account_id);
        } in
    let stored = record s { cardholders = put item.id item s.cardholders } in
    give d 201 2 (cardholder_item item) "mock" (push_event event stored)

unfoldable pub create_cardholder : Draws → Option Js → Handler
unfolding store_cardholder
create_cardholder d body s =
    refuse_if d
      (not (truthy (at body "accountId"))
        || not (truthy (at body "legalName"))
        || not (truthy (at body "billingAddress")))
      400 "invalid_request" "accountId, legalName, and billingAddress are required."
      (store_cardholder d body) s

-- `getCardholder(cardholderId)`
give_cardholder : Draws → Option Cardholder → Handler
give_cardholder d none s = refuse d 404 "not_found" "Cardholder not found." s
give_cardholder d (some item) s = give d 200 0 (cardholder_item item) "mock" s

unfoldable pub get_cardholder : Draws → String → Handler
unfolding give_cardholder
get_cardholder d cardholder_id s = give_cardholder d (lookup cardholder_id s.cardholders) s

-- `value ? String(value) : current`
abbrev replaced : Option Js → String → String
replaced value current = get_or (string_if value) current

-- `updateCardholder(cardholderId, patch)`
change_cardholder : Draws → String → Option Js → Option Cardholder → Handler
change_cardholder d cardholder_id patch none s = refuse d 404 "not_found" "Cardholder not found." s
change_cardholder d cardholder_id patch (some current) s =
    let next : Cardholder = record current {
      legal_name = replaced (at patch "legalName") current.legal_name;
      email = if truthy (at patch "email") then string_if (at patch "email") else current.email;
      phone = if truthy (at patch "phone") then string_if (at patch "phone") else current.phone;
      billing_address =
          if truthy (at patch "billingAddress")
          then at patch "billingAddress"
          else current.billing_address;
    } in
    give d 200 0 (cardholder_item next) "mock"
      (record s { cardholders = put cardholder_id next s.cardholders })

unfoldable pub update_cardholder : Draws → String → Option Js → Handler
unfolding change_cardholder
update_cardholder d cardholder_id patch s =
    change_cardholder d cardholder_id patch (lookup cardholder_id s.cardholders) s

abbrev first_controls : Bool → Props
first_controls is_physical = prop "online" (bool true) (
    prop "atm" (bool false)
      (prop "international" (bool is_physical) (prop "mccBlocklist" (arr nil) end)))

-- `createCard(body)`: a card, and an approved authorization of one dollar for it.
issue : Draws → Option Js → Option Cardholder → Handler
unfolding push_event
issue d body none s = refuse d 404 "not_found" "Cardholder not found." s
issue d body (some _) s =
    let is_physical = is_text (at body "type") "physical" in
    let card : Card = record {
      id = d.make_id "card";
      account_id = string (at body "accountId");
      cardholder_id = string (at body "cardholderId");
      card_type = if is_physical then physical else virtual;
      brand = if is_text (at body "brand") "mastercard" then Brand.mastercard else Brand.visa;
      status = if is_physical then CardStatus.pending_fulfillment else CardStatus.active;
      last4 = d.last4;
      expiry_month = 12;
      expiry_year = d.full_year + 3;
      controls = first_controls is_physical;
      created_at = d.now_iso 0;
    } in
    let authorization : Authorization = record {
      id = d.make_id "auth";
      card_id = card.id;
      account_id = card.account_id;
      amount = record { amount = "1.00"; currency = usd };
      status = AuthorizationStatus.approved;
      created_at = d.now_iso 1;
      updated_at = d.now_iso 1;
    } in
    let event =
      record (event_of (d.make_id "evt") "card.issued" (d.now_iso 1)
        (obj (prop "cardType" (text (if is_physical then "physical" else "virtual")) end))) {
          account_id = some (text card.account_id);
          card_id = some (text card.id);
        } in
    let stored = record s {
      cards = put card.id card s.cards;
      authorizations = put authorization.id authorization s.authorizations;
    } in
    give d 201 1 (card_item card) "mock" (push_event event stored)

unfoldable pub create_card : Draws → Option Js → Handler
unfolding issue
create_card d body s =
    refuse_if d
      (not (truthy (at body "accountId"))
        || not (truthy (at body "cardholderId"))
        || not (truthy (at body "type")))
      400 "invalid_request" "accountId, cardholderId, and type are required."
      (issue d body (lookup (string (at body "cardholderId")) s.cardholders)) s

-- `getCard(cardId)`
give_card : Draws → Option Card → Handler
give_card d none s = refuse d 404 "not_found" "Card not found." s
give_card d (some card) s = give d 200 0 (card_item card) "mock" s

unfoldable pub get_card : Draws → String → Handler
unfolding give_card
get_card d card_id s = give_card d (lookup card_id s.cards) s

-- The statuses that a request can ask for.
pub data Target : Type 0 where
  frozen active canceled : Target

abbrev pub target_status : Target → CardStatus
target_status Target.frozen = CardStatus.frozen
target_status Target.active = CardStatus.active
target_status Target.canceled = CardStatus.canceled

abbrev pub target_event : Target → String
target_event Target.frozen = "card.frozen"
target_event Target.active = "card.unfrozen"
target_event Target.canceled = "card.canceled"

-- `card.status === 'canceled' && target !== 'canceled'`
unfoldable pub is_over : CardStatus → Target → Bool
is_over CardStatus.canceled Target.canceled = false
is_over CardStatus.canceled _ = true
is_over _ _ = false

-- `mutateCardStatus(cardId, target)`
set_card_status : Draws → String → Target → Card → Handler
unfolding push_event
set_card_status d card_id target card s =
    let next : Card = record card { status = target_status target } in
    let event = record (event_of (d.make_id "evt") (target_event target) (d.now_iso 0) (obj end)) {
      account_id = some (text next.account_id);
      card_id = some (text next.id);
    } in
    give d 200 1 (card_item next) "mock"
      (push_event event (record s { cards = put card_id next s.cards }))

move_card : Draws → String → Target → Option Card → Handler
move_card d card_id target none s = refuse d 404 "not_found" "Card not found." s
move_card d card_id target (some card) s =
    refuse_if d (is_over card.status target) 409 "invalid_state" "Canceled card cannot transition."
      (set_card_status d card_id target card) s

unfoldable pub mutate_card_status : Draws → String → Target → Handler
unfolding move_card is_over set_card_status
mutate_card_status d card_id target s = move_card d card_id target (lookup card_id s.cards) s
