-- ===== src/Web/Cards.antt =====
-- The card service (apps/web/src/app/api/gr/_lib/card-service.ts) on its store in memory, which it
-- uses where no database is configured: the records, the store and the answers.
pub mod Issuing
pub mod Controls
pub mod Linking
pub mod Funding
pub mod Payouts
pub mod Signature
pub mod Processor
pub mod Events
pub mod Moves
pub mod Requests
pub mod Routes
use genesis_reserve_smarter.Base.{
  ℕ, ◌+◌, ◌*◌, String, Option, none, some, Bool, true, false, List, [], ◌∷◌, str_eq, if◌then◌else◌,
  not, ◌||◌,
}
use genesis_reserve_smarter.Base.Maps.{Dict}
use genesis_reserve_smarter.Web.Js.{Js, text, Props, is_text}

pub data CardStatus : Type 0 where
  requested pending_kyc pending_fulfillment active frozen blocked canceled : CardStatus

pub data CardType : Type 0 where
  virtual physical : CardType

pub data Brand : Type 0 where
  visa mastercard : Brand

pub data CardholderStatus : Type 0 where
  pending active restricted blocked : CardholderStatus

pub record Cardholder : Type 0 where
  pub id : String
  pub account_id : String
  pub legal_name : String
  pub email : Option String
  pub phone : Option String
  pub kyc_tier : ℕ
  pub status : CardholderStatus
  pub billing_address : Option Js
  pub created_at : String

pub record Card : Type 0 where
  pub id : String
  pub account_id : String
  pub cardholder_id : String
  pub card_type : CardType
  pub brand : Brand
  pub status : CardStatus
  pub last4 : String
  pub expiry_month : ℕ
  pub expiry_year : ℕ
  pub controls : Props
  pub created_at : String

pub data Currency : Type 0 where
  usd usdc : Currency

pub record Money : Type 0 where
  pub amount : String
  pub currency : Currency

pub data AuthorizationStatus : Type 0 where
  approved declined reversed cleared : AuthorizationStatus

pub record Authorization : Type 0 where
  pub id : String
  pub card_id : String
  pub account_id : String
  pub amount : Money
  pub status : AuthorizationStatus
  pub created_at : String
  pub updated_at : String

pub data LinkStatus : Type 0 where
  pending verified blocked removed : LinkStatus

pub record LinkedDebitCard : Type 0 where
  pub id : String
  pub account_id : String
  pub cardholder_name : String
  pub brand : String
  pub bin : Option String
  pub last4 : String
  pub exp_month : ℕ
  pub exp_year : ℕ
  pub funding_eligible : Bool
  pub payout_eligible : Bool
  pub status : LinkStatus
  pub network_token_ref : Option String
  pub processor_token_ref : Option String
  pub connected_account_id : Option String
  pub external_account_id : Option String
  pub circle_card_id : Option String
  pub issuer_name : Option String
  pub created_at : String

pub data FundingStatus : Type 0 where
  created requires_action authorized captured settled failed reversed : FundingStatus

pub data OnChainStatus : Type 0 where
  pending confirmed failed : OnChainStatus

pub record FundingTransaction : Type 0 where
  pub id : String
  pub account_id : String
  pub linked_card_id : String
  pub amount : Money
  pub fee : Money
  pub net_amount : Money
  pub status : FundingStatus
  pub challenge : Option String
  pub processor_reference : Option String
  pub destination_address : Option String
  pub circle_payment_id : Option String
  pub on_chain_status : Option OnChainStatus
  pub created_at : String
  pub updated_at : String

pub data PayoutStatus : Type 0 where
  created pending_network paid failed returned : PayoutStatus

pub record Payout : Type 0 where
  pub id : String
  pub account_id : String
  pub linked_card_id : String
  pub amount : Money
  pub fee : Money
  pub net_amount : Money
  pub status : PayoutStatus
  pub processor_reference : Option String
  pub created_at : String
  pub updated_at : String

pub data DisputeStatus : Type 0 where
  opened under_review won lost accepted : DisputeStatus

pub record Dispute : Type 0 where
  pub id : String
  pub account_id : Option String
  pub card_id : Option String
  pub authorization_id : Option String
  pub funding_id : Option String
  pub reason : String
  pub status : DisputeStatus
  pub amount : Money
  pub due_at : Option String
  pub created_at : String
  pub updated_at : String

-- An event of the processor's takes its fields as they come, of any shape.
pub record WebhookEvent : Type 0 where
  pub id : Js
  pub event_type : Js
  pub created_at : Js
  pub account_id : Option Js
  pub card_id : Option Js
  pub funding_id : Option Js
  pub payout_id : Option Js
  pub dispute_id : Option Js
  pub content : Js

-- What a handler answers with.
pub data Content : Type 0 where
  cardholder_item : Cardholder → Content
  card_item : Card → Content
  authorization_item : Authorization → Content
  linked_item : LinkedDebitCard → Content
  funding_item : FundingTransaction → Content
  payout_item : Payout → Content
  dispute_item : Dispute → Content
  pan_token : String → String → String → Content
  conversion_quote : String → Money → Money → String → Money → String → Content
  payout_quote : String → Money → Money → Money → String → Content
  event_items : List WebhookEvent → Content

pub data Body : Type 0 where
  problem : (code message timestamp : String) (retryable : Bool) → Body
  reply : Content → (source timestamp : String) → Body
  acknowledged nothing : Body

pub record Answer : Type 0 where
  pub status : ℕ
  pub body : Body

pub record IdempotencyResult : Type 0 where
  pub status : ℕ
  pub body : Body
  pub expires_at : ℕ

pub record Store : Type 0 where
  pub cardholders : Dict Cardholder
  pub cards : Dict Card
  pub authorizations : Dict Authorization
  pub linked_debit_cards : Dict LinkedDebitCard
  pub funding : Dict FundingTransaction
  pub payouts : Dict Payout
  pub disputes : Dict Dispute
  pub events : List WebhookEvent
  pub idempotency : Dict IdempotencyResult

abbrev pub empty_store : Store
empty_store = record {
  cardholders = [];
  cards = [];
  authorizations = [];
  linked_debit_cards = [];
  funding = [];
  payouts = [];
  disputes = [];
  events = [];
  idempotency = [];
}

-- What one request reads from the clock and draws: `makeId(prefix)`, which it calls at most once for
-- each prefix, its readings of `nowIso()` by a number, the four digits, the year and the texts of the
-- moments after some milliseconds.
pub record Draws : Type 0 where
  pub make_id : String → String
  pub now_iso : ℕ → String
  pub iso_after : ℕ → String
  pub last4 : String
  pub full_year : ℕ

-- The environment: CARD_ISSUING_PROVIDER in lower case, and the arithmetic on floating-point numbers,
-- which stand as texts, and the properties that an array or a text is spread into.
pub record Settings : Type 0 where
  pub provider : String
  pub number_of : Option Js → String
  pub is_finite : String → Bool
  pub less : String → String → Bool
  pub plus : String → String → String
  pub times : String → String → String
  pub minus : String → String → String
  pub to_fixed2 : String → String
  pub indexed : Js → Props

-- A handler's step on the store.
abbrev pub Handler : Type 0
Handler = Store → Store × Answer

abbrev pub error_at : Draws → ℕ → String → String → Answer
error_at d status code message = record {
  status = status;
  body = problem code message (d.now_iso 0) (str_eq code "rate_limited");
}

-- An answer that leaves the store alone.
abbrev pub refuse : Draws → ℕ → String → String → Handler
refuse d status code message s = (s, error_at d status code message)

-- An early return of a handler.
unfoldable pub refuse_if : Draws → Bool → ℕ → String → String → Handler → Handler
refuse_if d true status code message h s = refuse d status code message s
refuse_if d false status code message h s = h s

abbrev pub give : Draws → ℕ → ℕ → Content → String → Store → Store × Answer
give d status reading content source s =
    (s, record { status = status; body = reply content source (d.now_iso reading) })

-- `getProcessorSource()`
abbrev pub is_stripe : Settings → Bool
is_stripe c = str_eq c.provider "stripe"

abbrev pub processor_source : Settings → String
processor_source c = if is_stripe c then "stripe" else "mock"

-- An event with no ids, to be given those that it has.
abbrev pub event_of : String → String → String → Js → WebhookEvent
event_of id event_type created_at content = record {
  id = text id;
  event_type = text event_type;
  created_at = text created_at;
  account_id = none;
  card_id = none;
  funding_id = none;
  payout_id = none;
  dispute_id = none;
  content = content;
}

-- `store.events.unshift(event)`
unfoldable pub push_event : WebhookEvent → Store → Store
push_event e s = record s { events = e ∷ s.events }

-- `parseMoneyLike(value)`
unfoldable pub parse_money_like : Settings → Option Js → String
parse_money_like c value =
    let n = c.number_of value in if not (c.is_finite n) || c.less n "0" then "0" else n

-- `Math.max(0, amount)`
unfoldable pub max_zero : Settings → String → String
max_zero c amount = if c.less "0" amount then amount else "0"

unfoldable pub money_from_amount : Settings → String → Currency → Money
unfolding max_zero
money_from_amount c amount currency = record {
  amount = c.to_fixed2 (max_zero c amount);
  currency = currency;
}

-- `value === 'USDC' ? 'USDC' : 'USD'`
unfoldable pub currency_of : Option Js → Currency
currency_of value = if is_text value "USDC" then usdc else usd
