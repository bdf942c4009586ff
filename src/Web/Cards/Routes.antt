-- ===== src/Web/Cards/Routes.antt =====
-- Which requests to the card routes (apps/web/src/app/api/gr) are kept by their idempotency key, and
-- any number of requests, one after another and within one another's waits.
pub mod Keeps
pub mod Runs
pub mod Closed
pub mod Handlers
pub mod Final
pub mod Replay
use genesis_reserve_smarter.Base.{ℕ, ◌*◌, String, Option, none, some, List, if◌then◌else◌, ◌==◌}
use genesis_reserve_smarter.Base.Like.{cat}
use genesis_reserve_smarter.Web.Cards.{Store, Handler, Answer, nothing}
use genesis_reserve_smarter.Web.RequestControls.{Windows}
use genesis_reserve_smarter.Web.Cards.Issuing.{Target}
use genesis_reserve_smarter.Web.Cards.Requests.{
  Incoming, Operation, creates_cardholder, gets_cardholder, updates_cardholder, creates_card,
  gets_card, moves_card, updates_controls, reveals_pan, gets_authorization, links_card,
  names_issuer, sets_circle_id, unlinks_card, quotes_conversion, adds_money, gets_funding,
  quotes_payout, pays_out, gets_payout, gets_dispute, submits_evidence, accepts_dispute,
  takes_event, Server, handle, with_idempotency, ensure_not_rate_limited,
}

-- `24 * 60 * 60 * 1000`
abbrev pub one_day : ℕ
one_day = 24 * 60 * 60 * 1000

abbrev pub move_name : Target → String
move_name Target.frozen = "cards.freeze:"
move_name Target.active = "cards.unfreeze:"
move_name Target.canceled = "cards.cancel:"

-- The name that a route gives its operation, and how many milliseconds its answer is kept; `none`
-- for the routes without `withIdempotency`.
unfoldable pub kept_as : Operation → Option (String × ℕ)
kept_as (creates_cardholder body) = some ("cardholders.create", one_day)
kept_as (gets_cardholder id) = none
kept_as (updates_cardholder id patch) = some (cat "cardholders.update:" id, one_day)
kept_as (creates_card body) = some ("cards.create", one_day)
kept_as (gets_card id) = none
kept_as (moves_card id target) = some (cat (move_name target) id, one_day)
kept_as (updates_controls id patch) = some (cat "cards.controls:" id, one_day)
kept_as (reveals_pan id) = some (cat "cards.pan_token:" id, 2 * 60 * 1000)
kept_as (gets_authorization id) = none
kept_as (links_card stripe body) = some ("linked_debit_cards.create", one_day)
kept_as (names_issuer id name) = none
kept_as (sets_circle_id id circle_card_id) = none
kept_as (unlinks_card id) = some (cat "linked_debit_cards.remove:" id, one_day)
kept_as (quotes_conversion body) = none
kept_as (adds_money stripe circle body) = some ("funding.add_money", one_day)
kept_as (gets_funding id) = none
kept_as (quotes_payout body) = none
kept_as (pays_out stripe body) = some ("payouts.push_to_card", one_day)
kept_as (gets_payout id) = none
kept_as (gets_dispute id) = none
kept_as (submits_evidence id body) = some (cat "disputes.evidence:" id, one_day)
kept_as (accepts_dispute id) = some (cat "disputes.accept:" id, one_day)
kept_as (takes_event signature payload_raw body) = none

serve_as : Incoming → (Store → Store) → (Store → Store) → Handler → Option (String × ℕ) → Handler
serve_as i before after handler none s = handler (before s)
serve_as i before after handler (some (name, ttl_ms)) s =
    with_idempotency i name ttl_ms before after handler s

-- A request that the limiter lets through, to the answer that is turned into a response. Others change the store before its handler, while the
-- handler waits, and after it.
unfoldable pub serve :
    Server → Incoming → Operation → (Store → Store) → (Store → Store) → (Store → Store) → Handler
unfolding serve_as
serve v i op before during after s = serve_as i before after (handle v i during op) (kept_as op) s

-- `NextResponse.json(body, { status })` throws for 204, a status that goes with no body, and Next.js
-- answers 500. Only `unlinks_card` has that status; a first request is stored before the throw.
abbrev pub respond : Answer → Answer
respond a = if a.status == 204 then record { status = 500; body = nothing } else a

abbrev pub let_through : Option Answer → Handler → Handler
let_through (some refusal) h s = (s, refusal)
let_through none h s = ((h s).0, respond (h s).1)

-- A whole request to a route: the limiter, by the windows that it finds, and what it lets through.
unfoldable pub serve_route :
    Server
    → Incoming
    → Operation
    → (ip route_key : String) → Windows
    → (Store → Store)
    → (Store → Store)
    → (Store → Store)
    → Handler
unfolding serve ensure_not_rate_limited
serve_route v i op ip route_key windows before during after s =
    let_through (ensure_not_rate_limited i ip route_key windows).1
      (serve v i op before during after) s

-- A request, the requests that are served whole in each of its three waits, and the later requests.
pub data Requests : Type 0 where
  done : Requests
  request : Incoming → Operation → (before during after later : Requests) → Requests

-- The store after the requests.
unfoldable pub run : Server → Requests → Store → Store
run v done s = s
run v (request i op before during after later) s =
    run v later (serve v i op (run v before) (run v during) (run v after) s).0
