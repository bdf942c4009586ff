-- ===== src/Web/Cards/Controls.antt =====
-- Card controls, the token that reveals a card number, authorizations and disputes
-- (apps/web/src/app/api/gr/_lib/card-service.ts, the paths without a database).
use genesis_reserve_smarter.Base.{◌*◌, String, Option, none, some, not, if◌then◌else◌}
use genesis_reserve_smarter.Base.Like.{cat}
use genesis_reserve_smarter.Base.Maps.{lookup, put}
use genesis_reserve_smarter.Web.Js.{
  Js, null, text, bool, number, obj, arr, Props, end, prop, at, truthy, prop_of, with_prop, spread,
  without_prop,
}
use genesis_reserve_smarter.Web.Cards.{
  Settings, Draws, Handler, Card, Authorization, Dispute, DisputeStatus, card_item,
  authorization_item, dispute_item, pan_token, refuse, refuse_if, give, push_event, event_of,
}

-- `{ ...value }`
unfoldable pub own_props : Settings → Option Js → Props
own_props c none = end
own_props c (some (obj props)) = props
own_props c (some (arr items)) = c.indexed (arr items)
own_props c (some (text s)) = c.indexed (text s)
own_props c (some null) = end
own_props c (some (bool _)) = end
own_props c (some (number _)) = end

with_spend_limit : Option Js → Props → Props
with_spend_limit none props = without_prop "spendLimit" props
with_spend_limit (some v) props = with_prop "spendLimit" v props

-- The old limit with the new one spread over it, if the patch has one.
spend_limit_of : Settings → Option Js → Props → Option Js
spend_limit_of c patch controls =
    if truthy (at patch "spendLimit")
    then some (
        obj (
          spread (own_props c (prop_of "spendLimit" controls))
            (own_props c (at patch "spendLimit"))))
    else prop_of "spendLimit" controls

-- `{ ...card.controls, ...patch, spendLimit: … }`
unfoldable pub merge_controls : Settings → Option Js → Props → Props
unfolding with_spend_limit spend_limit_of own_props
merge_controls c patch controls =
    with_spend_limit (spend_limit_of c patch controls) (spread controls (own_props c patch))

-- `updateCardControls(cardId, patch)`
change_controls : Settings → Draws → String → Option Js → Option Card → Handler
change_controls c d card_id patch none s = refuse d 404 "not_found" "Card not found." s
change_controls c d card_id patch (some card) s =
    let next : Card = record card { controls = merge_controls c patch card.controls } in
    give d 200 0 (card_item next) "mock" (record s { cards = put card_id next s.cards })

unfoldable pub update_card_controls : Settings → Draws → String → Option Js → Handler
unfolding change_controls
update_card_controls c d card_id patch s =
    change_controls c d card_id patch (lookup card_id s.cards) s

-- `createPanRevealToken(cardId)`
reveal : Draws → Option Card → Handler
reveal d none s = refuse d 404 "not_found" "Card not found." s
reveal d (some card) s =
    give d 201 0
      (pan_token (d.make_id "pan_tok") (d.iso_after (5 * 60 * 1000))
        (cat "https://secure.genesisreserve.io/cards/" (cat card.id "/reveal")))
      "mock" s

unfoldable pub create_pan_reveal_token : Draws → String → Handler
unfolding reveal
create_pan_reveal_token d card_id s = reveal d (lookup card_id s.cards) s

-- `getAuthorization(authorizationId)`
give_authorization : Draws → Option Authorization → Handler
give_authorization d none s = refuse d 404 "not_found" "Authorization not found." s
give_authorization d (some row) s = give d 200 0 (authorization_item row) "mock" s

unfoldable pub get_authorization : Draws → String → Handler
unfolding give_authorization
get_authorization d authorization_id s =
    give_authorization d (lookup authorization_id s.authorizations) s

-- `getDispute(disputeId)`
give_dispute : Draws → Option Dispute → Handler
give_dispute d none s = refuse d 404 "not_found" "Dispute not found." s
give_dispute d (some item) s = give d 200 0 (dispute_item item) "internal" s

unfoldable pub get_dispute : Draws → String → Handler
unfolding give_dispute
get_dispute d dispute_id s = give_dispute d (lookup dispute_id s.disputes) s

-- A dispute gets its new status; the event is `dispute.closed` whatever the status is.
move_dispute : Draws → String → DisputeStatus → String → Dispute → Handler
move_dispute d dispute_id status action dispute s =
    let updated : Dispute = record dispute { status = status; updated_at = d.now_iso 0 } in
    let event =
      record (event_of (d.make_id "evt") "dispute.closed" (d.now_iso 1)
        (obj (prop "action" (text action) end))) { dispute_id = some (text dispute_id) } in
    give d 202 2 (dispute_item updated) "internal"
      (push_event event (record s { disputes = put dispute_id updated s.disputes }))

-- `submitDisputeEvidence(disputeId, body)`
review : Draws → String → Option Js → Option Dispute → Handler
review d dispute_id body none s = refuse d 404 "not_found" "Dispute not found." s
review d dispute_id body (some dispute) s =
    refuse_if d (not (truthy (at body "summary"))) 400 "invalid_request" "summary is required."
      (move_dispute d dispute_id DisputeStatus.under_review "evidence_submitted" dispute) s

unfoldable pub submit_dispute_evidence : Draws → String → Option Js → Handler
unfolding review move_dispute
submit_dispute_evidence d dispute_id body s =
    review d dispute_id body (lookup dispute_id s.disputes) s

-- `acceptDispute(disputeId)`
accept : Draws → String → Option Dispute → Handler
accept d dispute_id none s = refuse d 404 "not_found" "Dispute not found." s
accept d dispute_id (some dispute) s =
    move_dispute d dispute_id DisputeStatus.accepted "accepted" dispute s

unfoldable pub accept_dispute : Draws → String → Handler
unfolding accept move_dispute
accept_dispute d dispute_id s = accept d dispute_id (lookup dispute_id s.disputes) s
